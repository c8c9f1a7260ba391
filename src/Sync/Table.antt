-- ===== src/Sync/Table.antt =====
-- The table of winners that the loop builds, event by event.
use nopass.Prelude.{
  In, ◌≡◌, sym, ◌∙◌, ◌⊎◌, inl, inr, String, Bool, true, false, List, [], ◌∷◌, Option, none, some,
  arith, Option-cases, Bool-cases, eq_iff, str_eq, str_eq→eq, subst, ap, ◌&&◌, ◌≢◌, ◌↔◌,
  if◌then◌else◌,
}
use nopass.Prelude.Maps.{lookup, lookup-insert}
use nopass.Prelude.Text.{utf16, text_lt, lt_units_irrefl}
use nopass.Types.Sync.{SyncEvent}
use nopass.Sync.{is_most_recent, note_event, latest_from}
use nopass.Sync.Order.{is_most_recent_trans}

-- `w` is the winner for item `id` after the events of which `P` holds.
pub record Wins (P : SyncEvent → Type 0) (id : String) (w : SyncEvent) : Type 0 where
  pub about : w.item_id ≡ id
  pub listed : P w
  pub best : (e : SyncEvent) → P e → e.item_id ≡ id → is_most_recent e w ≡ false

-- The table holds a winner for every item that an event is about, and for no other.
pub record Table (P : SyncEvent → Type 0) (latest : List (String × SyncEvent)) : Type 0 where
  pub present : (id : String) (w : SyncEvent) → lookup id latest ≡ some w → Wins P id w
  pub absent : (id : String) → lookup id latest ≡ none → (e : SyncEvent) → P e → e.item_id ≢ id

pub empty-Table : Table (λ e. ⊥) []
unfolding lookup
empty-Table = record { present = λ id w h. cc; absent = λ id h e p. absurd p }

-- Whether the loop replaces what it has.
replaces : SyncEvent → Option SyncEvent → Bool
replaces e none = true
replaces e (some w) = is_most_recent e w

lookup-note_event :
    (latest : List (String × SyncEvent)) (e : SyncEvent) (id : String)
    → lookup id (note_event latest e) ≡ (
        if str_eq e.item_id id && replaces e (lookup e.item_id latest)
        then some e
        else lookup id latest)
unfolding note_event replaces
lookup-note_event latest e id = ground (arith, lookup-insert e.item_id id e latest)

no_self : (e : SyncEvent) → is_most_recent e e ≡ false
unfolding is_most_recent text_lt
no_self e = ground (arith, lt_units_irrefl (utf16 e.device_id))

-- One more event is seen.
abbrev More : (SyncEvent → Type 0) → SyncEvent → SyncEvent → Type 0
More P e x = (x ≡ e) ⊎ P x

module _ (P : SyncEvent → Type 0) (latest : List (String × SyncEvent)) (t : Table P latest)
    (e : SyncEvent) where
  -- An event that replaces the table's entry beats all that came before it.
  new-best :
      replaces e (lookup e.item_id latest) ≡ true
      → (x : SyncEvent) → More P e x
      → x.item_id ≡ e.item_id
      → is_most_recent x e ≡ false
  unfolding replaces
  new-best r x (inl same) id = subst (λ y. is_most_recent y e ≡ false) (sym same) (no_self e)
  new-best r x (inr p) id = elim (Option-cases (lookup e.item_id latest)) [
    | inl none_yet ↦ absurd (t.absent e.item_id none_yet x p id)
    | inr (w, found) ↦
        let old = (t.present e.item_id w found).best x p id in
        let beats : is_most_recent e w ≡ true = rw found at r in
        elim (Bool-cases (is_most_recent x e)) [
          | inr no_more ↦ no_more
          | inl more ↦ cc (is_most_recent_trans x e w more beats, old)
        ]
  ]

  -- An entry that is kept is not beaten by the new event.
  kept-best :
      {id : String} {w : SyncEvent}
      → lookup id latest ≡ some w
      → (str_eq e.item_id id && replaces e (lookup e.item_id latest)) ≡ false
      → (x : SyncEvent) → More P e x
      → x.item_id ≡ id
      → is_most_recent x w ≡ false
  unfolding replaces
  kept-best {id} {w} found r x (inr p) same = (t.present id w found).best x p same
  kept-best {id} {w} found r x (inl new) same =
      let mine : e.item_id ≡ id = ap (λ y. y.item_id) (sym new) ∙ same in
      let here : lookup e.item_id latest ≡ some w = ap (λ i. lookup i latest) mine ∙ found in
      let test : str_eq e.item_id id ≡ true = (eq_iff e.item_id id).1 mine in
      subst (λ y. is_most_recent y w ≡ false) (sym new) (rw (test, here) at r)

  note-present :
      (id : String) (w : SyncEvent)
      → lookup id (note_event latest e) ≡ some w
      → Wins (More P e) id w
  note-present id w h =
      elim (Bool-cases (str_eq e.item_id id && replaces e (lookup e.item_id latest))) [
        | inl swap ↦
            let found = sym (lookup-note_event latest e id) ∙ h in
            let same : e ≡ w = ground (arith, found) in
            let about : e.item_id ≡ id = str_eq→eq (ground arith) in
            let best = new-best (ground arith) in
            record {
              about = subst (λ y. y.item_id ≡ id) same about;
              listed = inl (sym same);
              best =
                  λ x p k. subst (λ y. is_most_recent x y ≡ false) same (best x p (k ∙ sym about));
            }
        | inr keep ↦
            let found = sym (lookup-note_event latest e id) ∙ h in
            let old : lookup id latest ≡ some w = ground (arith, found) in
            record {
              about = (t.present id w old).about;
              listed = inr (t.present id w old).listed;
              best = kept-best old keep;
            }
      ]

  note-absent :
      (id : String)
      → lookup id (note_event latest e) ≡ none
      → (x : SyncEvent) → More P e x
      → x.item_id ≢ id
  unfolding replaces
  note-absent id h x p same =
      let now = sym (lookup-note_event latest e id) ∙ h in
      elim (Bool-cases (str_eq e.item_id id)) [
        | inl hit ↦
            let here : lookup e.item_id latest ≡ lookup id latest =
              ap (λ i. lookup i latest) (str_eq→eq hit) in
            elim (Option-cases (lookup e.item_id latest)) [
              | inl fresh ↦ impossible now hit here (inl fresh)
              | inr found ↦ impossible now hit here (inr found)
            ]
        | inr miss ↦ elim p [
          | inl new ↦ cc ((eq_iff e.item_id id).1 (ap (λ y. y.item_id) (sym new) ∙ same), miss)
          | inr old ↦ t.absent id (ground (arith, now)) x old same
        ]
      ]
    where
      impossible :
          (if str_eq e.item_id id && replaces e (lookup e.item_id latest)
              then some e
              else lookup id latest)
            ≡ none
          → str_eq e.item_id id ≡ true
          → lookup e.item_id latest ≡ lookup id latest
          → (lookup e.item_id latest ≡ none)
            ⊎ ((w : SyncEvent) × (lookup e.item_id latest ≡ some w))
          → ⊥
      impossible now hit here (inl fresh) = ground arith
      impossible now hit here (inr (w, found)) = ground arith

  note-Table : Table (More P e) (note_event latest e)
  note-Table = record { present = note-present; absent = note-absent }

-- The events seen so far and those to come.
abbrev pub Or : (SyncEvent → Type 0) → List SyncEvent → SyncEvent → Type 0
Or P es x = P x ⊎ In x es

pub Table-of_iff :
    (P Q : SyncEvent → Type 0) (latest : List (String × SyncEvent))
    → ((x : SyncEvent) → P x ↔ Q x)
    → Table P latest
    → Table Q latest
Table-of_iff P Q latest same t = record {
  present = λ id w h.
      let p = t.present id w h in
      record {
        about = p.about;
        listed = (same w).0 p.listed;
        best = λ x q k. p.best x ((same x).1 q) k;
      };
  absent = λ id h x q. t.absent id h x ((same x).1 q);
}

reorder :
    (P : SyncEvent → Type 0) (e : SyncEvent) (es : List SyncEvent) (x : SyncEvent)
    → Or (More P e) es x ↔ Or P (e ∷ es) x
reorder P e es x = (to, from)
  where
    to : Or (More P e) es x → Or P (e ∷ es) x
    to (inl (inl same)) = inr (inl same)
    to (inl (inr p)) = inl p
    to (inr i) = inr (inr i)

    from : Or P (e ∷ es) x → Or (More P e) es x
    from (inl p) = inl (inr p)
    from (inr (inl same)) = inl (inl same)
    from (inr (inr i)) = inr i

pub latest_from-Table :
    (P : SyncEvent → Type 0) (latest : List (String × SyncEvent)) (es : List SyncEvent)
    → Table P latest
    → Table (Or P es) (latest_from latest es)
unfolding latest_from
latest_from-Table P latest [] t =
    Table-of_iff P (Or P []) latest
      (λ x. (λ p. inl p, λ o. elim o [ inl p ↦ p | inr i ↦ absurd i ])) t
latest_from-Table P latest (e ∷ es) t =
    Table-of_iff (Or (More P e) es) (Or P (e ∷ es)) _ (reorder P e es)
      (latest_from-Table (More P e) (note_event latest e) es (note-Table P latest t e))
