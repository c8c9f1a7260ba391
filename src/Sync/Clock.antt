-- ===== src/Sync/Clock.antt =====
-- The vector clock after a batch: for each device the highest sequence number, old or new.
use nopass.Prelude.{
  In, ℕ, ◌≡◌, refl, String, List, [], ◌∷◌, Option, none, some, max, arith, Bool-cases, eq_iff,
  str_eq, if◌then◌else◌, ◌∙◌, ap, ◌≤◌, ◌↔◌, ◌⊎◌, inl, inr, subst, sym,
}
use nopass.Prelude.Maps.{lookup, lookup-insert}
use nopass.Types.Sync.{SyncEvent, VectorClock}
use nopass.Sync.{is_newer, tick, update_clock, apply_sync_events}
use nopass.Types.Vault.{EncryptedVaultItem}

-- The higher of what was known and a new number.
abbrev pub join : Option ℕ → ℕ → Option ℕ
join none n = some n
join (some m) n = some (max m n)

-- The specification: the join of the old value with the numbers of the device's events.
abbrev pub highest : String → List SyncEvent → Option ℕ → Option ℕ
highest d [] o = o
highest d (e ∷ es) o = highest d es (if str_eq e.device_id d then join o e.sequence_number else o)

lookup-tick :
    (clock : VectorClock) (e : SyncEvent) (d : String)
    → lookup d (tick clock e)
      ≡ (if str_eq e.device_id d then join (lookup d clock) e.sequence_number else lookup d clock)
unfolding tick is_newer
lookup-tick clock e d =
    ground (arith, lookup-insert e.device_id d e.sequence_number clock, eq_iff e.device_id d)

lookup-update_clock :
    (clock : VectorClock) (events : List SyncEvent) (d : String)
    → lookup d (update_clock clock events) ≡ highest d events (lookup d clock)
unfolding update_clock
lookup-update_clock clock [] d = refl
lookup-update_clock clock (e ∷ es) d =
    lookup-update_clock (tick clock e) es d ∙ ap (highest d es) (lookup-tick clock e d)

-- The clock that a merge returns holds, for every device, the highest of the old number and those
-- of the device's events; a device without either stays absent.
pub lookup-new_clock :
    (items : List EncryptedVaultItem) (events : List SyncEvent) (clock : VectorClock) (d : String)
    → lookup d (apply_sync_events items events clock).new_clock ≡ highest d events (lookup d clock)
unfolding apply_sync_events
lookup-new_clock items events clock d = lookup-update_clock clock events d

-- The number is at most what the clock holds.
abbrev pub AtLeast : ℕ → Option ℕ → Type 0
AtLeast n none = ⊥
AtLeast n (some m) = n ≤ m

-- An event of the device with at least this number.
abbrev pub Reached : ℕ → String → List SyncEvent → Type 0
Reached n d es = (e : SyncEvent) × In e es × (e.device_id ≡ d) × (n ≤ e.sequence_number)

AtLeast-join : (n m : ℕ) (o : Option ℕ) → AtLeast n (join o m) ↔ (AtLeast n o ⊎ (n ≤ m))
AtLeast-join n m none = (λ h. inr h, λ h. elim h [ inl a ↦ absurd a | inr r ↦ r ])
AtLeast-join n m (some k) =
    (λ h. omega arith, λ h. elim h [ inl a ↦ omega arith | inr r ↦ omega arith ])

-- One step of the specification.
AtLeast-step :
    (n : ℕ) (d : String) (e : SyncEvent) (o : Option ℕ)
    → AtLeast n (if str_eq e.device_id d then join o e.sequence_number else o)
      ↔ (AtLeast n o ⊎ ((e.device_id ≡ d) × (n ≤ e.sequence_number)))
AtLeast-step n d e o = elim (Bool-cases (str_eq e.device_id d)) [
  | inl mine ↦
      let (to, from) = AtLeast-join n e.sequence_number o in
      let same = (eq_iff e.device_id d).0 mine in
      rw mine (
        λ h. elim (to h) [ inl a ↦ inl a | inr r ↦ inr (same, r) ],
        λ h. from (elim h [ inl a ↦ inl a | inr r ↦ inr r.1 ]),
      )
  | inr other ↦
      rw other
        (λ h. inl h, λ h. elim h [ inl a ↦ a | inr r ↦ cc ((eq_iff e.device_id d).1 r.0, other) ])
]

AtLeast-highest :
    (n : ℕ) (d : String) (es : List SyncEvent) (o : Option ℕ)
    → AtLeast n (highest d es o) ↔ (AtLeast n o ⊎ Reached n d es)
AtLeast-highest n d [] o = (λ h. inl h, λ h. elim h [ inl a ↦ a | inr r ↦ absurd r.1 ])
AtLeast-highest n d (e ∷ es) o =
    let (up, down) = AtLeast-step n d e o in
    let (to, from) =
      AtLeast-highest n d es (if str_eq e.device_id d then join o e.sequence_number else o) in
    (
      λ h. elim (to h) [
        | inl a ↦ elim (up a) [ inl b ↦ inl b | inr r ↦ inr (e, inl refl, r.0, r.1) ]
        | inr r ↦ inr (r.0, inr r.1, r.2, r.3)
      ],
      λ h. from (elim h [
        | inl a ↦ inl (down (inl a))
        | inr (x, inl is_e, same, r) ↦ inl (
            down (
              inr (
                subst (λ y. y.device_id ≡ d) is_e same,
                subst (λ y. n ≤ y.sequence_number) is_e r,
              )))
        | inr (x, inr i, same, r) ↦ inr (x, i, same, r)
      ]),
    )

-- The new clock is the least one above the old clock and the events: it has reached `n` for a
-- device exactly when the old clock had, or an event of that device in the batch has a number of at
-- least `n`.
pub new_clock-AtLeast :
    (items : List EncryptedVaultItem) (events : List SyncEvent) (clock : VectorClock) (d : String)
    (n : ℕ)
    → AtLeast n (lookup d (apply_sync_events items events clock).new_clock)
      ↔ (AtLeast n (lookup d clock) ⊎ Reached n d events)
new_clock-AtLeast items events clock d n =
    subst (λ o. AtLeast n o ↔ (AtLeast n (lookup d clock) ⊎ Reached n d events))
      (sym (lookup-new_clock items events clock d)) (AtLeast-highest n d events (lookup d clock))
