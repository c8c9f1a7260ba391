-- ===== src/Org/Rotation/Known.antt =====
-- What a device has seen of an organization and a rotation has to account for.
use nopass.Prelude.{
  ◌≡◌, refl, sym, ap, ◌∙◌, inl, inr, String, Bool, true, false, not, ◌&&◌, ◌||◌, List, [], ◌∷◌, map,
  Bool-cases, arith, filter, if◌then◌else◌, eq_iff, str_eq,
}
use nopass.Prelude.Sets.{has}
use nopass.Types.Api.{OrgMember}
use nopass.Org.Rotation.{RotationInput, is_empty, missing_from, gone_items, gone_members}

pub is_empty-nil {ℓ} : {A : Type ℓ} (xs : List A) → is_empty xs ≡ true → xs ≡ []
is_empty-nil [] h = refl
is_empty-nil (x ∷ xs) h = cc

-- Nothing is left by a filter: every element fails its test.
filter-nil :
    (p : String → Bool) (xs : List String) (s : String)
    → filter p xs ≡ []
    → has s xs ≡ true
    → p s ≡ false
unfolding has
filter-nil p [] s h k = cc
filter-nil p (x ∷ xs) s h k = elim (Bool-cases (p x)) [
  | inl here ↦ absurd (cc (h, ap (λ b. if b then x ∷ filter p xs else filter p xs) here))
  | inr gone ↦ elim (Bool-cases (str_eq x s)) [
    | inl same ↦ ap p (sym ((eq_iff x s).0 same)) ∙ gone
    | inr other ↦ filter-nil p xs s (rw gone at h) (rw other at k)
  ]
]

has-filter :
    (p : String → Bool) (xs : List String) (s : String)
    → has s xs ≡ true
    → p s ≡ true
    → has s (filter p xs) ≡ true
unfolding has
has-filter p [] s k q = cc
has-filter p (x ∷ xs) s k q = elim (Bool-cases (str_eq x s)) [
  | inl same ↦ let here : p x ≡ true = ap p ((eq_iff x s).0 same) ∙ q in rw here (rw same refl)
  | inr other ↦
      let rest = has-filter p xs s (rw other at k) q in
      elim (Bool-cases (p x)) [
        | inl here ↦ rw here (ground (arith, rest))
        | inr gone ↦ rw gone rest
      ]
]

pub map-nil : (ms : List OrgMember) → map (λ m. m.user_id) ms ≡ [] → ms ≡ []
map-nil [] h = refl
map-nil (m ∷ ms) h = cc

pub filter_all :
    (p : OrgMember → Bool) (ms : List OrgMember)
    → filter (λ m. not (p m)) ms ≡ []
    → filter p ms ≡ ms
filter_all p [] h = refl
filter_all p (m ∷ ms) h = elim (Bool-cases (p m)) [
  | inl here ↦ rw here (ap (◌∷◌ m) (filter_all p ms (rw here at h)))
  | inr out ↦ absurd (cc (rw out at h))
]

module _ {K : Type 0} (input : RotationInput K) where
  -- The owner was asked to delete it, or told that it is gone, or the server lists it.
  abbrev pub Accounted : String → Type 0
  Accounted id =
      (has id (map (λ i. i.id) input.items)
        || (has id input.drop_item_ids || has id input.acknowledged_gone.items))
      ≡ true

  pub items-Accounted :
      (id : String)
      → missing_from input.acknowledged_gone.items (gone_items input) ≡ []
      → has id input.known.items ≡ true
      → Accounted id
  unfolding gone_items
  items-Accounted id h k =
      let p : String → Bool =
        λ i. not (has i (map (λ j. j.id) input.items)) && not (has i input.drop_item_ids) in
      elim (Bool-cases (p id)) [
        | inl gone ↦
            let absent =
              filter-nil (λ i. not (has i input.acknowledged_gone.items)) _ id h
                (has-filter p input.known.items id k gone) in
            ground arith
        | inr here ↦ ground arith
      ]

  pub members-Accounted :
      (id : String)
      → missing_from input.acknowledged_gone.members (gone_members input) ≡ []
      → has id input.known.members ≡ true
      → (has id (map (λ m. m.user_id) input.members) || has id input.acknowledged_gone.members)
        ≡ true
  unfolding gone_members
  members-Accounted id h k =
      let p : String → Bool = λ i. not (has i (map (λ j. j.user_id) input.members)) in
      elim (Bool-cases (p id)) [
        | inl gone ↦
            let absent =
              filter-nil (λ i. not (has i input.acknowledged_gone.members)) _ id h
                (has-filter p input.known.members id k gone) in
            ground arith
        | inr here ↦ ground arith
      ]
