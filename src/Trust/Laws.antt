-- ===== src/Trust/Laws.antt =====
-- Whose a record is on a shared device, and what is remembered of an account.
use nopass.Prelude.{
  ◌≡◌, ◌≢◌, ◌≤◌, ◌↔◌, refl, sym, ap, ◌∙◌, inl, inr, String, Bool, true, false, ◌&&◌, ◌||◌, List, [],
  ◌∷◌, Option, none, some, ok, filter, str_eq, if◌then◌else◌, eq_iff, arith, Bool-cases,
}
use nopass.Prelude.Sets.{has, add_all, has-append, has-add_all}
use nopass.Prelude.Maps.{lookup, lookup-insert}
use nopass.Types.Api.{KdfParams}
use nopass.Trust.{
  TrustIndex, ids_of, truthy, record_legacy_ids, others, is_own, own_legacy_keys, AccountState,
  AccountStateStore, patched, get_state, update_state, assert_kdf_floor,
}

-- An account has recorded an id on this device.
abbrev pub Recorded : TrustIndex → String → String → Type 0
Recorded index trust_id id = has id (ids_of index trust_id) ≡ true

no_member : (id : String) → has id [] ≡ false
unfolding has
no_member id = refl

-- What each account has recorded after one of them records some ids.
pub ids_of-record_legacy_ids :
    (index : TrustIndex) (t other id : String) (ids : List (Option String))
    → has id (ids_of (record_legacy_ids index t ids) other)
      ≡ (has id (ids_of index other) || (str_eq t other && has id (truthy ids)))
unfolding record_legacy_ids
ids_of-record_legacy_ids index t other id ids =
    let a = has-add_all id (add_all [] (ids_of index t)) (truthy ids) in
    let b = has-add_all id [] (ids_of index t) in
    let l = lookup-insert t other (add_all (add_all [] (ids_of index t)) (truthy ids)) index in
    elim (Bool-cases (str_eq t other)) [
      | inl same ↦
          let here : has id (ids_of index t) ≡ has id (ids_of index other) =
            ap (λ u. has id (ids_of index u)) ((eq_iff t other).0 same) in
          let none_yet : has id [] ≡ false = no_member id in ground arith
      | inr differ ↦ ground arith
    ]

has-others :
    (index : TrustIndex) (t other id : String)
    → other ≢ t
    → Recorded index other id
    → has id (others index t) ≡ true
unfolding others lookup has
has-others [] t other id n h = absurd (cc h)
has-others ((u, ids) ∷ index) t other id n h = elim (Bool-cases (str_eq u other)) [
  | inl here ↦
      let away : str_eq u t ≡ false = differ u ((eq_iff u other).0 here) in
      let both = has-append id ids (others index t) in rw away (ground arith)
  | inr there ↦
      let rest = has-others index t other id n (rw there at h) in
      let both = has-append id ids (others index t) in
      elim (Bool-cases (str_eq u t)) [ inl mine ↦ rw mine rest | inr away ↦ rw away (ground arith) ]
]
  where
    differ : (u : String) → u ≡ other → str_eq u t ≡ false
    differ u e = elim (Bool-cases (str_eq u t)) [
      | inr f ↦ f
      | inl same ↦ absurd (n (sym e ∙ (eq_iff u t).0 same))
    ]

has-filter :
    (p : String → Bool) (xs : List String) (s : String)
    → has s (filter p xs) ≡ true
    → (has s xs ≡ true) × (p s ≡ true)
unfolding has
has-filter p [] s h = cc
has-filter p (x ∷ xs) s h = elim (Bool-cases (p x)) [
  | inr out ↦ let (a, b) = has-filter p xs s (rw out at h) in (ground arith, b)
  | inl isin ↦ elim (Bool-cases (str_eq x s)) [
    | inl same ↦ (ground arith, ap p (sym ((eq_iff x s).0 same)) ∙ isin)
    | inr other ↦
        let k : has s (x ∷ filter p xs) ≡ true = rw isin at h in
        let (a, b) = has-filter p xs s (rw other at k) in (ground arith, b)
  ]
]

module _ (strip : String → String → Option String) where
  own-Recorded :
      (index : TrustIndex) (t : String) (o : Option String)
      → is_own strip index t o ≡ true
      → (id : String) × (o ≡ some id)
        × Recorded index t id
        × ((other : String) → other ≢ t → has id (ids_of index other) ≡ false)
  own-Recorded index t none h = cc
  own-Recorded index t (some id) h = (id, refl, ground arith, λ other n. mine other n)
    where
      mine : (other : String) → other ≢ t → has id (ids_of index other) ≡ false
      mine other n = elim (Bool-cases (has id (ids_of index other))) [
        | inr f ↦ f
        | inl theirs ↦ let k = has-others index t other id n theirs in absurd (ground arith)
      ]

  -- A record from before the upgrade is taken over only by an account that recorded its id on this
  -- device, and only if no other account did.
  pub own_legacy_keys-exclusive :
      (index : TrustIndex) (t key prefix : String) (keys : List String)
      → has key (own_legacy_keys strip index t keys prefix) ≡ true
      → (has key keys ≡ true)
        × ((id : String) × (strip prefix key ≡ some id)
            × Recorded index t id
            × ((other : String) → other ≢ t → has id (ids_of index other) ≡ false))
  unfolding own_legacy_keys
  own_legacy_keys-exclusive index t key prefix keys h =
      let (listed, own) = has-filter (λ k. is_own strip index t (strip prefix k)) keys key h in
      (listed, own-Recorded index t (strip prefix key) own)

-- An update changes what is known of one account, and only in the fields of the patch.
pub get_state-update_state :
    (states : AccountStateStore) (hash other : String) (patch : AccountState)
    → ((get_state (update_state states hash patch) other).opaque_login ≡ (
        if str_eq hash other
        then patched (get_state states other).opaque_login patch.opaque_login
        else (get_state states other).opaque_login))
      × ((get_state (update_state states hash patch) other).account_key ≡ (
          if str_eq hash other
          then patched (get_state states other).account_key patch.account_key
          else (get_state states other).account_key))
unfolding get_state update_state
get_state-update_state states hash other patch =
    let l =
      lookup-insert hash other
        (record {
          opaque_login = patched (get_state states hash).opaque_login patch.opaque_login;
          account_key = patched (get_state states hash).account_key patch.account_key;
        })
        states in
    elim (Bool-cases (str_eq hash other)) [
      | inl same ↦
          let here : lookup hash states ≡ lookup other states =
            ap (λ u. lookup u states) ((eq_iff hash other).0 same) in
          (rw (l, same, here) refl, rw (l, same, here) refl)
      | inr differ ↦ (rw (l, differ) refl, rw (l, differ) refl)
    ]

-- The parameters that a server asks for are accepted exactly when they are Argon2id with at least the
-- memory and the iterations that every client uses and some parallelism, and they are not changed.
pub assert_kdf_floor_iff :
    (asked params : KdfParams)
    → (assert_kdf_floor asked ≡ ok params) ↔ (
        (asked ≡ params)
        × ((asked.type ≡ "argon2id")
            × ((65536 ≤ asked.memory_kib) × ((3 ≤ asked.iterations) × (1 ≤ asked.parallelism)))))
unfolding assert_kdf_floor
assert_kdf_floor_iff asked params =
    let t = eq_iff asked.type "argon2id" in
    (
      λ h. (ground arith, (t.0 (ground arith), (ground arith, (ground arith, ground arith)))),
      λ h. let (same, (type, (m, (i, p)))) = h in let argon = t.1 type in ground arith,
    )
