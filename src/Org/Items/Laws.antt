-- ===== src/Org/Items/Laws.antt =====
-- Reading the items of an organization, and the ledger.
use nopass.Prelude.{
  ◌≡◌, refl, ap, ◌∙◌, ◌↔◌, inl, inr, String, Bool, true, false, not, ◌&&◌, ◌||◌, List, [], ◌∷◌,
  Option, ok, err, Result-cases, Bool-cases, arith, if◌then◌else◌, eq_iff, str_eq,
}
use nopass.Prelude.Sets.{has, add_all, has-add_all}
use nopass.Prelude.Maps.{insert, lookup-insert}
use nopass.Types.Vault.{EncryptedVaultItem}
use nopass.Errors.{Error}
use nopass.Platform.{Platform}
use nopass.Envelope.Revisions.{RevisionStore}
use nopass.Envelope.Aad.{ItemBinding}
use nopass.Envelope.Format.{DecryptedItem, VaultKeys, decrypt_vault_item}
use nopass.Org.Rotation.{OrgLedgerEntry, missing_from, org_binding}
use nopass.Org.Items.{OrgKeyring, OrgLedger, entry, remember, forget, try_keys, decrypt_org_item}

has-missing_from :
    (gone ids : List String) (s : String)
    → has s (missing_from gone ids) ≡ (has s ids && not (has s gone))
unfolding has
has-missing_from gone [] s = refl
has-missing_from gone (x ∷ xs) s =
    let rest = has-missing_from gone xs s in
    elim (Bool-cases (str_eq x s)) [
      | inl same ↦
          let here : has x gone ≡ has s gone = ap (λ y. has y gone) ((eq_iff x s).0 same) in
          ground arith
      | inr other ↦ ground arith
    ]

entry-insert :
    (ledger : OrgLedger) (org other : String) (e : OrgLedgerEntry)
    → entry (insert org e ledger) other ≡ (if str_eq org other then e else entry ledger other)
unfolding entry
entry-insert ledger org other e = ground (arith, lookup-insert org other e ledger)

-- A list of the entry that was put in, for its organization, and the old one for the others.
has-entry-insert :
    (ledger : OrgLedger) (org other id : String) (e : OrgLedgerEntry)
    (list : OrgLedgerEntry → List String)
    → has id (list (entry (insert org e ledger) other))
      ≡ (if str_eq org other then has id (list e) else has id (list (entry ledger other)))
has-entry-insert ledger org other id e list =
    ap (λ x. has id (list x)) (entry-insert ledger org other e) ∙ by_test (str_eq org other)
  where
    by_test :
        (b : Bool)
        → has id (list (if b then e else entry ledger other))
          ≡ (if b then has id (list e) else has id (list (entry ledger other)))
    by_test true = refl
    by_test false = refl

has-union :
    (s : String) (xs ys : List String) → has s (add_all (add_all [] xs) ys) ≡ (has s xs || has s ys)
unfolding has
has-union s xs ys = ground (arith, has-add_all s (add_all [] xs) ys, has-add_all s [] xs)

module _ (ledger : OrgLedger) (org other id : String) (e : OrgLedgerEntry)
    (list : OrgLedgerEntry → List String) (change : List String) where
  union_entry :
      has id (list e) ≡ (has id (list (entry ledger org)) || has id change)
      → has id (list (entry (insert org e ledger) other))
        ≡ (has id (list (entry ledger other)) || (str_eq org other && has id change))
  union_entry h =
      let inserted = has-entry-insert ledger org other id e list in
      elim (Bool-cases (str_eq org other)) [
        | inl same ↦
            let here : has id (list (entry ledger org)) ≡ has id (list (entry ledger other)) =
              ap (λ o. has id (list (entry ledger o))) ((eq_iff org other).0 same) in
            ground arith
        | inr differ ↦ ground arith
      ]

  difference_entry :
      has id (list e) ≡ (has id (list (entry ledger org)) && not (has id change))
      → has id (list (entry (insert org e ledger) other))
        ≡ (has id (list (entry ledger other)) && not (str_eq org other && has id change))
  difference_entry h =
      let inserted = has-entry-insert ledger org other id e list in
      elim (Bool-cases (str_eq org other)) [
        | inl same ↦
            let here : has id (list (entry ledger org)) ≡ has id (list (entry ledger other)) =
              ap (λ o. has id (list (entry ledger o))) ((eq_iff org other).0 same) in
            ground arith
        | inr differ ↦ ground arith
      ]

-- Remembering adds what was seen of an organization to what is known of it, takes nothing away, and
-- leaves the other organizations alone.
pub entry-remember :
    (ledger : OrgLedger) (org other id : String) (seen : OrgLedgerEntry)
    → (has id (entry (remember ledger org seen) other).items
        ≡ (has id (entry ledger other).items || (str_eq org other && has id seen.items)))
      × (has id (entry (remember ledger org seen) other).members
          ≡ (has id (entry ledger other).members || (str_eq org other && has id seen.members)))
unfolding remember
entry-remember ledger org other id seen = (
  union_entry ledger org other id _ (λ e. e.items) seen.items
      (has-union id (entry ledger org).items seen.items),
  union_entry ledger org other id _ (λ e. e.members) seen.members
      (has-union id (entry ledger org).members seen.members),
)

-- Forgetting takes away exactly what is gone, of that organization only.
pub entry-forget :
    (ledger : OrgLedger) (org other id : String) (gone : OrgLedgerEntry)
    → (has id (entry (forget ledger org gone) other).items
        ≡ (has id (entry ledger other).items && not (str_eq org other && has id gone.items)))
      × (has id (entry (forget ledger org gone) other).members
          ≡ (has id (entry ledger other).members && not (str_eq org other && has id gone.members)))
unfolding forget
entry-forget ledger org other id gone = (
  difference_entry ledger org other id _ (λ e. e.items) gone.items
      (has-missing_from gone.items (entry ledger org).items id),
  difference_entry ledger org other id _ (λ e. e.members) gone.members
      (has-missing_from gone.members (entry ledger org).members id),
)

module _ {K : Type 0} (env : Platform K) where
  abbrev pub both : K → VaultKeys K
  both key = record { vault_enc_key = key; vault_mac_key = key }

  -- Some key of a list opens the item.
  pub data OpensWith (item : EncryptedVaultItem) (b : ItemBinding) (rs : Option RevisionStore)
      (out : DecryptedItem × Option RevisionStore) : List K → Type 0 where
    here :
        {key : K} {keys : List K}
        → decrypt_vault_item env item.encrypted b (both key) rs ≡ ok out
        → OpensWith item b rs out (key ∷ keys)
    there :
        {key : K} {keys : List K} (e : Error)
        → decrypt_vault_item env item.encrypted b (both key) rs ≡ err e
        → OpensWith item b rs out keys
        → OpensWith item b rs out (key ∷ keys)

  try_keys_sound :
      (item : EncryptedVaultItem) (b : ItemBinding) (rs : Option RevisionStore) (last : Error)
      (keys : List K) (out : DecryptedItem × Option RevisionStore)
      → try_keys env item b rs last keys ≡ ok out
      → OpensWith item b rs out keys
  unfolding try_keys
  try_keys_sound item b rs last [] out h = cc
  try_keys_sound item b rs last (key ∷ keys) out h =
      elim (Result-cases (decrypt_vault_item env item.encrypted b (both key) rs)) [
        | inl (o, opened) ↦ here (opened ∙ rw (opened, try_keys) at h)
        | inr (e, failed) ↦
            there e failed (try_keys_sound item b rs e keys out (rw (failed, try_keys) at h))
      ]

  try_keys_complete :
      (item : EncryptedVaultItem) (b : ItemBinding) (rs : Option RevisionStore) (last : Error)
      (keys : List K) (out : DecryptedItem × Option RevisionStore)
      → OpensWith item b rs out keys
      → try_keys env item b rs last keys ≡ ok out
  unfolding try_keys
  try_keys_complete item b rs last [] out x = elim x [ ]
  try_keys_complete item b rs last (key ∷ keys) out (here opened) = rw (opened, try_keys) refl
  try_keys_complete item b rs last (key ∷ keys) out (there e failed more) =
      rw (failed, try_keys) (try_keys_complete item b rs e keys out more)

  -- An item of an organization is read with the first key of the ring, the current one and then the
  -- retired ones, that opens it; it fails only if none does.
  pub decrypt_org_item_iff :
      (item : EncryptedVaultItem) (org : String) (ring : OrgKeyring K) (rs : Option RevisionStore)
      (out : DecryptedItem × Option RevisionStore)
      → (decrypt_org_item env item org ring rs ≡ ok out)
        ↔ OpensWith item (org_binding org item) rs out (ring.current ∷ ring.retired)
  unfolding decrypt_org_item
  decrypt_org_item_iff item org ring rs out = (sound, complete)
    where
      sound :
          decrypt_org_item env item org ring rs ≡ ok out
          → OpensWith item (org_binding org item) rs out (ring.current ∷ ring.retired)
      sound h =
          elim (Result-cases
            (decrypt_vault_item env item.encrypted (org_binding org item) (both ring.current) rs)) [
              | inl (o, opened) ↦ here (opened ∙ rw (opened, decrypt_org_item) at h)
              | inr (e, failed) ↦ there e failed (
                  try_keys_sound item (org_binding org item) rs e ring.retired out
                    (rw (failed, decrypt_org_item) at h))
            ]

      complete :
          OpensWith item (org_binding org item) rs out (ring.current ∷ ring.retired)
          → decrypt_org_item env item org ring rs ≡ ok out
      complete (here opened) = rw (opened, decrypt_org_item) refl
      complete (there e failed more) =
          rw (failed, decrypt_org_item)
            (try_keys_complete item (org_binding org item) rs e ring.retired out more)
