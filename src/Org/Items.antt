-- ===== src/Org/Items.antt =====
-- `decryptOrgItem` and `recordVerifiedOrgItems` of packages/ui/src/lib/org-trust.ts, and the ledger of
-- packages/ui/src/lib/local-trust-state.ts (`openOrgLedger`, less its storage).
use nopass.Prelude.{
  ℕ, ◌≡◌, String, Bool, true, false, not, List, [], ◌∷◌, ◌++◌, map, Option, none, some, Result, ok,
  err, ◌>>=◌, str_eq, if◌then◌else◌, filter, get_or_else,
}
use nopass.Prelude.Sets.{has, add_all}
use nopass.Prelude.Maps.{lookup, insert}
use nopass.Types.Vault.{EncryptedVaultItem}
use nopass.Errors.{Error}
use nopass.Platform.{Platform}
use nopass.Envelope.Revisions.{RevisionStore}
use nopass.Envelope.Aad.{ItemBinding, binding_for_item}
use nopass.Envelope.Format.{DecryptedItem, VaultKeys, decrypt_vault_item}
use nopass.Org.Rotation.{OrgLedgerEntry, missing_from}
pub mod Laws

pub record OrgKeyring (K : Type 0) : Type 0 where
  pub current : K
  pub retired : List K

abbrev pub OrgLedger : Type 0
OrgLedger = List (String × OrgLedgerEntry)

-- `entry(orgId)`
unfoldable pub entry : OrgLedger → String → OrgLedgerEntry
entry ledger org = get_or_else (lookup org ledger) (record { items = []; members = [] })

-- An absent list of `seen` or `gone` is the empty one.
unfoldable pub remember : OrgLedger → String → OrgLedgerEntry → OrgLedger
remember ledger org seen =
    insert org
      (record {
        items = add_all (add_all [] (entry ledger org).items) seen.items;
        members = add_all (add_all [] (entry ledger org).members) seen.members;
      })
      ledger

unfoldable pub forget : OrgLedger → String → OrgLedgerEntry → OrgLedger
forget ledger org gone =
    insert org
      (record {
        items = missing_from gone.items (entry ledger org).items;
        members = missing_from gone.members (entry ledger org).members;
      })
      ledger

module _ {K : Type 0} (env : Platform K) where
  -- The loop over the keys after the first; `e` is the last error.
  unfoldable pub try_keys :
      EncryptedVaultItem
      → ItemBinding
      → Option RevisionStore
      → Error
      → List K
      → Result Error (DecryptedItem × Option RevisionStore)
  try_keys item binding revisions e [] = err e
  try_keys item binding revisions e (key ∷ keys) =
      elim (decrypt_vault_item env item.encrypted binding
        (record { vault_enc_key = key; vault_mac_key = key }) revisions) [
          | ok result ↦ ok result
          | err last ↦ try_keys item binding revisions last keys
        ]

  unfoldable pub decrypt_org_item :
      EncryptedVaultItem
      → String
      → OrgKeyring K
      → Option RevisionStore
      → Result Error (DecryptedItem × Option RevisionStore)
  decrypt_org_item item org ring revisions =
      let binding = binding_for_item (record item { org_id = some org }) in
      elim (decrypt_vault_item env item.encrypted binding
        (record { vault_enc_key = ring.current; vault_mac_key = ring.current }) revisions) [
          | ok result ↦ ok result
          | err e ↦ try_keys item binding revisions e ring.retired
        ]

pub record VerifiedItems : Type 0 where
  pub verified : List String
  pub failed : List String
  pub revisions : RevisionStore

module _ {K : Type 0} (env : Platform K) (org : String) (ring : OrgKeyring K) where
  -- The loop, with the revision store as its state.
  unfoldable pub verify_items : RevisionStore → List EncryptedVaultItem → VerifiedItems
  verify_items revisions [] = record { verified = []; failed = []; revisions = revisions }
  verify_items revisions (item ∷ items) =
      elim (decrypt_org_item env item org ring (some revisions)) [
        | ok (result, seen) ↦
            let rest = verify_items (get_or_else seen revisions) items in
            record rest { verified = item.id ∷ rest.verified }
        | err e ↦
            let rest = verify_items revisions items in
            record rest { failed = item.id ∷ rest.failed }
      ]

  -- The lists and the store, and the ledger after.
  unfoldable pub record_verified_org_items :
      List EncryptedVaultItem → RevisionStore → OrgLedger → VerifiedItems × OrgLedger
  record_verified_org_items items revisions ledger =
      let seen = verify_items revisions items in
      (seen, remember ledger org (record { items = seen.verified; members = [] }))
