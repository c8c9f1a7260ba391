-- ===== src/Org/Rotation.antt =====
-- `buildRotation` of packages/ui/src/lib/org-trust.ts. The fresh key, the padding of the n-th wrap
-- and the iv of the n-th item are arguments. The revision store is a state: also a call that throws
-- leaves in it what was recorded before.
use nopass.Prelude.{
  ℕ, suc, ◌+◌, ◌≡◌, String, Bool, true, false, not, ◌&&◌, List, [], ◌∷◌, map, Option, none, some,
  Result, ok, err, ◌>>=◌, ◌>>◌, guard, str_eq, if◌then◌else◌, filter, get_or_else,
}
use nopass.Prelude.Sets.{has}
use nopass.Types.Vault.{EncryptedVaultItem, EncryptedBlob}
use nopass.Types.Api.{OrgMember, MemberWrap, RotatedItem, RotateKeyRequest}
use nopass.Errors.{Error, rotation_set_incomplete, unconfirmed_members, undecryptable_items}
use nopass.Platform.{Platform}
use nopass.Envelope.Revisions.{RevisionStore}
use nopass.Envelope.Aad.{ItemBinding, binding_for_item}
use nopass.Envelope.Format.{DecryptedItem, VaultKeys, decrypt_vault_item, encrypt_vault_item}
use nopass.Identity.Pins.{KeyPinStore}
use nopass.Org.Resign.{ProtectedIdentity, ResignInput, ResignedWraps, build_resigned_wraps}
pub mod Items
pub mod Known
pub mod Laws

pub record OrgLedgerEntry : Type 0 where
  pub items : List String
  pub members : List String

pub record RotationInput (K : Type 0) : Type 0 where
  pub org_id : String
  pub owner_user_id : String
  pub current_epoch : ℕ
  pub old_key : K
  pub items : List EncryptedVaultItem
  pub members : List OrgMember
  pub remove_user_id : Option String
  pub known : OrgLedgerEntry
  pub drop_item_ids : List String
  pub acknowledged_gone : OrgLedgerEntry
  pub pins : KeyPinStore
  pub identity : ProtectedIdentity K

pub record RotationPlan : Type 0 where
  pub request : RotateKeyRequest
  pub revisions : List (String × ℕ)
  pub keeps_access : List String
  pub loses_access : List String
  pub acknowledged_gone : OrgLedgerEntry

-- What one round of the loop over the items adds, to `items` and `revisions` or to `undecryptable`.
pub data Rotated : Type 0 where
  dropped : Rotated
  unreadable : String → Rotated
  rotated : RotatedItem → ℕ → Rotated

abbrev pub items_of : List Rotated → List RotatedItem
items_of [] = []
items_of (dropped ∷ rs) = items_of rs
items_of (unreadable id ∷ rs) = items_of rs
items_of (rotated item revision ∷ rs) = item ∷ items_of rs

abbrev pub revisions_of : List Rotated → List (String × ℕ)
revisions_of [] = []
revisions_of (dropped ∷ rs) = revisions_of rs
revisions_of (unreadable id ∷ rs) = revisions_of rs
revisions_of (rotated item revision ∷ rs) = (item.id, revision) ∷ revisions_of rs

abbrev pub undecryptable_of : List Rotated → List String
undecryptable_of [] = []
undecryptable_of (dropped ∷ rs) = undecryptable_of rs
undecryptable_of (unreadable id ∷ rs) = id ∷ undecryptable_of rs
undecryptable_of (rotated item revision ∷ rs) = undecryptable_of rs

abbrev pub is_empty {ℓ} : {A : Type ℓ} → List A → Bool
is_empty [] = true
is_empty (x ∷ xs) = false

-- `ids.filter((id) => !set.has(id))`
abbrev pub missing_from : List String → List String → List String
missing_from set ids = filter (λ id. not (has id set)) ids

-- `m.userId !== input.removeUserId`
abbrev pub stays : Option String → OrgMember → Bool
stays none m = true
stays (some removed) m = not (str_eq m.user_id removed)

-- `removeUserId ? [removeUserId] : []`
abbrev pub loses : Option String → List String
loses none = []
loses (some removed) = if str_eq removed "" then [] else removed ∷ []

abbrev pub delete_ids : List String → Option (List String)
delete_ids [] = none
delete_ids (id ∷ ids) = some (id ∷ ids)

-- `bindingForItem({ ...item, orgId: input.orgId })`
abbrev pub org_binding : String → EncryptedVaultItem → ItemBinding
org_binding org item = binding_for_item (record item { org_id = some org })

module _ {K : Type 0} where
  unfoldable pub gone_items : RotationInput K → List String
  gone_items input =
      filter (λ id. not (has id (map (λ i. i.id) input.items)) && not (has id input.drop_item_ids))
        input.known.items

  unfoldable pub gone_members : RotationInput K → List String
  gone_members input = missing_from (map (λ m. m.user_id) input.members) input.known.members

  unfoldable pub remaining : RotationInput K → List OrgMember
  remaining input = filter (stays input.remove_user_id) input.members

module _ {K : Type 0} (env : Platform K) (new_key : K) (pads ivs : ℕ → List ℕ) where
  -- The item has been read: it is written again under the new key.
  unfoldable pub reencrypt :
      String → RevisionStore → ℕ → EncryptedVaultItem → DecryptedItem → Result Error Rotated
  reencrypt org store n item current = do
    (encrypted, revision) ←
        encrypt_vault_item env current.plaintext (org_binding org item) new_key (some store)
          (some current.revision) (ivs n)
    ok (rotated (record { id = item.id; encrypted = encrypted }) revision)

  -- One round, with the store after it.
  unfoldable pub rotate_item :
      RotationInput K
      → RevisionStore
      → ℕ
      → EncryptedVaultItem
      → Result Error Rotated × RevisionStore
  rotate_item input store n item =
      if has item.id input.drop_item_ids
      then (ok dropped, store)
      else elim (decrypt_vault_item env item.encrypted (org_binding input.org_id item)
          (record { vault_enc_key = input.old_key; vault_mac_key = input.old_key }) (some store)) [
            | err e ↦ (ok (unreadable item.id), store)
            | ok (current, seen) ↦
                let after = get_or_else seen store in
                (reencrypt input.org_id after n item current, after)
          ]

  -- The loop, from the n-th item on.
  unfoldable pub rotate_items :
      RotationInput K
      → RevisionStore
      → ℕ
      → List EncryptedVaultItem
      → Result Error (List Rotated) × RevisionStore
  rotate_items input store n [] = (ok [], store)
  rotate_items input store n (item ∷ items) =
      let round = rotate_item input store n item in
      elim round.0 [
        | err e ↦ (err e, round.1)
        | ok r ↦
            let rest = rotate_items input round.1 (suc n) items in
            (rest.0 >>= λ rs. ok (r ∷ rs), rest.1)
      ]

  -- The code up to the loop: the checks on the server's lists, and the wraps.
  unfoldable pub prepare_rotation : RotationInput K → Result Error (List MemberWrap)
  prepare_rotation input = do
    let missing_items = missing_from input.acknowledged_gone.items (gone_items input)
    let missing_members = missing_from input.acknowledged_gone.members (gone_members input)
    guard (is_empty missing_items && is_empty missing_members)
        (rotation_set_incomplete missing_items missing_members)
    resigned ← build_resigned_wraps env pads (record {
      org_id = input.org_id;
      epoch = input.current_epoch + 1;
      owner_user_id = input.owner_user_id;
      org_key = new_key;
      members = remaining input;
      pins = input.pins;
      identity = input.identity;
    })
    guard (is_empty resigned.skipped) (unconfirmed_members resigned.skipped)
    ok resigned.wraps

  -- The code after the loop.
  unfoldable pub finish_rotation :
      RotationInput K → List MemberWrap → List Rotated → Result Error RotationPlan
  finish_rotation input wraps rounds = do
    guard (is_empty (undecryptable_of rounds)) (undecryptable_items (undecryptable_of rounds))
    ok (record {
      request = record {
        new_epoch = input.current_epoch + 1;
        remove_user_id = none;
        wraps = wraps;
        items = items_of rounds;
        delete_item_ids =
            delete_ids (filter (λ id. has id (map (λ i. i.id) input.items)) input.drop_item_ids);
      };
      revisions = revisions_of rounds;
      keeps_access = map (λ m. m.user_id) (remaining input);
      loses_access = loses input.remove_user_id;
      acknowledged_gone = record { items = gone_items input; members = gone_members input };
    })

  unfoldable pub build_rotation :
      RotationInput K → RevisionStore → Result Error RotationPlan × RevisionStore
  build_rotation input store = elim (prepare_rotation input) [
    | err e ↦ (err e, store)
    | ok wraps ↦
        let loop = rotate_items input store 0 input.items in
        (loop.0 >>= finish_rotation input wraps, loop.1)
  ]
