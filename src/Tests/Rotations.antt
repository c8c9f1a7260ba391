-- ===== src/Tests/Rotations.antt =====
-- The key of an organization is rotated by its owner, with one item.
use nopass.Prelude.{ℕ, ◌≡◌, refl, not, List, [], ◌∷◌, none, some, Result, ok, err, filter, Pairwise}
use nopass.Prelude.Sets.{has}
use nopass.Prelude.Bytes.{be, of_be, of_be_from}
use nopass.Prelude.Maps.{lookup, insert}
use nopass.Types.Vault.{VaultItemType, EncryptedBlob, EncryptedVaultItem}
use nopass.Types.Api.{OrgRole, OrgMemberStatus, OrgMember}
use nopass.Errors.{Error}
use nopass.Uuid.{uuid_bytes}
use nopass.Envelope.Revisions.{get, record_revision}
use nopass.Envelope.Aad.{item_aad, scope_bytes, u64be, scope_of, binding_for_item}
use nopass.Envelope.Format.{
  v2, DecryptedItem, encrypt_vault_item, encrypt_item_v2, next_revision, decrypt_vault_item,
  open_blob, open_v2, check_revision,
}
use nopass.Envelope.Legacy.{decrypt_bytes}
use nopass.Identity.Bundle.{derive_identity_key}
use nopass.Identity.Wrap.{sign_org_key_wrap, wrap_message}
use nopass.Org.Resign.{
  ProtectedIdentity, build_resigned_wraps, resign_from, recipient_key, wrap_for,
  encrypt_org_key_for_member,
}
use nopass.Org.Rotation.{
  OrgLedgerEntry, RotationInput, RotationPlan, build_rotation, prepare_rotation, finish_rotation,
  rotate_items, rotate_item, reencrypt, gone_items, gone_members, remaining, org_binding,
}
use nopass.Org.Rotation.Items.{old_keys, new_keys}
use nopass.Org.Rotation.Laws.{Complete, build_rotation-Complete, build_rotation-readable}
use nopass.Tests.Toy.{toy, sample, btoa, toy_encrypt, toy-Base64Laws, toy-CipherLaws}
use nopass.Tests.Envelope.{a_store}
use nopass.Tests.Shared.{org_id, owner_id}

abbrev no_bytes : ℕ → List ℕ
no_bytes n = []

abbrev owner_member : OrgMember
owner_member = record {
  user_id = owner_id;
  role = OrgRole.owner;
  status = OrgMemberStatus.active;
  joined_at = none;
  public_key = none;
  identity_public_key = none;
  public_key_signature = none;
}

abbrev an_identity : ProtectedIdentity ℕ
an_identity = record {
  protected_private_key = btoa (toy_encrypt [] []);
  protected_private_key_iv = "";
  stretched_master_key = 9;
}

-- The item is the one written for the tests of the envelope, for the organization.
abbrev blob_or_empty : Result Error (EncryptedBlob × ℕ) → EncryptedBlob
blob_or_empty (ok e) = e.0
blob_or_empty (err e) = record { blob = ""; blob_iv = ""; blob_mac = "" }

abbrev a_row : EncryptedBlob → EncryptedVaultItem
a_row e = record {
  id = "00000000-0000-0000-0000-000000000001";
  vault_id = "v";
  user_id = "u";
  org_id = some org_id;
  item_type = VaultItemType.note;
  encrypted = e;
  version = 1;
  deleted_at = none;
  created_at = "t0";
  updated_at = "t0";
}

abbrev no_blob : EncryptedBlob
no_blob = record { blob = ""; blob_iv = ""; blob_mac = "" }

abbrev org_item : EncryptedVaultItem
org_item = a_row (
    blob_or_empty
      (encrypt_vault_item toy sample (org_binding org_id (a_row no_blob)) 1 none none []))

abbrev nothing_known : OrgLedgerEntry
nothing_known = record { items = []; members = [] }

abbrev a_rotation : RotationInput ℕ
a_rotation = record {
  org_id = org_id;
  owner_user_id = owner_id;
  current_epoch = 1;
  old_key = 1;
  items = org_item ∷ record org_item { id = "damaged" } ∷ [];
  members = owner_member ∷ record owner_member { user_id = "leaver" } ∷ [];
  remove_user_id = some "leaver";
  known = record {
    items = "00000000-0000-0000-0000-000000000001" ∷ "damaged" ∷ [];
    members = "leaver" ∷ [];
  };
  drop_item_ids = "damaged" ∷ [];
  acknowledged_gone = nothing_known;
  pins = [];
  identity = an_identity;
}

abbrev no_plan : RotationPlan
no_plan = record {
  request = record {
    new_epoch = 0;
    remove_user_id = none;
    wraps = [];
    items = [];
    delete_item_ids = none;
  };
  revisions = [];
  keeps_access = [];
  loses_access = [];
  acknowledged_gone = nothing_known;
}

abbrev plan_or_none : Result Error RotationPlan → RotationPlan
plan_or_none (ok p) = p
plan_or_none (err e) = no_plan

abbrev a_plan : RotationPlan
a_plan = plan_or_none (build_rotation toy 7 no_bytes no_bytes a_rotation a_store).0

rotation_ok : (build_rotation toy 7 no_bytes no_bytes a_rotation a_store).0 ≡ ok a_plan
unfolding build_rotation prepare_rotation finish_rotation rotate_items rotate_item reencrypt
    gone_items gone_members remaining has binding_for_item scope_of encrypt_vault_item
    encrypt_item_v2 next_revision item_aad scope_bytes u64be decrypt_vault_item open_blob open_v2
    check_revision get record_revision lookup insert be of_be of_be_from build_resigned_wraps
    resign_from recipient_key wrap_for encrypt_org_key_for_member derive_identity_key decrypt_bytes
    sign_org_key_wrap wrap_message uuid_bytes
rotation_ok = refl

build_rotation-Complete_example :
    Complete toy 7 no_bytes no_bytes a_rotation a_store a_plan
      (build_rotation toy 7 no_bytes no_bytes a_rotation a_store).1
build_rotation-Complete_example =
    build_rotation-Complete toy 7 no_bytes no_bytes a_rotation a_store a_plan rotation_ok

build_rotation-readable_example :
    Pairwise
      (λ item out.
        (d : DecryptedItem) × (r : ℕ) × (open_blob toy item.encrypted
            (org_binding org_id item)
            (old_keys toy 7 no_bytes no_bytes a_rotation)
          ≡ ok d)
        × (decrypt_vault_item toy out.encrypted
              (org_binding org_id item)
              (new_keys toy 7 no_bytes no_bytes a_rotation)
              none
            ≡ ok (record { plaintext = d.plaintext; revision = r; format = v2 }, none)))
      (filter (λ i. not (has i.id a_rotation.drop_item_ids)) a_rotation.items)
      a_plan.request.items
build_rotation-readable_example =
    build_rotation-readable toy 7 no_bytes no_bytes a_rotation toy-Base64Laws toy-CipherLaws a_store
      a_plan (λ n. tt) (λ bytes p parsed. parsed) rotation_ok
