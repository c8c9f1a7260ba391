-- ===== src/Types/Api.antt =====
-- packages/types/src/api.ts: what the organization code and the session store read.
use nopass.Prelude.{ℕ, String, List, Option}
use nopass.Types.Vault.{EncryptedBlob}

pub data OrgRole : Type 0 where
  owner admin member : OrgRole

-- The text that stands for a role on the wire.
abbrev pub role_name : OrgRole → String
role_name owner = "owner"
role_name admin = "admin"
role_name member = "member"

pub data OrgMemberStatus : Type 0 where
  pending active : OrgMemberStatus

pub record KeyBundle : Type 0 where
  pub user_id : String
  pub public_key : String
  pub identity_public_key : Option String
  pub public_key_signature : Option String

pub record OrgMember : Type 0 where
  pub user_id : String
  pub role : OrgRole
  pub status : OrgMemberStatus
  pub joined_at : Option String
  pub public_key : Option String
  pub identity_public_key : Option String
  pub public_key_signature : Option String

pub record WrapLink : Type 0 where
  pub recipient_user_id : String
  pub role : OrgRole
  pub encrypted_org_key : String
  pub wrap_signature : Option String
  pub key_epoch : Option ℕ
  pub signer_user_id : String
  pub signer : KeyBundle

-- One entry of `wraps` in a rewrap or rotate request.
pub record MemberWrap : Type 0 where
  pub user_id : String
  pub encrypted_org_key : String
  pub wrap_signature : String
  pub key_epoch : ℕ

-- One entry of `items` in a rotate request.
pub record RotatedItem : Type 0 where
  pub id : String
  pub encrypted : EncryptedBlob

pub record RotateKeyRequest : Type 0 where
  pub new_epoch : ℕ
  pub remove_user_id : Option String
  pub wraps : List MemberWrap
  pub items : List RotatedItem
  pub delete_item_ids : Option (List String)

pub record KdfParams : Type 0 where
  pub type : String
  pub memory_kib : ℕ
  pub iterations : ℕ
  pub parallelism : ℕ

abbrev pub default_kdf_params : KdfParams
default_kdf_params = record {
  type = "argon2id";
  memory_kib = 65536;
  iterations = 3;
  parallelism = 4;
}
