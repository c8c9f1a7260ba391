-- ===== src/Types/Vault.antt =====
-- packages/types/src/vault.ts and packages/crypto/src/types.ts. An optional field and a nullable
-- one are an `Option` each.
use nopass.Prelude.{ℕ, ◌≡◌, refl, String, Bool, true, List, Option, str_eq, str_eq_self, eq_iff}

pub data VaultItemType : Type 0 where
  login note card identity ssh_key : VaultItemType

-- The text that stands for a type on the wire.
abbrev pub type_name : VaultItemType → String
type_name VaultItemType.login = "login"
type_name VaultItemType.note = "note"
type_name VaultItemType.card = "card"
type_name VaultItemType.identity = "identity"
type_name VaultItemType.ssh_key = "ssh_key"

pub data FieldType : Type 0 where
  text hidden boolean : FieldType

pub record CustomField : Type 0 where
  pub name : String
  pub value : String
  pub field_type : FieldType

pub record PasskeyCredential : Type 0 where
  pub credential_id : String
  pub rp_id : String
  pub user_handle : String
  pub user_name : String
  pub private_key_pkcs8 : String
  pub sign_count : ℕ
  pub created_at : String

pub record LoginItem : Type 0 where
  pub name : String
  pub tags : Option (List String)
  pub username : String
  pub password : String
  pub urls : List String
  pub totp : Option String
  pub notes : Option String
  pub custom_fields : List CustomField
  pub passkey : Option PasskeyCredential

pub record NoteItem : Type 0 where
  pub name : String
  pub tags : Option (List String)
  pub content : String

pub record CardItem : Type 0 where
  pub name : String
  pub tags : Option (List String)
  pub cardholder_name : String
  pub number : String
  pub exp_month : String
  pub exp_year : String
  pub cvv : String
  pub notes : Option String

pub record IdentityItem : Type 0 where
  pub name : String
  pub tags : Option (List String)
  pub first_name : String
  pub last_name : String
  pub email : String
  pub phone : String
  pub address : String
  pub city : String
  pub country : String
  pub notes : Option String

pub record SshKeyItem : Type 0 where
  pub name : String
  pub tags : Option (List String)
  pub private_key : String
  pub public_key : Option String
  pub passphrase : Option String
  pub comment : Option String
  pub notes : Option String
  pub use_in_agent : Option Bool

pub data VaultItemPlaintext : Type 0 where
  login : LoginItem → VaultItemPlaintext
  note : NoteItem → VaultItemPlaintext
  card : CardItem → VaultItemPlaintext
  identity : IdentityItem → VaultItemPlaintext
  ssh_key : SshKeyItem → VaultItemPlaintext

-- The field `type` of a plaintext.
abbrev pub type_of : VaultItemPlaintext → VaultItemType
type_of (VaultItemPlaintext.login i) = VaultItemType.login
type_of (VaultItemPlaintext.note i) = VaultItemType.note
type_of (VaultItemPlaintext.card i) = VaultItemType.card
type_of (VaultItemPlaintext.identity i) = VaultItemType.identity
type_of (VaultItemPlaintext.ssh_key i) = VaultItemType.ssh_key

-- The field `name` of a plaintext.
abbrev pub name_of : VaultItemPlaintext → String
name_of (VaultItemPlaintext.login i) = i.name
name_of (VaultItemPlaintext.note i) = i.name
name_of (VaultItemPlaintext.card i) = i.name
name_of (VaultItemPlaintext.identity i) = i.name
name_of (VaultItemPlaintext.ssh_key i) = i.name

-- The three ciphertext fields: `blob_mac` is the empty text in a v2 envelope.
pub record EncryptedBlob : Type 0 where
  pub blob : String
  pub blob_iv : String
  pub blob_mac : String

pub record EncryptedVaultItem : Type 0 where
  pub id : String
  pub vault_id : String
  pub user_id : String
  pub org_id : Option String
  pub item_type : VaultItemType
  pub encrypted : EncryptedBlob
  pub open encrypted use *
  pub version : ℕ
  pub deleted_at : Option String
  pub created_at : String
  pub updated_at : String

-- `a === b` on item types, which are texts.
abbrev pub same_type : VaultItemType → VaultItemType → Bool
same_type a b = str_eq (type_name a) (type_name b)

pub same_type_self : (a : VaultItemType) → same_type a a ≡ true
same_type_self a = str_eq_self (type_name a)

pub same_type→eq : (a b : VaultItemType) → same_type a b ≡ true → a ≡ b
same_type→eq VaultItemType.login VaultItemType.login h = refl
same_type→eq VaultItemType.note VaultItemType.note h = refl
same_type→eq VaultItemType.card VaultItemType.card h = refl
same_type→eq VaultItemType.identity VaultItemType.identity h = refl
same_type→eq VaultItemType.ssh_key VaultItemType.ssh_key h = refl
same_type→eq _ _ h = cc

pub type_name-injective : (a b : VaultItemType) → type_name a ≡ type_name b → a ≡ b
type_name-injective a b e = same_type→eq a b ((eq_iff (type_name a) (type_name b)).1 e)
