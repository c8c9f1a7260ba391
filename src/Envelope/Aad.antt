-- ===== src/Envelope/Aad.antt =====
-- The additional data of a v2 envelope: `bindingForItem`, `u64be` and `itemAad` of
-- packages/crypto/src/item-envelope.ts.
use nopass.Prelude.{
  ℕ, ◌≡◌, String, Bool, List, [], ◌∷◌, ◌++◌, Option, none, some, Result, ok, err, ◌>>=◌, ◌>>◌,
  guard, leb, str_eq, if◌then◌else◌, length,
}
use nopass.Prelude.Bytes.{be}
use nopass.Types.Vault.{VaultItemType, type_name, EncryptedVaultItem}
use nopass.Errors.{Error, item_type_too_long, invalid_revision}
use nopass.Platform.{Platform}
use nopass.Uuid.{uuid_bytes}
pub mod Laws

pub data ItemScope : Type 0 where
  personal : ItemScope
  org : String → ItemScope

pub record ItemBinding : Type 0 where
  pub scope : ItemScope
  pub item_id : String
  pub item_type : VaultItemType

-- `item.orgId ? … : …`: an empty text counts as no organization.
unfoldable pub scope_of : Option String → ItemScope
scope_of none = personal
scope_of (some o) = if str_eq o "" then personal else org o

unfoldable pub binding_for_item : EncryptedVaultItem → ItemBinding
unfolding scope_of
binding_for_item item = record {
  scope = scope_of item.org_id;
  item_id = item.id;
  item_type = item.item_type;
}

abbrev pub format_v2 : ℕ
format_v2 = 2

abbrev pub header_len : ℕ
header_len = 9

-- `Number.MAX_SAFE_INTEGER`
abbrev pub max_safe_integer : ℕ
max_safe_integer = 9007199254740991

unfoldable pub u64be : ℕ → Result Error (List ℕ)
u64be n = if leb n max_safe_integer then ok (be 8 n) else err (invalid_revision n)

unfoldable pub scope_bytes : ItemScope → Result Error (List ℕ)
scope_bytes personal = ok (0 ∷ [])
scope_bytes (org o) = do bs ← uuid_bytes o; ok (1 ∷ bs)

module _ {K : Type 0} (env : Platform K) where
  unfoldable pub item_aad : ItemBinding → ℕ → Result Error (List ℕ)
  item_aad binding revision = do
    let type = env.encode_text (type_name binding.item_type)
    guard (leb (length type) 255) item_type_too_long
    scope ← scope_bytes binding.scope
    id ← uuid_bytes binding.item_id
    rev ← u64be revision
    ok (
        env.encode_text "nopwd-item"
        ++ (0 ∷ format_v2 ∷ (scope ++ (id ++ (length type ∷ (type ++ rev))))))
