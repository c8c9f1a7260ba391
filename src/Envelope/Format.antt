-- ===== src/Envelope/Format.antt =====
-- `encryptItemV2`, `decryptVaultItem` and `encryptVaultItem` of packages/crypto/src/item-envelope.ts.
-- A call that throws leaves the revision store alone: the code records last.
use nopass.Prelude.{
  ℕ, ◌+◌, ◌≡◌, String, Bool, true, false, not, ◌&&◌, List, [], ◌∷◌, ◌++◌, Option, none, some,
  Result, ok, err, ◌>>=◌, ◌>>◌, guard, or_throw, ltb, leb, ◌==◌, str_eq, if◌then◌else◌, length,
  take, drop, max, get_or_else,
}
use nopass.Prelude.Bytes.{of_be}
use nopass.Types.Vault.{VaultItemPlaintext, type_of, same_type, EncryptedBlob, EncryptedVaultItem}
use nopass.Errors.{
  Error, legacy_item_rejected, item_rollback, unknown_format, out_of_range, failed_authentication,
  wrong_type, type_mismatch,
}
use nopass.Platform.{Platform, to_base64, from_base64}
use nopass.Envelope.Revisions.{RevisionStore, get, record_revision}
use nopass.Envelope.Aad.{
  ItemBinding, format_v2, header_len, max_safe_integer, u64be, item_aad, binding_for_item,
}
use nopass.Envelope.Legacy.{parse_item, decrypt_item}
pub mod Laws
pub mod Sealing
pub mod RoundTrip
pub mod Checks

pub data Version : Type 0 where
  v1 v2 : Version

pub record DecryptedItem : Type 0 where
  pub plaintext : VaultItemPlaintext
  -- 0 for a version 1 blob
  pub revision : ℕ
  pub format : Version

pub record VaultKeys (K : Type 0) : Type 0 where
  pub vault_enc_key : K
  pub vault_mac_key : K

abbrev pub is_legacy_item_blob : EncryptedBlob → Bool
is_legacy_item_blob encrypted = not (str_eq encrypted.blob_mac "")

-- `revisions?.v2Only`
abbrev v2_only : Option RevisionStore → Bool
v2_only none = false
v2_only (some s) = s.v2_only

abbrev pub starts_with_byte : ℕ → List ℕ → Bool
starts_with_byte b [] = false
starts_with_byte b (x ∷ xs) = x == b

-- The last step of `decryptVaultItem`: the comparison with the highest revision seen.
unfoldable pub check_revision :
    Option RevisionStore → String → ℕ → Result Error (Option RevisionStore)
check_revision none item revision = ok none
check_revision (some s) item revision = elim (get s item) [
  | none ↦ ok (some (record_revision s item revision))
  | some highest ↦
      if ltb revision highest
      then err (item_rollback item revision highest)
      else ok (some (record_revision s item revision))
]

-- `revisions?.get(itemId)`
abbrev pub seen_revision : Option RevisionStore → String → Option ℕ
seen_revision none item = none
seen_revision (some s) item = get s item

-- The revision that `encryptVaultItem` writes at.
unfoldable pub next_revision : Option RevisionStore → String → Option ℕ → ℕ
next_revision revisions item current =
    max (get_or_else (seen_revision revisions item) 0) (get_or_else current 0) + 1

module _ {K : Type 0} (env : Platform K) where
  unfoldable pub encrypt_item_v2 :
      VaultItemPlaintext → ItemBinding → ℕ → K → List ℕ → Result Error EncryptedBlob
  encrypt_item_v2 plaintext binding revision key iv = do
    guard (same_type (type_of plaintext) binding.item_type)
        (type_mismatch (type_of plaintext) binding.item_type)
    aad ← item_aad env binding revision
    rev ← u64be revision
    let ct = env.aes_encrypt key iv aad (env.encode_text (env.stringify plaintext))
    ok (record {
      blob = to_base64 env (format_v2 ∷ (rev ++ ct));
      blob_iv = to_base64 env iv;
      blob_mac = "";
    })

  -- The branch of `decryptVaultItem` for version 2.
  unfoldable pub open_v2 : EncryptedBlob → ItemBinding → K → Result Error DecryptedItem
  open_v2 encrypted binding key = do
    blob ← from_base64 env encrypted.blob
    guard (ltb header_len (length blob) && starts_with_byte format_v2 blob)
        (unknown_format binding.item_id)
    let revision = of_be (take 8 (drop 1 blob))
    guard (leb revision max_safe_integer) (out_of_range binding.item_id)
    iv ← from_base64 env encrypted.blob_iv
    aad ← item_aad env binding revision
    pt ←
        or_throw (env.aes_decrypt key iv aad (drop header_len blob))
          (failed_authentication binding.item_id)
    plaintext ← parse_item env pt
    ok (record { plaintext = plaintext; revision = revision; format = v2 })

  -- The branch for version 1.
  unfoldable pub open_v1 : EncryptedBlob → VaultKeys K → Result Error DecryptedItem
  open_v1 encrypted keys = do
    plaintext ← decrypt_item env encrypted keys.vault_enc_key keys.vault_mac_key
    ok (record { plaintext = plaintext; revision = 0; format = v1 })

  unfoldable pub open_blob : EncryptedBlob → ItemBinding → VaultKeys K → Result Error DecryptedItem
  open_blob encrypted binding keys =
      if is_legacy_item_blob encrypted
      then open_v1 encrypted keys
      else open_v2 encrypted binding keys.vault_enc_key

  unfoldable pub decrypt_vault_item :
      EncryptedBlob
      → ItemBinding
      → VaultKeys K
      → Option RevisionStore
      → Result Error (DecryptedItem × Option RevisionStore)
  decrypt_vault_item encrypted binding keys revisions = do
    guard (not (is_legacy_item_blob encrypted && v2_only revisions))
        (legacy_item_rejected binding.item_id)
    result ← open_blob encrypted binding keys
    guard (same_type (type_of result.plaintext) binding.item_type) (wrong_type binding.item_id)
    seen ← check_revision revisions binding.item_id result.revision
    ok (result, seen)

  unfoldable pub encrypt_vault_item :
      VaultItemPlaintext
      → ItemBinding
      → K
      → Option RevisionStore
      → Option ℕ
      → List ℕ
      → Result Error (EncryptedBlob × ℕ)
  encrypt_vault_item plaintext binding key revisions current iv = do
    let revision = next_revision revisions binding.item_id current
    encrypted ← encrypt_item_v2 plaintext binding revision key iv
    ok (encrypted, revision)
