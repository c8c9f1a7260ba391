-- ===== src/Errors.antt =====
-- What the code throws: the error classes of packages/crypto/src and packages/ui/src/lib/org-trust.ts,
-- and one constructor for each plain `Error`. A message is kept where the code builds it by cases.
use nopass.Prelude.{ℕ, String, List}
use nopass.Types.Vault.{VaultItemType}
use nopass.Types.Api.{KeyBundle}

-- A signer whose safety number has to be confirmed.
pub record Signer : Type 0 where
  pub bundle : KeyBundle
  pub safety_number : String

pub data Error : Type 0 where
  -- the platform: `atob`, `crypto.subtle.decrypt`, `JSON.parse`, a failed request
  invalid_base64 cipher_failed invalid_json request_failed : Error
  -- aes-gcm.ts and item-envelope.ts
  mac_failed item_type_too_long : Error
  not_a_uuid legacy_item_rejected unknown_format out_of_range failed_authentication : String → Error
  wrong_type : String → Error
  invalid_revision : ℕ → Error
  item_rollback : String → ℕ → ℕ → Error
  type_mismatch : VaultItemType → VaultItemType → Error
  -- identity.ts
  role_too_long invalid_epoch missing_modulus : Error
  unverifiable_key : String → String → Error
  pinned_key_changed : String → Error
  untrusted_org_key : String → Error
  unconfirmed_signers : List Signer → Error
  -- org-trust.ts
  unconfirmed_members undecryptable_items : List String → Error
  rotation_set_incomplete : List String → List String → Error
  -- account-state.ts and webauthn.ts
  weak_kdf_params not_a_p256_signature : Error
