-- ===== src/Recovery/Complete.antt =====
-- packages/crypto/src/account-recovery.ts: the end of a recovery. Random ivs and the bytes of the new
-- code are arguments.
use nopass.Prelude.{
  ℕ, ◌≡◌, String, Bool, List, Option, none, some, Result, ok, err, ◌>>=◌, ◌>>◌, guard, or_throw,
}
use nopass.Types.Vault.{EncryptedBlob}
use nopass.Types.Api.{default_kdf_params}
use nopass.Errors.{Error}
use nopass.Platform.{Platform}
use nopass.Envelope.Legacy.{encrypt_bytes, decrypt_bytes}
use nopass.Account.Kdf.{Derivation, RawKeys, derive_master_key, compute_email_hash}
use nopass.Account.Key.{
  AccountKey, WrappedAccountKey, ProtectedKey, AccountError, request_failed, or_other,
  account_smk_bytes, wrap_account_key, both_texts,
}
use nopass.Account.Login.{Opaque, Srp, create_opaque_registration}
use nopass.Recovery.Code.{generate_recovery_code}
use nopass.Recovery.Kit.{CodeText, derive_recovery_keys, wrap_vault_subkeys, recovery_kdf_params}
pub mod Laws
pub mod Openings

-- `RecoveryInitResponse`
pub record RecoveryInit : Type 0 where
  pub recovery_token : String
  pub protected_key : ProtectedKey

-- `RecoveryCompleteRequest`
pub record RecoveryCompleteRequest : Type 0 where
  pub recovery_token : String
  pub registration_record : String
  pub protected_symmetric_key : String
  pub protected_symmetric_key_iv : String
  pub private_key : ProtectedKey
  pub wrapped : WrappedAccountKey
  pub recovery_auth_key : String
  pub recovery_blob : String
  pub recovery_blob_iv : String

-- The randomness of a recovery.
pub record Fresh : Type 0 where
  pub wrap_iv : List ℕ
  pub symmetric_iv : List ℕ
  pub private_iv : List ℕ
  pub kit_iv : List ℕ
  pub code_bytes : List ℕ

module _ {K S T : Type 0} (env : Platform K) (kdf : Derivation) (import_key : List ℕ → K)
    (client : Opaque S) (srp_client : Srp T) (text : CodeText) where
  -- The private key under the smk of the account key, or else under the kit's.
  unfoldable pub open_private_key : String → String → List ℕ → List ℕ → Result Error (List ℕ)
  open_private_key blob iv smk kit_smk =
      let encrypted : EncryptedBlob = record { blob = blob; blob_iv = iv; blob_mac = "" } in
      elim (decrypt_bytes env encrypted (import_key smk)) [
        | ok pkcs8 ↦ ok pkcs8
        | err e ↦ decrypt_bytes env encrypted (import_key kit_smk)
      ]

  -- The private key for the request, if the account has one.
  unfoldable pub rewrapped_key :
      RecoveryInit → List ℕ → List ℕ → List ℕ → Result AccountError ProtectedKey
  rewrapped_key init smk kit_smk iv =
      elim (both_texts env kdf import_key init.protected_key.protected_private_key
        init.protected_key.protected_private_key_iv) [
          | none ↦ ok (record { protected_private_key = none; protected_private_key_iv = none })
          | some (blob, blob_iv) ↦ or_other (open_private_key blob blob_iv smk kit_smk) >>= λ pkcs8.
              let rewrapped = encrypt_bytes env pkcs8 (import_key smk) iv in
              ok (record {
                protected_private_key = some rewrapped.blob;
                protected_private_key_iv = some rewrapped.blob_iv;
              })
        ]

  -- The request that ends the recovery. `start` takes the recovery token, the email hash and the
  -- registration request.
  unfoldable pub prepare_recovery :
      (String → String → String → Option String)
      → String
      → String
      → RecoveryInit
      → RawKeys
      → Fresh
      → Result AccountError RecoveryCompleteRequest
  prepare_recovery start email new_password init recovered fresh = do
    let account : AccountKey = record { enc_key = recovered.enc_key; mac_key = recovered.mac_key }
    let smk_bytes = account_smk_bytes env kdf import_key account
    let master_key = derive_master_key kdf new_password email default_kdf_params
    registration_record ←
        create_opaque_registration client srp_client kdf new_password default_kdf_params
          (λ request. start init.recovery_token (compute_email_hash kdf email) request)
    let protected = encrypt_bytes env account.enc_key (import_key smk_bytes) fresh.symmetric_iv
    private_key ← rewrapped_key init smk_bytes recovered.smk fresh.private_iv
    let keys =
        derive_recovery_keys env kdf import_key text (generate_recovery_code fresh.code_bytes) email
          recovery_kdf_params
    let replacement =
        wrap_vault_subkeys env kdf import_key text
          (record { smk = smk_bytes; enc_key = account.enc_key; mac_key = account.mac_key })
          keys.wrap_key fresh.kit_iv
    ok (record {
      recovery_token = init.recovery_token;
      registration_record = registration_record;
      protected_symmetric_key = protected.blob;
      protected_symmetric_key_iv = protected.blob_iv;
      private_key = private_key;
      wrapped = wrap_account_key env kdf import_key account master_key email fresh.wrap_iv;
      recovery_auth_key = keys.auth_key;
      recovery_blob = replacement.blob;
      recovery_blob_iv = replacement.blob_iv;
    })

  -- `complete` is the request to the server, which may fail. The result is the replacement code.
  unfoldable pub complete_account_recovery :
      (String → String → String → Option String)
      → (RecoveryCompleteRequest → Bool)
      → String
      → String
      → RecoveryInit
      → RawKeys
      → Fresh
      → Result AccountError (List ℕ)
  complete_account_recovery start complete email new_password init recovered fresh = do
    request ← prepare_recovery start email new_password init recovered fresh
    guard (complete request) request_failed
    ok (generate_recovery_code fresh.code_bytes)
