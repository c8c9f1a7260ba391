-- ===== src/Account/Key.antt =====
-- packages/crypto/src/account-key.ts: the account key and its wrap under the master password. A random
-- iv is an argument. Each half of an account key is 32 bytes, so the buffer of 64 bytes is filled.
use Prim.Native.String
use nopass.Prelude.{
  ℕ, ◌≡◌, String, Bool, true, false, not, ◌||◌, List, [], ◌∷◌, ◌++◌, Option, none, some, Result, ok,
  err, ◌>>=◌, or_throw, str_eq, if◌then◌else◌, take, drop, length,
}
use nopass.Types.Vault.{EncryptedBlob}
use nopass.Errors.{Error, cipher_failed}
use nopass.Platform.{Platform, to_base64, from_base64}
use nopass.Envelope.Legacy.{encrypt_bytes, decrypt_bytes}
use nopass.Account.Kdf.{Derivation, compute_email_hash}
pub mod Laws

pub record AccountKey : Type 0 where
  pub enc_key : List ℕ
  pub mac_key : List ℕ

pub record WrappedAccountKey : Type 0 where
  pub wrapped_account_key : String
  pub wrapped_account_key_iv : String

-- The private key of an account as the server holds it, or nothing.
pub record ProtectedKey : Type 0 where
  pub protected_private_key : Option String
  pub protected_private_key_iv : Option String

pub data AccountError : Type 0 where
  -- AccountKeyError: the wrap does not open, or is missing
  wrap_not_opened wrap_missing : AccountError
  -- IncorrectPasswordError
  incorrect_password : AccountError
  -- what the server proves with does not verify, or cannot be used
  bad_server_proof bad_server_response : AccountError
  -- a request that failed
  request_failed : AccountError
  other_error : Error → AccountError

abbrev pub or_other {ℓ} : {A : Type ℓ} → Result Error A → Result AccountError A
or_other (ok a) = ok a
or_other (err e) = err (other_error e)

-- `enc || mac`
abbrev pub key_bytes : AccountKey → List ℕ
key_bytes account = account.enc_key ++ account.mac_key

abbrev pub account_of : List ℕ → AccountKey
account_of plaintext = record { enc_key = take 32 plaintext; mac_key = take 32 (drop 32 plaintext) }

-- `import_key` is `crypto.subtle.importKey` of 32 raw bytes.
module _ {K : Type 0} (env : Platform K) (kdf : Derivation) (import_key : List ℕ → K) where
  unfoldable pub aad : String → List ℕ
  aad email = kdf.encode_text (String.◌++◌ "nopass-v2-account-key:" (compute_email_hash kdf email))

  unfoldable pub kek : List ℕ → String → K
  kek master_key email = import_key (
      kdf.hkdf master_key (kdf.encode_text (kdf.lower_case email))
        (kdf.encode_text "nopass-v2-account-kek"))

  unfoldable pub account_smk_bytes : AccountKey → List ℕ
  account_smk_bytes account = kdf.hkdf (key_bytes account) [] (kdf.encode_text "nopass-v2-smk")

  unfoldable pub wrap_account_key : AccountKey → List ℕ → String → List ℕ → WrappedAccountKey
  wrap_account_key account master_key email iv = record {
    wrapped_account_key =
        to_base64 env (env.aes_encrypt (kek master_key email) iv (aad email) (key_bytes account));
    wrapped_account_key_iv = to_base64 env iv;
  }

  -- The plaintext of a wrap.
  unfoldable pub open_wrap : WrappedAccountKey → List ℕ → String → Result Error (List ℕ)
  open_wrap wrapped master_key email = do
    iv ← from_base64 env wrapped.wrapped_account_key_iv
    ciphertext ← from_base64 env wrapped.wrapped_account_key
    or_throw (env.aes_decrypt (kek master_key email) iv (aad email) ciphertext) cipher_failed

  unfoldable pub unwrap_account_key :
      WrappedAccountKey → List ℕ → String → Result AccountError AccountKey
  unwrap_account_key wrapped master_key email = elim (open_wrap wrapped master_key email) [
    | err e ↦ err wrap_not_opened
    | ok plaintext ↦ ok (account_of plaintext)
  ]

  -- `!a || !b`, else both: a text that is absent or empty is none.
  abbrev pub both_texts : Option String → Option String → Option (String × String)
  both_texts none b = none
  both_texts (some a) none = none
  both_texts (some a) (some b) = if str_eq a "" || str_eq b "" then none else some (a, b)

  unfoldable pub rewrap_private_key :
      ProtectedKey → List ℕ → List ℕ → List ℕ → Result AccountError ProtectedKey
  rewrap_private_key session from to iv =
      elim (both_texts session.protected_private_key session.protected_private_key_iv) [
        | none ↦ ok (record { protected_private_key = none; protected_private_key_iv = none })
        | some (blob, blob_iv) ↦
            elim (decrypt_bytes env (record { blob = blob; blob_iv = blob_iv; blob_mac = "" })
              (import_key from)) [
                | err e ↦ err (other_error e)
                | ok pkcs8 ↦
                    let rewrapped = encrypt_bytes env pkcs8 (import_key to) iv in
                    ok (record {
                      protected_private_key = some rewrapped.blob;
                      protected_private_key_iv = some rewrapped.blob_iv;
                    })
              ]
      ]
