-- ===== src/Recovery/Kit.antt =====
-- packages/crypto/src/recovery.ts: the keys of a recovery code, and the kit that they open. A random iv
-- is an argument. Texts of codes are lists of their UTF-16 code units.
use Prim.Native.String
use nopass.Prelude.{
  ℕ, ◌≡◌, String, Bool, not, List, ◌++◌, Result, ok, err, ◌>>=◌, ◌>>◌, guard, ◌==◌, take, drop,
  length,
}
use nopass.Types.Vault.{EncryptedBlob}
use nopass.Types.Api.{KdfParams, default_kdf_params}
use nopass.Errors.{Error}
use nopass.Platform.{Platform}
use nopass.Envelope.Legacy.{encrypt_bytes, decrypt_bytes}
use nopass.Account.Kdf.{Derivation, RawKeys}
use nopass.Recovery.Code.{normalize_recovery_code}
pub mod Laws

-- `toUpperCase` and UTF-8, on code units.
pub record CodeText : Type 0 where
  pub upper_case : List ℕ → List ℕ
  pub encode : List ℕ → List ℕ

pub record RecoveryKeys (K : Type 0) : Type 0 where
  pub auth_key : String
  pub wrap_key : K

pub data KitError : Type 0 where
  unexpected_length : KitError
  kit_not_opened : Error → KitError

abbrev pub recovery_kdf_params : KdfParams
recovery_kdf_params = record {
  type = "argon2id";
  memory_kib = 65536;
  iterations = 3;
  parallelism = 4;
}

module _ {K : Type 0} (env : Platform K) (kdf : Derivation) (import_key : List ℕ → K)
    (text : CodeText) where
  unfoldable pub derive_recovery_keys : List ℕ → String → KdfParams → RecoveryKeys K
  derive_recovery_keys code email params =
      let normalized = normalize_recovery_code text.upper_case code in
      let salt =
        kdf.sha256 (kdf.encode_text (String.◌++◌ "nopass-v1-recovery:" (kdf.lower_case email))) in
      let recovery_key = kdf.argon2id (text.encode normalized) salt params in
      let hkdf_salt = kdf.encode_text (kdf.lower_case email) in
      record {
        auth_key =
            env.btoa (kdf.hkdf recovery_key hkdf_salt (kdf.encode_text "nopass-v1-recovery-auth"));
        wrap_key =
            import_key
              (kdf.hkdf recovery_key hkdf_salt (kdf.encode_text "nopass-v1-recovery-wrap"));
      }

  -- `smk || enc || mac`: each is 32 bytes, so the buffer of 96 bytes is filled.
  unfoldable pub wrap_vault_subkeys : RawKeys → K → List ℕ → EncryptedBlob
  wrap_vault_subkeys subkeys wrap_key iv =
      encrypt_bytes env (subkeys.smk ++ (subkeys.enc_key ++ subkeys.mac_key)) wrap_key iv

  unfoldable pub unwrap_vault_subkeys : EncryptedBlob → K → Result KitError RawKeys
  unwrap_vault_subkeys blob wrap_key = elim (decrypt_bytes env blob wrap_key) [
    | err e ↦ err (kit_not_opened e)
    | ok concat ↦ do
      guard (length concat == 96) unexpected_length
      ok (record {
        smk = take 32 concat;
        enc_key = take 32 (drop 32 concat);
        mac_key = take 32 (drop 64 concat);
      })
  ]
