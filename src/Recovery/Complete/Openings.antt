-- ===== src/Recovery/Complete/Openings.antt =====
-- What the parts of the last request of a recovery open to.
use nopass.Prelude.{
  ℕ, ◌≡◌, ◌⊎◌, inl, inr, String, List, none, some, ok, All, arith, Option-cases, Result-cases,
}
use nopass.Prelude.Bytes.{IsByte}
use nopass.Platform.{Platform, Base64Laws, CipherLaws}
use nopass.Envelope.Legacy.{encrypt_bytes, decrypt_bytes}
use nopass.Account.Kdf.{Derivation, HkdfLaws, RawKeys}
use nopass.Account.Key.{ProtectedKey, both_texts}
use nopass.Account.Login.{Opaque, Srp}
use nopass.Recovery.Kit.{CodeText, wrap_vault_subkeys, unwrap_vault_subkeys}
use nopass.Recovery.Kit.Laws.{AreKeys, unwrap-wrap_vault_subkeys, decrypt-encrypt_bytes}
use nopass.Recovery.Complete.{RecoveryInit, open_private_key, rewrapped_key}

module _ {K S T : Type 0} (env : Platform K) (kdf : Derivation) (import_key : List ℕ → K)
    (client : Opaque S) (srp_client : Srp T) (text : CodeText) (base64 : Base64Laws env)
    (cipher : CipherLaws env) (hkdf : HkdfLaws kdf) where
  -- The private key of an account is in the request exactly if the account has one, and opens under the
  -- new wrapping key to what one of the old ones opened it to.
  abbrev pub PrivateKept : ProtectedKey → List ℕ → List ℕ → ProtectedKey → Type 0
  PrivateKept before smk kit_smk after =
      ((both_texts env kdf import_key before.protected_private_key before.protected_private_key_iv
          ≡ none)
        × (after ≡ record { protected_private_key = none; protected_private_key_iv = none }))
      ⊎ ((old : String × String) × (new : String × String) × (pkcs8 : List ℕ) × (both_texts env kdf
              import_key before.protected_private_key before.protected_private_key_iv
            ≡ some old)
          × (open_private_key env kdf import_key client srp_client text old.0 old.1 smk kit_smk
              ≡ ok pkcs8)
          × (after ≡ record {
            protected_private_key = some new.0;
            protected_private_key_iv = some new.1;
          })
          × (decrypt_bytes env (record { blob = new.0; blob_iv = new.1; blob_mac = "" })
                (import_key smk)
              ≡ ok pkcs8))

  pub bytes_open :
      (message : List ℕ) (key : K) (iv : List ℕ)
      → All IsByte iv
      → decrypt_bytes env
          (record {
            blob = (encrypt_bytes env message key iv).blob;
            blob_iv = (encrypt_bytes env message key iv).blob_iv;
            blob_mac = "";
          })
          key
        ≡ ok message
  unfolding encrypt_bytes
  bytes_open message key iv h =
      decrypt-encrypt_bytes env kdf import_key text base64 cipher message key iv h

  pub rewrapped_key-PrivateKept :
      (init : RecoveryInit) (smk kit_smk iv : List ℕ) (after : ProtectedKey)
      → All IsByte iv
      → rewrapped_key env kdf import_key client srp_client text init smk kit_smk iv ≡ ok after
      → PrivateKept init.protected_key smk kit_smk after
  unfolding rewrapped_key
  rewrapped_key-PrivateKept init smk kit_smk iv after bytes h =
      elim (Option-cases (
        both_texts env kdf import_key init.protected_key.protected_private_key
          init.protected_key.protected_private_key_iv)) [
            | inl missing ↦ inl (missing, ground arith)
            | inr ((blob, blob_iv), given) ↦
                elim (Result-cases (
                  open_private_key env kdf import_key client srp_client text blob blob_iv smk
                    kit_smk)) [
                      | inr (e, failed) ↦ absurd (ground arith)
                      | inl (pkcs8, opened) ↦
                          let rewrapped = encrypt_bytes env pkcs8 (import_key smk) iv in
                          inr (
                            (blob, blob_iv),
                            (rewrapped.blob, rewrapped.blob_iv),
                            pkcs8,
                            given,
                            opened,
                            ground arith,
                            bytes_open pkcs8 (import_key smk) iv bytes,
                          )
                    ]
          ]

  pub kit_opens :
      (keys : RawKeys) (wrap_key : K) (iv : List ℕ)
      → AreKeys env kdf import_key text keys
      → All IsByte iv
      → unwrap_vault_subkeys env kdf import_key text
          (record {
            blob = (wrap_vault_subkeys env kdf import_key text keys wrap_key iv).blob;
            blob_iv = (wrap_vault_subkeys env kdf import_key text keys wrap_key iv).blob_iv;
            blob_mac = "";
          })
          wrap_key
        ≡ ok keys
  unfolding wrap_vault_subkeys encrypt_bytes
  kit_opens keys wrap_key iv are h =
      unwrap-wrap_vault_subkeys env kdf import_key text base64 cipher keys wrap_key iv are h
