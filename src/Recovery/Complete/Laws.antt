-- ===== src/Recovery/Complete/Laws.antt =====
-- What a recovery sends.
use nopass.Prelude.{
  ℕ, ◌≡◌, sym, ap, String, List, Option, ok, All, length, bind_ok, ok_injective, subst,
}
use nopass.Prelude.Bytes.{IsByte}
use nopass.Types.Api.{default_kdf_params}
use nopass.Platform.{Platform, Base64Laws, CipherLaws}
use nopass.Envelope.Legacy.{decrypt_bytes}
use nopass.Account.Kdf.{Derivation, HkdfLaws, RawKeys, derive_master_key, compute_email_hash}
use nopass.Account.Key.{AccountKey, account_smk_bytes, unwrap_account_key}
use nopass.Account.Key.Laws.{IsKey, unwrap-wrap_account_key}
use nopass.Account.Login.{Opaque, Srp, create_opaque_registration}
use nopass.Recovery.Code.{generate_recovery_code}
use nopass.Recovery.Kit.{CodeText, derive_recovery_keys, unwrap_vault_subkeys, recovery_kdf_params}
use nopass.Recovery.Complete.{
  RecoveryInit, RecoveryCompleteRequest, Fresh, rewrapped_key, prepare_recovery,
}
use nopass.Recovery.Complete.Openings.{
  PrivateKept, bytes_open, kit_opens, rewrapped_key-PrivateKept,
}

module _ {K S T : Type 0} (env : Platform K) (kdf : Derivation) (import_key : List ℕ → K)
    (client : Opaque S) (srp_client : Srp T) (text : CodeText) (base64 : Base64Laws env)
    (cipher : CipherLaws env) (hkdf : HkdfLaws kdf) where
  -- A request that hands the account over to the new password and to the replacement code: the wrap
  -- opens under the new password to the account key of the kit, the private-key wrapping key opens
  -- `protected_symmetric_key`, and the new kit opens, under the keys of the replacement code, to the
  -- account key and the wrapping key that belongs to it.
  pub record Recovered (email new_password : String) (init : RecoveryInit) (recovered : RawKeys)
      (fresh : Fresh) (request : RecoveryCompleteRequest) : Type 0 where
    pub opens :
        unwrap_account_key env kdf import_key request.wrapped
          (derive_master_key kdf new_password email default_kdf_params)
          email
        ≡ ok (record { enc_key = recovered.enc_key; mac_key = recovered.mac_key })
    pub kit :
        unwrap_vault_subkeys env kdf import_key text
          (record {
            blob = request.recovery_blob;
            blob_iv = request.recovery_blob_iv;
            blob_mac = "";
          })
          (derive_recovery_keys env kdf import_key text
            (generate_recovery_code fresh.code_bytes)
            email
            recovery_kdf_params).wrap_key
        ≡ ok (record {
          smk =
              account_smk_bytes env kdf import_key
                (record { enc_key = recovered.enc_key; mac_key = recovered.mac_key });
          enc_key = recovered.enc_key;
          mac_key = recovered.mac_key;
        })
    pub auth_key :
        request.recovery_auth_key
        ≡ (derive_recovery_keys env kdf import_key text
            (generate_recovery_code fresh.code_bytes)
            email
            recovery_kdf_params).auth_key
    pub private_key :
        PrivateKept env kdf import_key client srp_client text base64 cipher hkdf init.protected_key
          (account_smk_bytes env kdf import_key
            (record { enc_key = recovered.enc_key; mac_key = recovered.mac_key }))
          recovered.smk
          request.private_key
    pub symmetric :
        decrypt_bytes env
          (record {
            blob = request.protected_symmetric_key;
            blob_iv = request.protected_symmetric_key_iv;
            blob_mac = "";
          })
          (import_key (
            account_smk_bytes env kdf import_key
              (record { enc_key = recovered.enc_key; mac_key = recovered.mac_key })))
        ≡ ok recovered.enc_key

  pub record FreshBytes (fresh : Fresh) : Type 0 where
    pub wrap_bytes : All IsByte fresh.wrap_iv
    pub symmetric_bytes : All IsByte fresh.symmetric_iv
    pub private_bytes : All IsByte fresh.private_iv
    pub kit_bytes : All IsByte fresh.kit_iv

  smk_length : (account : AccountKey) → length (account_smk_bytes env kdf import_key account) ≡ 32
  unfolding account_smk_bytes
  smk_length account = hkdf.hkdf_length _ _ _

  -- A recovery that gets as far as its last request keeps the account key that the kit held: the new
  -- password opens it, and the replacement code opens it; and a private key, if the account has one,
  -- opens under the new wrapping key to what one of the old keys opened it to. Assumed: `atob` undoes
  -- `btoa`, AES-GCM decrypts what it encrypted, HKDF gives 32 bytes, the ivs are bytes, and the keys of
  -- the kit are 32 bytes each.
  pub prepare_recovery-Recovered :
      (start : String → String → String → Option String) (email new_password : String)
      (init : RecoveryInit) (recovered : RawKeys) (fresh : Fresh)
      (request : RecoveryCompleteRequest)
      → IsKey (record { enc_key = recovered.enc_key; mac_key = recovered.mac_key })
      → FreshBytes fresh
      → prepare_recovery env kdf import_key client srp_client text start email new_password init
          recovered fresh
        ≡ ok request
      → Recovered email new_password init recovered fresh request
  unfolding prepare_recovery
  prepare_recovery-Recovered start email new_password init recovered fresh request is_key bytes h =
      let account : AccountKey = record {
        enc_key = recovered.enc_key;
        mac_key = recovered.mac_key;
      } in
      let smk = account_smk_bytes env kdf import_key account in
      let keys =
        derive_recovery_keys env kdf import_key text (generate_recovery_code fresh.code_bytes) email
          recovery_kdf_params in
      let (registered, e, h1) =
        bind_ok
          (create_opaque_registration client srp_client kdf new_password default_kdf_params
            (λ r. start init.recovery_token (compute_email_hash kdf email) r))
          _ _ h in
      let (private_key, f, made) =
        bind_ok
          (rewrapped_key env kdf import_key client srp_client text init smk recovered.smk
            fresh.private_iv)
          _ _ h1 in
      let sent = ok_injective _ request made in
      let wrap_key = keys.wrap_key in
      record {
        opens =
            subst
              (λ (r : RecoveryCompleteRequest).
                unwrap_account_key env kdf import_key r.wrapped
                  (derive_master_key kdf new_password email default_kdf_params) email
                ≡ ok account)
              sent
              (unwrap-wrap_account_key env kdf import_key base64 cipher account
                (derive_master_key kdf new_password email default_kdf_params) email fresh.wrap_iv
                is_key bytes.wrap_bytes);
        kit =
            subst
              (λ (r : RecoveryCompleteRequest).
                unwrap_vault_subkeys env kdf import_key text
                  (record { blob = r.recovery_blob; blob_iv = r.recovery_blob_iv; blob_mac = "" })
                  wrap_key
                ≡ ok (record {
                  smk = smk;
                  enc_key = recovered.enc_key;
                  mac_key = recovered.mac_key;
                }))
              sent
              (kit_opens env kdf import_key client srp_client text base64 cipher hkdf
                (record { smk = smk; enc_key = recovered.enc_key; mac_key = recovered.mac_key })
                wrap_key fresh.kit_iv
                (record {
                  smk_length = smk_length account;
                  enc_length = is_key.enc_length;
                  mac_length = is_key.mac_length;
                })
                bytes.kit_bytes);
        auth_key = ap (λ (r : RecoveryCompleteRequest). r.recovery_auth_key) (sym sent);
        private_key =
            subst
              (λ (r : RecoveryCompleteRequest).
                PrivateKept env kdf import_key client srp_client text base64 cipher hkdf
                  init.protected_key smk recovered.smk r.private_key)
              sent
              (rewrapped_key-PrivateKept env kdf import_key client srp_client text base64 cipher
                hkdf init smk recovered.smk fresh.private_iv private_key bytes.private_bytes f);
        symmetric =
            subst
              (λ (r : RecoveryCompleteRequest).
                decrypt_bytes env
                  (record {
                    blob = r.protected_symmetric_key;
                    blob_iv = r.protected_symmetric_key_iv;
                    blob_mac = "";
                  })
                  (import_key smk)
                ≡ ok recovered.enc_key)
              sent
              (bytes_open env kdf import_key client srp_client text base64 cipher hkdf
                recovered.enc_key (import_key smk) fresh.symmetric_iv bytes.symmetric_bytes);
      }
