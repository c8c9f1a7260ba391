-- ===== src/Account/Unlock/Laws.antt =====
-- The account key survives a migration and a change of the password.
use nopass.Prelude.{
  ℕ, ◌≡◌, refl, ap, sym, ◌∙◌, subst, inl, inr, String, true, Option, none, some, ok, Bool-cases,
  bind_ok, ok_injective, or_throw, or_throw_ok, All, List,
}
use nopass.Prelude.Bytes.{IsByte}
use nopass.Types.Api.{default_kdf_params}
use nopass.Platform.{Platform, Base64Laws, CipherLaws}
use nopass.Trust.{AccountStateStore, get_state, update_state, assert_kdf_floor}
use nopass.Account.Kdf.{
  Derivation, HkdfLaws, derive_master_key, stretch_master_key_all_raw, compute_email_hash,
}
use nopass.Account.Key.{
  AccountKey, WrappedAccountKey, ProtectedKey, both_texts, account_smk_bytes, wrap_account_key,
  unwrap_account_key, or_other, request_failed, incorrect_password, bad_server_response,
}
use nopass.Account.Key.Laws.{IsKey, unwrap-wrap_account_key}
use nopass.Account.Login.{Opaque, Srp, LoginSession, Method, PasswordProof, is_true}
use nopass.Account.Unlock.{AccountKeyApi, UnlockedAccount, Ivs, legacy_account, unlock_account}
use nopass.Account.PasswordChange.{ChangeStarted, ChangeFinish, prepare_change}
use nopass.Account.Unlock.Branches.{
  unlock_account-some, unlock_account-legacy, unlock_wrapped_ok, unlock_account-missing,
}
use nopass.Account.Unlock.Known.{unlock_legacy-Known}
use nopass.Account.Unlock.Taken.{unlock_legacy-taken}

module _ {K S T : Type 0} (env : Platform K) (kdf : Derivation) (import_key : List ℕ → K)
    (client : Opaque S) (srp_client : Srp T) (base64 : Base64Laws env) (cipher : CipherLaws env)
    (lengths : HkdfLaws kdf) where
  legacy-IsKey :
      (master_key : List ℕ) (email : String)
      → IsKey (legacy_account env kdf import_key client srp_client master_key email)
  unfolding stretch_master_key_all_raw
  legacy-IsKey master_key email = record {
    enc_length = lengths.hkdf_length _ _ _;
    mac_length = lengths.hkdf_length _ _ _;
  }

  -- A migration loses no key: if the server serves the wrap that it took during an unlock that had
  -- none, a login with it unlocks, on any device, to the same account key and the same key for the
  -- private key. The server's requests to store a wrap succeed for `w` only, which it serves later.
  -- Assumed: `atob` undoes `btoa`, AES-GCM decrypts what it encrypted, HKDF gives 32 bytes, and the iv
  -- is bytes.
  pub unlock_account-again :
      (api later : AccountKeyApi) (email password : String) (session new_session : LoginSession)
      (method new_method : Method) (states between others : AccountStateStore) (ivs new_ivs : Ivs)
      (unlocked : UnlockedAccount)
      → both_texts env kdf import_key session.wrapped_account_key session.wrapped_account_key_iv
        ≡ none
      → unlock_account env kdf import_key client srp_client api email password session method states
          ivs
        ≡ ok (unlocked, between)
      → All IsByte ivs.account_iv
      → (w : WrappedAccountKey)
      → ((proof : PasswordProof) (sent : WrappedAccountKey) (private_key : ProtectedKey)
            (token : String)
          → api.set_account_key proof sent private_key token ≡ true
          → sent ≡ w)
      → ((id proof registration : String) (sent : WrappedAccountKey) (private_key : ProtectedKey)
            (token answer : String)
          → api.upgrade_finish id proof registration sent private_key token ≡ some answer
          → sent ≡ w)
      → both_texts env kdf import_key new_session.wrapped_account_key
          new_session.wrapped_account_key_iv
        ≡ some (w.wrapped_account_key, w.wrapped_account_key_iv)
      → (again : UnlockedAccount) × (after : AccountStateStore) × (unlock_account env kdf import_key
            client srp_client later email password new_session new_method others new_ivs
          ≡ ok (again, after))
        × (again.account ≡ unlocked.account)
        × (again.smk ≡ unlocked.smk)
  unlock_account-again api later email password session new_session method new_method states between
        others ivs new_ivs unlocked without h iv_bytes w set upgraded given =
      elim (Bool-cases (is_true (get_state states (compute_email_hash kdf email)).account_key)) [
        | inl known ↦ absurd (
            cc (
              unlock_account-missing env kdf import_key client srp_client api email password session
                  method states ivs without known,
              h,
            ))
        | inr new ↦
            let master_key = derive_master_key kdf password email default_kdf_params in
            let legacy =
              unlock_legacy-Known env kdf import_key client srp_client api email password session
                method states ivs unlocked between
                (sym (
                    unlock_account-legacy env kdf import_key client srp_client api email password
                      session method states ivs without new)
                  ∙ h) in
            let key : IsKey unlocked.account =
              subst IsKey (sym legacy.0) (legacy-IsKey master_key email) in
            let sent =
              unlock_legacy-taken env kdf import_key client srp_client api email password session
                method states ivs unlocked between w set upgraded
                (sym (
                    unlock_account-legacy env kdf import_key client srp_client api email password
                      session method states ivs without new)
                  ∙ h) in
            let is_wrap =
              sym sent
              ∙ ap (λ a. wrap_account_key env kdf import_key a master_key email ivs.account_iv)
                  (sym legacy.0) in
            let opens =
              ap
                (λ (v : WrappedAccountKey).
                  unwrap_account_key env kdf import_key v master_key email)
                is_wrap
              ∙ unwrap-wrap_account_key env kdf import_key base64 cipher unlocked.account master_key
                  email ivs.account_iv key iv_bytes in
            let found =
              unlock_account-some env kdf import_key client srp_client later email password
                new_session new_method others new_ivs w given in
            let opened =
              unlock_wrapped_ok env kdf import_key client srp_client later email password
                new_session new_method others new_ivs w unlocked.account opens in
            (
              record {
                account = unlocked.account;
                smk = account_smk_bytes env kdf import_key unlocked.account;
                protected_private_key = new_session.protected_private_key;
                protected_private_key_iv = new_session.protected_private_key_iv;
              },
              update_state others (compute_email_hash kdf email)
                  (record { opaque_login = none; account_key = some true }),
              found ∙ opened,
              refl,
              sym legacy.1,
            )
      ]

  -- A change of the password keeps the account key: the wrap that the server is asked to store opens
  -- with the new password to the account key that the stored wrap opened to with the current one.
  pub prepare_change-keeps_key :
      (start : String → String → String → Option ChangeStarted)
      (email current_password new_password : String) (iv : List ℕ) (request : ChangeFinish)
      (started : ChangeStarted) (account : AccountKey)
      → start
          (compute_email_hash kdf email)
          (client.start_login current_password).1
          (client.start_registration new_password).1
        ≡ some started
      → unwrap_account_key env kdf import_key started.wrapped
          (derive_master_key kdf current_password email default_kdf_params)
          email
        ≡ ok account
      → IsKey account
      → All IsByte iv
      → prepare_change env kdf import_key client start email current_password new_password iv
        ≡ ok request
      → unwrap_account_key env kdf import_key request.wrapped
          (derive_master_key kdf new_password email default_kdf_params)
          email
        ≡ ok account
  unfolding prepare_change
  prepare_change-keeps_key start email current_password new_password iv request started account
        asked opened key iv_bytes h =
      let login = client.start_login current_password in
      let registration = client.start_registration new_password in
      let (there, e1, h1) =
        bind_ok
          (or_throw (start (compute_email_hash kdf email) login.1 registration.1) request_failed) _
          _ h in
      let same : there ≡ started = cc (
        or_throw_ok (start (compute_email_hash kdf email) login.1 registration.1) _ there e1,
        asked,
      ) in
      let (checked, e2, h2) = bind_ok (or_other (assert_kdf_floor there.kdf_params)) _ _ h1 in
      let (read, e0, h0) =
        bind_ok
          (or_throw (client.finish_login login.0 there.login_response current_password checked)
            bad_server_response)
          _ _ h2 in
      let (proof, e3, h3) = bind_ok (or_throw read incorrect_password) _ _ h0 in
      let (registered, e4, h4) =
        bind_ok
          (or_throw
            (client.finish_registration registration.0 there.registration_response new_password
              checked)
            bad_server_response)
          _ _ h3 in
      let (found, e5, h5) =
        bind_ok
          (unwrap_account_key env kdf import_key there.wrapped
            (derive_master_key kdf current_password email default_kdf_params) email)
          _ _ h4 in
      let same_account : found ≡ account = cc (e5, opened, same) in
      let new_master = derive_master_key kdf new_password email default_kdf_params in
      let wrapped : wrap_account_key env kdf import_key found new_master email iv
          ≡ request.wrapped =
        (let e : record {
          change_id = there.change_id;
          finish_login_request = proof;
          registration_record = registered;
          wrapped = wrap_account_key env kdf import_key found new_master email iv;
        }
              ≡ request =
            ok_injective _ _ h5 in
          ap (λ (r : ChangeFinish). r.wrapped) e) in
      subst
        (λ (v : WrappedAccountKey).
          unwrap_account_key env kdf import_key v new_master email ≡ ok account)
        wrapped
        (subst
          (λ (a : AccountKey).
            unwrap_account_key env kdf import_key
              (wrap_account_key env kdf import_key a new_master email iv) new_master email
            ≡ ok account)
          (sym same_account)
          (unwrap-wrap_account_key env kdf import_key base64 cipher account new_master email iv key
            iv_bytes))
