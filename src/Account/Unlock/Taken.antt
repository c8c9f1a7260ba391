-- ===== src/Account/Unlock/Taken.antt =====
-- The wrap that a migration hands to the server.
use nopass.Prelude.{
  ℕ, ◌≡◌, inl, inr, String, true, some, ok, arith, Result-cases, bind_ok, guard_ok, or_throw,
  or_throw_ok, List,
}
use nopass.Types.Api.{default_kdf_params}
use nopass.Platform.{Platform}
use nopass.Trust.{AccountStateStore, assert_kdf_floor}
use nopass.Account.Kdf.{
  Derivation, derive_master_key, stretch_master_key_all_raw, compute_email_hash,
}
use nopass.Account.Key.{
  WrappedAccountKey, ProtectedKey, request_failed, bad_server_response, or_other, account_smk_bytes,
  wrap_account_key, rewrap_private_key,
}
use nopass.Account.Login.{
  Opaque, Srp, LoginSession, Method, opaque, srp, prove_password, account_key, PasswordProof,
}
use nopass.Account.Unlock.{
  AccountKeyApi, UnlockedAccount, Ivs, private_key_of, upgrade_from_srp, store_account_key,
  legacy_account, unlock_legacy,
}

module _ {K S T : Type 0} (env : Platform K) (kdf : Derivation) (import_key : List ℕ → K)
    (client : Opaque S) (srp_client : Srp T) (api : AccountKeyApi) (email password : String)
    (session : LoginSession) (method : Method) (states : AccountStateStore) (ivs : Ivs)
    (unlocked : UnlockedAccount) (after : AccountStateStore) (w : WrappedAccountKey)
    (set : (proof : PasswordProof) (sent : WrappedAccountKey) (private_key : ProtectedKey)
        (token : String)
      → api.set_account_key proof sent private_key token ≡ true
      → sent ≡ w)
    (upgraded : (id proof registration : String) (sent : WrappedAccountKey)
        (private_key : ProtectedKey) (token answer : String)
      → api.upgrade_finish id proof registration sent private_key token ≡ some answer
      → sent ≡ w) where
  upgrade_from_srp-taken :
      (sent : WrappedAccountKey) (private_key : ProtectedKey) (done : Unit {0})
      → upgrade_from_srp env kdf import_key client srp_client api email password
          session.session_token sent private_key
        ≡ ok done
      → sent ≡ w
  unfolding upgrade_from_srp
  upgrade_from_srp-taken sent private_key done h =
      let step1 = srp_client.srp_step1 in
      let registration = client.start_registration password in
      let token = session.session_token in
      let (started, e1, h1) =
        bind_ok
          (or_throw (api.upgrade_start (compute_email_hash kdf email) step1.1 registration.1 token)
            request_failed)
          _ _ h in
      let (step2, e2, h2) =
        bind_ok
          (or_throw
            (srp_client.srp_step2 email password started.srp_salt started.server_public step1.0)
            bad_server_response)
          _ _ h1 in
      let (checked, e3, h3) = bind_ok (or_other (assert_kdf_floor started.kdf_params)) _ _ h2 in
      let (record_text, e4, h4) =
        bind_ok
          (or_throw
            (client.finish_registration registration.0 started.registration_response password
              checked)
            bad_server_response)
          _ _ h3 in
      let (finished, e5, h5) =
        bind_ok
          (or_throw
            (api.upgrade_finish started.upgrade_id step2.0 record_text sent private_key token)
            request_failed)
          _ _ h4 in
      upgraded started.upgrade_id step2.0 record_text sent private_key token finished (
        or_throw_ok
          (api.upgrade_finish started.upgrade_id step2.0 record_text sent private_key token) _
          finished e5)

  store_account_key-taken :
      (m : Method) (sent : WrappedAccountKey) (private_key : ProtectedKey)
      (stored : AccountStateStore)
      → store_account_key env kdf import_key client srp_client api email password session m states
          sent private_key
        ≡ ok stored
      → sent ≡ w
  unfolding store_account_key
  store_account_key-taken srp sent private_key stored h =
      elim (Result-cases (
        upgrade_from_srp env kdf import_key client srp_client api email password
          session.session_token sent private_key)) [
            | inr (e, failed) ↦ absurd (ground arith)
            | inl (done, e) ↦ upgrade_from_srp-taken sent private_key done e
          ]
  store_account_key-taken opaque sent private_key stored h =
      let (proof, e, h1) =
        bind_ok
          (prove_password client srp_client kdf
            (λ email_hash message purpose.
              api.proof_start email_hash message purpose session.session_token)
            email password account_key)
          _ _ h in
      let (taken, h2) =
        guard_ok (api.set_account_key proof sent private_key session.session_token) _ _ _ h1 in
      set proof sent private_key session.session_token taken

  -- What was taken is the wrap of the legacy keys.
  pub unlock_legacy-taken :
      unlock_legacy env kdf import_key client srp_client api email password
          (derive_master_key kdf password email default_kdf_params)
          session
          method
          states
          ivs
        ≡ ok (unlocked, after)
      → wrap_account_key env kdf import_key
          (legacy_account env kdf import_key client srp_client
            (derive_master_key kdf password email default_kdf_params)
            email)
          (derive_master_key kdf password email default_kdf_params)
          email
          ivs.account_iv
        ≡ w
  unfolding unlock_legacy
  unlock_legacy-taken h =
      let master_key = derive_master_key kdf password email default_kdf_params in
      let account = legacy_account env kdf import_key client srp_client master_key email in
      let smk = account_smk_bytes env kdf import_key account in
      let (private_key, e, h1) =
        bind_ok
          (rewrap_private_key env kdf import_key (private_key_of session)
            (stretch_master_key_all_raw kdf master_key email).smk smk ivs.private_iv)
          _ _ h in
      let sent = wrap_account_key env kdf import_key account master_key email ivs.account_iv in
      let (stored, f, h2) =
        bind_ok
          (store_account_key env kdf import_key client srp_client api email password session method
            states sent private_key)
          _ _ h1 in
      store_account_key-taken method sent private_key stored f
