-- ===== src/Account/Login/Downgrade.antt =====
-- On a device that has seen the account use OPAQUE, a login asks nothing of SRP.
use nopass.Prelude.{
  ◌≡◌, refl, inl, inr, String, true, Option, none, some, Option-cases, Result-cases,
}
use nopass.Trust.{AccountStateStore, get_state, assert_kdf_floor}
use nopass.Account.Kdf.{Derivation, compute_email_hash}
use nopass.Account.Login.{
  Opaque, Srp, LoginSession, SrpStarted, PasswordAuthApi, is_true, finish_login,
  login_with_password,
}

-- The server, with other answers at its SRP endpoints.
abbrev pub with_srp :
    PasswordAuthApi
    → (String → String → Option SrpStarted)
    → (String → String → Option String → Option (LoginSession × String))
    → PasswordAuthApi
with_srp api init verify = record {
  opaque_login_start = api.opaque_login_start;
  opaque_login_finish = api.opaque_login_finish;
  srp_init = init;
  srp_verify = verify;
}

module _ {S T : Type 0} (client : Opaque S) (kdf : Derivation) where
  finish_login-no_downgrade :
      (srp_client other_client : Srp T) (api : PasswordAuthApi)
      (init : String → String → Option SrpStarted)
      (verify : String → String → Option String → Option (LoginSession × String))
      (email password : String) (device : Option String) (states : AccountStateStore)
      (login_id : String) (finished : Option String)
      → is_true (get_state states (compute_email_hash kdf email)).opaque_login ≡ true
      → finish_login client srp_client kdf api email password device states login_id finished
        ≡ finish_login client other_client kdf
            (with_srp api init verify)
            email
            password
            device
            states
            login_id
            finished
  unfolding finish_login
  finish_login-no_downgrade s o api init verify email password device states login_id (some f)
        seen =
      refl
  finish_login-no_downgrade s o api init verify email password device states login_id none seen =
      rw seen refl

  -- On a device that has seen the account use OPAQUE, a login asks nothing of SRP: with any SRP client
  -- and any answers of the SRP endpoints it ends in the same way.
  pub login_with_password-no_downgrade :
      (srp_client other_client : Srp T) (api : PasswordAuthApi)
      (init : String → String → Option SrpStarted)
      (verify : String → String → Option String → Option (LoginSession × String))
      (email password : String) (device : Option String) (states : AccountStateStore)
      → is_true (get_state states (compute_email_hash kdf email)).opaque_login ≡ true
      → login_with_password client srp_client kdf api email password device states
        ≡ login_with_password client other_client kdf
            (with_srp api init verify)
            email
            password
            device
            states
  unfolding login_with_password
  login_with_password-no_downgrade s o api init verify email password device states seen =
      let login = client.start_login password in
      elim (Option-cases (api.opaque_login_start (compute_email_hash kdf email) login.1)) [
        | inl failed ↦ rw (login_with_password, failed) refl
        | inr (started, e) ↦ elim (Result-cases (assert_kdf_floor started.kdf_params)) [
          | inr (thrown, weak) ↦ rw (login_with_password, e, weak) refl
          | inl (checked, strong) ↦
              rw (login_with_password, e, strong)
                (elim (Option-cases
                  (client.finish_login login.0 started.login_response password checked)) [
                    | inl malformed ↦ rw malformed refl
                    | inr (opened, f) ↦ rw f (
                        finish_login-no_downgrade s o api init verify email password device states
                          started.login_id opened seen)
                  ])
        ]
      ]
