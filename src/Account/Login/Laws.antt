-- ===== src/Account/Login/Laws.antt =====
-- How a login ends.
use nopass.Prelude.{
  ◌≡◌, refl, sym, subst, ◌⊎◌, inl, inr, String, true, false, Option, none, some, Result, ok, err,
  arith, str_eq_self, Result-cases, Bool-cases, bind_ok, or_throw, or_throw_ok,
}
use nopass.Types.Api.{KdfParams}
use nopass.Errors.{Error}
use nopass.Trust.{AccountState, AccountStateStore, get_state, update_state, assert_kdf_floor}
use nopass.Trust.Laws.{get_state-update_state}
use nopass.Account.Kdf.{Derivation, compute_email_hash}
use nopass.Account.Key.{bad_server_response, request_failed, or_other}
use nopass.Account.Login.{
  Opaque, Srp, LoginSession, LoginStarted, PasswordAuthApi, Method, opaque, srp, is_true,
  login_over_srp, finish_login, login_with_password,
}

or_other_ok : {A : Type 0} (r : Result Error A) (a : A) → or_other r ≡ ok a → r ≡ ok a
or_other_ok (ok x) a h = cc h
or_other_ok (err e) a h = cc h

module _ {S T : Type 0} (client : Opaque S) (kdf : Derivation) (srp_client : Srp T) where
  -- How a login ended: over OPAQUE with a response that the password opened, which the device
  -- remembers; or over SRP on a device that has not seen the account use OPAQUE, with a response
  -- that the password did not open.
  pub record Opened (api : PasswordAuthApi) (email password : String) (device : Option String)
      (states : AccountStateStore) (session : LoginSession) (method : Method)
      (after : AccountStateStore) : Type 0 where
    pub started : LoginStarted
    pub strong : assert_kdf_floor started.kdf_params ≡ ok started.kdf_params
    pub how :
        ((method ≡ opaque)
          × ((finished : String) × (client.finish_login
                  (client.start_login password).0
                  started.login_response
                  password
                  started.kdf_params
                ≡ some (some finished))
              × (api.opaque_login_finish started.login_id finished device ≡ some session)
              × (is_true (get_state after (compute_email_hash kdf email)).opaque_login ≡ true)))
        ⊎ ((method ≡ srp)
            × (client.finish_login
                  (client.start_login password).0
                  started.login_response
                  password
                  started.kdf_params
                ≡ some none)
            × (is_true (get_state states (compute_email_hash kdf email)).opaque_login ≡ false)
            × (login_over_srp client srp_client kdf api email password device ≡ ok session)
            × (after ≡ states))

  remembered :
      (states : AccountStateStore) (email_hash : String)
      → is_true
          (get_state
            (update_state states email_hash
              (record { opaque_login = some true; account_key = none }))
            email_hash).opaque_login
        ≡ true
  remembered states email_hash =
      let patch : AccountState = record { opaque_login = some true; account_key = none } in
      let e = (get_state-update_state states email_hash email_hash patch).0 in
      rw (e, str_eq_self email_hash) refl

  assert_kdf_floor_same :
      (asked params : KdfParams) → assert_kdf_floor asked ≡ ok params → asked ≡ params
  unfolding assert_kdf_floor
  assert_kdf_floor_same asked params h = ground arith

  Opened-finish_login :
      (api : PasswordAuthApi) (email password : String) (device : Option String)
      (states : AccountStateStore) (session : LoginSession) (method : Method)
      (after : AccountStateStore) (started : LoginStarted)
      → assert_kdf_floor started.kdf_params ≡ ok started.kdf_params
      → (finished : Option String)
      → client.finish_login
          (client.start_login password).0
          started.login_response
          password
          started.kdf_params
        ≡ some finished
      → finish_login client srp_client kdf api email password device states started.login_id
          finished
        ≡ ok (session, method, after)
      → Opened api email password device states session method after
  unfolding finish_login
  Opened-finish_login api email password device states session method after started strong (some f)
        e h =
      let (given, asked, h1) =
        bind_ok (or_throw (api.opaque_login_finish started.login_id f device) request_failed) _ _
          h in
      let same : given ≡ session = cc h1 in
      let kept : update_state states (compute_email_hash kdf email)
            (record { opaque_login = some true; account_key = none })
          ≡ after =
        cc h1 in
      record {
        started = started;
        strong = strong;
        how = inl (
          cc h1,
          (
            f,
            e,
            cc (
              or_throw_ok (api.opaque_login_finish started.login_id f device) _ given asked,
              same,
            ),
            subst
                (λ (a : AccountStateStore).
                  is_true (get_state a (compute_email_hash kdf email)).opaque_login ≡ true)
                kept (remembered states (compute_email_hash kdf email)),
          ),
        );
      }
  Opened-finish_login api email password device states session method after started strong none e
        h =
      elim (Bool-cases (is_true (get_state states (compute_email_hash kdf email)).opaque_login)) [
        | inl seen ↦ absurd (ground arith)
        | inr new ↦
            elim (Result-cases (login_over_srp client srp_client kdf api email password device)) [
              | inr (thrown, failed) ↦ absurd (ground arith)
              | inl (given, over) ↦
                  let computed : finish_login client srp_client kdf api email password device states
                        started.login_id none
                      ≡ ok (given, srp, states) =
                    rw (finish_login, new, over) refl in
                  let same : given ≡ session = cc (computed, h) in
                  record {
                    started = started;
                    strong = strong;
                    how = inr (cc (computed, h), e, new, cc (over, same), cc (computed, h));
                  }
            ]
      ]

  -- A login that succeeds checked the server's parameters, and went over OPAQUE with a response that
  -- the password opened, which the device remembers; or over SRP, with a response that the password
  -- did not open, on a device that has not seen the account use OPAQUE.
  pub login_with_password-Opened :
      (api : PasswordAuthApi) (email password : String) (device : Option String)
      (states : AccountStateStore) (session : LoginSession) (method : Method)
      (after : AccountStateStore)
      → login_with_password client srp_client kdf api email password device states
        ≡ ok (session, method, after)
      → Opened api email password device states session method after
  unfolding login_with_password
  login_with_password-Opened api email password device states session method after h =
      let login = client.start_login password in
      let (started, e, h1) =
        bind_ok
          (or_throw (api.opaque_login_start (compute_email_hash kdf email) login.1) request_failed)
          _ _ h in
      let (checked, c, h2) = bind_ok (or_other (assert_kdf_floor started.kdf_params)) _ _ h1 in
      let strong = or_other_ok (assert_kdf_floor started.kdf_params) checked c in
      let same = sym (assert_kdf_floor_same started.kdf_params checked strong) in
      let (opened, o, h3) =
        bind_ok
          (or_throw (client.finish_login login.0 started.login_response password checked)
            bad_server_response)
          _ _ h2 in
      Opened-finish_login api email password device states session method after started
        (subst (λ p. assert_kdf_floor started.kdf_params ≡ ok p) same strong) opened
        (subst
          (λ (p : KdfParams).
            client.finish_login login.0 started.login_response password p ≡ some opened)
          same
          (or_throw_ok (client.finish_login login.0 started.login_response password checked) _
            opened o))
        h3
