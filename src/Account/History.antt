-- ===== src/Account/History.antt =====
-- What a device remembers of its accounts over any course of logins and unlocks.
use nopass.Prelude.{
  ℕ, ◌≡◌, refl, sym, ◌∙◌, subst, ◌⊎◌, inl, inr, String, Bool, true, false, List, Option, none, some,
  ok, err, arith, Option-cases, Result-cases, Bool-cases, bind_ok, guard_ok, if◌then◌else◌, str_eq,
  or_throw,
}
use nopass.Types.Api.{default_kdf_params}
use nopass.Platform.{Platform}
use nopass.Trust.{
  AccountState, AccountStateStore, patched, get_state, update_state, assert_kdf_floor,
}
use nopass.Trust.Laws.{get_state-update_state}
use nopass.Account.Kdf.{Derivation, derive_master_key, compute_email_hash}
use nopass.Account.Key.{
  WrappedAccountKey, ProtectedKey, request_failed, bad_server_response, or_other, wrap_missing,
  both_texts, unwrap_account_key, rewrap_private_key,
}
use nopass.Account.Login.{
  Opaque, Srp, LoginSession, PasswordAuthApi, Method, opaque, srp, is_true, login_over_srp,
  finish_login, login_with_password, account_key, prove_password,
}
use nopass.Account.Login.Laws.{login_with_password-Opened}
use nopass.Account.Unlock.{
  AccountKeyApi, UnlockedAccount, Ivs, upgrade_from_srp, store_account_key, unlock_wrapped,
  unlock_legacy, unlock_account,
}
use nopass.Account.Unlock.Branches.{
  unlock_account-some, unlock_account-missing, unlock_account-legacy,
}
use nopass.Account.Unlock.Known.{Known, unlock_account-Known}

-- What is known of an account stays known.
record Grows (s t : AccountStateStore) : Type 0 where
  opaque_kept :
      (hash : String)
      → is_true (get_state s hash).opaque_login ≡ true
      → is_true (get_state t hash).opaque_login ≡ true
  key_kept :
      (hash : String)
      → is_true (get_state s hash).account_key ≡ true
      → is_true (get_state t hash).account_key ≡ true

Grows-refl : (s : AccountStateStore) → Grows s s
Grows-refl s = record { opaque_kept = λ hash h. h; key_kept = λ hash h. h }

Grows-trans : (s t u : AccountStateStore) → Grows s t → Grows t u → Grows s u
Grows-trans s t u f g = record {
  opaque_kept = λ hash h. g.opaque_kept hash (f.opaque_kept hash h);
  key_kept = λ hash h. g.key_kept hash (f.key_kept hash h);
}

-- A patch says that something was seen, or leaves the field.
abbrev Raises : Option Bool → Type 0
Raises o = (o ≡ none) ⊎ (o ≡ some true)

patched-kept :
    (same : Bool) (old new : Option Bool)
    → Raises new
    → is_true old ≡ true
    → is_true (if same then patched old new else old) ≡ true
patched-kept false old new r h = h
patched-kept true old new (inl e) h = rw e h
patched-kept true old new (inr e) h = rw e refl

update_state-Grows :
    (s : AccountStateStore) (hash : String) (patch : AccountState)
    → Raises patch.opaque_login
    → Raises patch.account_key
    → Grows s (update_state s hash patch)
update_state-Grows s hash patch o a = record {
  opaque_kept = λ other h.
      rw (get_state-update_state s hash other patch).0
        (patched-kept (str_eq hash other) (get_state s other).opaque_login patch.opaque_login o h);
  key_kept = λ other h.
      rw (get_state-update_state s hash other patch).1
        (patched-kept (str_eq hash other) (get_state s other).account_key patch.account_key a h);
}

module _ {K S T : Type 0} (env : Platform K) (kdf : Derivation) (import_key : List ℕ → K)
    (client : Opaque S) (srp_client : Srp T) where
  -- The states that a device can have after `start`: any logins and unlocks of any accounts that end
  -- well, with any servers.
  pub data Later (start : AccountStateStore) : AccountStateStore → Type 0 where
    here : Later start start
    logged_in :
        {s t : AccountStateStore}
        → Later start s
        → (api : PasswordAuthApi) (email password : String) (device : Option String)
          (session : LoginSession) (method : Method)
        → login_with_password client srp_client kdf api email password device s
          ≡ ok (session, method, t)
        → Later start t
    unlocked :
        {s t : AccountStateStore}
        → Later start s
        → (api : AccountKeyApi) (email password : String) (session : LoginSession) (method : Method)
          (ivs : Ivs) (account : UnlockedAccount)
        → unlock_account env kdf import_key client srp_client api email password session method s
            ivs
          ≡ ok (account, t)
        → Later start t

  finish_login-Grows :
      (api : PasswordAuthApi) (email password : String) (device : Option String)
      (s t : AccountStateStore) (login_id : String) (finished : Option String)
      (session : LoginSession) (method : Method)
      → finish_login client srp_client kdf api email password device s login_id finished
        ≡ ok (session, method, t)
      → Grows s t
  unfolding finish_login
  finish_login-Grows api email password device s t login_id (some f) session method h =
      let (given, e, h1) =
        bind_ok (or_throw (api.opaque_login_finish login_id f device) request_failed) _ _ h in
      let same : update_state s (compute_email_hash kdf email)
            (record { opaque_login = some true; account_key = none })
          ≡ t =
        cc h1 in
      subst (Grows s) same (update_state-Grows s _ _ (inr refl) (inl refl))
  finish_login-Grows api email password device s t login_id none session method h =
      elim (Bool-cases (is_true (get_state s (compute_email_hash kdf email)).opaque_login)) [
        | inl seen ↦ absurd (ground arith)
        | inr new ↦
            elim (Result-cases (login_over_srp client srp_client kdf api email password device)) [
              | inr (thrown, failed) ↦ absurd (ground arith)
              | inl (given, over) ↦
                  let same : s ≡ t = ground arith in subst (Grows s) same (Grows-refl s)
            ]
      ]

  login_with_password-Grows :
      (api : PasswordAuthApi) (email password : String) (device : Option String)
      (s t : AccountStateStore) (session : LoginSession) (method : Method)
      → login_with_password client srp_client kdf api email password device s
        ≡ ok (session, method, t)
      → Grows s t
  unfolding login_with_password
  login_with_password-Grows api email password device s t session method h =
      let login = client.start_login password in
      let (started, e, h1) =
        bind_ok
          (or_throw (api.opaque_login_start (compute_email_hash kdf email) login.1) request_failed)
          _ _ h in
      let (checked, c, h2) = bind_ok (or_other (assert_kdf_floor started.kdf_params)) _ _ h1 in
      let (opened, o, h3) =
        bind_ok
          (or_throw (client.finish_login login.0 started.login_response password checked)
            bad_server_response)
          _ _ h2 in
      finish_login-Grows api email password device s t started.login_id opened session method h3

  store_account_key-Grows :
      (api : AccountKeyApi) (email password : String) (session : LoginSession) (method : Method)
      (s t : AccountStateStore) (wrapped : WrappedAccountKey) (private_key : ProtectedKey)
      → store_account_key env kdf import_key client srp_client api email password session method s
          wrapped private_key
        ≡ ok t
      → Grows s t
  unfolding store_account_key
  store_account_key-Grows api email password session srp s t wrapped private_key h =
      elim (Result-cases (
        upgrade_from_srp env kdf import_key client srp_client api email password
          session.session_token wrapped private_key)) [
            | inr (e, failed) ↦ absurd (ground arith)
            | inl (done, e) ↦
                let same : update_state s (compute_email_hash kdf email)
                      (record { opaque_login = some true; account_key = some true })
                    ≡ t =
                  ground arith in
                subst (Grows s) same (update_state-Grows s _ _ (inr refl) (inr refl))
          ]
  store_account_key-Grows api email password session opaque s t wrapped private_key h =
      let (proof, e, h1) =
        bind_ok (prove_password client srp_client kdf _ email password account_key) _ _ h in
      let (taken, h2) =
        guard_ok (api.set_account_key proof wrapped private_key session.session_token) _ _ _ h1 in
      let same : update_state s (compute_email_hash kdf email)
            (record { opaque_login = none; account_key = some true })
          ≡ t =
        cc h2 in
      subst (Grows s) same (update_state-Grows s _ _ (inl refl) (inr refl))

  unlock_account-Grows :
      (api : AccountKeyApi) (email password : String) (session : LoginSession) (method : Method)
      (s t : AccountStateStore) (ivs : Ivs) (account : UnlockedAccount)
      → unlock_account env kdf import_key client srp_client api email password session method s ivs
        ≡ ok (account, t)
      → Grows s t
  unfolding unlock_wrapped unlock_legacy
  unlock_account-Grows api email password session method s t ivs account h =
      let master_key = derive_master_key kdf password email default_kdf_params in
      elim (Option-cases (
        both_texts env kdf import_key session.wrapped_account_key session.wrapped_account_key_iv)) [
          | inr ((wrapped, iv), e) ↦ opened wrapped iv (
              sym (
                unlock_account-some env kdf import_key client srp_client api email password session
                  method s ivs
                  (record { wrapped_account_key = wrapped; wrapped_account_key_iv = iv }) e)
              ∙ h)
          | inl e ↦
              elim (Bool-cases (is_true (get_state s (compute_email_hash kdf email)).account_key)) [
                | inl known ↦ absurd (
                    cc (
                      unlock_account-missing env kdf import_key client srp_client api email password
                          session method s ivs e known,
                      h,
                    ))
                | inr new ↦ made (
                    sym (
                      unlock_account-legacy env kdf import_key client srp_client api email password
                        session method s ivs e new)
                    ∙ h)
              ]
        ]
    where
      opened :
          (wrapped iv : String)
          → unlock_wrapped env kdf import_key client srp_client email
              (derive_master_key kdf password email default_kdf_params)
              session
              s
              (record { wrapped_account_key = wrapped; wrapped_account_key_iv = iv })
            ≡ ok (account, t)
          → Grows s t
      opened wrapped iv g =
          let (key, e, h1) = bind_ok (unwrap_account_key env kdf import_key _ _ email) _ _ g in
          let same : update_state s (compute_email_hash kdf email)
                (record { opaque_login = none; account_key = some true })
              ≡ t =
            cc h1 in
          subst (Grows s) same (update_state-Grows s _ _ (inl refl) (inr refl))

      made :
          unlock_legacy env kdf import_key client srp_client api email password
              (derive_master_key kdf password email default_kdf_params)
              session
              method
              s
              ivs
            ≡ ok (account, t)
          → Grows s t
      made g =
          let (private_key, e, h1) =
            bind_ok (rewrap_private_key env kdf import_key _ _ _ _) _ _ g in
          let (stored, f, h2) =
            bind_ok
              (store_account_key env kdf import_key client srp_client api email password session
                method s _ private_key)
              _ _ h1 in
          let same : stored ≡ t = cc h2 in
          subst (Grows s) same
            (store_account_key-Grows api email password session method s stored _ private_key f)

  Later-Grows : {s t : AccountStateStore} → Later s t → Grows s t
  Later-Grows {s} here = Grows-refl s
  Later-Grows {s} {t} (logged_in {s = m} l api email password device session method h) =
      Grows-trans s m t (Later-Grows l)
        (login_with_password-Grows api email password device m t session method h)
  Later-Grows {s} {t} (unlocked {s = m} l api email password session method ivs account h) =
      Grows-trans s m t (Later-Grows l)
        (unlock_account-Grows api email password session method m t ivs account h)

  -- Once a device has unlocked an account, and whatever logins and unlocks of whatever accounts
  -- followed on it, a login response without the wrapped key is refused, whatever else it holds and
  -- however the login went: legacy keys are not derived again.
  pub unlock_account-stays_wrapped :
      (api later : AccountKeyApi) (email password new_password : String)
      (session new_session : LoginSession) (method new_method : Method)
      (states between now : AccountStateStore) (ivs new_ivs : Ivs) (account : UnlockedAccount)
      → unlock_account env kdf import_key client srp_client api email password session method states
          ivs
        ≡ ok (account, between)
      → Later between now
      → both_texts env kdf import_key new_session.wrapped_account_key
          new_session.wrapped_account_key_iv
        ≡ none
      → unlock_account env kdf import_key client srp_client later email new_password new_session
          new_method now new_ivs
        ≡ err wrap_missing
  unfolding Known
  unlock_account-stays_wrapped api later email password new_password session new_session method
        new_method states between now ivs new_ivs account h l missing =
      unlock_account-missing env kdf import_key client srp_client later email new_password
        new_session new_method now new_ivs missing
        ((Later-Grows l).key_kept (compute_email_hash kdf email) (
          unlock_account-Known env kdf import_key client srp_client api email password session
            method states ivs account between h))

  -- Once a device has logged in to an account over OPAQUE, and whatever logins and unlocks of whatever
  -- accounts followed on it, a login to that account never ends over SRP, whatever the server answers
  -- and with whatever password.
  pub login_with_password-stays_opaque :
      (api later : PasswordAuthApi) (email password new_password : String)
      (device new_device : Option String) (states between now after : AccountStateStore)
      (session new_session : LoginSession) (method : Method)
      → login_with_password client srp_client kdf api email password device states
        ≡ ok (session, opaque, between)
      → Later between now
      → login_with_password client srp_client kdf later email new_password new_device now
        ≡ ok (new_session, method, after)
      → method ≡ opaque
  login_with_password-stays_opaque api later email password new_password device new_device states
        between now after session new_session method first l second =
      let o =
        login_with_password-Opened client kdf srp_client api email password device states session
          opaque between first in
      let n =
        login_with_password-Opened client kdf srp_client later email new_password new_device now
          new_session method after second in
      elim o.how [
        | inr (over_srp, closed, unseen, over, same) ↦ absurd (cc over_srp)
        | inl (e, (f, opened, asked, seen)) ↦ elim n.how [
          | inl (m, rest) ↦ m
          | inr (m, closed, unseen, over, same) ↦
              let kept = (Later-Grows l).opaque_kept (compute_email_hash kdf email) seen in
              absurd (cc (kept, unseen))
        ]
      ]
