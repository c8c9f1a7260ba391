-- ===== src/Account/Unlock/Known.antt =====
-- Legacy keys are not derived again.
use nopass.Prelude.{
  ℕ, ◌≡◌, refl, ap, sym, ◌∙◌, subst, inl, inr, String, Bool, true, Option, none, some, ok, arith,
  str_eq_self, Option-cases, Result-cases, Bool-cases, bind_ok, guard_ok, List,
}
use nopass.Types.Api.{default_kdf_params}
use nopass.Platform.{Platform}
use nopass.Trust.{AccountState, AccountStateStore, get_state, update_state}
use nopass.Trust.Laws.{get_state-update_state}
use nopass.Account.Kdf.{
  Derivation, derive_master_key, stretch_master_key_all_raw, compute_email_hash,
}
use nopass.Account.Key.{
  WrappedAccountKey, ProtectedKey, both_texts, account_smk_bytes, wrap_account_key,
  unwrap_account_key, rewrap_private_key,
}
use nopass.Account.Login.{
  Opaque, Srp, LoginSession, Method, opaque, srp, is_true, prove_password, account_key,
}
use nopass.Account.Unlock.{
  AccountKeyApi, UnlockedAccount, Ivs, private_key_of, upgrade_from_srp, store_account_key,
  unlock_wrapped, legacy_account, unlock_legacy, unlock_account,
}
use nopass.Account.Unlock.Branches.{
  unlock_account-some, unlock_account-missing, unlock_account-legacy,
}

module _ {K S T : Type 0} (env : Platform K) (kdf : Derivation) (import_key : List ℕ → K)
    (client : Opaque S) (srp_client : Srp T) where
  -- After an unlock, the device knows that the account has a wrapped key.
  unfoldable pub Known : AccountStateStore → String → Type 0
  Known states email = is_true (get_state states (compute_email_hash kdf email)).account_key ≡ true

  updated :
      (states : AccountStateStore) (email : String) (seen : Option Bool)
      → Known
          (update_state states
            (compute_email_hash kdf email)
            (record { opaque_login = seen; account_key = some true }))
          email
  unfolding Known
  updated states email seen =
      let hash = compute_email_hash kdf email in
      let patch : AccountState = record { opaque_login = seen; account_key = some true } in
      let e = (get_state-update_state states hash hash patch).1 in rw (e, str_eq_self hash) refl

  store_account_key-Known :
      (api : AccountKeyApi) (email password : String) (session : LoginSession) (method : Method)
      (states after : AccountStateStore) (wrapped : WrappedAccountKey) (private_key : ProtectedKey)
      → store_account_key env kdf import_key client srp_client api email password session method
          states wrapped private_key
        ≡ ok after
      → Known after email
  unfolding store_account_key
  store_account_key-Known api email password session srp states after wrapped private_key h =
      elim (Result-cases (
        upgrade_from_srp env kdf import_key client srp_client api email password
          session.session_token wrapped private_key)) [
            | inr (e, failed) ↦ absurd (ground arith)
            | inl (done, e) ↦
                let same : update_state states (compute_email_hash kdf email)
                      (record { opaque_login = some true; account_key = some true })
                    ≡ after =
                  ground arith in
                subst (λ (a : AccountStateStore). Known a email) same
                  (updated states email (some true))
          ]
  store_account_key-Known api email password session opaque states after wrapped private_key h =
      let (proof, e, h1) =
        bind_ok
          (prove_password client srp_client kdf
            (λ email_hash message purpose.
              api.proof_start email_hash message purpose session.session_token)
            email password account_key)
          _ _ h in
      let (taken, h2) =
        guard_ok (api.set_account_key proof wrapped private_key session.session_token) _ _ _ h1 in
      let same : update_state states (compute_email_hash kdf email)
            (record { opaque_login = none; account_key = some true })
          ≡ after =
        cc h2 in
      subst (λ (a : AccountStateStore). Known a email) same (updated states email none)

  module _ (api : AccountKeyApi) (email password : String) (session : LoginSession)
      (method : Method) (states : AccountStateStore) (ivs : Ivs) where
    -- What an unlock without the wrap gives: the keys that the password derives, on a device that did
    -- not know of a wrap, once the server has the wrap of those keys.
    pub unlock_legacy-Known :
        (unlocked : UnlockedAccount) (after : AccountStateStore)
        → unlock_legacy env kdf import_key client srp_client api email password
            (derive_master_key kdf password email default_kdf_params)
            session
            method
            states
            ivs
          ≡ ok (unlocked, after)
        → (unlocked.account
            ≡ legacy_account env kdf import_key client srp_client
                (derive_master_key kdf password email default_kdf_params)
                email)
          × (unlocked.smk ≡ account_smk_bytes env kdf import_key unlocked.account)
          × Known after email
    unfolding unlock_legacy
    unlock_legacy-Known unlocked after h =
        let master_key = derive_master_key kdf password email default_kdf_params in
        let account = legacy_account env kdf import_key client srp_client master_key email in
        let smk = account_smk_bytes env kdf import_key account in
        let (private_key, e, h1) =
          bind_ok
            (rewrap_private_key env kdf import_key (private_key_of session)
              (stretch_master_key_all_raw kdf master_key email).smk smk ivs.private_iv)
            _ _ h in
        let (stored, f, h2) =
          bind_ok
            (store_account_key env kdf import_key client srp_client api email password session
              method states
              (wrap_account_key env kdf import_key account master_key email ivs.account_iv)
              private_key)
            _ _ h1 in
        let same : stored ≡ after = cc h2 in
        let made : record {
          account = account;
          smk = smk;
          protected_private_key = private_key.protected_private_key;
          protected_private_key_iv = private_key.protected_private_key_iv;
        }
            ≡ unlocked =
          cc h2 in
        (
          ap (λ (u : UnlockedAccount). u.account) (sym made),
          subst (λ (u : UnlockedAccount). u.smk ≡ account_smk_bytes env kdf import_key u.account)
              made refl,
          subst (λ (a : AccountStateStore). Known a email) same
              (store_account_key-Known api email password session method states stored _ private_key
                f),
        )

    unlock_wrapped-Known :
        (w : WrappedAccountKey) (unlocked : UnlockedAccount) (after : AccountStateStore)
        → unlock_wrapped env kdf import_key client srp_client email
            (derive_master_key kdf password email default_kdf_params)
            session
            states
            w
          ≡ ok (unlocked, after)
        → Known after email
    unfolding unlock_wrapped
    unlock_wrapped-Known w unlocked after h =
        let (account, e, h1) =
          bind_ok
            (unwrap_account_key env kdf import_key w
              (derive_master_key kdf password email default_kdf_params) email)
            _ _ h in
        let same : update_state states (compute_email_hash kdf email)
              (record { opaque_login = none; account_key = some true })
            ≡ after =
          cc h1 in
        subst (λ (a : AccountStateStore). Known a email) same (updated states email none)

    pub unlock_account-Known :
        (unlocked : UnlockedAccount) (after : AccountStateStore)
        → unlock_account env kdf import_key client srp_client api email password session method
            states ivs
          ≡ ok (unlocked, after)
        → Known after email
    unlock_account-Known unlocked after h =
        elim (Option-cases (
          both_texts env kdf import_key session.wrapped_account_key
            session.wrapped_account_key_iv)) [
              | inr ((wrapped, iv), e) ↦
                  let w : WrappedAccountKey = record {
                    wrapped_account_key = wrapped;
                    wrapped_account_key_iv = iv;
                  } in
                  unlock_wrapped-Known w unlocked after (
                    sym (
                      unlock_account-some env kdf import_key client srp_client api email password
                        session method states ivs w e)
                    ∙ h)
              | inl e ↦
                  elim (Bool-cases
                    (is_true (get_state states (compute_email_hash kdf email)).account_key)) [
                      | inl known ↦ absurd (
                          cc (
                            unlock_account-missing env kdf import_key client srp_client api email
                                password session method states ivs e known,
                            h,
                          ))
                      | inr new ↦
                          (unlock_legacy-Known unlocked after (
                            sym (
                              unlock_account-legacy env kdf import_key client srp_client api email
                                password session method states ivs e new)
                            ∙ h)).2
                    ]
            ]
