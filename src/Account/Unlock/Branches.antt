-- ===== src/Account/Unlock/Branches.antt =====
-- What an unlock does with the wrapped key and without.
use nopass.Prelude.{ℕ, ◌≡◌, refl, String, true, false, none, some, ok, err, List}
use nopass.Types.Api.{default_kdf_params}
use nopass.Platform.{Platform}
use nopass.Trust.{AccountStateStore, get_state, update_state}
use nopass.Account.Kdf.{Derivation, derive_master_key, compute_email_hash}
use nopass.Account.Key.{
  AccountKey, WrappedAccountKey, wrap_missing, both_texts, account_smk_bytes, unwrap_account_key,
}
use nopass.Account.Login.{Opaque, Srp, LoginSession, Method, is_true}
use nopass.Account.Unlock.{AccountKeyApi, Ivs, unlock_wrapped, unlock_legacy, unlock_account}

module _ {K S T : Type 0} (env : Platform K) (kdf : Derivation) (import_key : List ℕ → K)
    (client : Opaque S) (srp_client : Srp T) (api : AccountKeyApi) (email password : String)
    (session : LoginSession) (method : Method) (states : AccountStateStore) (ivs : Ivs) where
  -- An unlock of a login that came with the wrap `w`, and of one that came without.
  pub unlock_account-some :
      (w : WrappedAccountKey)
      → both_texts env kdf import_key session.wrapped_account_key session.wrapped_account_key_iv
        ≡ some (w.wrapped_account_key, w.wrapped_account_key_iv)
      → unlock_account env kdf import_key client srp_client api email password session method states
          ivs
        ≡ unlock_wrapped env kdf import_key client srp_client email
            (derive_master_key kdf password email default_kdf_params)
            session
            states
            w
  unfolding unlock_account
  unlock_account-some w e = rw (unlock_account, e) refl

  pub unlock_account-missing :
      both_texts env kdf import_key session.wrapped_account_key session.wrapped_account_key_iv
        ≡ none
      → is_true (get_state states (compute_email_hash kdf email)).account_key ≡ true
      → unlock_account env kdf import_key client srp_client api email password session method states
          ivs
        ≡ err wrap_missing
  unfolding unlock_account
  unlock_account-missing e known = rw (unlock_account, e, known) refl

  pub unlock_account-legacy :
      both_texts env kdf import_key session.wrapped_account_key session.wrapped_account_key_iv
        ≡ none
      → is_true (get_state states (compute_email_hash kdf email)).account_key ≡ false
      → unlock_account env kdf import_key client srp_client api email password session method states
          ivs
        ≡ unlock_legacy env kdf import_key client srp_client api email password
            (derive_master_key kdf password email default_kdf_params)
            session
            method
            states
            ivs
  unfolding unlock_account
  unlock_account-legacy e new = rw (unlock_account, e, new) refl

  pub unlock_wrapped_ok :
      (w : WrappedAccountKey) (account : AccountKey)
      → unwrap_account_key env kdf import_key w
          (derive_master_key kdf password email default_kdf_params)
          email
        ≡ ok account
      → unlock_wrapped env kdf import_key client srp_client email
          (derive_master_key kdf password email default_kdf_params)
          session
          states
          w
        ≡ ok (
          record {
            account = account;
            smk = account_smk_bytes env kdf import_key account;
            protected_private_key = session.protected_private_key;
            protected_private_key_iv = session.protected_private_key_iv;
          },
          update_state states
              (compute_email_hash kdf email)
              (record { opaque_login = none; account_key = some true }),
        )
  unfolding unlock_wrapped
  unlock_wrapped_ok w account e = rw (unlock_wrapped, e) refl
