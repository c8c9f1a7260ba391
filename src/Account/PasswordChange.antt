-- ===== src/Account/PasswordChange.antt =====
-- packages/crypto/src/password-change.ts: the account key is opened with the current password and
-- wrapped under the new one.
use nopass.Prelude.{ℕ, String, Bool, List, Option, Result, ok, ◌>>=◌, guard, or_throw}
use nopass.Types.Api.{KdfParams, default_kdf_params}
use nopass.Platform.{Platform}
use nopass.Trust.{assert_kdf_floor}
use nopass.Account.Kdf.{Derivation, derive_master_key, compute_email_hash}
use nopass.Account.Key.{
  WrappedAccountKey, AccountError, incorrect_password, bad_server_response, request_failed,
  or_other, wrap_account_key, unwrap_account_key,
}
use nopass.Account.Login.{Opaque}

pub record ChangeStarted : Type 0 where
  pub change_id : String
  pub login_response : String
  pub registration_response : String
  pub kdf_params : KdfParams
  pub wrapped : WrappedAccountKey

-- `PasswordChangeFinishRequest`
pub record ChangeFinish : Type 0 where
  pub change_id : String
  pub finish_login_request : String
  pub registration_record : String
  pub wrapped : WrappedAccountKey

module _ {K S : Type 0} (env : Platform K) (kdf : Derivation) (import_key : List ℕ → K)
    (client : Opaque S) where
  -- The last request, which the server is asked to take. `start` sends the email hash and the two
  -- messages.
  unfoldable pub prepare_change :
      (String → String → String → Option ChangeStarted)
      → String
      → String
      → String
      → List ℕ
      → Result AccountError ChangeFinish
  prepare_change start email current_password new_password iv = do
    let login = client.start_login current_password
    let registration = client.start_registration new_password
    started ← or_throw (start (compute_email_hash kdf email) login.1 registration.1) request_failed
    checked ← or_other (assert_kdf_floor started.kdf_params)
    opened ←
        or_throw (client.finish_login login.0 started.login_response current_password checked)
          bad_server_response
    proof ← or_throw opened incorrect_password
    registration_record ←
        or_throw
          (client.finish_registration registration.0 started.registration_response new_password
            checked)
          bad_server_response
    account ←
        unwrap_account_key env kdf import_key started.wrapped
          (derive_master_key kdf current_password email default_kdf_params) email
    ok (record {
      change_id = started.change_id;
      finish_login_request = proof;
      registration_record = registration_record;
      wrapped =
          wrap_account_key env kdf import_key account
            (derive_master_key kdf new_password email default_kdf_params) email iv;
    })

  unfoldable pub change_master_password :
      (String → String → String → Option ChangeStarted)
      → (ChangeFinish → Bool)
      → String
      → String
      → String
      → List ℕ
      → Result AccountError (Unit {0})
  change_master_password start finish email current_password new_password iv = do
    request ← prepare_change start email current_password new_password iv
    guard (finish request) request_failed
