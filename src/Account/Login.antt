-- ===== src/Account/Login.antt =====
-- packages/crypto/src/password-login.ts: login with the master password over OPAQUE, or over SRP for
-- an account that this device has not seen use OPAQUE. The OPAQUE library, the SRP client and the
-- server are parameters.
use nopass.Prelude.{
  ℕ, ◌≡◌, String, Bool, true, false, not, List, [], ◌∷◌, Option, none, some, Result, ok, err, ◌>>=◌,
  ◌>>◌, guard, or_throw, str_eq, if◌then◌else◌,
}
use nopass.Types.Api.{KdfParams, default_kdf_params}
use nopass.Errors.{Error}
use nopass.Trust.{AccountState, AccountStateStore, get_state, update_state, assert_kdf_floor}
use nopass.Account.Kdf.{Derivation, compute_email_hash}
use nopass.Account.Key.{
  AccountError, incorrect_password, bad_server_proof, bad_server_response, request_failed, or_other,
}
pub mod Laws
pub mod Downgrade

-- `opaque.client`: the state that the client keeps and the request that it sends, and the last
-- message, which a login has only if the password opens the response. A call that throws on a
-- malformed response is nothing. The stretching takes the account's parameters.
pub record Opaque (S : Type 0) : Type 0 where
  pub start_login : String → S × String
  pub finish_login : S → String → String → KdfParams → Option (Option String)
  pub start_registration : String → S × String
  pub finish_registration : S → String → String → KdfParams → Option String

-- srp-client.ts: the private session and the public key of the client; then the proof of the client
-- and the test of the server's, from email, password, salt and server key, if these can be used.
pub record Srp (S : Type 0) : Type 0 where
  pub srp_step1 : S × String
  pub srp_step2 : String → String → String → String → S → Option (String × (String → Bool))

pub record LoginSession : Type 0 where
  pub session_token : String
  pub protected_private_key : Option String
  pub protected_private_key_iv : Option String
  pub wrapped_account_key : Option String
  pub wrapped_account_key_iv : Option String

pub record LoginStarted : Type 0 where
  pub login_id : String
  pub login_response : String
  pub kdf_params : KdfParams

pub record SrpStarted : Type 0 where
  pub session_id : String
  pub srp_salt : String
  pub server_public : String

-- The endpoints, nothing if the request fails: email hash and request; login id, last message and
-- device; email hash and client key; session, proof and device. The last gives the server's proof too.
pub record PasswordAuthApi : Type 0 where
  pub opaque_login_start : String → String → Option LoginStarted
  pub opaque_login_finish : String → String → Option String → Option LoginSession
  pub srp_init : String → String → Option SrpStarted
  pub srp_verify : String → String → Option String → Option (LoginSession × String)

pub data Purpose : Type 0 where
  account_key identity_key : Purpose

pub record PasswordProof : Type 0 where
  pub proof_id : String
  pub finish_login_request : String

pub data Method : Type 0 where
  opaque srp : Method

-- `state.opaque` of an account that is known
abbrev pub is_true : Option Bool → Bool
is_true none = false
is_true (some b) = b

module _ {S T : Type 0} (client : Opaque S) (srp_client : Srp T) (kdf : Derivation) where
  -- `opaque.client.finishRegistration` throws on a response that it cannot read.
  unfoldable pub create_opaque_registration :
      String → KdfParams → (String → Option String) → Result AccountError String
  create_opaque_registration password params start = do
    let registration = client.start_registration password
    response ← or_throw (start registration.1) request_failed
    checked ← or_other (assert_kdf_floor params)
    or_throw (client.finish_registration registration.0 response password checked)
        bad_server_response

  -- The part over SRP.
  unfoldable pub login_over_srp :
      PasswordAuthApi → String → String → Option String → Result AccountError LoginSession
  login_over_srp api email password device = do
    let step1 = srp_client.srp_step1
    init ← or_throw (api.srp_init (compute_email_hash kdf email) step1.1) request_failed
    step2 ←
        or_throw (srp_client.srp_step2 email password init.srp_salt init.server_public step1.0)
          bad_server_response
    verified ← or_throw (api.srp_verify init.session_id step2.0 device) request_failed
    guard (step2.1 verified.1) bad_server_proof
    ok verified.0

  -- What follows the answer of the OPAQUE server: `finished` is the last message, if the password
  -- opened it.
  unfoldable pub finish_login :
      PasswordAuthApi
      → String
      → String
      → Option String
      → AccountStateStore
      → String
      → Option String
      → Result AccountError (LoginSession × Method × AccountStateStore)
  finish_login api email password device states login_id (some finished) = do
    session ← or_throw (api.opaque_login_finish login_id finished device) request_failed
    ok (
      session,
      opaque,
      update_state states (compute_email_hash kdf email)
          (record { opaque_login = some true; account_key = none }),
    )
  finish_login api email password device states login_id none =
      if is_true (get_state states (compute_email_hash kdf email)).opaque_login
      then err incorrect_password
      else elim (login_over_srp api email password device) [
        | err e ↦ err e
        | ok session ↦ ok (session, srp, states)
      ]

  unfoldable pub login_with_password :
      PasswordAuthApi
      → String
      → String
      → Option String
      → AccountStateStore
      → Result AccountError (LoginSession × Method × AccountStateStore)
  login_with_password api email password device states = do
    let login = client.start_login password
    started ←
        or_throw (api.opaque_login_start (compute_email_hash kdf email) login.1) request_failed
    checked ← or_other (assert_kdf_floor started.kdf_params)
    opened ←
        or_throw (client.finish_login login.0 started.login_response password checked)
          bad_server_response
    finish_login api email password device states started.login_id opened

  -- `proof_start` is the request with the email hash, the message and the purpose.
  unfoldable pub prove_password :
      (String → String → Purpose → Option LoginStarted)
      → String
      → String
      → Purpose
      → Result AccountError PasswordProof
  prove_password proof_start email password purpose = do
    let login = client.start_login password
    started ← or_throw (proof_start (compute_email_hash kdf email) login.1 purpose) request_failed
    checked ← or_other (assert_kdf_floor started.kdf_params)
    opened ←
        or_throw (client.finish_login login.0 started.login_response password checked)
          bad_server_response
    finished ← or_throw opened incorrect_password
    ok (record { proof_id = started.login_id; finish_login_request = finished })
