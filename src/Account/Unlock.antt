-- ===== src/Account/Unlock.antt =====
-- `unlockAccount` and `upgradeFromSrp` of packages/crypto/src/account-key.ts: how a login opens the
-- account. The keys that are zeroed after use are values here.
use nopass.Prelude.{
  ℕ, ◌≡◌, String, Bool, true, false, not, List, [], ◌∷◌, Option, none, some, Result, ok, err, ◌>>=◌,
  ◌>>◌, guard, or_throw, if◌then◌else◌, get_or_else,
}
use nopass.Types.Api.{KdfParams, default_kdf_params}
use nopass.Platform.{Platform}
use nopass.Trust.{AccountState, AccountStateStore, get_state, update_state, assert_kdf_floor}
use nopass.Account.Kdf.{
  Derivation, RawKeys, derive_master_key, stretch_master_key_all_raw, compute_email_hash,
}
use nopass.Account.Key.{
  AccountKey, WrappedAccountKey, ProtectedKey, AccountError, wrap_missing, bad_server_proof,
  bad_server_response, request_failed, or_other, both_texts, account_smk_bytes, wrap_account_key,
  unwrap_account_key, rewrap_private_key,
}
use nopass.Account.Login.{
  Opaque, Srp, LoginSession, LoginStarted, Method, opaque, srp, Purpose, account_key, PasswordProof,
  is_true, prove_password,
}
pub mod Known
pub mod Taken
pub mod Branches
pub mod Laws

pub record UpgradeStarted : Type 0 where
  pub upgrade_id : String
  pub srp_salt : String
  pub server_public : String
  pub registration_response : String
  pub kdf_params : KdfParams

-- The endpoints, with the session token last: the start of a password proof; the proof with the wrap
-- and the private key, and whether the server took them; email hash, client key and registration; and
-- upgrade id, SRP proof, registration record, wrap and private key, which gives the server's proof.
pub record AccountKeyApi : Type 0 where
  pub proof_start : String → String → Purpose → String → Option LoginStarted
  pub set_account_key : PasswordProof → WrappedAccountKey → ProtectedKey → String → Bool
  pub upgrade_start : String → String → String → String → Option UpgradeStarted
  pub upgrade_finish :
      String → String → String → WrappedAccountKey → ProtectedKey → String → Option String

pub record UnlockedAccount : Type 0 where
  pub account : AccountKey
  pub smk : List ℕ
  pub protected_private_key : Option String
  pub protected_private_key_iv : Option String

-- The random ivs of the two wraps.
pub record Ivs : Type 0 where
  pub account_iv : List ℕ
  pub private_iv : List ℕ

abbrev pub private_key_of : LoginSession → ProtectedKey
private_key_of session = record {
  protected_private_key = session.protected_private_key;
  protected_private_key_iv = session.protected_private_key_iv;
}

module _ {K S T : Type 0} (env : Platform K) (kdf : Derivation) (import_key : List ℕ → K)
    (client : Opaque S) (srp_client : Srp T) where
  unfoldable pub upgrade_from_srp :
      AccountKeyApi
      → String
      → String
      → String
      → WrappedAccountKey
      → ProtectedKey
      → Result AccountError (Unit {0})
  upgrade_from_srp api email password token wrapped private_key = do
    let step1 = srp_client.srp_step1
    let registration = client.start_registration password
    started ←
        or_throw (api.upgrade_start (compute_email_hash kdf email) step1.1 registration.1 token)
          request_failed
    step2 ←
        or_throw
          (srp_client.srp_step2 email password started.srp_salt started.server_public step1.0)
          bad_server_response
    checked ← or_other (assert_kdf_floor started.kdf_params)
    registration_record ←
        or_throw
          (client.finish_registration registration.0 started.registration_response password checked)
          bad_server_response
    finished ←
        or_throw
          (api.upgrade_finish started.upgrade_id step2.0 registration_record wrapped private_key
            token)
          request_failed
    guard (step2.1 finished) bad_server_proof

  -- The server is given the wrap: in the upgrade of an account that logged in over SRP, else under a
  -- fresh proof of the password. The account state after it.
  unfoldable pub store_account_key :
      AccountKeyApi
      → String
      → String
      → LoginSession
      → Method
      → AccountStateStore
      → WrappedAccountKey
      → ProtectedKey
      → Result AccountError AccountStateStore
  store_account_key api email password session srp states wrapped private_key = do
    upgrade_from_srp api email password session.session_token wrapped private_key
    ok (
        update_state states (compute_email_hash kdf email)
          (record { opaque_login = some true; account_key = some true }))
  store_account_key api email password session opaque states wrapped private_key = do
    proof ←
        prove_password client srp_client kdf
          (λ email_hash message purpose.
            api.proof_start email_hash message purpose session.session_token)
          email password account_key
    guard (api.set_account_key proof wrapped private_key session.session_token) request_failed
    ok (
        update_state states (compute_email_hash kdf email)
          (record { opaque_login = none; account_key = some true }))

  -- The account of a login that came with the wrap.
  unfoldable pub unlock_wrapped :
      String
      → List ℕ
      → LoginSession
      → AccountStateStore
      → WrappedAccountKey
      → Result AccountError (UnlockedAccount × AccountStateStore)
  unlock_wrapped email master_key session states wrapped = do
    account ← unwrap_account_key env kdf import_key wrapped master_key email
    ok (
      record {
        account = account;
        smk = account_smk_bytes env kdf import_key account;
        protected_private_key = session.protected_private_key;
        protected_private_key_iv = session.protected_private_key_iv;
      },
      update_state states (compute_email_hash kdf email)
          (record { opaque_login = none; account_key = some true }),
    )

  abbrev pub legacy_account : List ℕ → String → AccountKey
  legacy_account master_key email =
      let legacy = stretch_master_key_all_raw kdf master_key email in
      record { enc_key = legacy.enc_key; mac_key = legacy.mac_key }

  -- The account of a login without the wrap: the keys that the password derives become the account
  -- key, and the server is given their wrap.
  unfoldable pub unlock_legacy :
      AccountKeyApi
      → String
      → String
      → List ℕ
      → LoginSession
      → Method
      → AccountStateStore
      → Ivs
      → Result AccountError (UnlockedAccount × AccountStateStore)
  unlock_legacy api email password master_key session method states ivs = do
    let account = legacy_account master_key email
    let smk = account_smk_bytes env kdf import_key account
    private_key ←
        rewrap_private_key env kdf import_key (private_key_of session)
          (stretch_master_key_all_raw kdf master_key email).smk smk ivs.private_iv
    stored ←
        store_account_key api email password session method states
          (wrap_account_key env kdf import_key account master_key email ivs.account_iv) private_key
    ok (
      record {
        account = account;
        smk = smk;
        protected_private_key = private_key.protected_private_key;
        protected_private_key_iv = private_key.protected_private_key_iv;
      },
      stored,
    )

  unfoldable pub unlock_account :
      AccountKeyApi
      → String
      → String
      → LoginSession
      → Method
      → AccountStateStore
      → Ivs
      → Result AccountError (UnlockedAccount × AccountStateStore)
  unlock_account api email password session method states ivs =
      let master_key = derive_master_key kdf password email default_kdf_params in
      elim (both_texts env kdf import_key session.wrapped_account_key
        session.wrapped_account_key_iv) [
          | some (wrapped, iv) ↦
              unlock_wrapped email master_key session states
                (record { wrapped_account_key = wrapped; wrapped_account_key_iv = iv })
          | none ↦
              if is_true (get_state states (compute_email_hash kdf email)).account_key
              then err wrap_missing
              else unlock_legacy api email password master_key session method states ivs
        ]
