-- ===== src/Tests/Account.antt =====
-- Logins, unlocks and a change of the password.
use nopass.Prelude.{
  Bool, str_eq, eq_iff, ◌&&◌, arith, ℕ, ◌≡◌, refl, true, List, [], ◌∷◌, ◌++◌, none, some, ok, err,
  length,
}
use nopass.Prelude.Maps.{lookup, insert}
use nopass.Types.Api.{default_kdf_params}
use nopass.Trust.{AccountStateStore, get_state, update_state, assert_kdf_floor}
use nopass.Account.Kdf.{
  Derivation, HkdfLaws, compute_email_hash, hex, derive_master_key, stretch_master_key_all_raw,
}
use nopass.Account.Key.{
  AccountKey, WrappedAccountKey, AccountError, incorrect_password, wrap_missing, wrap_account_key,
  unwrap_account_key, rewrap_private_key, both_texts,
}
use nopass.Account.Login.{
  Opaque, Srp, LoginSession, LoginStarted, PasswordAuthApi, Method, opaque, srp,
  login_with_password, finish_login, prove_password,
}
use nopass.Account.Unlock.{
  AccountKeyApi, UnlockedAccount, Ivs, unlock_account, unlock_legacy, store_account_key,
}
use nopass.Account.History.{
  here, logged_in, unlocked, unlock_account-stays_wrapped, login_with_password-stays_opaque,
}
use nopass.Account.Unlock.Laws.{unlock_account-again, prepare_change-keeps_key}
use nopass.Account.PasswordChange.{ChangeStarted, ChangeFinish, prepare_change}
use nopass.Tests.Toy.{toy, toy-Base64Laws, toy-CipherLaws}

abbrev sixteen : List ℕ
sixteen = 1 ∷ 1 ∷ 1 ∷ 1 ∷ 1 ∷ 1 ∷ 1 ∷ 1 ∷ 1 ∷ 1 ∷ 1 ∷ 1 ∷ 1 ∷ 1 ∷ 1 ∷ 1 ∷ []

abbrev a_kdf : Derivation
a_kdf = record {
  lower_case = λ s. s;
  encode_text = λ s. [];
  sha256 = λ bs. 10 ∷ [];
  argon2id = λ password salt params. [];
  hkdf = λ key salt info. sixteen ++ sixteen;
}

a_kdf-HkdfLaws : HkdfLaws a_kdf
a_kdf-HkdfLaws = record { hkdf_length = λ key salt info. refl }

abbrev import_key : List ℕ → ℕ
import_key bytes = length bytes

-- Every password opens every response.
abbrev a_client : Opaque ℕ
a_client = record {
  start_login = λ password. (0, "start");
  finish_login = λ state response password params. some (some "finish");
  start_registration = λ password. (0, "register");
  finish_registration = λ state response password params. some "record";
}

abbrev an_srp : Srp ℕ
an_srp = record {
  srp_step1 = (0, "A");
  srp_step2 = λ email password salt key state. some ("M1", λ proof. true);
}

abbrev a_login_session : LoginSession
a_login_session = record {
  session_token = "token";
  protected_private_key = none;
  protected_private_key_iv = none;
  wrapped_account_key = none;
  wrapped_account_key_iv = none;
}

abbrev a_started : LoginStarted
a_started = record { login_id = "l"; login_response = "r"; kdf_params = default_kdf_params }

abbrev an_api : PasswordAuthApi
an_api = record {
  opaque_login_start = λ email_hash message. some a_started;
  opaque_login_finish = λ id message device. some a_login_session;
  srp_init = λ email_hash key. none;
  srp_verify = λ id proof device. some (a_login_session, "M2");
}

abbrev known : AccountStateStore
known = ("0a", record { opaque_login = some true; account_key = none }) ∷ []

abbrev an_account : AccountKey
an_account = record { enc_key = sixteen ++ sixteen; mac_key = sixteen ++ sixteen }

abbrev a_key_api : AccountKeyApi
a_key_api = record {
  proof_start = λ email_hash message purpose token. some a_started;
  set_account_key = λ proof wrapped private_key token. true;
  upgrade_start = λ email_hash key registration token. none;
  upgrade_finish = λ id proof registered wrapped private_key token. none;
}

abbrev no_ivs : Ivs
no_ivs = record { account_iv = 0 ∷ []; private_iv = [] }

abbrev an_unlocked : UnlockedAccount
an_unlocked = record {
  account = an_account;
  smk = sixteen ++ sixteen;
  protected_private_key = none;
  protected_private_key_iv = none;
}

abbrev migrated : AccountStateStore
migrated = ("0a", record { opaque_login = none; account_key = some true }) ∷ []

an_unlocked_ok :
    unlock_account toy a_kdf import_key a_client an_srp a_key_api "me" "pw" a_login_session opaque
      [] no_ivs
    ≡ ok (an_unlocked, migrated)
unfolding unlock_account get_state lookup unlock_legacy rewrap_private_key store_account_key
    prove_password assert_kdf_floor stretch_master_key_all_raw nopass.Account.Key.account_smk_bytes
    update_state insert compute_email_hash hex
an_unlocked_ok = refl

-- The state after a login over OPAQUE and the migration of the account, in either order.
abbrev both_seen : AccountStateStore
both_seen = ("0a", record { opaque_login = some true; account_key = some true }) ∷ []

login_ok :
    login_with_password a_client an_srp a_kdf an_api "me" "pw" none migrated
    ≡ ok (a_login_session, opaque, both_seen)
unfolding login_with_password finish_login assert_kdf_floor compute_email_hash hex get_state
    update_state lookup insert
login_ok = refl

unlock_account-stays_wrapped_example :
    unlock_account toy a_kdf import_key a_client an_srp a_key_api "me" "new" a_login_session srp
      both_seen no_ivs
    ≡ err wrap_missing
unlock_account-stays_wrapped_example =
    unlock_account-stays_wrapped toy a_kdf import_key a_client an_srp a_key_api a_key_api "me" "pw"
      "new" a_login_session a_login_session opaque srp [] migrated both_seen no_ivs no_ivs
      an_unlocked an_unlocked_ok
      (logged_in here an_api "me" "pw" none a_login_session opaque login_ok) refl

first_login_ok :
    login_with_password a_client an_srp a_kdf an_api "me" "pw" none []
    ≡ ok (a_login_session, opaque, known)
unfolding login_with_password finish_login assert_kdf_floor compute_email_hash hex get_state
    update_state lookup insert
first_login_ok = refl

known_unlocked_ok :
    unlock_account toy a_kdf import_key a_client an_srp a_key_api "me" "pw" a_login_session opaque
      known no_ivs
    ≡ ok (an_unlocked, both_seen)
unfolding unlock_account get_state lookup unlock_legacy rewrap_private_key store_account_key
    prove_password assert_kdf_floor stretch_master_key_all_raw nopass.Account.Key.account_smk_bytes
    update_state insert compute_email_hash hex
known_unlocked_ok = refl

both_login_ok :
    login_with_password a_client an_srp a_kdf an_api "me" "new" none both_seen
    ≡ ok (a_login_session, opaque, both_seen)
unfolding login_with_password finish_login assert_kdf_floor compute_email_hash hex get_state
    update_state lookup insert
both_login_ok = refl

-- Between the two logins, the account is migrated.
login_with_password-stays_opaque_example : ◌≡◌ {A = Method} opaque opaque
login_with_password-stays_opaque_example =
    login_with_password-stays_opaque toy a_kdf import_key a_client an_srp an_api an_api "me" "pw"
      "new" none none [] known both_seen both_seen a_login_session a_login_session opaque
      first_login_ok
      (unlocked here a_key_api "me" "pw" a_login_session opaque no_ivs an_unlocked
        known_unlocked_ok)
      both_login_ok

abbrev a_wrap : WrappedAccountKey
a_wrap = wrap_account_key toy a_kdf import_key an_account [] "me" (0 ∷ [])

abbrev wrapped_session : LoginSession
wrapped_session = record a_login_session {
  wrapped_account_key = some a_wrap.wrapped_account_key;
  wrapped_account_key_iv = some a_wrap.wrapped_account_key_iv;
}

abbrev is_a_wrap : WrappedAccountKey → Bool
is_a_wrap w =
    str_eq w.wrapped_account_key a_wrap.wrapped_account_key
    && str_eq w.wrapped_account_key_iv a_wrap.wrapped_account_key_iv

is_a_wrap_lem : (w : WrappedAccountKey) → is_a_wrap w ≡ true → w ≡ a_wrap
is_a_wrap_lem w h =
    let key = (eq_iff w.wrapped_account_key a_wrap.wrapped_account_key).0 (ground arith) in
    let iv = (eq_iff w.wrapped_account_key_iv a_wrap.wrapped_account_key_iv).0 (ground arith) in
    cc (key, iv)

wrapped_given :
    both_texts toy a_kdf import_key wrapped_session.wrapped_account_key
      wrapped_session.wrapped_account_key_iv
    ≡ some (a_wrap.wrapped_account_key, a_wrap.wrapped_account_key_iv)
unfolding wrap_account_key derive_master_key nopass.Account.Key.aad
wrapped_given = refl

-- A server that takes this wrap only.
abbrev a_strict_api : AccountKeyApi
a_strict_api = record a_key_api {
  set_account_key = λ proof wrapped private_key token. is_a_wrap wrapped;
}

strict_ok :
    unlock_account toy a_kdf import_key a_client an_srp a_strict_api "me" "pw" a_login_session
      opaque [] no_ivs
    ≡ ok (an_unlocked, migrated)
unfolding unlock_account get_state lookup unlock_legacy rewrap_private_key store_account_key
    prove_password assert_kdf_floor stretch_master_key_all_raw nopass.Account.Key.account_smk_bytes
    update_state insert compute_email_hash hex wrap_account_key derive_master_key
    nopass.Account.Key.aad
strict_ok = refl

unlock_account-again_example :
    (again : UnlockedAccount) × (after : AccountStateStore) × (unlock_account toy a_kdf import_key
        a_client an_srp a_key_api "me" "pw" wrapped_session opaque [] no_ivs
      ≡ ok (again, after))
    × (again.account ≡ an_account)
    × (again.smk ≡ an_unlocked.smk)
unlock_account-again_example =
    unlock_account-again toy a_kdf import_key a_client an_srp toy-Base64Laws toy-CipherLaws
      a_kdf-HkdfLaws a_strict_api a_key_api "me" "pw" a_login_session wrapped_session opaque opaque
      [] migrated [] no_ivs no_ivs an_unlocked refl strict_ok (omega arith, tt) a_wrap
      (λ proof sent private_key token h. is_a_wrap_lem sent h)
      (λ id proof registration sent private_key token answer h. absurd (cc h)) wrapped_given

abbrev a_change : ChangeStarted
a_change = record {
  change_id = "c";
  login_response = "r";
  registration_response = "s";
  kdf_params = default_kdf_params;
  wrapped = a_wrap;
}

abbrev a_finish : ChangeFinish
a_finish = record {
  change_id = "c";
  finish_login_request = "finish";
  registration_record = "record";
  wrapped = a_wrap;
}

prepare_change-keeps_key_example :
    unwrap_account_key toy a_kdf import_key a_wrap
      (derive_master_key a_kdf "new" "me" default_kdf_params)
      "me"
    ≡ ok an_account
unfolding prepare_change unwrap_account_key nopass.Account.Key.open_wrap wrap_account_key
    nopass.Account.Key.aad assert_kdf_floor
prepare_change-keeps_key_example =
    prepare_change-keeps_key toy a_kdf import_key a_client an_srp toy-Base64Laws toy-CipherLaws
      a_kdf-HkdfLaws (λ email_hash login registration. some a_change) "me" "old" "new" (0 ∷ [])
      a_finish a_change an_account refl refl (record { enc_length = refl; mac_length = refl })
      (omega arith, tt) refl
