-- ===== src/Tests/Secrets.antt =====
-- SRP, recovery, and secrets of the command line.
use nopass.Prelude.{
  ℕ, ◌%◌, ◌^◌, ◌≡◌, ◌≢◌, ◌↔◌, refl, arith, String, true, false, List, [], ◌∷◌, ◌++◌, Option, none,
  some, Result, ok, err, All, length, str_eq, eq_iff,
}
use nopass.Account.Kdf.{Derivation}
use nopass.Srp.{Group, SrpRegistrationMaterial, SrpStep1Result, SrpStep2Result, srp_step2}
use nopass.Srp.Laws.{DigestLaws, server_public, Agreed}
use nopass.Srp.Login.{srp_login-Agreed}
use nopass.Srp.Numbers.{big_int_to_bytes}
use nopass.Prelude.Bytes.{IsByte}
use nopass.Types.Api.{default_kdf_params}
use nopass.Types.Vault.{VaultItemPlaintext, LoginItem}
use nopass.Srp.{verify_server_proof}
use nopass.Srp.Laws.{verify_server_proof_iff}
use nopass.Srp.Numbers.{mod_pow}
use nopass.Srp.Numbers.ModPow.{mod_pow_lem}
use nopass.Recovery.Code.{generate_recovery_code, is_separator}
use nopass.Recovery.Code.Reading.{Typed}
use nopass.Recovery.Kit.{CodeText, derive_recovery_keys}
use nopass.Recovery.Kit.Laws.{
  generate_recovery_code-injective, generate_recovery_code-Spells, derive_recovery_keys-Typed,
}
use nopass.Account.Kdf.{HkdfLaws, RawKeys}
use nopass.Account.Key.{AccountError}
use nopass.Account.Login.{Opaque, Srp, create_opaque_registration}
use nopass.Recovery.Complete.{
  RecoveryInit, RecoveryCompleteRequest, Fresh, open_private_key, rewrapped_key, prepare_recovery,
}
use nopass.Recovery.Complete.Laws.{Recovered, prepare_recovery-Recovered}
use nopass.Cli.Refs.{Cases, malformed, format_reference, resolve_reference}
use nopass.Cli.Adopt.{
  ExtractedSecret, AdoptResult, is_valid_name, default_item_name, name_or, rewrite_line,
  adopt_secret,
}
use nopass.Cli.Adopt.Laws.{resolve-adopt_secret, adopt_secret-empty_name}
use nopass.Tests.Extension.{a_login}
use nopass.Tests.Toy.{toy, toy-Base64Laws, toy-CipherLaws, toy_encrypt, btoa}

-- A digest that is always the number 1, of 32 bytes.
abbrev sixteen_zeros : List ℕ
sixteen_zeros = 0 ∷ 0 ∷ 0 ∷ 0 ∷ 0 ∷ 0 ∷ 0 ∷ 0 ∷ 0 ∷ 0 ∷ 0 ∷ 0 ∷ 0 ∷ 0 ∷ 0 ∷ 0 ∷ []

abbrev digest_one : List ℕ
digest_one = sixteen_zeros ++ (0 ∷ 0 ∷ 0 ∷ 0 ∷ 0 ∷ 0 ∷ 0 ∷ 0 ∷ 0 ∷ 0 ∷ 0 ∷ 0 ∷ 0 ∷ 0 ∷ 0 ∷ 1 ∷ [])

abbrev pub plain_kdf : Derivation
plain_kdf = record {
  lower_case = λ s. s;
  encode_text = λ s. [];
  sha256 = λ bs. digest_one;
  argon2id = λ password salt params. digest_one;
  hkdf = λ key salt info. digest_one;
}

plain_kdf-DigestLaws : DigestLaws plain_kdf
plain_kdf-DigestLaws = record { digest_length = λ bs. refl; digest_bytes = λ bs. omega arith }

plain_kdf-HkdfLaws : HkdfLaws plain_kdf
plain_kdf-HkdfLaws = record { hkdf_length = λ key salt info. refl }

not_empty : (s : String) → str_eq s "" ≡ false → s ≢ ""
not_empty s h = λ e. ground (arith, h, (eq_iff s "").1 e)

abbrev small_group : Group
small_group = record { n = 23; g = 5; n_bytes = 23 ∷ [] }

abbrev material : SrpRegistrationMaterial
material = record { srp_salt = btoa (9 ∷ []); srp_verifier = btoa (5 ∷ []) }

-- The random key is 6, and 5 ^ 6 is 8 in the group.
abbrev step1 : SrpStep1Result
step1 = record {
  client_public_a = btoa (8 ∷ []);
  private_session = record { public_key = 0 ∷ 8 ∷ []; secret = 0 ∷ 6 ∷ [] };
}

srp_login-Agreed_example :
    (step2 : SrpStep2Result) × (srp_step2 toy plain_kdf small_group "me" "pw" material.srp_salt
        (btoa (big_int_to_bytes (server_public small_group 1 5 2)))
        step1.private_session
      ≡ ok step2)
    × Agreed toy plain_kdf small_group 8 5 2 1 step2
unfolding nopass.Srp.generate_srp_registration nopass.Srp.srp_step1 nopass.Srp.compute_k
    nopass.Srp.big_int nopass.Srp.derive_x nopass.Srp.hex_to_base64 nopass.Srp.Numbers.mod_pow
    nopass.Srp.Numbers.bytes_to_big_int nopass.Srp.Numbers.big_int_to_bytes
    nopass.Srp.Numbers.hex_to_bytes nopass.Srp.Numbers.bytes_to_hex nopass.Srp.Numbers.hex_from
srp_login-Agreed_example =
    srp_login-Agreed toy plain_kdf small_group toy-Base64Laws plain_kdf-DigestLaws (omega arith)
      "me" "pw" (9 ∷ []) (6 ∷ []) 2 material step1 8 5 1 (omega arith) refl refl refl refl refl
      (omega arith)

abbrev step2 : SrpStep2Result
step2 = record { client_proof_m1 = ""; session_key = 1 ∷ []; a_bytes = 2 ∷ []; m1_bytes = 3 ∷ [] }

verify_server_proof_iff_example :
    (verify_server_proof toy plain_kdf small_group step2 (btoa digest_one) ≡ ok tt)
    ↔ (digest_one ≡ digest_one)
verify_server_proof_iff_example =
    verify_server_proof_iff toy plain_kdf small_group toy-Base64Laws plain_kdf-DigestLaws step2
      digest_one (omega arith)

mod_pow_lem_example : mod_pow 5 6 23 ≡ 5 ^ 6 % 23
mod_pow_lem_example = mod_pow_lem 5 6 23 (omega arith)

abbrev random_bytes : List ℕ
random_bytes = 255 ∷ 17 ∷ 90 ∷ 3 ∷ sixteen_zeros

random_bytes-IsByte : All IsByte random_bytes
random_bytes-IsByte = omega arith

abbrev plain_text : CodeText
plain_text = record { upper_case = λ s. s; encode = λ s. s }

generate_recovery_code-injective_example : random_bytes ≡ random_bytes
generate_recovery_code-injective_example =
    generate_recovery_code-injective (λ s. s) random_bytes random_bytes random_bytes-IsByte
      random_bytes-IsByte refl refl refl refl refl

abbrev import_key : List ℕ → ℕ
import_key bytes = length bytes

space_separates : is_separator b' ' ≡ true
unfolding is_separator
space_separates = refl

derive_recovery_keys-Typed_example :
    derive_recovery_keys toy plain_kdf import_key plain_text
      (b' ' ∷ generate_recovery_code random_bytes)
      "me"
      default_kdf_params
    ≡ derive_recovery_keys toy plain_kdf import_key plain_text
        (generate_recovery_code random_bytes)
        "me"
        default_kdf_params
derive_recovery_keys-Typed_example =
    derive_recovery_keys-Typed toy plain_kdf import_key plain_text random_bytes
      (b' ' ∷ generate_recovery_code random_bytes) "me" default_kdf_params random_bytes-IsByte refl
      refl
      (Typed.separator b' ' space_separates
        (generate_recovery_code-Spells random_bytes random_bytes-IsByte refl).typed)

abbrev an_opaque : Opaque ℕ
an_opaque = record {
  start_login = λ password. (0, "start");
  finish_login = λ state response password params. some (some "finish");
  start_registration = λ password. (0, "register");
  finish_registration = λ state response password params. some "record";
}

abbrev no_srp : Srp ℕ
no_srp = record { srp_step1 = (0, "A"); srp_step2 = λ email password salt key state. none }

abbrev kit_keys : RawKeys
kit_keys = record { smk = digest_one; enc_key = digest_one; mac_key = digest_one }

abbrev an_init : RecoveryInit
an_init = record {
  recovery_token = "token";
  protected_key = record {
    protected_private_key = some (btoa (toy_encrypt [] (7 ∷ [])));
    protected_private_key_iv = some (btoa []);
  };
}

abbrev some_randomness : Fresh
some_randomness = record {
  wrap_iv = 1 ∷ [];
  symmetric_iv = 2 ∷ [];
  private_iv = 3 ∷ [];
  kit_iv = 4 ∷ [];
  code_bytes = random_bytes;
}

abbrev a_start : String → String → String → Option String
a_start token email_hash request = some "response"

abbrev request_or : Result AccountError RecoveryCompleteRequest → RecoveryCompleteRequest
request_or (ok r) = r
request_or (err e) = record {
  recovery_token = "";
  registration_record = "";
  protected_symmetric_key = "";
  protected_symmetric_key_iv = "";
  private_key = record { protected_private_key = none; protected_private_key_iv = none };
  wrapped = record { wrapped_account_key = ""; wrapped_account_key_iv = "" };
  recovery_auth_key = "";
  recovery_blob = "";
  recovery_blob_iv = "";
}

abbrev a_request : RecoveryCompleteRequest
a_request = request_or (
    prepare_recovery toy plain_kdf import_key an_opaque no_srp plain_text a_start "me" "new" an_init
      kit_keys some_randomness)

prepared :
    prepare_recovery toy plain_kdf import_key an_opaque no_srp plain_text a_start "me" "new" an_init
      kit_keys some_randomness
    ≡ ok a_request
unfolding prepare_recovery rewrapped_key open_private_key create_opaque_registration
    nopass.Envelope.Legacy.decrypt_bytes nopass.Trust.assert_kdf_floor
prepared = refl

prepare_recovery-Recovered_example :
    Recovered toy plain_kdf import_key an_opaque no_srp plain_text toy-Base64Laws toy-CipherLaws
      plain_kdf-HkdfLaws "me" "new" an_init kit_keys some_randomness a_request
prepare_recovery-Recovered_example =
    prepare_recovery-Recovered toy plain_kdf import_key an_opaque no_srp plain_text toy-Base64Laws
      toy-CipherLaws plain_kdf-HkdfLaws a_start "me" "new" an_init kit_keys some_randomness
      a_request (record { enc_length = refl; mac_length = refl })
      (record {
        wrap_bytes = omega arith;
        symmetric_bytes = omega arith;
        private_bytes = omega arith;
        kit_bytes = omega arith;
      })
      prepared

-- Names and keys without a change of case.
abbrev plain_cases : Cases
plain_cases = record { upper_case = λ s. s; lower_case = λ s. s }

abbrev a_secret : ExtractedSecret
a_secret = record {
  value = "sk-1";
  assignment = some (record { env_key = "KEY"; export_prefix = true; trailing = "" });
}

abbrev adopted : Option String → LoginItem
adopted name = record {
  name = name_or name "app KEY";
  tags = none;
  username = "";
  password = "sk-1";
  urls = [];
  totp = none;
  notes = some "Moved from app/.env:1";
  custom_fields = [];
  passkey = none;
}

abbrev adopted_as : String → AdoptResult
adopted_as name = record {
  item_name = name;
  reference = format_reference name "password";
  rewritten = some (
      rewrite_line (record { env_key = "KEY"; export_prefix = true; trailing = "" })
        (format_reference name "password"));
}

resolve-adopt_secret_example :
    resolve_reference plain_cases
      (VaultItemPlaintext.login a_login ∷ VaultItemPlaintext.login (adopted none) ∷ [])
      (format_reference "app KEY" "password")
    ≡ ok "sk-1"
unfolding adopt_secret is_valid_name default_item_name
resolve-adopt_secret_example =
    resolve-adopt_secret plain_cases a_secret none "app" ".env:1" "app/.env:1"
      (VaultItemPlaintext.login a_login ∷ []) [] ("site" ∷ []) (λ i. true) (adopted none)
      (adopted_as "app KEY") refl refl (not_empty "app KEY" refl) (not_empty "sk-1" refl) refl

adopt_secret-empty_name_example :
    (true ≡ true)
    × (resolve_reference plain_cases [] (format_reference "" "password") ≡ err malformed)
unfolding adopt_secret is_valid_name
adopt_secret-empty_name_example =
    adopt_secret-empty_name plain_cases a_secret "app" ".env:1" "app/.env:1" [] (λ i. true)
      (adopted (some "")) (adopted_as "") [] refl
