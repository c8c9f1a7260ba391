-- ===== src/Identity/Bundle.antt =====
-- Key bundles of packages/crypto/src/identity.ts: `deriveIdentityKey`, `signKeyBundle`,
-- `verifyKeyBundle` and `safetyNumber`. What `try … catch` turns into `false` is a default here.
use Prim.Native.String
use nopass.Prelude.{
  ℕ, zero, suc, ◌*◌, ◌/◌, ◌%◌, ◌≡◌, String, Bool, true, false, not, ◌||◌, List, [], ◌∷◌, ◌++◌,
  Option, none, some, Result, ok, err, ◌>>=◌, or_throw, take, drop, str_eq, if◌then◌else◌,
  get_or_else,
}
use nopass.Prelude.Bytes.{of_be}
use nopass.Prelude.Text.{hex_char}
use nopass.Types.Api.{KeyBundle}
use nopass.Types.Vault.{EncryptedBlob}
use nopass.Errors.{Error, missing_modulus}
use nopass.Platform.{Platform, to_base64, from_base64}
use nopass.Uuid.{uuid_bytes}
use nopass.Envelope.Legacy.{decrypt_bytes}
pub mod Laws

pub record IdentityKey : Type 0 where
  pub secret_key : List ℕ
  pub public_key : String
  pub rsa_public_key : String

-- `!s` for a text that may be null
abbrev pub is_missing : Option String → Bool
is_missing none = true
is_missing (some s) = str_eq s ""

abbrev pub or_empty : Option String → String
or_empty none = ""
or_empty (some s) = s

-- What a check gives when throwing counts as failing.
abbrev pub succeeds : Result Error Bool → Bool
succeeds (ok b) = b
succeeds (err e) = false

iterate : ℕ → (List ℕ → List ℕ) → List ℕ → List ℕ
iterate zero f x = x
iterate (suc n) f x = iterate n f (f x)

-- `String(n).padStart(5, "0")` for a number below 100000
five_digits : ℕ → String
five_digits n = String.◌++◌ (hex_char (n / 10000 % 10)) (
    String.◌++◌ (hex_char (n / 1000 % 10)) (
      String.◌++◌ (hex_char (n / 100 % 10))
        (String.◌++◌ (hex_char (n / 10 % 10)) (hex_char (n % 10)))))

-- The five bytes of group `g` as a number, and its last five digits.
group : List ℕ → ℕ → ℕ
group digest g = of_be (take 5 (drop (g * 5) digest)) % 100000

-- Groups from `g` on, each behind a space.
groups_from : List ℕ → ℕ → ℕ → String
unfolding five_digits group
groups_from digest zero g = ""
groups_from digest (suc n) g =
    String.◌++◌ " " (String.◌++◌ (five_digits (group digest g)) (groups_from digest n (suc g)))

module _ {K : Type 0} (env : Platform K) where
  unfoldable pub derive_identity_key : String → String → K → Result Error IdentityKey
  derive_identity_key protected_private_key protected_private_key_iv stretched_master_key = do
    pkcs8 ←
        decrypt_bytes env
          (record {
            blob = protected_private_key;
            blob_iv = protected_private_key_iv;
            blob_mac = "";
          })
          stretched_master_key
    let secret_key = env.hkdf pkcs8 (env.encode_text "nopwd-identity-ed25519-v1")
    spki ← or_throw (env.rsa_public pkcs8) missing_modulus
    ok (record {
      secret_key = secret_key;
      public_key = to_base64 env (env.ed25519_public secret_key);
      rsa_public_key = to_base64 env spki;
    })

  unfoldable pub bundle_message : String → String → Result Error (List ℕ)
  bundle_message user_id rsa_public_key = do
    id ← uuid_bytes user_id
    rsa ← from_base64 env rsa_public_key
    ok (env.encode_text "nopwd-key-bundle-v1" ++ (0 ∷ (id ++ rsa)))

  unfoldable pub sign_key_bundle : String → String → List ℕ → Result Error String
  sign_key_bundle user_id rsa_public_key identity_secret_key = do
    message ← bundle_message user_id rsa_public_key
    ok (to_base64 env (env.ed25519_sign message identity_secret_key))

  -- The `try` block of `verifyKeyBundle`.
  unfoldable pub bundle_signature_ok : KeyBundle → Result Error Bool
  bundle_signature_ok bundle = do
    signature ← from_base64 env (or_empty bundle.public_key_signature)
    message ← bundle_message bundle.user_id bundle.public_key
    key ← from_base64 env (or_empty bundle.identity_public_key)
    ok (get_or_else (env.ed25519_verify signature message key) false)

  unfoldable pub verify_key_bundle : KeyBundle → Bool
  verify_key_bundle bundle =
      if is_missing bundle.identity_public_key || is_missing bundle.public_key_signature
      then false
      else succeeds (bundle_signature_ok bundle)

  -- The thirty digits for an identity key, from the bytes of the user id and of the key.
  unfoldable pub safety_digits : List ℕ → List ℕ → String
  unfolding groups_from iterate five_digits group
  safety_digits id key =
      let digest =
        iterate 5200 env.sha512 (env.encode_text "nopwd-safety-number-v1" ++ (id ++ key)) in
      String.◌++◌ (five_digits (group digest 0)) (groups_from digest 5 1)

  unfoldable pub safety_number : String → String → Result Error String
  safety_number user_id identity_public_key = do
    id ← uuid_bytes user_id
    key ← from_base64 env identity_public_key
    ok (safety_digits id key)
