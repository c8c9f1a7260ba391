-- ===== src/Account/Kdf.antt =====
-- packages/crypto/src/kdf.ts: the keys that the master password derives, and the email hash.
use Prim.Native.String
use nopass.Prelude.{ℕ, zero, suc, ◌/◌, ◌%◌, ◌≡◌, String, List, [], ◌∷◌, length}
use nopass.Types.Api.{KdfParams}

-- `s.toLowerCase()`, UTF-8, and the @noble functions: SHA-256, Argon2id of a password with a salt and
-- parameters to 32 bytes, and HKDF-SHA-256 of a key with a salt and an info text to 32 bytes.
pub record Derivation : Type 0 where
  pub lower_case : String → String
  pub encode_text : String → List ℕ
  pub sha256 : List ℕ → List ℕ
  pub argon2id : List ℕ → List ℕ → KdfParams → List ℕ
  pub hkdf : List ℕ → List ℕ → List ℕ → List ℕ

-- HKDF gives 32 bytes.
pub record HkdfLaws (kdf : Derivation) : Type 0 where
  pub hkdf_length : (key salt info : List ℕ) → length (kdf.hkdf key salt info) ≡ 32

pub record RawKeys : Type 0 where
  pub smk : List ℕ
  pub enc_key : List ℕ
  pub mac_key : List ℕ

abbrev pub hex_digits : List String
hex_digits =
    "0" ∷ "1" ∷ "2" ∷ "3" ∷ "4" ∷ "5" ∷ "6" ∷ "7" ∷ "8" ∷ "9" ∷ "a" ∷ "b" ∷ "c" ∷ "d" ∷ "e" ∷ "f"
    ∷ []

abbrev pub digit_at : ℕ → List String → String
digit_at n [] = ""
digit_at zero (d ∷ ds) = d
digit_at (suc n) (d ∷ ds) = digit_at n ds

-- `b.toString(16).padStart(2, "0")` of each byte, joined.
unfoldable pub hex : List ℕ → String
hex [] = ""
hex (b ∷ bs) =
    String.◌++◌ (digit_at (b / 16) hex_digits) (String.◌++◌ (digit_at (b % 16) hex_digits) (hex bs))

module _ (kdf : Derivation) where
  unfoldable pub derive_master_key : String → String → KdfParams → List ℕ
  derive_master_key master_password email params =
      kdf.argon2id (kdf.encode_text master_password)
        (kdf.sha256 (kdf.encode_text (String.◌++◌ "nopass-v1-kdf:" (kdf.lower_case email)))) params

  unfoldable pub stretch_master_key_all_raw : List ℕ → String → RawKeys
  stretch_master_key_all_raw master_key email =
      let salt = kdf.encode_text (kdf.lower_case email) in
      record {
        smk = kdf.hkdf master_key salt (kdf.encode_text "nopass-v1-smk");
        enc_key = kdf.hkdf master_key salt (kdf.encode_text "nopass-v1-enc");
        mac_key = kdf.hkdf master_key salt (kdf.encode_text "nopass-v1-mac");
      }

  unfoldable pub compute_email_hash : String → String
  compute_email_hash email =
      hex (kdf.sha256 (kdf.encode_text (String.◌++◌ "nopass-v1-email:" (kdf.lower_case email))))
