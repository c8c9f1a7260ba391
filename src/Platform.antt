-- ===== src/Platform.antt =====
-- What the code calls and does not implement: Web Crypto, `TextEncoder`, `btoa` and `JSON`, and the
-- @noble libraries, as a record of functions over an opaque type `K` of `CryptoKey`s. A function
-- that can throw returns `Option`. Each law is a record of its own, so that a theorem names what it
-- relies on.
use nopass.Prelude.{ℕ, ◌≡◌, String, Bool, List, Option, some, Result, or_throw, All, ◌≤◌, length}
use nopass.Prelude.Bytes.{IsByte}
use nopass.Types.Vault.{VaultItemPlaintext}
use nopass.Errors.{Error, invalid_base64}

pub record Platform (K : Type 0) : Type 0 where
  -- `new TextEncoder().encode(s)`, `new TextDecoder().decode(bs)`
  pub encode_text : String → List ℕ
  pub decode_text : List ℕ → String
  -- `btoa` and `atob`, a binary string being the list of its bytes
  pub btoa : List ℕ → String
  pub atob : String → Option (List ℕ)
  pub stringify : VaultItemPlaintext → String
  pub parse_json : String → Option VaultItemPlaintext
  -- AES-GCM: key, iv, additional data (none is the empty list), message
  pub aes_encrypt : K → List ℕ → List ℕ → List ℕ → List ℕ
  pub aes_decrypt : K → List ℕ → List ℕ → List ℕ → Option (List ℕ)
  pub hmac_sign : K → List ℕ → List ℕ
  -- key, mac, message
  pub hmac_verify : K → List ℕ → List ℕ → Bool
  -- Ed25519: message, secret; `verify` takes signature, message, public key
  pub ed25519_sign : List ℕ → List ℕ → List ℕ
  pub ed25519_verify : List ℕ → List ℕ → List ℕ → Option Bool
  pub ed25519_public : List ℕ → List ℕ
  -- HKDF-SHA-256 of a key with an info text to 32 bytes
  pub hkdf : List ℕ → List ℕ → List ℕ
  pub sha512 : List ℕ → List ℕ
  -- the RSA public key (SPKI) of a PKCS #8 private key
  pub rsa_public : List ℕ → Option (List ℕ)
  -- RSA-OAEP: public key (SPKI), message, randomness
  pub rsa_encrypt : List ℕ → List ℕ → List ℕ → Option (List ℕ)
  pub export_raw : K → List ℕ

module _ {K : Type 0} (env : Platform K) where
  -- `toBase64` and `fromBase64`
  abbrev pub to_base64 : List ℕ → String
  to_base64 bytes = env.btoa bytes

  abbrev pub from_base64 : String → Result Error (List ℕ)
  from_base64 s = or_throw (env.atob s) invalid_base64

  -- `atob` undoes `btoa` on bytes.
  pub record Base64Laws : Type 0 where
    pub atob-btoa : (bs : List ℕ) → All IsByte bs → env.atob (env.btoa bs) ≡ some bs

  -- No two texts have the same UTF-8 bytes.
  pub record TextLaws : Type 0 where
    pub encode_injective : (s t : String) → env.encode_text s ≡ env.encode_text t → s ≡ t

  -- AES-GCM decrypts what it encrypted, under the same key, iv and additional data.
  pub record CipherLaws : Type 0 where
    pub decrypt-encrypt :
        (k : K) (iv aad m : List ℕ) → env.aes_decrypt k iv aad (env.aes_encrypt k iv aad m) ≡ some m
    pub encrypt_bytes : (k : K) (iv aad m : List ℕ) → All IsByte (env.aes_encrypt k iv aad m)
    -- the tag alone is sixteen bytes
    pub encrypt_length : (k : K) (iv aad m : List ℕ) → 16 ≤ length (env.aes_encrypt k iv aad m)

  -- AES-GCM is authenticated encryption: a ciphertext does not open under other additional data.
  -- (In reality a forgery has a negligible chance; here it has none.)
  pub record AuthenticLaws : Type 0 where
    pub same_aad :
        (k : K) (iv iv' aad aad' m : List ℕ) {m' : List ℕ}
        → env.aes_decrypt k iv' aad' (env.aes_encrypt k iv aad m) ≡ some m'
        → aad' ≡ aad
