-- ===== src/Webauthn.antt =====
-- packages/crypto/src/webauthn.ts: the bytes of a passkey. `sha256` is `crypto.subtle.digest`, and
-- `sign` is the ECDSA signature, r and s in 64 bytes, for a PKCS #8 key; both are arguments, as are
-- `new URL` and the tests on the ends of a text. base64url is left out.
use Prim.Native.String
use nopass.Prelude.{
  ℕ, zero, suc, ◌+◌, ◌*◌, ◌/◌, ◌%◌, ◌≡◌, String, Bool, true, false, not, ◌&&◌, ◌||◌, List, [], ◌∷◌,
  ◌++◌, Option, none, some, Result, ok, err, ◌>>=◌, ltb, leb, ◌==◌, str_eq, if◌then◌else◌, length,
  take, drop,
}
use nopass.Prelude.Bytes.{be}
use nopass.Errors.{Error, not_a_p256_signature}
use nopass.Autofill.{Url}
pub mod Laws
pub mod Cbor

mutual
  -- A number is `unsigned n` for n, and `negative n` for -1 - n.
  pub data CborValue : Type 0 where
    unsigned negative : ℕ → CborValue
    text : String → CborValue
    bytes : List ℕ → CborValue
    map : CborMap → CborValue

  -- The entries in insertion order.
  pub data CborMap : Type 0 where
    empty : CborMap
    entry : CborValue → CborValue → CborMap → CborMap

abbrev pub size : CborMap → ℕ
size empty = 0
size (entry k v m) = suc (size m)

-- `(major << 5) | n` for n below 32 is a sum.
unfoldable pub cbor_head : ℕ → ℕ → List ℕ
cbor_head major n =
    if ltb n 24
    then (major * 32 + n) ∷ []
    else if ltb n 0x100
    then (major * 32 + 24) ∷ n ∷ []
    else if ltb n 0x10000
    then (major * 32 + 25) ∷ (n / 256) ∷ (n % 256) ∷ []
    else (major * 32 + 26)
      ∷ (n / 0x1000000 % 256)
      ∷ (n / 0x10000 % 256)
      ∷ (n / 256 % 256)
      ∷ (n % 256)
      ∷ []

module _ (encode_text : String → List ℕ) where
  unfoldable mutual
    unfolding cbor_head

    pub cbor_encode : CborValue → List ℕ
    cbor_encode (unsigned n) = cbor_head 0 n
    cbor_encode (negative n) = cbor_head 1 n
    cbor_encode (text s) = cbor_head 3 (length (encode_text s)) ++ encode_text s
    cbor_encode (bytes bs) = cbor_head 2 (length bs) ++ bs
    cbor_encode (map m) = cbor_head 5 (size m) ++ cbor_entries m

    pub cbor_entries : CborMap → List ℕ
    cbor_entries empty = []
    cbor_entries (entry k v m) = cbor_encode k ++ (cbor_encode v ++ cbor_entries m)

  -- The COSE key of `generateCredential`, from the raw public key 4, X, Y.
  unfoldable pub cose_key : List ℕ → List ℕ
  cose_key raw = cbor_encode (
      map (
        entry (unsigned 1) (unsigned 2) (
          entry (unsigned 3) (negative 6) (
            entry (negative 0) (unsigned 1) (
              entry (negative 1) (bytes (take 32 (drop 1 raw)))
                (entry (negative 2) (bytes (take 32 (drop 33 raw))) empty))))))

  unfoldable pub build_attestation_object : List ℕ → List ℕ
  build_attestation_object auth_data = cbor_encode (
      map (
        entry (text "fmt") (text "none")
          (entry (text "attStmt") (map empty) (entry (text "authData") (bytes auth_data) empty))))

pub record Attested : Type 0 where
  pub credential_id : List ℕ
  pub cose_public_key : List ℕ

abbrev pub aaguid : List ℕ
aaguid = 0x6e ∷ 0x6f ∷ 0x70 ∷ 0x77 ∷ 0x64 ∷ 0 ∷ 0 ∷ 0 ∷ 0 ∷ 0 ∷ 0 ∷ 0 ∷ 0 ∷ 0 ∷ 0 ∷ 1 ∷ []

-- `flags | FLAG_AT`; a `Uint8Array` keeps the last byte of a number.
abbrev pub with_at : ℕ → ℕ
with_at flags = if flags / 64 % 2 == 1 then flags else flags + 64

module _ (encode_text : String → List ℕ) (sha256 : List ℕ → List ℕ) where
  unfoldable pub build_authenticator_data : String → ℕ → ℕ → Option Attested → List ℕ
  build_authenticator_data rp_id flags sign_count none =
      sha256 (encode_text rp_id) ++ (flags % 256 ∷ be 4 sign_count)
  build_authenticator_data rp_id flags sign_count (some a) =
      sha256 (encode_text rp_id)
      ++ (with_at flags % 256
          ∷ (be 4 sign_count
              ++ (aaguid
                  ++ (be 2 (length a.credential_id) ++ (a.credential_id ++ a.cose_public_key)))))

-- The leading zeros are dropped, but for a last byte.
unfoldable pub strip_zeros : List ℕ → List ℕ
strip_zeros [] = []
strip_zeros (b ∷ []) = b ∷ []
strip_zeros (b ∷ c ∷ bs) = if b == 0 then strip_zeros (c ∷ bs) else b ∷ c ∷ bs

-- A zero goes in front of a first byte with its high bit set.
unfoldable pub pad_sign : List ℕ → List ℕ
pad_sign [] = []
pad_sign (b ∷ bs) = if leb 128 b then 0 ∷ b ∷ bs else b ∷ bs

unfoldable pub encode_int : List ℕ → List ℕ
encode_int half = let v = pad_sign (strip_zeros half) in 2 ∷ length v ∷ v

unfoldable pub raw_sig_to_der : List ℕ → Result Error (List ℕ)
raw_sig_to_der raw =
    let r = encode_int (take 32 raw) in
    let s = encode_int (drop 32 raw) in
    if length raw == 64
    then ok (0x30 ∷ (length r + length s) ∷ (r ++ s))
    else err not_a_p256_signature

unfoldable pub sign_assertion :
    (List ℕ → List ℕ → List ℕ) → List ℕ → List ℕ → List ℕ → Result Error (List ℕ)
sign_assertion sign private_key auth_data client_data_hash =
    raw_sig_to_der (sign private_key (auth_data ++ client_data_hash))

module _ (parse_url : String → Option Url) (starts_with ends_with : String → String → Bool) where
  unfoldable pub is_loopback_host : String → Bool
  is_loopback_host host =
      str_eq host "localhost"
      || (ends_with host ".localhost" || (str_eq host "127.0.0.1" || str_eq host "[::1]"))

  unfoldable pub rp_id_matches : String → Url → Bool
  rp_id_matches rp_id url =
      if not (str_eq url.protocol "https:")
        && not (str_eq url.protocol "http:" && is_loopback_host url.hostname)
      then false
      else if str_eq rp_id "" || (starts_with rp_id "." || ends_with rp_id ".")
      then false
      else str_eq url.hostname rp_id || ends_with url.hostname (String.◌++◌ "." rp_id)

  unfoldable pub rp_id_matches_origin : String → String → Bool
  rp_id_matches_origin rp_id origin = elim (parse_url origin) [
    | none ↦ false
    | some url ↦ rp_id_matches rp_id url
  ]
