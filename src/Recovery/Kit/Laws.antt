-- ===== src/Recovery/Kit/Laws.antt =====
-- The keys of a code that is typed in, and the kit.
use nopass.Prelude.{
  ℕ, ◌+◌, ◌*◌, ◌∷◌, ◌≡◌, refl, sym, ap, ◌∙◌, String, true, List, [], ◌++◌, map, ok, arith, All,
  length, length-append, take, drop, take-append, drop-append, take_all, ◌==◌,
}
use mathlib.Core.List.{append_assoc}
use nopass.Prelude.Bytes.{IsByte, of_be, of_be_from}
use nopass.Types.Api.{KdfParams}
use nopass.Platform.{Platform, Base64Laws, CipherLaws}
use nopass.Envelope.Legacy.{encrypt_bytes, decrypt_bytes}
use nopass.Account.Kdf.{Derivation, RawKeys}
use nopass.Recovery.Code.{symbol, generate_recovery_code, normalize_recovery_code}
use nopass.Recovery.Code.Entropy.{IsSymbol, of_base32, code_symbols-digits}
use nopass.Recovery.Code.Reading.{Typed, normalize-Typed, in_groups-Typed, map-symbol-injective}
use nopass.Recovery.Kit.{CodeText, derive_recovery_keys, wrap_vault_subkeys, unwrap_vault_subkeys}

-- What is known of a code of 20 random bytes: it is an entry of 32 symbols, which are the base-32
-- digits of the number that the bytes stand for.
pub record Spells (code bytes : List ℕ) : Type 0 where
  pub digits : List ℕ
  pub many : length digits ≡ 32
  pub symbols : All IsSymbol digits
  pub typed : Typed code (map symbol digits)
  pub value : of_base32 0 digits ≡ of_be bytes

-- A generated code has 32 symbols in base 32, and their digits are the number of its 20 random bytes.
pub generate_recovery_code-Spells :
    (bytes : List ℕ)
    → All IsByte bytes
    → length bytes ≡ 20
    → Spells (generate_recovery_code bytes) bytes
unfolding generate_recovery_code
generate_recovery_code-Spells bytes h twenty =
    let (digits, many, symbols, e, value) = code_symbols-digits bytes h twenty in
    record {
      digits = digits;
      many = many;
      symbols = symbols;
      typed = rw e (in_groups-Typed digits symbols (omega arith));
      value = value;
    }

of_be_from-injective :
    (m n : ℕ) (xs ys : List ℕ)
    → All IsByte xs
    → All IsByte ys
    → length xs ≡ length ys
    → of_be_from m xs ≡ of_be_from n ys
    → (m ≡ n) × (xs ≡ ys)
unfolding of_be_from
of_be_from-injective m n [] [] hx hy l h = (h, refl)
of_be_from-injective m n [] (y ∷ ys) hx hy l h = absurd (omega arith)
of_be_from-injective m n (x ∷ xs) [] hx hy l h = absurd (omega arith)
of_be_from-injective m n (x ∷ xs) (y ∷ ys) (hx, hxs) (hy, hys) l h =
    let (e, rest) =
      of_be_from-injective (m * 256 + x) (n * 256 + y) xs ys hxs hys (omega arith) h in
    let head : x ≡ y = omega arith in (omega arith, cc (head, rest))

-- Codes that are read alike are of the same random bytes: no bit of them is lost in the code, nor when
-- it is typed in. Assumed: upper case leaves the two codes as they are.
pub generate_recovery_code-injective :
    (upper_case : List ℕ → List ℕ) (bytes bytes' : List ℕ)
    → All IsByte bytes
    → All IsByte bytes'
    → length bytes ≡ 20
    → length bytes' ≡ 20
    → upper_case (generate_recovery_code bytes) ≡ generate_recovery_code bytes
    → upper_case (generate_recovery_code bytes') ≡ generate_recovery_code bytes'
    → normalize_recovery_code upper_case (generate_recovery_code bytes)
      ≡ normalize_recovery_code upper_case (generate_recovery_code bytes')
    → bytes ≡ bytes'
unfolding of_be
generate_recovery_code-injective upper_case bytes bytes' h h' twenty twenty' up up' alike =
    let s = generate_recovery_code-Spells bytes h twenty in
    let s' = generate_recovery_code-Spells bytes' h' twenty' in
    let read =
      normalize-Typed upper_case (generate_recovery_code bytes) (map symbol s.digits)
        (rw up s.typed) in
    let read' =
      normalize-Typed upper_case (generate_recovery_code bytes') (map symbol s'.digits)
        (rw up' s'.typed) in
    let same =
      map-symbol-injective s.digits s'.digits s.symbols s'.symbols (sym read ∙ alike ∙ read') in
    (of_be_from-injective 0 0 bytes bytes' h h' (omega arith)
      (sym s.value ∙ ap (of_base32 0) same ∙ s'.value)).1

module _ {K : Type 0} (env : Platform K) (kdf : Derivation) (import_key : List ℕ → K)
    (text : CodeText) where
  derive_recovery_keys-normalized :
      (code code' : List ℕ) (email : String) (params : KdfParams)
      → normalize_recovery_code text.upper_case code ≡ normalize_recovery_code text.upper_case code'
      → derive_recovery_keys env kdf import_key text code email params
        ≡ derive_recovery_keys env kdf import_key text code' email params
  unfolding derive_recovery_keys
  derive_recovery_keys-normalized code code' email params e = rw e

  -- An entry of the symbols of a generated code gives the keys of the code: in any case, with spaces
  -- or dashes anywhere or none, and with O for 0, I or L for 1, and U for V. Assumed: upper case leaves
  -- the code itself as it is.
  pub derive_recovery_keys-Typed :
      (bytes entry : List ℕ) (email : String) (params : KdfParams) (h : All IsByte bytes)
      (twenty : length bytes ≡ 20)
      → text.upper_case (generate_recovery_code bytes) ≡ generate_recovery_code bytes
      → Typed
          (text.upper_case entry)
          (map symbol (generate_recovery_code-Spells bytes h twenty).digits)
      → derive_recovery_keys env kdf import_key text entry email params
        ≡ derive_recovery_keys env kdf import_key text (generate_recovery_code bytes) email params
  derive_recovery_keys-Typed bytes entry email params h twenty upper typed =
      let spells = generate_recovery_code-Spells bytes h twenty in
      let code = generate_recovery_code bytes in
      derive_recovery_keys-normalized entry code email params (
        normalize-Typed text.upper_case entry (map symbol spells.digits) typed
        ∙ sym (
            normalize-Typed text.upper_case code (map symbol spells.digits)
              (rw upper spells.typed)))

  -- Each of the three keys is 32 bytes.
  pub record AreKeys (keys : RawKeys) : Type 0 where
    pub smk_length : length keys.smk ≡ 32
    pub enc_length : length keys.enc_key ≡ 32
    pub mac_length : length keys.mac_key ≡ 32

  module _ (base64 : Base64Laws env) (cipher : CipherLaws env) where
    pub decrypt-encrypt_bytes :
        (message : List ℕ) (key : K) (iv : List ℕ)
        → All IsByte iv
        → decrypt_bytes env (encrypt_bytes env message key iv) key ≡ ok message
    unfolding encrypt_bytes decrypt_bytes
    decrypt-encrypt_bytes message key iv h =
        rw
          (
            base64.atob-btoa iv h,
            base64.atob-btoa (env.aes_encrypt key iv [] message)
                (cipher.encrypt_bytes key iv [] message),
            cipher.decrypt-encrypt key iv [] message,
          )
          refl

    -- A kit opens, under the key that it was wrapped with, to the three keys in it.
    pub unwrap-wrap_vault_subkeys :
        (keys : RawKeys) (wrap_key : K) (iv : List ℕ)
        → AreKeys keys
        → All IsByte iv
        → unwrap_vault_subkeys env kdf import_key text
            (wrap_vault_subkeys env kdf import_key text keys wrap_key iv)
            wrap_key
          ≡ ok keys
    unfolding wrap_vault_subkeys unwrap_vault_subkeys
    unwrap-wrap_vault_subkeys keys wrap_key iv are h =
        let rest = keys.enc_key ++ keys.mac_key in
        let whole = keys.smk ++ rest in
        let long : length whole == 96 ≡ true = ground (
          arith,
          length-append keys.smk rest,
          length-append keys.enc_key keys.mac_key,
          are.smk_length,
          are.enc_length,
          are.mac_length,
        ) in
        let smk : take 32 whole ≡ keys.smk = take-append 32 keys.smk rest are.smk_length in
        let enc : take 32 (drop 32 whole) ≡ keys.enc_key =
          ap (take 32) (drop-append 32 keys.smk rest are.smk_length)
          ∙ take-append 32 keys.enc_key keys.mac_key are.enc_length in
        let mac : take 32 (drop 64 whole) ≡ keys.mac_key =
          ap (λ bs. take 32 (drop 64 bs)) (sym (append_assoc keys.smk keys.enc_key keys.mac_key))
          ∙ ap (take 32) (
              drop-append 64 (keys.smk ++ keys.enc_key) keys.mac_key (
                omega (arith, length-append keys.smk keys.enc_key, are.smk_length, are.enc_length)))
          ∙ take_all 32 keys.mac_key are.mac_length in
        rw (decrypt-encrypt_bytes whole wrap_key iv h, unwrap_vault_subkeys, long, smk, enc, mac)
          refl
