-- ===== src/Tests/Toy.antt =====
-- A platform without secrets whose functions have the properties that the theorems assume: texts are
-- written in unary for base64, and a ciphertext carries its additional data.
use Prim.Native.Char.{code}
use Prim.Native.Nat.{zero, suc}
use text.Mathlib.TextEquality.{Char-path}
use nopass.Prelude.{
  ℕ, ◌+◌, ◌≡◌, refl, sym, ap, ◌∙◌, inl, inr, String, Bool, true, false, ◌&&◌, List, [], ◌∷◌, Option,
  none, some, arith, All, if◌then◌else◌, ◌==◌, Bool-cases,
}
use nopass.Prelude.Bytes.{codes, IsByte}
use nopass.Types.Vault.{VaultItemPlaintext}
use nopass.Platform.{Platform, Base64Laws, TextLaws, CipherLaws, AuthenticLaws}

-- Each byte in unary, closed by a letter of its own.
abbrev pub unary : ℕ → String → String
unary zero s = String.◌∷◌ "b" s
unary (suc n) s = String.◌∷◌ "a" (unary n s)

abbrev pub btoa : List ℕ → String
btoa [] = ""
btoa (b ∷ bs) = unary b (btoa bs)

abbrev pub bytes_from : ℕ → String → List ℕ
bytes_from n String.[] = []
bytes_from n (String.◌∷◌ c s) = if code c == 97 then bytes_from (suc n) s else n ∷ bytes_from 0 s

bytes_from-unary :
    (n k m : ℕ) (s : String) → n + k ≡ m → bytes_from n (unary k s) ≡ m ∷ bytes_from 0 s
bytes_from-unary n zero m s e = ap (λ x. x ∷ bytes_from 0 s) (omega arith)
bytes_from-unary n (suc k) m s e = bytes_from-unary (suc n) k m s (omega arith)

bytes_from-btoa : (bs : List ℕ) → bytes_from 0 (btoa bs) ≡ bs
bytes_from-btoa [] = refl
bytes_from-btoa (b ∷ bs) =
    bytes_from-unary 0 b b (btoa bs) (omega arith) ∙ ap (◌∷◌ b) (bytes_from-btoa bs)

-- A list of numbers as bytes below 3: each number in zeros closed by a 1, and a 2 at the end.
abbrev pub zeros : ℕ → List ℕ → List ℕ
zeros zero ys = 1 ∷ ys
zeros (suc n) ys = 0 ∷ zeros n ys

abbrev pub frame : List ℕ → List ℕ → List ℕ
frame [] rest = 2 ∷ rest
frame (x ∷ xs) rest = zeros x (frame xs rest)

abbrev pub unframe : ℕ → List ℕ → List ℕ × List ℕ
unframe n [] = ([], [])
unframe n (b ∷ bs) =
    let deeper = unframe (suc n) bs in
    let next = unframe 0 bs in
    if b == 0 then deeper else if b == 1 then (n ∷ next.0, next.1) else ([], bs)

unframe-zeros :
    (n k m : ℕ) (ys : List ℕ)
    → n + k ≡ m
    → unframe n (zeros k ys) ≡ (m ∷ (unframe 0 ys).0, (unframe 0 ys).1)
unframe-zeros n zero m ys e = ap (λ x. (x ∷ (unframe 0 ys).0, (unframe 0 ys).1)) (omega arith)
unframe-zeros n (suc k) m ys e = unframe-zeros (suc n) k m ys (omega arith)

unframe-frame : (xs rest : List ℕ) → unframe 0 (frame xs rest) ≡ (xs, rest)
unframe-frame [] rest = refl
unframe-frame (x ∷ xs) rest =
    unframe-zeros 0 x x (frame xs rest) (omega arith)
    ∙ ap (λ p. (x ∷ p.0, p.1)) (unframe-frame xs rest)

frame_bytes : (xs rest : List ℕ) → All IsByte rest → All IsByte (frame xs rest)
frame_bytes [] rest h = (omega arith, h)
frame_bytes (x ∷ xs) rest h = zeros_bytes x (frame xs rest) (frame_bytes xs rest h)
  where
    zeros_bytes : (n : ℕ) (ys : List ℕ) → All IsByte ys → All IsByte (zeros n ys)
    zeros_bytes zero ys h = (omega arith, h)
    zeros_bytes (suc n) ys h = (omega arith, zeros_bytes n ys h)

abbrev pub same_list : List ℕ → List ℕ → Bool
same_list [] [] = true
same_list [] (y ∷ ys) = false
same_list (x ∷ xs) [] = false
same_list (x ∷ xs) (y ∷ ys) = (x == y) && same_list xs ys

same_list_self : (xs : List ℕ) → same_list xs xs ≡ true
same_list_self [] = refl
same_list_self (x ∷ xs) = ground (arith, same_list_self xs)

same_list→eq : (xs ys : List ℕ) → same_list xs ys ≡ true → xs ≡ ys
same_list→eq [] [] h = refl
same_list→eq [] (y ∷ ys) h = cc
same_list→eq (x ∷ xs) [] h = cc
same_list→eq (x ∷ xs) (y ∷ ys) h =
    let head : x ≡ y = ground arith in
    let tail = same_list→eq xs ys (ground arith) in cc (head, tail)

-- The tag.
abbrev pub with_tag : List ℕ → List ℕ
with_tag bs = 0 ∷ 0 ∷ 0 ∷ 0 ∷ 0 ∷ 0 ∷ 0 ∷ 0 ∷ 0 ∷ 0 ∷ 0 ∷ 0 ∷ 0 ∷ 0 ∷ 0 ∷ 0 ∷ bs

abbrev pub without_tag : List ℕ → List ℕ
without_tag (_ ∷ _ ∷ _ ∷ _ ∷ _ ∷ _ ∷ _ ∷ _ ∷ _ ∷ _ ∷ _ ∷ _ ∷ _ ∷ _ ∷ _ ∷ _ ∷ bs) = bs
without_tag _ = []

abbrev pub toy_encrypt : List ℕ → List ℕ → List ℕ
toy_encrypt aad m = with_tag (frame aad (frame m []))

abbrev pub toy_decrypt : List ℕ → List ℕ → Option (List ℕ)
toy_decrypt aad ct =
    let opened = unframe 0 (without_tag ct) in
    if same_list opened.0 aad then some (unframe 0 opened.1).0 else none

abbrev pub sample : VaultItemPlaintext
sample = VaultItemPlaintext.note (record { name = "n"; tags = none; content = "c" })

-- The keys are numbers, which the ciphers ignore.
abbrev pub toy : Platform ℕ
toy = record {
  encode_text = codes;
  decode_text = λ bs. "";
  btoa = btoa;
  atob = λ s. some (bytes_from 0 s);
  stringify = λ p. "{}";
  parse_json = λ s. some sample;
  aes_encrypt = λ k iv aad m. toy_encrypt aad m;
  aes_decrypt = λ k iv aad ct. toy_decrypt aad ct;
  hmac_sign = λ k m. [];
  hmac_verify = λ k mac m. true;
  ed25519_sign = λ m secret. [];
  ed25519_verify = λ s m key. some true;
  ed25519_public = λ secret. [];
  hkdf = λ key info. [];
  sha512 = λ bs. [];
  rsa_public = λ pkcs8. some [];
  rsa_encrypt = λ spki m pad. some m;
  export_raw = λ k. [];
}

pub toy-Base64Laws : Base64Laws toy
toy-Base64Laws = record { atob-btoa = λ bs h. ap some (bytes_from-btoa bs) }

codes_injective : (s t : String) → codes s ≡ codes t → s ≡ t
codes_injective String.[] String.[] h = refl
codes_injective String.[] (String.◌∷◌ d t) h = cc
codes_injective (String.◌∷◌ c s) String.[] h = cc
codes_injective (String.◌∷◌ c s) (String.◌∷◌ d t) h =
    let head : code c ≡ code d = cc in
    let tail : codes s ≡ codes t = cc in cc (Char-path c d head, codes_injective s t tail)

pub toy-TextLaws : TextLaws toy
toy-TextLaws = record { encode_injective = codes_injective }

opened-toy_encrypt :
    (aad m : List ℕ) → unframe 0 (without_tag (toy_encrypt aad m)) ≡ (aad, frame m [])
opened-toy_encrypt aad m = unframe-frame aad (frame m [])

toy_round_trip : (aad m : List ℕ) → toy_decrypt aad (toy_encrypt aad m) ≡ some m
toy_round_trip aad m = rw (opened-toy_encrypt aad m, same_list_self aad, unframe-frame m []) refl

toy_same_aad :
    (aad aad' m : List ℕ) {m' : List ℕ}
    → toy_decrypt aad' (toy_encrypt aad m) ≡ some m'
    → aad' ≡ aad
toy_same_aad aad aad' m h = elim (Bool-cases (same_list aad aad')) [
  | inl same ↦ sym (same_list→eq aad aad' same)
  | inr other ↦ absurd (cc (rw (opened-toy_encrypt aad m, other) at h))
]

pub toy-CipherLaws : CipherLaws toy
toy-CipherLaws = record {
  decrypt-encrypt = λ k iv aad m. toy_round_trip aad m;
  encrypt_bytes = λ k iv aad m. bytes _ (frame_bytes aad (frame m []) (frame_bytes m [] tt));
  encrypt_length = λ k iv aad m. omega arith;
}
  where
    bytes : (bs : List ℕ) → All IsByte bs → All IsByte (with_tag bs)
    bytes bs h = (
      omega arith,
      (
        omega arith,
        (
          omega arith,
          (
            omega arith,
            (
              omega arith,
              (
                omega arith,
                (
                  omega arith,
                  (
                    omega arith,
                    (
                      omega arith,
                      (
                        omega arith,
                        (
                          omega arith,
                          (
                            omega arith,
                            (omega arith, (omega arith, (omega arith, (omega arith, h)))),
                          ),
                        ),
                      ),
                    ),
                  ),
                ),
              ),
            ),
          ),
        ),
      ),
    )

pub toy-AuthenticLaws : AuthenticLaws toy
toy-AuthenticLaws = record { same_aad = λ k iv iv' aad aad' m h. toy_same_aad aad aad' m h }
