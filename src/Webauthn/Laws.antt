-- ===== src/Webauthn/Laws.antt =====
-- The signature of a passkey, and where it may be used.
use Prim.Native.String
use nopass.Prelude.{
  err, ℕ, zero, suc, ◌+◌, ◌*◌, ◌≤◌, ◌<◌, ◌≡◌, ◌≢◌, refl, ap, ◌∙◌, ◌⊎◌, inl, inr, String, Bool, true,
  false, List, [], ◌∷◌, ◌++◌, Option, some, ok, leb, ◌==◌, str_eq, length, take, drop, arith,
  Bool-cases, eq_iff, Option-cases,
}
use nopass.Prelude.Bytes.{of_be, of_be_from}
use nopass.Errors.{not_a_p256_signature}
use nopass.Autofill.{Url}
use nopass.Webauthn.{
  strip_zeros, pad_sign, encode_int, raw_sig_to_der, is_loopback_host, rp_id_matches,
  rp_id_matches_origin,
}

of_be-strip_zeros : (b : ℕ) (bs : List ℕ) → of_be (strip_zeros (b ∷ bs)) ≡ of_be (b ∷ bs)
unfolding strip_zeros of_be of_be_from
of_be-strip_zeros b [] = refl
of_be-strip_zeros b (c ∷ bs) = elim (Bool-cases (b == 0)) [
  | inr some_here ↦ rw some_here refl
  | inl none_here ↦
      let zero_byte : b ≡ 0 = ground arith in
      let same : 0 + c ≡ b * 256 + c = omega arith in
      rw none_here (of_be-strip_zeros c bs ∙ ap (λ x. of_be_from x bs) (omega arith))
]

-- No byte too many, and not negative: DER's form of an integer.
abbrev pub Minimal : List ℕ → Type 0
Minimal [] = ⊥
Minimal (x ∷ []) = x < 128
Minimal (x ∷ y ∷ r) = (x < 128) × (x ≡ 0 → 128 ≤ y)

abbrev Stripped : List ℕ → Type 0
Stripped [] = ⊥
Stripped (x ∷ []) = Unit
Stripped (x ∷ y ∷ r) = x ≢ 0

strip_zeros-Stripped : (b : ℕ) (bs : List ℕ) → Stripped (strip_zeros (b ∷ bs))
unfolding strip_zeros
strip_zeros-Stripped b [] = tt
strip_zeros-Stripped b (c ∷ bs) = elim (Bool-cases (b == 0)) [
  | inl none_here ↦ rw none_here (strip_zeros-Stripped c bs)
  | inr some_here ↦ rw some_here (λ e. ground arith)
]

pad_sign-Minimal : (xs : List ℕ) → Stripped xs → Minimal (pad_sign xs)
unfolding pad_sign
pad_sign-Minimal [] s = s
pad_sign-Minimal (x ∷ []) s = elim (Bool-cases (leb 128 x)) [
  | inl high ↦ rw high (omega arith, λ e. ground arith)
  | inr low ↦ rw low (ground arith)
]
pad_sign-Minimal (x ∷ y ∷ r) s = elim (Bool-cases (leb 128 x)) [
  | inl high ↦ rw high (omega arith, λ e. ground arith)
  | inr low ↦ rw low (ground arith, λ e. absurd (s e))
]

of_be-pad_sign : (xs : List ℕ) → of_be (pad_sign xs) ≡ of_be xs
unfolding pad_sign of_be of_be_from
of_be-pad_sign [] = refl
of_be-pad_sign (x ∷ r) = elim (Bool-cases (leb 128 x)) [
  | inl high ↦ rw high (ap (λ n. of_be_from n r) (omega arith))
  | inr low ↦ rw low refl
]

-- `xs` is an integer for the number that `half` stands for.
pub record Integer (xs half : List ℕ) : Type 0 where
  pub value : of_be xs ≡ of_be half
  pub minimal : Minimal xs

padded-Integer : (half : List ℕ) → 1 ≤ length half → Integer (pad_sign (strip_zeros half)) half
padded-Integer [] h = absurd (omega arith)
padded-Integer (b ∷ bs) h = record {
  value = of_be-pad_sign (strip_zeros (b ∷ bs)) ∙ of_be-strip_zeros b bs;
  minimal = pad_sign-Minimal (strip_zeros (b ∷ bs)) (strip_zeros-Stripped b bs);
}

length-take : (n : ℕ) (xs : List ℕ) → n ≤ length xs → length (take n xs) ≡ n
length-take zero xs h = refl
length-take (suc n) [] h = omega arith
length-take (suc n) (x ∷ xs) h = omega (arith, length-take n xs (omega arith))

length-drop : (n : ℕ) (xs : List ℕ) → n + length (drop n xs) ≡ length xs ⊎ (length xs < n)
length-drop zero xs = inl (omega arith)
length-drop (suc n) [] = inr (omega arith)
length-drop (suc n) (x ∷ xs) = elim (length-drop n xs) [
  | inl e ↦ inl (omega arith)
  | inr l ↦ inr (omega arith)
]

-- A raw signature of 64 bytes, r and s, becomes the DER sequence of two integers in their shortest
-- form, not negative and of the same values, with the right lengths; any other length is refused.
pub raw_sig_to_der-Integer :
    (raw : List ℕ)
    → (length raw ≡ 64
        → (r : List ℕ) × (s : List ℕ) × (raw_sig_to_der raw
            ≡ ok (
                0x30
                ∷ (length (2 ∷ length r ∷ r) + length (2 ∷ length s ∷ s))
                ∷ ((2 ∷ length r ∷ r) ++ (2 ∷ length s ∷ s))))
          × Integer r (take 32 raw)
          × Integer s (drop 32 raw))
      × (length raw ≢ 64 → raw_sig_to_der raw ≡ err not_a_p256_signature)
unfolding raw_sig_to_der encode_int
raw_sig_to_der-Integer raw = (
  λ full.
      let left = length-take 32 raw (omega arith) in
      let right : 1 ≤ length (drop 32 raw) = elim (length-drop 32 raw) [
        | inl e ↦ omega arith
        | inr l ↦ absurd (omega arith)
      ] in
      (
        pad_sign (strip_zeros (take 32 raw)),
        pad_sign (strip_zeros (drop 32 raw)),
        ground arith,
        padded-Integer (take 32 raw) (omega arith),
        padded-Integer (drop 32 raw) right,
      ),
  λ other. ground arith,
)

module _ (parse_url : String → Option Url) (starts_with ends_with : String → String → Bool) where
  -- An https page, or an http page on this machine.
  abbrev pub Secure : Url → Type 0
  Secure url =
      (url.protocol ≡ "https:")
      ⊎ ((url.protocol ≡ "http:")
          × (is_loopback_host parse_url starts_with ends_with url.hostname ≡ true))

  -- The page may use the relying party's id.
  pub record Allowed (rp_id : String) (url : Url) : Type 0 where
    pub secure : Secure url
    pub named : rp_id ≢ ""
    pub no_dots : (starts_with rp_id "." ≡ false) × (ends_with rp_id "." ≡ false)
    pub host : (url.hostname ≡ rp_id) ⊎ (ends_with url.hostname (String.◌++◌ "." rp_id) ≡ true)

  -- A page may use a passkey of a relying party only over https, or on this machine over http, and
  -- only if its host is the party's id or below it; the id is not empty and has no dot at an end.
  pub rp_id_matches_origin-Allowed :
      (rp_id origin : String)
      → rp_id_matches_origin parse_url starts_with ends_with rp_id origin ≡ true
      → (url : Url) × (parse_url origin ≡ some url) × Allowed rp_id url
  unfolding rp_id_matches_origin rp_id_matches
  rp_id_matches_origin-Allowed rp_id origin h = elim (Option-cases (parse_url origin)) [
    | inl bad ↦ absurd (ground arith)
    | inr (url, parsed) ↦
        let https = eq_iff url.protocol "https:" in
        let http = eq_iff url.protocol "http:" in
        let same = eq_iff url.hostname rp_id in
        (
          url,
          parsed,
          record {
            secure = elim (Bool-cases (str_eq url.protocol "https:")) [
              | inl t ↦ inl (https.0 t)
              | inr f ↦ inr (http.0 (ground arith), ground arith)
            ];
            named = λ e. let t = (eq_iff rp_id "").1 e in ground arith;
            no_dots = (ground arith, ground arith);
            host = elim (Bool-cases (str_eq url.hostname rp_id)) [
              | inl t ↦ inl (same.0 t)
              | inr f ↦ inr (ground arith)
            ];
          },
        )
  ]
