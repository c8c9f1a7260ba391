-- ===== src/Srp/Numbers/RoundTrip.antt =====
-- Big integers and their bytes.
use nopass.Prelude.{
  ℕ, zero, suc, ◌+◌, ◌*◌, ◌/◌, ◌%◌, ◌<◌, ◌≤◌, ◌≡◌, refl, ap, ◌∙◌, inl, inr, arith, ◌==◌, Bool-cases,
  List, [], ◌∷◌, length, All, some, if◌then◌else◌, true,
}
use nopass.Srp.Numbers.{
  pairs, hex_to_bytes, bytes_to_hex, hex_from, big_int_to_bytes, of_hex_from, big_int_of,
  bytes_to_big_int,
}
use nopass.Prelude.Bytes.{IsByte}

abbrev IsDigit : ℕ → Type 0
IsDigit d = d < 16

even-bytes_to_hex : (bs : List ℕ) → length (bytes_to_hex bs) % 2 ≡ 0
unfolding bytes_to_hex
even-bytes_to_hex [] = refl
even-bytes_to_hex (b ∷ bs) = omega (arith, even-bytes_to_hex bs)

pairs-bytes_to_hex : (bs : List ℕ) → pairs (bytes_to_hex bs) ≡ bs
unfolding bytes_to_hex pairs
pairs-bytes_to_hex [] = refl
pairs-bytes_to_hex (b ∷ bs) =
    let whole : b / 16 * 16 + b % 16 ≡ b = omega arith in cc (whole, pairs-bytes_to_hex bs)

pub hex_to_bytes-bytes_to_hex : (bs : List ℕ) → hex_to_bytes (bytes_to_hex bs) ≡ bs
unfolding hex_to_bytes
hex_to_bytes-bytes_to_hex bs =
    let even : length (bytes_to_hex bs) % 2 == 0 ≡ true = ground (arith, even-bytes_to_hex bs) in
    rw even (pairs-bytes_to_hex bs)

-- An even number of digits is the same number after a way through bytes.
of_hex-pairs :
    (acc : ℕ) (ds : List ℕ)
    → length ds % 2 ≡ 0
    → All IsDigit ds
    → of_hex_from acc (bytes_to_hex (pairs ds)) ≡ of_hex_from acc ds
unfolding of_hex_from bytes_to_hex pairs
of_hex-pairs acc [] e h = refl
of_hex-pairs acc (d ∷ []) e h = absurd (omega arith)
of_hex-pairs acc (d ∷ c ∷ ds) e h =
    let same : (acc * 16 + (d * 16 + c) / 16) * 16 + (d * 16 + c) % 16 ≡ (acc * 16 + d) * 16 + c =
      omega arith in
    rw same (of_hex-pairs ((acc * 16 + d) * 16 + c) ds (omega arith) h.1.1)

hex_from-digits : (fuel n : ℕ) (ds : List ℕ) → All IsDigit ds → All IsDigit (hex_from fuel n ds)
unfolding hex_from
hex_from-digits zero n ds h = h
hex_from-digits (suc f) n ds h = elim (Bool-cases (n == 0)) [
  | inl done ↦ rw done h
  | inr more ↦ rw more (hex_from-digits f (n / 16) (n % 16 ∷ ds) (omega arith, h))
]

of_hex-hex_from :
    (fuel n : ℕ) (ds : List ℕ) → n ≤ fuel → of_hex_from 0 (hex_from fuel n ds) ≡ of_hex_from n ds
unfolding hex_from of_hex_from
of_hex-hex_from zero zero ds h = refl
of_hex-hex_from zero (suc n) ds h = absurd (omega arith)
of_hex-hex_from (suc f) n ds h = elim (Bool-cases (n == 0)) [
  | inl done ↦ rw done (ap (λ x. of_hex_from x ds) (ground arith))
  | inr more ↦ rw more (
      of_hex-hex_from f (n / 16) (n % 16 ∷ ds) (omega arith)
      ∙ ap (λ x. of_hex_from x ds) {x = n / 16 * 16 + n % 16} (omega arith))
]

pairs-IsByte : (ds : List ℕ) → All IsDigit ds → All IsByte (pairs ds)
unfolding pairs
pairs-IsByte [] h = tt
pairs-IsByte (d ∷ []) h = tt
pairs-IsByte (d ∷ c ∷ ds) h = (omega arith, pairs-IsByte ds h.1.1)

hex_to_bytes-IsByte : (ds : List ℕ) → All IsDigit ds → All IsByte (hex_to_bytes ds)
unfolding hex_to_bytes
hex_to_bytes-IsByte ds h = elim (Bool-cases (length ds % 2 == 0)) [
  | inl even ↦ rw even (pairs-IsByte ds h)
  | inr odd ↦ rw odd (pairs-IsByte (0 ∷ ds) (omega arith, h))
]

pub big_int_to_bytes-IsByte : (n : ℕ) → All IsByte (big_int_to_bytes n)
unfolding big_int_to_bytes
big_int_to_bytes-IsByte n =
    let hex = hex_from n n [] in
    let digits = hex_from-digits n n [] tt in
    elim (Bool-cases (n == 0)) [
      | inl none ↦ rw none (omega arith, tt)
      | inr more ↦ elim (Bool-cases (length hex % 2 == 0)) [
        | inl even ↦ rw (more, even) (hex_to_bytes-IsByte hex digits)
        | inr odd ↦ rw (more, odd) (hex_to_bytes-IsByte (0 ∷ hex) (omega arith, digits))
      ]
    ]

-- The number that bytes stand for.
abbrev pub number_of : List ℕ → ℕ
number_of bytes = of_hex_from 0 (bytes_to_hex bytes)

pub bytes_to_big_int-number_of :
    (bs : List ℕ) → 0 < length bs → bytes_to_big_int bs ≡ some (number_of bs)
unfolding bytes_to_big_int bytes_to_hex big_int_of
bytes_to_big_int-number_of [] h = absurd (omega arith)
bytes_to_big_int-number_of (b ∷ bs) h = refl

big_int_of-some : (ds : List ℕ) (n : ℕ) → of_hex_from 0 ds ≡ n → 0 < n → big_int_of ds ≡ some n
unfolding big_int_of of_hex_from
big_int_of-some [] n e h = absurd (omega arith)
big_int_of-some (d ∷ ds) n e h = ap some e

-- What `bigIntToBytes` makes of the digits, with a leading zero or not.
of_hex-padded :
    (n : ℕ) (ds : List ℕ)
    → All IsDigit ds
    → of_hex_from 0 ds ≡ n
    → of_hex_from 0 (bytes_to_hex (hex_to_bytes (if length ds % 2 == 0 then ds else 0 ∷ ds))) ≡ n
unfolding hex_to_bytes
of_hex-padded n ds h e = elim (Bool-cases (length ds % 2 == 0)) [
  | inl even ↦ rw (even, even) (of_hex-pairs 0 ds (ground arith) h ∙ e)
  | inr odd ↦
      let even : suc (length ds) % 2 == 0 ≡ true = ground arith in
      rw (odd, even) (of_hex-pairs 0 (0 ∷ ds) (ground arith) (omega arith, h) ∙ zero_first ∙ e)
]
  where
    zero_first : of_hex_from 0 (0 ∷ ds) ≡ of_hex_from 0 ds
    zero_first = unfold of_hex_from in refl

-- The bytes of a number stand for it.
pub bytes_to_big_int-big_int_to_bytes : (n : ℕ) → bytes_to_big_int (big_int_to_bytes n) ≡ some n
unfolding bytes_to_big_int big_int_to_bytes
bytes_to_big_int-big_int_to_bytes n = elim (Bool-cases (n == 0)) [
  | inl none ↦ rw none (ap some (ground arith))
  | inr more ↦ rw more (
      big_int_of-some _ n
        (of_hex-padded n (hex_from n n []) (hex_from-digits n n [] tt)
          (of_hex-hex_from n n [] (omega arith) ∙ unfold of_hex_from in refl))
        (ground arith))
]
