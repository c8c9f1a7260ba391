-- ===== src/Webauthn/Cbor.antt =====
-- The heads of CBOR items.
use nopass.Prelude.{
  ℕ, ◌+◌, ◌*◌, ◌/◌, ◌%◌, ◌<◌, ◌≡◌, refl, ap, inl, inr, List, [], ◌∷◌, ◌++◌, Option, none, some, ltb,
  ◌==◌, if◌then◌else◌, arith, Bool-cases,
}
use nopass.Webauthn.{cbor_head}

-- The number that four bytes stand for.
abbrev long : ℕ → ℕ → ℕ → ℕ → ℕ
long a b c d = ((a * 256 + b) * 256 + c) * 256 + d

-- A reader of CBOR heads, after the standard (RFC 8949): the major type, the argument, and what
-- follows.
abbrev read_1 : ℕ → List ℕ → Option ((ℕ × ℕ) × List ℕ)
read_1 major (a ∷ r) = some ((major, a), r)
read_1 major _ = none

abbrev read_2 : ℕ → List ℕ → Option ((ℕ × ℕ) × List ℕ)
read_2 major (a ∷ b ∷ r) = some ((major, a * 256 + b), r)
read_2 major _ = none

abbrev read_4 : ℕ → List ℕ → Option ((ℕ × ℕ) × List ℕ)
read_4 major (a ∷ b ∷ c ∷ d ∷ r) = some ((major, long a b c d), r)
read_4 major _ = none

abbrev pub read_argument : ℕ → ℕ → List ℕ → Option ((ℕ × ℕ) × List ℕ)
read_argument major info rest =
    if ltb info 24
    then some ((major, info), rest)
    else if info == 24
    then read_1 major rest
    else if info == 25
    then read_2 major rest
    else if info == 26
    then read_4 major rest
    else none

abbrev pub read_head : List ℕ → Option ((ℕ × ℕ) × List ℕ)
read_head [] = none
read_head (b ∷ r) = read_argument (b / 32) (b % 32) r

-- The first byte of a head.
first_byte :
    (major info : ℕ)
    → info < 32
    → ((major * 32 + info) / 32 ≡ major) × ((major * 32 + info) % 32 ≡ info)
first_byte major info h = (omega arith, omega arith)

long_bytes :
    (n : ℕ)
    → n < 0x100000000
    → long (n / 0x1000000 % 256) (n / 0x10000 % 256) (n / 256 % 256) (n % 256) ≡ n
long_bytes n h = omega arith

-- The head of any CBOR item is read back by a reader written after the standard, whatever follows it.
pub read_head-cbor_head :
    (major n : ℕ) (rest : List ℕ)
    → n < 0x100000000
    → read_head (cbor_head major n ++ rest) ≡ some ((major, n), rest)
unfolding cbor_head
read_head-cbor_head major n rest h = elim (Bool-cases (ltb n 24)) [
  | inl tiny ↦ let (a, b) = first_byte major n (ground arith) in rw (tiny, a, b, tiny) refl
  | inr over_24 ↦ elim (Bool-cases (ltb n 0x100)) [
    | inl byte ↦ let (a, b) = first_byte major 24 (omega arith) in rw (over_24, byte, a, b) refl
    | inr over_256 ↦ elim (Bool-cases (ltb n 0x10000)) [
      | inl short ↦
          let (a, b) = first_byte major 25 (omega arith) in
          let same : n / 256 * 256 + n % 256 ≡ n = omega arith in
          rw (over_24, over_256, short, a, b) (ap (λ x. some ((major, x), rest)) same)
      | inr over_65536 ↦
          let (a, b) = first_byte major 26 (omega arith) in
          rw (over_24, over_256, over_65536, a, b)
            (ap (λ x. some ((major, x), rest)) (long_bytes n h))
    ]
  ]
]
