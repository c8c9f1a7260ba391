-- ===== src/Recovery/Code/Entropy.antt =====
-- A recovery code spells the number of its random bytes in base 32, so it loses none of their bits.
use nopass.Prelude.{
  ℕ, zero, suc, ◌+◌, ◌*◌, ◌/◌, ◌%◌, ◌^◌, ◌<◌, ◌≡◌, refl, sym, ap, ◌∙◌, subst, arith, List, [], ◌∷◌,
  ◌++◌, map, All, length, length-append,
}
use mathlib.Core.List.{map-append}
use nopass.Prelude.Bytes.{IsByte, of_be, of_be_from}
use nopass.Recovery.Code.{symbol, drain, code_symbols}

abbrev pub IsSymbol : ℕ → Type 0
IsSymbol d = d < 32

-- The number that base-32 digits stand for, after the digits of `acc`.
abbrev pub of_base32 : ℕ → List ℕ → ℕ
of_base32 acc [] = acc
of_base32 acc (d ∷ ds) = of_base32 (acc * 32 + d) ds

-- What the loop has after some bytes: the bits that are left, and the digits that it has put out, which
-- with the low bits of `acc` stand for `value`.
record Spelled (value bits acc : ℕ) (out : List ℕ) (count : ℕ) : Type 0 where
  digits : List ℕ
  symbols : All IsSymbol digits
  out_eq : out ≡ map symbol digits
  total : 5 * length digits + bits ≡ count
  spelled : of_base32 0 digits * 2 ^ bits + acc % 2 ^ bits ≡ value

of_base32-append :
    (acc : ℕ) (ds : List ℕ) (d : ℕ) → of_base32 acc (ds ++ d ∷ []) ≡ of_base32 acc ds * 32 + d
of_base32-append acc [] d = refl
of_base32-append acc (c ∷ ds) d = of_base32-append (acc * 32 + c) ds d

All-snoc : (ds : List ℕ) (d : ℕ) → All IsSymbol ds → IsSymbol d → All IsSymbol (ds ++ d ∷ [])
All-snoc [] d h k = (k, tt)
All-snoc (c ∷ ds) d h k = (h.0, All-snoc ds d h.1 k)

-- One digit more.
snoc :
    (value bits acc d count : ℕ) (out ds : List ℕ)
    → All IsSymbol ds
    → out ≡ map symbol ds
    → d < 32
    → 5 * length ds + 5 + bits ≡ count
    → (of_base32 0 ds * 32 + d) * 2 ^ bits + acc % 2 ^ bits ≡ value
    → Spelled value bits acc (out ++ symbol d ∷ []) count
snoc value bits acc d count out ds h e k total spelled = record {
  digits = ds ++ d ∷ [];
  symbols = All-snoc ds d h k;
  out_eq = ap (λ o. o ++ symbol d ∷ []) e ∙ sym (map-append symbol ds (d ∷ []));
  total = omega (arith, length-append ds (d ∷ []));
  spelled = rw (of_base32-append 0 ds d) spelled;
}

-- A byte is taken in: five cases, by the bits that were left.
drain-Spelled :
    (value bits acc byte count : ℕ) (out : List ℕ)
    → bits < 5
    → IsByte byte
    → Spelled value bits acc out count
    → let next = acc * 256 % 2 ^ 32 + byte in
      let drained = drain (bits + 8) (bits + 8) next out in
      (drained.0 < 5) × Spelled (value * 256 + byte) drained.0 next drained.1 (count + 8)
unfolding drain
drain-Spelled value zero acc byte count out few h s = (
  omega arith,
  snoc _ 3 _ _ _ out s.digits s.symbols s.out_eq (omega arith) (omega arith) (omega arith),
)
drain-Spelled value (suc zero) acc byte count out few h s = (
  omega arith,
  snoc _ 4 _ _ _ out s.digits s.symbols s.out_eq (omega arith) (omega arith) (omega arith),
)
drain-Spelled value (suc (suc zero)) acc byte count out few h s =
    let t =
      snoc (value * 256 + byte) 5 (acc * 256 % 2 ^ 32 + byte)
        ((acc * 256 % 2 ^ 32 + byte) / 32 % 32) (count + 8) out s.digits s.symbols s.out_eq
        (omega arith) (omega arith) (omega arith) in
    (
      omega arith,
      snoc _ 0 _ _ _ _ t.digits t.symbols t.out_eq (omega arith) (omega arith) (omega arith),
    )
drain-Spelled value (suc (suc (suc zero))) acc byte count out few h s =
    let t =
      snoc (value * 256 + byte) 6 (acc * 256 % 2 ^ 32 + byte)
        ((acc * 256 % 2 ^ 32 + byte) / 64 % 32) (count + 8) out s.digits s.symbols s.out_eq
        (omega arith) (omega arith) (omega arith) in
    (
      omega arith,
      snoc _ 1 _ _ _ _ t.digits t.symbols t.out_eq (omega arith) (omega arith) (omega arith),
    )
drain-Spelled value (suc (suc (suc (suc zero)))) acc byte count out few h s =
    let t =
      snoc (value * 256 + byte) 7 (acc * 256 % 2 ^ 32 + byte)
        ((acc * 256 % 2 ^ 32 + byte) / 128 % 32) (count + 8) out s.digits s.symbols s.out_eq
        (omega arith) (omega arith) (omega arith) in
    (
      omega arith,
      snoc _ 2 _ _ _ _ t.digits t.symbols t.out_eq (omega arith) (omega arith) (omega arith),
    )
drain-Spelled value (suc (suc (suc (suc (suc bits))))) acc byte count out few h s =
    absurd (omega arith)

code_symbols-Spelled :
    (value bits acc count total : ℕ) (out bytes : List ℕ)
    → bits < 5
    → All IsByte bytes
    → count + 8 * length bytes ≡ total
    → Spelled value bits acc out count
    → (left : ℕ) × (last : ℕ) × (left < 5)
      × Spelled (of_be_from value bytes) left last (code_symbols bits acc out bytes) total
unfolding code_symbols of_be_from
code_symbols-Spelled value bits acc count total out [] few h e s =
    let same : count ≡ total = omega arith in
    (bits, acc, few, subst (λ c. Spelled value bits acc out c) same s)
code_symbols-Spelled value bits acc count total out (b ∷ bs) few h e s =
    let (few', next) = drain-Spelled value bits acc b count out few h.0 s in
    code_symbols-Spelled (value * 256 + b)
      (drain (bits + 8) (bits + 8) (acc * 256 % 2 ^ 32 + b) out).0 (acc * 256 % 2 ^ 32 + b)
      (count + 8) total (drain (bits + 8) (bits + 8) (acc * 256 % 2 ^ 32 + b) out).1 bs few' h.1
      (omega arith) next

-- The 32 symbols before they are put into groups.
pub code_symbols-digits :
    (bytes : List ℕ)
    → All IsByte bytes
    → length bytes ≡ 20
    → (digits : List ℕ) × (length digits ≡ 32)
      × All IsSymbol digits
      × (code_symbols 0 0 [] bytes ≡ map symbol digits)
      × (of_base32 0 digits ≡ of_be bytes)
unfolding of_be
code_symbols-digits bytes h twenty =
    let start : Spelled 0 0 0 [] 0 = record {
      digits = [];
      symbols = tt;
      out_eq = refl;
      total = refl;
      spelled = refl;
    } in
    let (left, last, few, s) =
      code_symbols-Spelled 0 0 0 0 160 [] bytes (omega arith) h (omega arith) start in
    let none_left : left ≡ 0 = omega (arith, s.total) in
    let value =
      subst (λ l. of_base32 0 s.digits * 2 ^ l + last % 2 ^ l ≡ of_be_from 0 bytes) none_left
        s.spelled in
    (s.digits, omega (arith, s.total), s.symbols, s.out_eq, omega (arith, value))
