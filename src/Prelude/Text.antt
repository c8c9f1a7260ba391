-- ===== src/Prelude/Text.antt =====
-- Texts as JavaScript compares them: by their UTF-16 code units.
use Prim.Native.Char.{code}
use Prim.Native.Nat.{ℕ, zero, suc, ◌+◌, ◌-◌, ◌/◌, ◌%◌}
use Prim.Native.String.{String}
use mathlib.Core.Path.{◌≡◌, refl}
use mathlib.Core.Bool.{Bool, true, false, ◌&&◌, ◌||◌}
use mathlib.Core.List.{List, [], ◌∷◌, ◌++◌}
use native.Mathlib.Omega.{arith}
use nopass.Prelude.Tests.{ltb, ◌==◌, if◌then◌else◌}

-- A code point above the basic plane is a surrogate pair.
code_units : ℕ → List ℕ
code_units c =
    if ltb c 0x10000
    then c ∷ []
    else (0xD800 + (c - 0x10000) / 1024) ∷ (0xDC00 + (c - 0x10000) % 1024) ∷ []

unfoldable pub utf16 : String → List ℕ
unfolding code_units
utf16 String.[] = []
utf16 (String.◌∷◌ c s) = code_units (code c) ++ utf16 s

-- The lexicographic order.
unfoldable pub lt_units : List ℕ → List ℕ → Bool
lt_units xs [] = false
lt_units [] (y ∷ ys) = true
lt_units (x ∷ xs) (y ∷ ys) = ltb x y || x == y && lt_units xs ys

-- `s < t`
unfoldable pub text_lt : String → String → Bool
text_lt s t = lt_units (utf16 s) (utf16 t)

pub lt_units_trans :
    (xs ys zs : List ℕ) → lt_units xs ys ≡ true → lt_units ys zs ≡ true → lt_units xs zs ≡ true
unfolding lt_units
lt_units_trans xs ys [] p q = q
lt_units_trans xs [] (z ∷ zs) p q = cc
lt_units_trans [] (y ∷ ys) (z ∷ zs) p q = refl
lt_units_trans (x ∷ xs) (y ∷ ys) (z ∷ zs) p q = ground (arith, lt_units_trans xs ys zs)

pub lt_units-total : (xs ys : List ℕ) → lt_units xs ys ≡ false → lt_units ys xs ≡ false → xs ≡ ys
unfolding lt_units
lt_units-total [] [] p q = refl
lt_units-total [] (y ∷ ys) p q = cc
lt_units-total (x ∷ xs) [] p q = cc
lt_units-total (x ∷ xs) (y ∷ ys) p q = ground (arith, lt_units-total xs ys)

pub lt_units_irrefl : (xs : List ℕ) → lt_units xs xs ≡ false
unfolding lt_units
lt_units_irrefl [] = refl
lt_units_irrefl (x ∷ xs) = ground (arith, lt_units_irrefl xs)

-- The character at a place of a text, as a text.
char_at : String → ℕ → String
char_at String.[] n = ""
char_at (String.◌∷◌ c s) zero = String.◌∷◌ c ""
char_at (String.◌∷◌ c s) (suc n) = char_at s n

-- A digit of `n.toString(16)`.
unfoldable pub hex_char : ℕ → String
unfolding char_at
hex_char d = char_at "0123456789abcdef" d
