-- ===== src/Prelude/Bytes.antt =====
-- Bytes as numbers below 256, and numbers as big-endian bytes of a fixed width.
use Prim.Native.Nat.{ℕ, zero, suc, ◌+◌, ◌*◌, ◌/◌, ◌%◌, ◌<◌}
use Prim.Native.Char.{code}
use Prim.Native.String.{String}
use mathlib.Core.Path.{◌≡◌, refl, ap}
use mathlib.Core.List.{List, [], ◌∷◌, ◌++◌}
use native.Mathlib.Omega.{arith}
use nopass.Prelude.Lists.{length, All, length-append}

-- The code points of a text, which are its bytes where it is ASCII.
abbrev pub codes : String → List ℕ
codes String.[] = []
codes (String.◌∷◌ c s) = code c ∷ codes s

abbrev pub IsByte : ℕ → Type 0
IsByte b = b < 256

-- The last `w` bytes of `n`, most significant first.
unfoldable pub be : ℕ → ℕ → List ℕ
be zero n = []
be (suc w) n = be w (n / 256) ++ (n % 256) ∷ []

-- The number that bytes stand for, most significant first.
unfoldable pub of_be_from : ℕ → List ℕ → ℕ
of_be_from acc [] = acc
of_be_from acc (b ∷ bs) = of_be_from (acc * 256 + b) bs

unfoldable pub of_be : List ℕ → ℕ
unfolding of_be_from
of_be bs = of_be_from 0 bs

pub length-be : (w n : ℕ) → length (be w n) ≡ w
unfolding be
length-be zero n = refl
length-be (suc w) n =
    omega (arith, length-append (be w (n / 256)) ((n % 256) ∷ []), length-be w (n / 256))

-- The numbers that fit in `w` bytes are those below this.
abbrev pub be_limit : ℕ → ℕ
be_limit zero = 1
be_limit (suc w) = 256 * be_limit w

of_be_from-append :
    (acc : ℕ) (xs ys : List ℕ) → of_be_from acc (xs ++ ys) ≡ of_be_from (of_be_from acc xs) ys
unfolding of_be_from
of_be_from-append acc [] ys = refl
of_be_from-append acc (x ∷ xs) ys = of_be_from-append (acc * 256 + x) xs ys

-- Reading back what was written.
pub of_be-be : (w n : ℕ) → n < be_limit w → of_be (be w n) ≡ n
unfolding of_be be
of_be-be zero n h = omega arith
of_be-be (suc w) n h = ground (
  arith,
  of_be_from-append 0 (be w (n / 256)) ((n % 256) ∷ []),
  of_be-be w (n / 256) (omega arith),
)

pub be-injective : (w m n : ℕ) → m < be_limit w → n < be_limit w → be w m ≡ be w n → m ≡ n
be-injective w m n p q e = cc (of_be-be w m p, of_be-be w n q, ap of_be e)

pub All-append {ℓ κ} :
    {A : Type ℓ} (P : A → Type κ) (xs ys : List A) → All P xs → All P ys → All P (xs ++ ys)
All-append P [] ys h k = k
All-append P (x ∷ xs) ys h k = (h.0, All-append P xs ys h.1 k)

pub be_bytes : (w n : ℕ) → All IsByte (be w n)
unfolding be
be_bytes zero n = tt
be_bytes (suc w) n =
    All-append IsByte (be w (n / 256)) ((n % 256) ∷ []) (be_bytes w (n / 256)) (omega arith, tt)
