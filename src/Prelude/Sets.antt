-- ===== src/Prelude/Sets.antt =====
-- A JavaScript `Set` of texts: a list in insertion order without repetitions.
use Prim.Native.String.{String}
use mathlib.Core.Path.{◌≡◌, refl}
use mathlib.Core.Bool.{Bool, false, ◌||◌}
use mathlib.Core.List.{List, [], ◌∷◌, ◌++◌}
use text.Mathlib.TextEquality.{eq_iff}
use native.Mathlib.Omega.{arith}
use nopass.Prelude.Tests.{str_eq, if◌then◌else◌}

-- `xs.includes(s)`, and `set.has(s)`
unfoldable pub has : String → List String → Bool
has s [] = false
has s (x ∷ xs) = str_eq x s || has s xs

-- `set.add(s)`
unfoldable pub add : String → List String → List String
add s xs = if has s xs then xs else xs ++ s ∷ []

-- `new Set([...xs, ...ys])`, with `xs` the set built so far
unfoldable pub add_all : List String → List String → List String
add_all xs [] = xs
add_all xs (y ∷ ys) = add_all (add y xs) ys

pub has-append : (s : String) (xs ys : List String) → has s (xs ++ ys) ≡ (has s xs || has s ys)
unfolding has
has-append s [] ys = refl
has-append s (x ∷ xs) ys = ground (arith, has-append s xs ys)

pub has-add : (s y : String) (xs : List String) → has s (add y xs) ≡ (str_eq y s || has s xs)
unfolding has add
has-add s y xs = ground (arith, has-append s xs (y ∷ []), eq_iff y s)

pub has-add_all :
    (s : String) (xs ys : List String) → has s (add_all xs ys) ≡ (has s xs || has s ys)
unfolding has add_all
has-add_all s xs [] = ground arith
has-add_all s xs (y ∷ ys) = ground (arith, has-add_all s (add y xs) ys, has-add s y xs)
