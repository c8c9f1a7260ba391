-- ===== src/Prelude/Maps.antt =====
-- A JavaScript `Map` or plain object with text keys: an association list in insertion order, in
-- which `set` on a key that is present keeps its place.
use Prim.Native.String.{String}
use mathlib.Core.Path.{◌≡◌, refl, ap, subst}
use mathlib.Core.Logic.{inl, inr}
use mathlib.Core.Bool.{false}
use mathlib.Core.Option.{Option, none, some}
use mathlib.Core.List.{List, [], ◌∷◌, ◌++◌, map}
use text.Mathlib.TextEquality.{eq_iff}
use native.Mathlib.Omega.{arith}
use nopass.Prelude.Tests.{str_eq, str_eq→eq, Bool-cases, if◌then◌else◌}

module _ {ℓ} {V : Type ℓ} where
  unfoldable pub lookup : String → List (String × V) → Option V
  lookup key [] = none
  lookup key ((other, value) ∷ rest) = if str_eq other key then some value else lookup key rest

  -- A key that is there keeps its place.
  unfoldable pub insert : String → V → List (String × V) → List (String × V)
  insert key value [] = (key, value) ∷ []
  insert key value ((other, old) ∷ rest) =
      if str_eq other key then (other, value) ∷ rest else (other, old) ∷ insert key value rest

  pub lookup-insert :
      (key asked : String) (value : V) (entries : List (String × V))
      → lookup asked (insert key value entries)
        ≡ (if str_eq key asked then some value else lookup asked entries)
  unfolding lookup insert
  lookup-insert key asked value [] = refl
  lookup-insert key asked value ((other, old) ∷ rest) =
      let later = lookup-insert key asked value rest in
      ground (arith, later, eq_iff key asked, eq_iff other key, eq_iff other asked)

abbrev pub values {ℓ} : {V : Type ℓ} → List (String × V) → List V
values m = map (λ e. e.1) m

-- Every key stands once.
module _ {ℓ} {V : Type ℓ} where
  abbrev pub Unique : List (String × V) → Type ℓ
  Unique [] = Unit
  Unique ((k, v) ∷ m) = (lookup k m ≡ none) × Unique m

  pub insert-Unique :
      (k : String) (v : V) (m : List (String × V)) → Unique m → Unique (insert k v m)
  unfolding insert lookup
  insert-Unique k v [] u = (refl, tt)
  insert-Unique k v ((j, w) ∷ m) u =
      ground (arith, lookup-insert k j v m, insert-Unique k v m u.1, eq_iff j k, eq_iff k j)

module _ {ℓ} {V : Type ℓ} where
  -- Change the value at a key.
  abbrev pub on_key : String → (V → V) → List (String × V) → List (String × V)
  on_key id f [] = []
  on_key id f ((k, v) ∷ m) = (k, if str_eq k id then f v else v) ∷ on_key id f m

  pub on_key_absent :
      (id : String) (f : V → V) (m : List (String × V)) → lookup id m ≡ none → on_key id f m ≡ m
  unfolding lookup
  on_key_absent id f [] h = refl
  on_key_absent id f ((k, v) ∷ m) h = ground (arith, on_key_absent id f m)

  pub on_key_same :
      (id : String) (f : V → V) (m : List (String × V)) → ((v : V) → f v ≡ v) → on_key id f m ≡ m
  on_key_same id f [] h = refl
  on_key_same id f ((k, v) ∷ m) h = ground (arith, on_key_same id f m h, h v)

  pub insert-on_key :
      (id : String) (f : V → V) (m : List (String × V)) (v : V)
      → Unique m
      → lookup id m ≡ some v
      → insert id (f v) m ≡ on_key id f m
  unfolding lookup insert
  insert-on_key id f [] v u h = cc
  insert-on_key id f ((k, w) ∷ m) v u h = elim (Bool-cases (str_eq k id)) [
    | inl same ↦
        let mine : w ≡ v = ground arith in
        let rest = on_key_absent id f m (subst (λ i. lookup i m ≡ none) (str_eq→eq same) u.0) in
        rw same (cc (ap f mine, rest))
    | inr other ↦ ground (arith, insert-on_key id f m v u.1)
  ]

  pub lookup-on_key-none :
      (j id : String) (f : V → V) (m : List (String × V))
      → lookup j m ≡ none
      → lookup j (on_key id f m) ≡ none
  unfolding lookup
  lookup-on_key-none j id f [] h = refl
  lookup-on_key-none j id f ((k, v) ∷ m) h = ground (arith, lookup-on_key-none j id f m)

  pub on_key-Unique :
      (id : String) (f : V → V) (m : List (String × V)) → Unique m → Unique (on_key id f m)
  on_key-Unique id f [] u = tt
  on_key-Unique id f ((k, v) ∷ m) u = (lookup-on_key-none k id f m u.0, on_key-Unique id f m u.1)

  pub insert-absent :
      (id : String) (v : V) (m : List (String × V))
      → lookup id m ≡ none
      → insert id v m ≡ m ++ (id, v) ∷ []
  unfolding lookup insert
  insert-absent id v [] h = refl
  insert-absent id v ((k, w) ∷ m) h = ground (arith, insert-absent id v m)

  -- In a map of two parts a key of the second is not in the first.
  pub Unique-append_absent :
      (xs : List (String × V)) (k : String) (v : V) (ys : List (String × V))
      → Unique (xs ++ (k, v) ∷ ys)
      → lookup k xs ≡ none
  unfolding lookup
  Unique-append_absent [] k v ys u = refl
  Unique-append_absent ((j, w) ∷ xs) k v ys u =
      ground
        (arith, Unique-append_absent xs k v ys u.1, lookup_append_none xs k v ys j u.0, eq_iff j k)
    where
      lookup_append_none :
          (xs : List (String × V)) (k : String) (v : V) (ys : List (String × V)) (j : String)
          → lookup j (xs ++ (k, v) ∷ ys) ≡ none
          → str_eq k j ≡ false
      lookup_append_none [] k v ys j h = ground arith
      lookup_append_none ((i, w) ∷ xs) k v ys j h = lookup_append_none xs k v ys j (ground arith)
