-- ===== src/Prelude/Results.antt =====
-- Code that throws: a value or the error thrown. `E` is the type of the errors.
use mathlib.Core.Path.{◌≡◌, refl}
use mathlib.Core.Logic.{◌⊎◌, inl, inr}
use mathlib.Core.Bool.{Bool, true, false}
use mathlib.Core.Option.{Option, none, some}

pub data Result {ℓ κ} (E : Type ℓ) (A : Type κ) : Type (ℓ ⊔ κ) where
  ok : A → Result E A
  err : E → Result E A

-- What follows a call that may throw; `>>` is for a call without a value.
infixl 5 ◌>>=◌ ◌>>◌
abbrev pub ◌>>=◌ {ℓ κ μ} :
    {E : Type ℓ} {A : Type κ} {B : Type μ} → Result E A → (A → Result E B) → Result E B
err thrown >>= next = err thrown
ok value >>= next = next value

abbrev pub ◌>>◌ {ℓ κ} : {E : Type ℓ} {B : Type κ} → Result E (Unit {0}) → Result E B → Result E B
err thrown >> next = err thrown
ok done >> next = next

-- `if (!b) throw e`
abbrev pub guard {ℓ} : {E : Type ℓ} → Bool → E → Result E (Unit {0})
guard false thrown = err thrown
guard true thrown = ok tt

abbrev pub or_throw {ℓ κ} : {E : Type ℓ} {A : Type κ} → Option A → E → Result E A
or_throw none e = err e
or_throw (some a) e = ok a

module _ {ℓ κ} {E : Type ℓ} {A : Type κ} where
  pub Result-cases : (r : Result E A) → ((a : A) × (r ≡ ok a)) ⊎ ((e : E) × (r ≡ err e))
  Result-cases (ok a) = inl (a, refl)
  Result-cases (err e) = inr (e, refl)

-- What a chain of calls that returns says of each of them.
module _ {ℓ κ μ} {E : Type ℓ} {A : Type κ} {B : Type μ} where
  pub bind_ok :
      (r : Result E A) (f : A → Result E B) (b : B)
      → (r >>= f) ≡ ok b
      → (a : A) × (r ≡ ok a) × (f a ≡ ok b)
  bind_ok (ok a) f b h = (a, refl, h)
  bind_ok (err e) f b h = cc

module _ {ℓ κ} {E : Type ℓ} {B : Type κ} where
  pub guard_ok :
      (t : Bool) (e : E) (r : Result E B) (b : B)
      → (guard t e >> r) ≡ ok b
      → (t ≡ true) × (r ≡ ok b)
  guard_ok true e r b h = (refl, h)
  guard_ok false e r b h = cc

  pub or_throw_ok : (o : Option B) (e : E) (b : B) → or_throw o e ≡ ok b → o ≡ some b
  or_throw_ok (some a) e b h = cc
  or_throw_ok none e b h = cc

  pub ok_injective : (a b : B) → ◌≡◌ {A = Result E B} (ok a) (ok b) → a ≡ b
  ok_injective a b h = cc h
