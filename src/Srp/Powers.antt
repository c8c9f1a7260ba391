-- ===== src/Srp/Powers.antt =====
-- Powers and their remainders, on the native numbers.
use native.Mathlib.Nat.{
  pow-zero, pow-suc, add-zero, mul-zero, mul-one, mod-add-div', mul_comm, mul_assoc,
  add-mul-mod_self_right,
}
use nopass.Prelude.{ℕ, zero, suc, ◌+◌, ◌*◌, ◌/◌, ◌%◌, ◌^◌, ◌≡◌, sym, ap, ◌∙◌, arith}

-- A factor may be reduced first.
pub mod-mul : (a b m : ℕ) → a % m * b % m ≡ a * b % m
mod-mul a b m = sym (add-mul-mod_self_right (a % m * b) (a / m * b) m) ∙ ap (λ x. x % m) whole
  where
    whole : a % m * b + a / m * b * m ≡ a * b
    whole = grind (arith, mod-add-div' a m, ap (λ (x : ℕ). x * b) (mod-add-div' a m))

pub mul-mod : (a b m : ℕ) → a * (b % m) % m ≡ a * b % m
mul-mod a b m =
    ap (λ x. x % m) (mul_comm a (b % m)) ∙ mod-mul b a m ∙ ap (λ x. x % m) (mul_comm b a)

pub pow-add : (a i j : ℕ) → a ^ (i + j) ≡ a ^ i * a ^ j
pow-add a i zero =
    ap (λ x. a ^ x) (add-zero i) ∙ sym (ap (λ x. a ^ i * x) (pow-zero a) ∙ mul-one (a ^ i))
pow-add a i (suc j) =
    ap (λ x. a ^ x) {x = i + suc j} {y = suc (i + j)} (omega arith)
    ∙ pow-suc a (i + j)
    ∙ ap (λ x. x * a) (pow-add a i j)
    ∙ mul_assoc (a ^ i) (a ^ j) a
    ∙ ap (λ x. a ^ i * x) (sym (pow-suc a j))

pub mul-pow : (a b n : ℕ) → (a * b) ^ n ≡ a ^ n * b ^ n
mul-pow a b zero = rw (pow-zero (a * b), pow-zero a, pow-zero b)
mul-pow a b (suc n) =
    rw (pow-suc (a * b) n, pow-suc a n, pow-suc b n, mul-pow a b n) (swap (a ^ n) (b ^ n))
  where
    swap : (x y : ℕ) → x * y * (a * b) ≡ x * a * (y * b)
    swap x y = grind arith

pub pow-mul : (a i j : ℕ) → a ^ (i * j) ≡ (a ^ i) ^ j
pow-mul a i zero = ap (λ x. a ^ x) (mul-zero i) ∙ pow-zero a ∙ sym (pow-zero (a ^ i))
pow-mul a i (suc j) =
    ap (λ x. a ^ x) {x = i * suc j} {y = i * j + i} (omega arith)
    ∙ pow-add a (i * j) i
    ∙ ap (λ x. x * a ^ i) (pow-mul a i j)
    ∙ sym (pow-suc (a ^ i) j)

pub mod-pow : (a n m : ℕ) → (a % m) ^ n % m ≡ a ^ n % m
mod-pow a zero m = rw (pow-zero (a % m), pow-zero a)
mod-pow a (suc n) m =
    rw (pow-suc (a % m) n, pow-suc a n)
      (mul-mod ((a % m) ^ n) a m
        ∙ sym (mod-mul ((a % m) ^ n) a m)
        ∙ ap (λ x. x * a % m) (mod-pow a n m)
        ∙ mod-mul (a ^ n) a m)
