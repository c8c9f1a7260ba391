-- ===== src/Srp/Numbers/ModPow.antt =====
-- `modPow` is the power's remainder.
use native.Mathlib.Nat.{
  pow-zero, pow-suc, mod-eq_of_lt, mul-one, one-mul, mul_assoc, mul_comm, mod-lt, mod-mod,
  add-mod_right,
}
use nopass.Prelude.{
  ℕ, zero, suc, ◌+◌, ◌*◌, ◌/◌, ◌%◌, ◌^◌, ◌<◌, ◌≤◌, ◌≡◌, sym, ap, ◌∙◌, inl, inr, arith, ◌==◌,
  Bool-cases, false,
}
use nopass.Srp.Powers.{mod-mul, mul-mod, pow-add, mul-pow, mod-pow}
use nopass.Srp.Numbers.{mod_pow_loop, mod_pow}

square-pow : (b k m : ℕ) → (b * b % m) ^ k % m ≡ b ^ (k + k) % m
square-pow b k m = mod-pow (b * b) k m ∙ ap (λ x. x % m) (mul-pow b b k ∙ sym (pow-add b k k))

-- Both factors of a product may be reduced.
reduced : (x y z m : ℕ) → y % m ≡ z % m → x * y % m ≡ x * z % m
reduced x y z m e = sym (mul-mod x y m) ∙ ap (λ t. x * t % m) e ∙ mul-mod x z m

mod_pow_loop_lem : (fuel m r b e : ℕ) → e ≤ fuel → r < m → mod_pow_loop fuel m r b e ≡ r * b ^ e % m
unfolding mod_pow_loop
mod_pow_loop_lem zero m r b zero h lt = rw (pow-zero b, mul-one r) (sym (mod-eq_of_lt lt))
mod_pow_loop_lem zero m r b (suc e) h lt = absurd (omega arith)
mod_pow_loop_lem (suc fuel) m r b zero h lt = rw (pow-zero b, mul-one r) (sym (mod-eq_of_lt lt))
mod_pow_loop_lem (suc fuel) m r b (suc e) h lt =
    let more : suc e == 0 ≡ false = ground arith in
    elim (Bool-cases (suc e % 2 == 1)) [
      | inl odd ↦
          let k = suc e / 2 in
          let split : suc e ≡ suc (k + k) = ground arith in
          rw (more, odd)
            (mod_pow_loop_lem fuel m (r * b % m) (b * b % m) k (omega arith)
                (mod-lt (r * b) (omega arith))
              ∙ mod-mul (r * b) ((b * b % m) ^ k) m
              ∙ reduced (r * b) ((b * b % m) ^ k) (b ^ (k + k)) m (square-pow b k m)
              ∙ ap (λ x. x % m) (next r (k + k) ∙ ap (λ x. r * b ^ x) (sym split)))
      | inr even ↦
          let k = suc e / 2 in
          let split : suc e ≡ k + k = ground arith in
          rw (more, even)
            (mod_pow_loop_lem fuel m r (b * b % m) k (omega arith) lt
              ∙ reduced r ((b * b % m) ^ k) (b ^ (k + k)) m (square-pow b k m)
              ∙ ap (λ x. r * b ^ x % m) (sym split))
    ]
  where
    next : (r n : ℕ) → r * b * b ^ n ≡ r * b ^ suc n
    next r n = rw (pow-suc b n) (mul_assoc r b (b ^ n) ∙ ap (λ x. r * x) (mul_comm b (b ^ n)))

-- `modPow` ends within as many rounds as its exponent, with the remainder of the power, for a modulus
-- above one.
pub mod_pow_lem : (b e m : ℕ) → 1 < m → mod_pow b e m ≡ b ^ e % m
unfolding mod_pow
mod_pow_lem b e m h =
    mod_pow_loop_lem e m 1 ((b % m + m) % m) e (omega arith) h
    ∙ ap (λ x. x % m) (one-mul _)
    ∙ ap (λ x. x ^ e % m) (add-mod_right (b % m) m ∙ mod-mod b m)
    ∙ mod-pow b e m
