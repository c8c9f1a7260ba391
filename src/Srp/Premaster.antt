-- ===== src/Srp/Premaster.antt =====
-- Both sides compute the same premaster secret.
use native.Mathlib.Nat.{
  mod-eq_of_lt, add-mod_right, mod-lt, add-mod, mul_comm, mod-eq-sub-mod, mod-mod,
}
use nopass.Prelude.{
  ℕ, ◌+◌, ◌-◌, ◌*◌, ◌%◌, ◌^◌, ◌<◌, ◌≡◌, sym, ap, ◌∙◌, inl, inr, arith, Bool-cases, leb, true, false,
}
use nopass.Platform.{Platform}
use nopass.Account.Kdf.{Derivation}
use nopass.Srp.{Group, sub_mod, premaster}
use nopass.Srp.Powers.{mod-mul, mul-mod, pow-add, pow-mul, mod-pow}
use nopass.Srp.Numbers.{mod_pow}
use nopass.Srp.Numbers.ModPow.{mod_pow_lem}

module _ {K : Type 0} (env : Platform K) (kdf : Derivation) (group : Group)
    (large : 1 < group.n) where
  -- What was added is taken off, whether or not the sum went past the modulus.
  sub_mod-add :
      (p q : ℕ) → p < group.n → q < group.n → sub_mod env kdf group ((p + q) % group.n) p ≡ q
  unfolding sub_mod
  sub_mod-add p q hp hq = elim (Bool-cases (leb group.n (p + q))) [
    | inl past ↦
        let wrapped : (p + q) % group.n ≡ p + q - group.n =
          mod-eq-sub-mod {n = p + q} {m = group.n} (ground arith) ∙ mod-eq_of_lt (ground arith) in
        let less : leb p (p + q - group.n) ≡ false = ground arith in
        let gap : p - (p + q - group.n) ≡ group.n - q = ground arith in
        let small : (group.n - q) % group.n ≡ group.n - q = mod-eq_of_lt (ground arith) in
        let back : group.n - (group.n - q) ≡ q = omega arith in
        rw (wrapped, less, gap, small, back) (mod-eq_of_lt hq)
    | inr within ↦
        let sum : (p + q) % group.n ≡ p + q = mod-eq_of_lt (ground arith) in
        let more : leb p (p + q) ≡ true = ground arith in
        let gap : p + q - p ≡ q = omega arith in
        rw (sum, more, gap)
          (add-mod_right (q % group.n) group.n ∙ mod-mod q group.n ∙ mod-eq_of_lt hq)
  ]

  -- The base of the client's power is the server's ephemeral power.
  sub_mod-public :
      (k v gb : ℕ) → sub_mod env kdf group ((k * v + gb) % group.n) (k * v % group.n) ≡ gb % group.n
  sub_mod-public k v gb = rw (add-mod (k * v) gb group.n) (
      sub_mod-add (k * v % group.n) (gb % group.n) (mod-lt (k * v) (omega arith))
        (mod-lt gb (omega arith)))

  -- `((g ^ a) * (g ^ x) ^ u) ^ b`, reduced at each step
  server_power :
      (a b u x : ℕ)
      → (group.g ^ a % group.n * (group.g ^ x % group.n) ^ u) ^ b % group.n
        ≡ group.g ^ ((a + x * u) * b) % group.n
  server_power a b u x =
      let n = group.n in
      let g = group.g in
      let inner : g ^ a % n * (g ^ x % n) ^ u % n ≡ g ^ (a + x * u) % n =
        mod-mul (g ^ a) ((g ^ x % n) ^ u) n
        ∙ sym (mul-mod (g ^ a) ((g ^ x % n) ^ u) n)
        ∙ ap (λ t. g ^ a * t % n) (mod-pow (g ^ x) u n ∙ ap (λ t. t % n) (sym (pow-mul g x u)))
        ∙ mul-mod (g ^ a) (g ^ (x * u)) n
        ∙ ap (λ t. t % n) (sym (pow-add g a (x * u))) in
      sym (mod-pow (g ^ a % n * (g ^ x % n) ^ u) b n)
      ∙ ap (λ t. t ^ b % n) inner
      ∙ mod-pow (g ^ (a + x * u)) b n
      ∙ ap (λ t. t % n) (sym (pow-mul g (a + x * u) b))

  pub premaster-agrees :
      (k a b u x : ℕ)
      → premaster env kdf group k a ((k * (group.g ^ x % group.n) + group.g ^ b) % group.n) u x
        ≡ (group.g ^ a % group.n * (group.g ^ x % group.n) ^ u) ^ b % group.n
  unfolding premaster
  premaster-agrees k a b u x =
      let n = group.n in
      let g = group.g in
      let v = g ^ x % n in
      let exps : b * (a + u * x) ≡ (a + x * u) * b =
        mul_comm b (a + u * x) ∙ ap (λ t. (a + t) * b) (mul_comm u x) in
      ap (λ t. mod_pow (sub_mod env kdf group ((k * v + g ^ b) % n) (k * t % n)) (a + u * x) n)
        (mod_pow_lem g x n large)
      ∙ ap (λ t. mod_pow t (a + u * x) n) (sub_mod-public k v (g ^ b))
      ∙ mod_pow_lem (g ^ b % n) (a + u * x) n large
      ∙ mod-pow (g ^ b) (a + u * x) n
      ∙ ap (λ t. t % n) (sym (pow-mul g b (a + u * x)) ∙ ap (λ t. g ^ t) exps)
      ∙ sym (server_power a b u x)
