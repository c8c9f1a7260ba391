-- ===== src/Srp/Compare.antt =====
-- The comparison of the server's proof: `|=` of the differences is 0 only for equal bytes.
use Prim.Native.Nat.{bit_or, bit_xor, bit_or-bitwise, bit_xor-bitwise, digits, differ}
use nopass.Prelude.{
  ℕ, zero, suc, ◌/◌, ◌%◌, ◌≤◌, ◌≡◌, ◌↔◌, refl, sym, ap, ◌∙◌, arith, max, List, [], ◌∷◌, length,
}
use nopass.Srp.{diff_from}

differ-zero : (x y : ℕ) → differ x y ≡ 0 → x ≡ y
differ-zero zero y h = omega arith
differ-zero (suc x) zero h = h
differ-zero (suc x) (suc y) h = ap suc (differ-zero x y h)

differ_self : (x : ℕ) → differ x x ≡ 0
differ_self zero = refl
differ_self (suc x) = differ_self x

digits_max-zero : (n a b : ℕ) → a ≤ n → digits (λ y. y) max n a b ≡ 0 → (a ≡ 0) × (b ≡ 0)
digits_max-zero zero a b le h = (omega arith, h)
digits_max-zero (suc n) zero b le h = (refl, h)
digits_max-zero (suc n) (suc a) b le h =
    let ih = digits_max-zero n (suc a / 2) (b / 2) (omega arith) (omega arith) in
    absurd (omega arith)

digits_differ-zero : (n a b : ℕ) → a ≤ n → digits (λ y. y) differ n a b ≡ 0 → a ≡ b
digits_differ-zero zero a b le h = omega arith
digits_differ-zero (suc n) zero b le h = omega arith
digits_differ-zero (suc n) (suc a) b le h =
    let ih = digits_differ-zero n (suc a / 2) (b / 2) (omega arith) (omega arith) in
    let low = differ-zero (suc a % 2) (b % 2) (omega arith) in omega arith

digits_differ_self : (n a : ℕ) → a ≤ n → digits (λ y. y) differ n a a ≡ 0
digits_differ_self zero a le = omega arith
digits_differ_self (suc n) zero le = refl
digits_differ_self (suc n) (suc a) le =
    omega (arith, digits_differ_self n (suc a / 2) (omega arith), differ_self (suc a % 2))

bit_or-zero : (a b : ℕ) → bit_or a b ≡ 0 → (a ≡ 0) × (b ≡ 0)
bit_or-zero a b h = digits_max-zero a a b (omega arith) (sym (bit_or-bitwise a b) ∙ h)

bit_xor-zero : (a b : ℕ) → bit_xor a b ≡ 0 → a ≡ b
bit_xor-zero a b h = digits_differ-zero a a b (omega arith) (sym (bit_xor-bitwise a b) ∙ h)

bit_xor_self : (a : ℕ) → bit_xor a a ≡ 0
bit_xor_self a = bit_xor-bitwise a a ∙ digits_differ_self a a (omega arith)

diff_from_sound :
    (d : ℕ) (es ss : List ℕ) → length es ≡ length ss → diff_from d es ss ≡ 0 → (d ≡ 0) × (es ≡ ss)
unfolding diff_from
diff_from_sound d [] [] l h = (h, refl)
diff_from_sound d [] (s ∷ ss) l h = absurd (omega arith)
diff_from_sound d (e ∷ es) [] l h = absurd (omega arith)
diff_from_sound d (e ∷ es) (s ∷ ss) l h =
    let (both, rest) = diff_from_sound (bit_or d (bit_xor e s)) es ss (omega arith) h in
    let (none, same) = bit_or-zero d (bit_xor e s) both in (none, cc (bit_xor-zero e s same, rest))

diff_from_start : (d : ℕ) (es ss : List ℕ) → diff_from d es ss ≡ 0 → d ≡ 0
unfolding diff_from
diff_from_start d [] ss h = h
diff_from_start d (e ∷ es) [] h =
    (bit_or-zero d _ (diff_from_start (bit_or d (bit_xor e 0)) es [] h)).0
diff_from_start d (e ∷ es) (s ∷ ss) h =
    (bit_or-zero d _ (diff_from_start (bit_or d (bit_xor e s)) es ss h)).0

diff_from_self : (es : List ℕ) → diff_from 0 es es ≡ 0
unfolding diff_from
diff_from_self [] = refl
diff_from_self (e ∷ es) =
    let none : bit_or 0 (bit_xor e e) ≡ 0 = ap (bit_or 0) (bit_xor_self e) in
    rw none (diff_from_self es)

-- A difference of lengths is counted before the bytes are.
pub diff_from_iff :
    (es ss : List ℕ) (d : ℕ) → d ≡ 0 ↔ (length ss ≡ length es) → (diff_from d es ss ≡ 0) ↔ (ss ≡ es)
diff_from_iff es ss d lengths = (
  λ h. sym (diff_from_sound d es ss (sym (lengths.0 (diff_from_start d es ss h))) h).1,
  λ same. rw (lengths.1 (ap length same), same) (diff_from_self es),
)
