-- ===== src/Srp/Numbers.antt =====
-- srp-client.ts: bytes, hex texts and big integers, and `modPow`. A hex text is the list of its digits,
-- each below 16, and a big integer here is never negative.
use nopass.Prelude.{
  ℕ, zero, suc, ◌+◌, ◌*◌, ◌/◌, ◌%◌, ◌≡◌, List, [], ◌∷◌, Option, none, some, if◌then◌else◌, ◌==◌,
  length,
}
pub mod ModPow
pub mod RoundTrip

-- The digits of `hex`, two to a byte.
unfoldable pub pairs : List ℕ → List ℕ
pairs [] = []
pairs (d ∷ []) = []
pairs (d ∷ e ∷ ds) = (d * 16 + e) ∷ pairs ds

unfoldable pub hex_to_bytes : List ℕ → List ℕ
unfolding pairs
hex_to_bytes hex = if length hex % 2 == 0 then pairs hex else pairs (0 ∷ hex)

-- `x.toString(16).padStart(2, "0")` of each byte, joined.
unfoldable pub bytes_to_hex : List ℕ → List ℕ
bytes_to_hex [] = []
bytes_to_hex (b ∷ bs) = b / 16 ∷ b % 16 ∷ bytes_to_hex bs

-- `n.toString(16)` of a number that is not 0: its digits, before those given. The fuel is the number.
unfoldable pub hex_from : ℕ → ℕ → List ℕ → List ℕ
hex_from zero n digits = digits
hex_from (suc fuel) n digits =
    let rest = hex_from fuel (n / 16) (n % 16 ∷ digits) in if n == 0 then digits else rest

unfoldable pub big_int_to_bytes : ℕ → List ℕ
unfolding hex_from
big_int_to_bytes n =
    if n == 0
    then 0 ∷ []
    else (let hex = hex_from n n [] in hex_to_bytes (if length hex % 2 == 0 then hex else 0 ∷ hex))

unfoldable pub of_hex_from : ℕ → List ℕ → ℕ
of_hex_from acc [] = acc
of_hex_from acc (d ∷ ds) = of_hex_from (acc * 16 + d) ds

-- `BigInt("0x" + hex)`, which throws where there is no digit.
unfoldable pub big_int_of : List ℕ → Option ℕ
unfolding of_hex_from
big_int_of [] = none
big_int_of (d ∷ ds) = some (of_hex_from 0 (d ∷ ds))

unfoldable pub bytes_to_big_int : List ℕ → Option ℕ
unfolding big_int_of bytes_to_hex
bytes_to_big_int bytes = big_int_of (bytes_to_hex bytes)

-- `while (exp > 0n)`, where `exp & 1n` is the remainder by 2; the exponent is fuel enough.
unfoldable pub mod_pow_loop : ℕ → ℕ → ℕ → ℕ → ℕ → ℕ
mod_pow_loop zero mod_by result base exp = result
mod_pow_loop (suc fuel) mod_by result base exp =
    let rest =
      mod_pow_loop fuel mod_by (if exp % 2 == 1 then result * base % mod_by else result)
        (base * base % mod_by) (exp / 2) in
    if exp == 0 then result else rest

unfoldable pub mod_pow : ℕ → ℕ → ℕ → ℕ
unfolding mod_pow_loop
mod_pow base exp mod_by = mod_pow_loop exp mod_by 1 ((base % mod_by + mod_by) % mod_by) exp
