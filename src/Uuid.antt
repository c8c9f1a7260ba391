-- ===== src/Uuid.antt =====
-- `uuidBytes`, of which packages/crypto/src/item-envelope.ts and identity.ts have a copy each.
use nopass.Prelude.{
  ℕ, ◌+◌, ◌-◌, ◌*◌, ◌≡◌, inl, inr, Bool-cases, String, Bool, ◌&&◌, ◌||◌, List, [], ◌∷◌, Result, ok,
  err, arith, leb, ◌==◌, if◌then◌else◌, not, length, all, filter,
}
use nopass.Prelude.Bytes.{codes}
use nopass.Errors.{Error, not_a_uuid}

is_hex : ℕ → Bool
is_hex c = leb b'0' c && leb c b'9' || (leb b'a' c && leb c b'f' || leb b'A' c && leb c b'F')

-- The value of a hexadecimal digit.
hex_digit : ℕ → ℕ
hex_digit c = if leb c b'9' then c - b'0' else if leb c b'F' then c - b'A' + 10 else c - b'a' + 10

hex_pairs : List ℕ → List ℕ
unfolding hex_digit
hex_pairs [] = []
hex_pairs (c ∷ []) = []
hex_pairs (c ∷ d ∷ r) = (hex_digit c * 16 + hex_digit d) ∷ hex_pairs r

-- `uuid.replace(/-/g, "")`
without_dashes : String → List ℕ
without_dashes uuid = filter (λ c. not (c == b'-')) (codes uuid)

unfoldable pub uuid_bytes : String → Result Error (List ℕ)
unfolding hex_pairs is_hex without_dashes
uuid_bytes uuid =
    let hex = without_dashes uuid in
    if length hex == 32 && all is_hex hex then ok (hex_pairs hex) else err (not_a_uuid uuid)

length-hex_pairs : (n : ℕ) (xs : List ℕ) → length xs ≡ n + n → length (hex_pairs xs) ≡ n
unfolding hex_pairs
length-hex_pairs n [] e = omega arith
length-hex_pairs n (c ∷ []) e = omega arith
length-hex_pairs n (c ∷ d ∷ r) e = omega (arith, length-hex_pairs (n - 1) r (omega arith))

length-parsed :
    (hex : List ℕ) (e : Error) (b : Bool) {bs : List ℕ}
    → (if length hex == 32 && b then ok (hex_pairs hex) else err e) ≡ ok bs
    → length bs ≡ 16
length-parsed hex e b h = elim (Bool-cases (length hex == 32)) [
  | inl full ↦ ground (arith, length-hex_pairs 16 hex)
  | inr other ↦ ground arith
]

-- Sixteen bytes, or the error.
pub length-uuid_bytes : (u : String) {bs : List ℕ} → uuid_bytes u ≡ ok bs → length bs ≡ 16
unfolding uuid_bytes
length-uuid_bytes u e =
    length-parsed (without_dashes u) (not_a_uuid u) (all is_hex (without_dashes u)) e
