-- ===== src/Recovery/Code.antt =====
-- packages/crypto/src/recovery.ts: the making and the reading of a recovery code.
use nopass.Prelude.{
  ℕ, zero, suc, ◌+◌, ◌-◌, ◌*◌, ◌/◌, ◌%◌, ◌^◌, ◌≡◌, Bool, true, false, not, ◌&&◌, ◌||◌, List, [],
  ◌∷◌, ◌++◌, map, Option, if◌then◌else◌, ltb, leb, ◌==◌, filter,
}
use nopass.Prelude.Bytes.{codes}
pub mod Entropy
pub mod Reading

abbrev pub alphabet : List ℕ
alphabet = codes "0123456789ABCDEFGHJKMNPQRSTVWXYZ"

abbrev pub symbol_from : List ℕ → ℕ → ℕ
symbol_from [] d = 0
symbol_from (c ∷ cs) zero = c
symbol_from (c ∷ cs) (suc d) = symbol_from cs d

-- `ALPHABET[d]`
unfoldable pub symbol : ℕ → ℕ
symbol d = symbol_from alphabet d

-- `while (bits >= 5)`: the bits that are left, and the text. The fuel is the number of bits.
unfoldable pub drain : ℕ → ℕ → ℕ → List ℕ → ℕ × List ℕ
drain zero bits acc out = (bits, out)
drain (suc fuel) bits acc out =
    let rest = drain fuel (bits - 5) acc (out ++ symbol (acc / 2 ^ (bits - 5) % 32) ∷ []) in
    if leb 5 bits then rest else (bits, out)

-- `for (const byte of bytes)`: `(acc << 8) | byte` on 32 bits.
unfoldable pub code_symbols : ℕ → ℕ → List ℕ → List ℕ → List ℕ
unfolding drain
code_symbols bits acc out [] = out
code_symbols bits acc out (byte ∷ bytes) =
    let next = acc * 256 % 2 ^ 32 + byte in
    let drained = drain (bits + 8) (bits + 8) next out in
    code_symbols drained.0 next drained.1 bytes

-- `out.match(/.{4}/g)!.join("-")`, for a text of four symbols or more.
unfoldable pub in_groups : List ℕ → List ℕ
in_groups (a ∷ b ∷ c ∷ d ∷ e ∷ f ∷ g ∷ h ∷ rest) =
    a ∷ b ∷ c ∷ d ∷ b'-' ∷ in_groups (e ∷ f ∷ g ∷ h ∷ rest)
in_groups (a ∷ b ∷ c ∷ d ∷ rest) = a ∷ b ∷ c ∷ d ∷ []
in_groups rest = []

-- The code of 20 random bytes.
unfoldable pub generate_recovery_code : List ℕ → List ℕ
unfolding code_symbols in_groups
generate_recovery_code bytes = in_groups (code_symbols 0 0 [] bytes)

-- `/[\s-]/`
unfoldable pub is_separator : ℕ → Bool
is_separator c =
    c == b'-'
    || (leb 9 c && leb c 13
        || (c == 32
            || (c == 0xA0
                || (c == 0x1680
                    || (leb 0x2000 c && leb c 0x200A
                        || (c == 0x2028
                            || (c == 0x2029
                                || (c == 0x202F
                                    || (c == 0x205F || (c == 0x3000 || c == 0xFEFF))))))))))

-- The three replacements that follow.
unfoldable pub canonical : ℕ → ℕ
canonical c =
    if c == b'O'
    then b'0'
    else if c == b'I' || c == b'L'
    then b'1'
    else if c == b'U'
    then b'V'
    else c

-- `upper_case` is `toUpperCase`.
unfoldable pub normalize_recovery_code : (List ℕ → List ℕ) → List ℕ → List ℕ
unfolding is_separator canonical
normalize_recovery_code upper_case code =
    map canonical (filter (λ c. not (is_separator c)) (upper_case code))
