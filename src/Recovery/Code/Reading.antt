-- ===== src/Recovery/Code/Reading.antt =====
-- A code that is typed in, in groups or not, with the letters that are easily confused.
use nopass.Prelude.{
  ℕ, zero, suc, ◌%◌, ◌<◌, ◌≡◌, refl, ap, ◌⊎◌, inl, inr, Bool, true, false, Option, none, some,
  if◌then◌else◌, not, ◌&&◌, arith, List, [], ◌∷◌, map, All, length, filter, ◌==◌,
}
use nopass.Recovery.Code.{
  alphabet, symbol, in_groups, is_separator, canonical, normalize_recovery_code,
}
use nopass.Recovery.Code.Entropy.{IsSymbol}

-- The greatest number under a limit that fails a test.
last_failing : (ℕ → Bool) → ℕ → Option ℕ
last_failing test zero = none
last_failing test (suc limit) = if test limit then last_failing test limit else some limit

passes :
    (test : ℕ → Bool) (limit d : ℕ) → last_failing test limit ≡ none → d < limit → test d ≡ true
unfolding last_failing
passes test zero d e below = absurd (omega arith)
passes test (suc limit) d e below = ground (arith, passes test limit d)

abbrev is_kept : ℕ → Bool
is_kept d = not (is_separator (symbol d)) && canonical (symbol d) == symbol d

all_kept : last_failing is_kept 32 ≡ none
unfolding last_failing is_separator canonical symbol
all_kept = refl

-- No symbol is a separator, or is changed.
symbol-kept :
    (d : ℕ) → d < 32 → (is_separator (symbol d) ≡ false) × (canonical (symbol d) ≡ symbol d)
symbol-kept d h = let k = passes is_kept 32 d all_kept h in (ground arith, ground arith)

-- Where a symbol stands in the alphabet.
index_from : ℕ → List ℕ → ℕ → ℕ
index_from n [] c = n
index_from n (x ∷ xs) c = let rest = index_from (suc n) xs c in if x == c then n else rest

abbrev is_found : ℕ → Bool
is_found d = index_from 0 alphabet (symbol d) == d

all_found : last_failing is_found 32 ≡ none
unfolding last_failing index_from symbol
all_found = refl

-- The symbols of different digits differ.
symbol-injective : (d e : ℕ) → IsSymbol d → IsSymbol e → symbol d ≡ symbol e → d ≡ e
symbol-injective d e hd he same =
    let a = passes is_found 32 d all_found hd in
    let b = passes is_found 32 e all_found he in
    let at : index_from 0 alphabet (symbol d) ≡ index_from 0 alphabet (symbol e) =
      ap (index_from 0 alphabet) same in
    ground (arith, at)

pub map-symbol-injective :
    (ds es : List ℕ) → All IsSymbol ds → All IsSymbol es → map symbol ds ≡ map symbol es → ds ≡ es
map-symbol-injective [] [] hd he h = refl
map-symbol-injective [] (e ∷ es) hd he h = absurd (cc h)
map-symbol-injective (d ∷ ds) [] hd he h = absurd (cc h)
map-symbol-injective (d ∷ ds) (e ∷ es) hd he h =
    cc (symbol-injective d e hd.0 he.0 (cc h), map-symbol-injective ds es hd.1 he.1 (cc h))

dash_separates : is_separator b'-' ≡ true
unfolding is_separator
dash_separates = refl

-- The letter `c` may be read for the symbol `s`: O for 0, I and L for 1, U for V.
abbrev pub ReadFor : ℕ → ℕ → Type 0
ReadFor c s =
    (c ≡ s)
    ⊎ ((c ≡ b'O') × (s ≡ b'0'))
    ⊎ ((c ≡ b'I') × (s ≡ b'1'))
    ⊎ ((c ≡ b'L') × (s ≡ b'1'))
    ⊎ ((c ≡ b'U') × (s ≡ b'V'))

-- An entry of symbols, with separators anywhere.
pub data Typed : List ℕ → List ℕ → Type 0 where
  nothing : Typed [] []
  separator :
      {entry symbols : List ℕ} (c : ℕ)
      → is_separator c ≡ true
      → Typed entry symbols
      → Typed (c ∷ entry) symbols
  letter :
      {entry symbols : List ℕ} (c d : ℕ)
      → IsSymbol d
      → ReadFor c (symbol d)
      → Typed entry symbols
      → Typed (c ∷ entry) (symbol d ∷ symbols)

letter-read :
    (c d : ℕ)
    → IsSymbol d
    → ReadFor c (symbol d)
    → (is_separator c ≡ false) × (canonical c ≡ symbol d)
unfolding is_separator canonical
letter-read c d h (inl e) = rw e (symbol-kept d h)
letter-read c d h (inr r) = ground arith

-- An entry is read as its symbols.
pub normalize-Typed :
    (upper_case : List ℕ → List ℕ) (entry symbols : List ℕ)
    → Typed (upper_case entry) symbols
    → normalize_recovery_code upper_case entry ≡ symbols
unfolding normalize_recovery_code
normalize-Typed upper_case entry symbols t = read t
  where
    read :
        {entry symbols : List ℕ}
        → Typed entry symbols
        → map canonical (filter (λ c. not (is_separator c)) entry) ≡ symbols
    read nothing = refl
    read (separator c h t) = rw h (read t)
    read (letter c d h r t) =
        let (kept, same) = letter-read c d h r in rw (kept, same) (ap (◌∷◌ (symbol d)) (read t))

-- A code in its groups is an entry of its symbols.
pub in_groups-Typed :
    (digits : List ℕ)
    → All IsSymbol digits
    → length digits % 4 ≡ 0
    → Typed (in_groups (map symbol digits)) (map symbol digits)
unfolding in_groups
in_groups-Typed [] h e = nothing
in_groups-Typed (a ∷ []) h e = absurd (omega arith)
in_groups-Typed (a ∷ b ∷ []) h e = absurd (omega arith)
in_groups-Typed (a ∷ b ∷ c ∷ []) h e = absurd (omega arith)
in_groups-Typed (a ∷ b ∷ c ∷ d ∷ []) (ha, (hb, (hc, (hd, _)))) e =
    letter _ a ha (inl refl)
      (letter _ b hb (inl refl) (letter _ c hc (inl refl) (letter _ d hd (inl refl) nothing)))
in_groups-Typed (a ∷ b ∷ c ∷ d ∷ f ∷ []) h e = absurd (omega arith)
in_groups-Typed (a ∷ b ∷ c ∷ d ∷ f ∷ g ∷ []) h e = absurd (omega arith)
in_groups-Typed (a ∷ b ∷ c ∷ d ∷ f ∷ g ∷ i ∷ []) h e = absurd (omega arith)
in_groups-Typed (a ∷ b ∷ c ∷ d ∷ f ∷ g ∷ i ∷ j ∷ rest) (ha, (hb, (hc, (hd, h)))) e =
    letter _ a ha (inl refl) (
      letter _ b hb (inl refl) (
        letter _ c hc (inl refl) (
          letter _ d hd (inl refl) (
            separator b'-' dash_separates
              (in_groups-Typed (f ∷ g ∷ i ∷ j ∷ rest) h (omega arith))))))
