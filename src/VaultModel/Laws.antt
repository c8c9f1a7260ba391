-- ===== src/VaultModel/Laws.antt =====
-- What a search finds, the order of the list, and how often a password is used.
use mathlib.Core.List.{Perm}
use mathlib.Core.List.Perm
use nopass.Prelude.{
  ℕ, zero, suc, ◌+◌, ◌≡◌, refl, ap, ◌∙◌, inl, inr, ◌≢◌, String, Bool, true, false, List, [], ◌∷◌,
  Option, none, some, arith, str_eq, eq_iff, if◌then◌else◌, All, Bool-cases, get_or_else,
}
use nopass.Prelude.Maps.{lookup, insert, lookup-insert}
use nopass.Types.Vault.{EncryptedVaultItem, VaultItemPlaintext}
use nopass.VaultModel.{
  TextTools, SortKey, insert_sorted, sort_by, comes_after, sort_items, count_password, count_from,
  password_use_counts,
}

module _ {A : Type 0} (after : A → A → Bool) where
  -- No element belongs behind a later one.
  abbrev pub Sorted : List A → Type 0
  Sorted [] = Unit
  Sorted (x ∷ xs) = All (λ y. after x y ≡ false) xs × Sorted xs

  insert_sorted-Perm : (x : A) (xs : List A) → Perm (insert_sorted after x xs) (x ∷ xs)
  unfolding insert_sorted
  insert_sorted-Perm x [] = Perm.refl (x ∷ [])
  insert_sorted-Perm x (y ∷ ys) = elim (Bool-cases (after x y)) [
    | inl behind ↦ rw behind (Perm.trans (Perm.cons y (insert_sorted-Perm x ys)) (Perm.swap x y ys))
    | inr front ↦ rw front (Perm.refl (x ∷ y ∷ ys))
  ]

  sort_by-Perm : (xs : List A) → Perm (sort_by after xs) xs
  unfolding sort_by
  sort_by-Perm [] = Perm.refl []
  sort_by-Perm (x ∷ xs) =
      Perm.trans (insert_sorted-Perm x (sort_by after xs)) (Perm.cons x (sort_by-Perm xs))

  module _ (after_trans : (x y z : A) → after x y ≡ false → after y z ≡ false → after x z ≡ false)
      (after_asym : (x y : A) → after x y ≡ true → after y x ≡ false) where
    All-after :
        (x y : A) (ys : List A)
        → after x y ≡ false
        → All (λ z. after y z ≡ false) ys
        → All (λ z. after x z ≡ false) ys
    All-after x y [] h k = tt
    All-after x y (z ∷ zs) h k = (after_trans x y z h k.0, All-after x y zs h k.1)

    All-insert_sorted :
        (w x : A) (xs : List A)
        → after w x ≡ false
        → All (λ z. after w z ≡ false) xs
        → All (λ z. after w z ≡ false) (insert_sorted after x xs)
    unfolding insert_sorted
    All-insert_sorted w x [] h k = (h, tt)
    All-insert_sorted w x (y ∷ ys) h k = elim (Bool-cases (after x y)) [
      | inl behind ↦ rw behind (k.0, All-insert_sorted w x ys h k.1)
      | inr front ↦ rw front (h, k)
    ]

    insert_sorted-Sorted : (x : A) (xs : List A) → Sorted xs → Sorted (insert_sorted after x xs)
    unfolding insert_sorted
    insert_sorted-Sorted x [] s = (tt, tt)
    insert_sorted-Sorted x (y ∷ ys) s = elim (Bool-cases (after x y)) [
      | inl behind ↦
          rw behind
            (All-insert_sorted y x ys (after_asym x y behind) s.0, insert_sorted-Sorted x ys s.1)
      | inr front ↦ rw front ((front, All-after x y ys front s.0), s)
    ]

    sort_by-Sorted : (xs : List A) → Sorted (sort_by after xs)
    unfolding sort_by
    sort_by-Sorted [] = tt
    sort_by-Sorted (x ∷ xs) = insert_sorted-Sorted x (sort_by after xs) (sort_by-Sorted xs)

module _ (tools : TextTools) where
  -- The sorted list holds the same items, each as often, and with comparisons that are weak orders no
  -- item stands before one that it belongs behind: by name, or the newest first.
  pub sort_items-Sorted :
      (items : List EncryptedVaultItem) (plaintexts : List (String × VaultItemPlaintext))
      (key : SortKey)
      → ((a b c : EncryptedVaultItem)
          → comes_after tools plaintexts key a b ≡ false
          → comes_after tools plaintexts key b c ≡ false
          → comes_after tools plaintexts key a c ≡ false)
      → ((a b : EncryptedVaultItem)
          → comes_after tools plaintexts key a b ≡ true
          → comes_after tools plaintexts key b a ≡ false)
      → Perm (sort_items tools items plaintexts key) items
        × Sorted (comes_after tools plaintexts key) (sort_items tools items plaintexts key)
  unfolding sort_items
  sort_items-Sorted items plaintexts key trans asym =
      (sort_by-Perm _ items, sort_by-Sorted _ trans asym items)

-- The logins with that password.
abbrev pub uses : String → List VaultItemPlaintext → ℕ
uses pw [] = 0
uses pw (VaultItemPlaintext.login i ∷ ps) =
    if str_eq i.password pw then suc (uses pw ps) else uses pw ps
uses pw (_ ∷ ps) = uses pw ps

-- A count that is raised by a number, and is there once it is not zero.
abbrev pub raised : Option ℕ → ℕ → Option ℕ
raised before zero = before
raised before (suc n) = some (get_or_else before 0 + suc n)

raised-suc :
    (before : Option ℕ) (n : ℕ) → raised (some (get_or_else before 0 + 1)) n ≡ raised before (suc n)
raised-suc before zero = ap some (omega arith)
raised-suc before (suc n) = ap some (omega arith)

lookup-count_from :
    (counts : List (String × ℕ)) (ps : List VaultItemPlaintext) (pw : String)
    → pw ≢ ""
    → lookup pw (count_from counts ps) ≡ raised (lookup pw counts) (uses pw ps)
unfolding count_from count_password
lookup-count_from counts [] pw h = refl
lookup-count_from counts (VaultItemPlaintext.login i ∷ ps) pw h =
    elim (Bool-cases (str_eq i.password "")) [
      | inl empty ↦
          let other : str_eq i.password pw ≡ false =
            ground (arith, eq_iff i.password "", eq_iff i.password pw) in
          rw (empty, other) (lookup-count_from counts ps pw h)
      | inr given ↦
          let next = get_or_else (lookup i.password counts) 0 + 1 in
          let rest = lookup-count_from (insert i.password next counts) ps pw h in
          let entry = lookup-insert i.password pw next counts in
          elim (Bool-cases (str_eq i.password pw)) [
            | inl same ↦
                let this : lookup i.password counts ≡ lookup pw counts =
                  ap (λ k. lookup k counts) ((eq_iff i.password pw).0 same) in
                rw (given, same)
                  (rest ∙ (rw (entry, same, this) (raised-suc (lookup pw counts) (uses pw ps))))
            | inr other ↦ rw (given, other) (rest ∙ (rw (entry, other) refl))
          ]
    ]
lookup-count_from counts (VaultItemPlaintext.note i ∷ ps) pw h = lookup-count_from counts ps pw h
lookup-count_from counts (VaultItemPlaintext.card i ∷ ps) pw h = lookup-count_from counts ps pw h
lookup-count_from counts (VaultItemPlaintext.identity i ∷ ps) pw h =
    lookup-count_from counts ps pw h
lookup-count_from counts (VaultItemPlaintext.ssh_key i ∷ ps) pw h = lookup-count_from counts ps pw h

-- The counts have each password that is not empty with the number of the logins that use it, and do
-- not list one that no login uses.
pub lookup-password_use_counts :
    (ps : List VaultItemPlaintext) (pw : String)
    → pw ≢ ""
    → lookup pw (password_use_counts ps) ≡ raised none (uses pw ps)
unfolding password_use_counts lookup
lookup-password_use_counts ps pw h = lookup-count_from [] ps pw h
