-- ===== src/Cli/Adopt/Laws.antt =====
-- A secret that was adopted is found again by its reference.

use nopass.Prelude.{
  ◌≡◌, ◌≢◌, refl, sym, ap, ◌∙◌, arith, String, Bool, true, false, not, List, [], ◌∷◌, ◌++◌, map,
  some, ok, err, guard_ok, ok_injective, subst, str_eq, str_eq_self, find, any, Option,
}
use nopass.Types.Vault.{VaultItemPlaintext, LoginItem, name_of}
use nopass.Cli.Refs.{Cases, malformed, format_reference, resolve_reference}
use nopass.Cli.Refs.Laws.{NoSlash, resolve-format_reference, resolve-empty_name}
use nopass.Cli.Adopt.{
  ExtractedSecret, AdoptResult, is_valid_name, default_item_name, name_or, adopt_secret,
}

is_valid_name-NoSlash : (name : String) → is_valid_name name ≡ true → NoSlash name
unfolding is_valid_name
is_valid_name-NoSlash String.[] h = tt
is_valid_name-NoSlash (String.◌∷◌ c s) h = (ground arith, is_valid_name-NoSlash s (ground arith))

not-true : (b : Bool) → not b ≡ true → b ≡ false
not-true false h = refl
not-true true h = cc

-- No name of the whole is none of the part before.
any_front :
    (p : String → Bool) (xs ys : List VaultItemPlaintext)
    → any p (map (λ j. name_of j) (xs ++ ys)) ≡ false
    → any p (map (λ j. name_of j) xs) ≡ false
any_front p [] ys h = refl
any_front p (x ∷ xs) ys h = let rest = any_front p xs ys (ground arith) in ground (arith, rest)

module _ (cases : Cases) where
  -- The items whose names agree but for case.
  abbrev named : String → VaultItemPlaintext → Bool
  named name i = str_eq (cases.lower_case (name_of i)) (cases.lower_case name)

  -- An item that is the only one of its name is found wherever it stands.
  find-only :
      (name : String) (before after : List VaultItemPlaintext) (i : LoginItem)
      → i.name ≡ name
      → any (λ n. str_eq (cases.lower_case n) (cases.lower_case name)) (map (λ j. name_of j) before)
        ≡ false
      → find (named name) (before ++ VaultItemPlaintext.login i ∷ after)
        ≡ some (VaultItemPlaintext.login i)
  find-only name [] after i e h =
      let same : str_eq (cases.lower_case i.name) (cases.lower_case name) ≡ true =
        ap (λ n. str_eq (cases.lower_case n) (cases.lower_case name)) e
        ∙ str_eq_self (cases.lower_case name) in
      rw same refl
  find-only name (j ∷ before) after i e h =
      let other : str_eq (cases.lower_case (name_of j)) (cases.lower_case name) ≡ false =
        ground arith in
      rw other (find-only name before after i e (rw other at h))

  -- Once an adopted secret is in the vault, wherever the server lists it among the items that were there, the
  -- reference that is written in its place resolves to it, if the item's name and the secret are not empty.
  -- Assumed: `toLowerCase` leaves the word "password" as it is.
  pub resolve-adopt_secret :
      (secret : ExtractedSecret) (name : Option String) (project place moved_from : String)
      (before after : List VaultItemPlaintext) (existing : List String) (save : LoginItem → Bool)
      (item : LoginItem) (result : AdoptResult)
      → cases.lower_case "password" ≡ "password"
      → existing ≡ map (λ j. name_of j) (before ++ after)
      → name_or name (default_item_name project place secret.assignment) ≢ ""
      → secret.value ≢ ""
      → adopt_secret cases secret name project place moved_from existing save ≡ ok (item, result)
      → resolve_reference cases (before ++ VaultItemPlaintext.login item ∷ after) result.reference
        ≡ ok secret.value
  unfolding adopt_secret
  resolve-adopt_secret secret name project place moved_from before after existing save item result
        lower names named_so given h =
      let item_name = name_or name (default_item_name project place secret.assignment) in
      let (valid, h1) = guard_ok (is_valid_name item_name) _ _ _ h in
      let (free, h2) =
        guard_ok
          (not (any (λ n. str_eq (cases.lower_case n) (cases.lower_case item_name)) existing)) _ _ _
          h1 in
      let (saved, made) = guard_ok (save _) _ _ _ h2 in
      let name_eq : item.name ≡ item_name = cc made in
      let value_eq : item.password ≡ secret.value = cc made in
      let reference_eq : result.reference ≡ format_reference item_name "password" = cc made in
      let taken : String → Bool = λ n. str_eq (cases.lower_case n) (cases.lower_case item_name) in
      let others =
        any_front taken before after (subst (λ ns. any taken ns ≡ false) names (not-true _ free)) in
      let found = find-only item_name before after item name_eq others in
      let nonempty : item.password ≢ "" = subst (λ p. p ≢ "") (sym value_eq) given in
      rw reference_eq (
        resolve-format_reference cases (before ++ VaultItemPlaintext.login item ∷ after) item_name
          item lower (is_valid_name-NoSlash item_name valid) named_so nonempty found
        ∙ ap ok value_eq)

  -- A secret that is adopted under the empty name is saved, and the reference that is written in its place
  -- is malformed: it resolves in no vault.
  pub adopt_secret-empty_name :
      (secret : ExtractedSecret) (project place moved_from : String) (existing : List String)
      (save : LoginItem → Bool) (item : LoginItem) (result : AdoptResult)
      (vault : List VaultItemPlaintext)
      → adopt_secret cases secret (some "") project place moved_from existing save
        ≡ ok (item, result)
      → (save item ≡ true) × (resolve_reference cases vault result.reference ≡ err malformed)
  unfolding adopt_secret
  adopt_secret-empty_name secret project place moved_from existing save item result vault h =
      let (valid, h1) = guard_ok (is_valid_name "") _ _ _ h in
      let (free, h2) =
        guard_ok (not (any (λ n. str_eq (cases.lower_case n) (cases.lower_case "")) existing)) _ _ _
          h1 in
      let (saved, made) = guard_ok (save _) _ _ _ h2 in
      let saved_item =
        subst (λ (p : LoginItem × AdoptResult). save p.0 ≡ true)
          (ok_injective _ (item, result) made) saved in
      let reference_eq : result.reference ≡ format_reference "" "password" = cc made in
      (saved_item, rw reference_eq (resolve-empty_name cases vault "password"))
