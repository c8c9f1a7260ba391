-- ===== src/Cli/Refs/Laws.antt =====
-- References that are read back, and the variables that they name.
use Prim.Native.Char.{Char, code}
use Prim.Native.String
use Prim.Native.String.{count}
use text.Mathlib.TextLemmas.{nil-append, cons-append, length-append}
use nopass.Prelude.{
  ◌≡◌, ◌≢◌, refl, ap, ◌∙◌, inl, inr, arith, String, true, false, List, [], ◌∷◌, Option, none, some,
  ok, err, Bool-cases, str_eq, str_eq_self, eq_iff, find, ◌==◌, if◌then◌else◌,
}
use nopass.Prelude.Maps.{lookup, insert, lookup-insert}
use nopass.Types.Vault.{VaultItemPlaintext, LoginItem, CustomField, name_of}
use nopass.Cli.Refs.{
  Cases, malformed, ref_prefix, set_given, set_optional, at_slash, after_prefix, format_reference,
  to_env_key, suffixed, set_fields, item_to_env_vars, parse_reference, resolve_reference,
}

-- No character of the text is a slash.
abbrev pub NoSlash : String → Type 0
NoSlash String.[] = Unit
NoSlash (String.◌∷◌ c s) = (code c == b'/' ≡ false) × NoSlash s

after_prefix-append : (p s : String) → after_prefix p (String.◌++◌ p s) ≡ some s
unfolding after_prefix
after_prefix-append String.[] s = ap some (nil-append s)
after_prefix-append (String.◌∷◌ c p) s =
    let same : code c == code c ≡ true = ground arith in
    rw (cons-append c p s, same) (after_prefix-append p s)

abbrev slash : Char
slash = "/"

at_slash-first : (field : String) → at_slash (String.◌++◌ "/" field) ≡ some ("", field)
unfolding at_slash
at_slash-first field = rw (cons-append slash "" field, nil-append field) refl

at_slash-append :
    (name field : String)
    → NoSlash name
    → at_slash (String.◌++◌ name (String.◌++◌ "/" field)) ≡ some (name, field)
unfolding at_slash
at_slash-append String.[] field h =
    ap at_slash (nil-append (String.◌++◌ "/" field)) ∙ at_slash-first field
at_slash-append (String.◌∷◌ c name) field h =
    rw (cons-append c name (String.◌++◌ "/" field), h.0, at_slash-append name field h.1) refl

-- A reference is read back as what it was made of, if the name is not empty and has no slash.
pub parse-format_reference :
    (cases : Cases) (name field : String)
    → NoSlash name
    → name ≢ ""
    → parse_reference cases (format_reference name field) ≡ ok (name, field)
unfolding parse_reference format_reference
parse-format_reference cases name field h given =
    let there : str_eq name "" ≡ false = ground (arith, eq_iff name "", given) in
    rw
      (
        after_prefix-append ref_prefix (String.◌++◌ name (String.◌++◌ "/" field)),
        at_slash-append name field h,
        there,
      )
      refl

append_longer : (k t : String) → String.◌++◌ k (String.◌++◌ "_" t) ≢ k
append_longer k t e =
    absurd (omega (arith, ap count e, length-append k (String.◌++◌ "_" t), length-append "_" t))

module _ (cases : Cases) where
  suffixed-ne : (key suffix : String) → str_eq (suffixed cases key suffix) key ≡ false
  suffixed-ne key suffix = elim (Bool-cases (str_eq (suffixed cases key suffix) key)) [
    | inl same ↦ absurd (append_longer key suffix ((eq_iff (suffixed cases key suffix) key).0 same))
    | inr other ↦ other
  ]

  -- The other variables of an item leave the one with its name alone.
  set_given-other :
      (key suffix value : String) (vars : List (String × String))
      → lookup key (set_given (suffixed cases key suffix) value vars) ≡ lookup key vars
  set_given-other key suffix value vars = elim (Bool-cases (str_eq value "")) [
    | inl empty ↦ rw empty
    | inr given ↦ rw given (
        lookup-insert (suffixed cases key suffix) key value vars
        ∙ ap (λ b. if b then some value else lookup key vars) (suffixed-ne key suffix))
  ]

  set_optional-other :
      (key suffix : String) (value : Option String) (vars : List (String × String))
      → lookup key (set_optional (suffixed cases key suffix) value vars) ≡ lookup key vars
  set_optional-other key suffix none vars = refl
  set_optional-other key suffix (some value) vars = set_given-other key suffix value vars

  set_fields-other :
      (key : String) (fields : List CustomField) (vars : List (String × String))
      → lookup key (set_fields cases key fields vars) ≡ lookup key vars
  unfolding set_fields
  set_fields-other key [] vars = refl
  set_fields-other key (field ∷ fields) vars =
      set_fields-other key fields _
      ∙ set_given-other key (to_env_key cases field.name) field.value vars

  -- The variable with the item's name is the password.
  password-variable :
      (i : LoginItem)
      → i.password ≢ ""
      → lookup (to_env_key cases i.name) (item_to_env_vars cases (VaultItemPlaintext.login i))
        ≡ some i.password
  unfolding item_to_env_vars
  password-variable i given =
      let key = to_env_key cases i.name in
      let there : str_eq i.password "" ≡ false = ground (arith, eq_iff i.password "", given) in
      set_fields-other key i.custom_fields _
      ∙ set_optional-other key "TOTP" i.totp _
      ∙ set_given-other key "USERNAME" i.username _
      ∙ rw there (unfold insert in unfold lookup in rw (str_eq_self key))

  -- The reference to the password of a login resolves to its password, when the login is the first item
  -- of the vault whose name agrees with the reference's but for case, whatever its custom fields are named. Assumed:
  -- `toLowerCase` leaves the word "password" as it is.
  pub resolve-format_reference :
      (vault : List VaultItemPlaintext) (name : String) (i : LoginItem)
      → cases.lower_case "password" ≡ "password"
      → NoSlash name
      → name ≢ ""
      → i.password ≢ ""
      → find (λ j. str_eq (cases.lower_case (name_of j)) (cases.lower_case name)) vault
        ≡ some (VaultItemPlaintext.login i)
      → resolve_reference cases vault (format_reference name "password") ≡ ok i.password
  unfolding resolve_reference
  resolve-format_reference vault name i lower h named given found =
      rw (parse-format_reference cases name "password" h named, found, lower)
        (rw (password-variable i given))

-- The reference that is written for an empty name never resolves.
pub resolve-empty_name :
    (cases : Cases) (vault : List VaultItemPlaintext) (field : String)
    → resolve_reference cases vault (format_reference "" field) ≡ err malformed
unfolding resolve_reference parse_reference format_reference
resolve-empty_name cases vault field =
    rw
      (
        after_prefix-append ref_prefix (String.◌++◌ "" (String.◌++◌ "/" field)),
        nil-append (String.◌++◌ "/" field),
        at_slash-first field,
      )
      refl
