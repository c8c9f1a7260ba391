-- ===== src/Cli/Refs.antt =====
-- apps/cli/src/secret-refs.ts: items as environment variables, and `nopwd://` references. Parsing of
-- `.env` lines is not modelled.
use Prim.Native.Char.{code}
use Prim.Native.String
use nopass.Prelude.{
  ℕ, ◌≡◌, String, Bool, true, false, ◌&&◌, ◌||◌, List, [], ◌∷◌, Option, none, some, Result, ok, err,
  ◌>>=◌, or_throw, str_eq, if◌then◌else◌, leb, ◌==◌, find,
}
use nopass.Prelude.Maps.{lookup, insert}
use nopass.Types.Vault.{VaultItemPlaintext, LoginItem, CustomField, name_of}
pub mod Laws

-- `toUpperCase` and `toLowerCase`
pub record Cases : Type 0 where
  pub upper_case : String → String
  pub lower_case : String → String

pub data ResolveError : Type 0 where
  malformed no_item no_field : ResolveError

abbrev pub ref_prefix : String
ref_prefix = "nopwd://"

-- `/[^A-Z0-9]/g` is replaced for each code unit: twice for a character above the basic plane.
unfoldable pub env_text : String → String
env_text String.[] = ""
env_text (String.◌∷◌ c s) =
    if leb b'A' (code c) && leb (code c) b'Z' || leb b'0' (code c) && leb (code c) b'9'
    then String.◌∷◌ c (env_text s)
    else if leb 0x10000 (code c)
    then String.◌++◌ "__" (env_text s)
    else String.◌++◌ "_" (env_text s)

-- `if (value) vars[key] = value`
abbrev pub set_given : String → String → List (String × String) → List (String × String)
set_given key value vars = if str_eq value "" then vars else insert key value vars

abbrev pub set_optional : String → Option String → List (String × String) → List (String × String)
set_optional key none vars = vars
set_optional key (some value) vars = set_given key value vars

-- The text before the first slash, and what follows it.
unfoldable pub at_slash : String → Option (String × String)
at_slash String.[] = none
at_slash (String.◌∷◌ c s) =
    let rest = at_slash s in
    if code c == b'/'
    then some ("", s)
    else elim rest [ none ↦ none | some (name, field) ↦ some (String.◌∷◌ c name, field) ]

-- What follows a prefix, in a text that starts with it.
unfoldable pub after_prefix : String → String → Option String
after_prefix String.[] s = some s
after_prefix (String.◌∷◌ p ps) String.[] = none
after_prefix (String.◌∷◌ p ps) (String.◌∷◌ c s) =
    if code c == code p then after_prefix ps s else none

unfoldable pub format_reference : String → String → String
format_reference item_name field =
    String.◌++◌ ref_prefix (String.◌++◌ item_name (String.◌++◌ "/" field))

unfoldable pub is_reference : Option String → Bool
unfolding after_prefix
is_reference none = false
is_reference (some value) = elim (after_prefix ref_prefix value) [ none ↦ false | some rest ↦ true ]

module _ (cases : Cases) where
  unfoldable pub to_env_key : String → String
  to_env_key name = env_text (cases.upper_case name)

  abbrev pub suffixed : String → String → String
  suffixed key suffix = String.◌++◌ key (String.◌++◌ "_" suffix)

  unfoldable pub set_fields :
      String → List CustomField → List (String × String) → List (String × String)
  set_fields key [] vars = vars
  set_fields key (field ∷ fields) vars =
      set_fields key fields (set_given (suffixed key (to_env_key field.name)) field.value vars)

  unfoldable pub item_to_env_vars : VaultItemPlaintext → List (String × String)
  item_to_env_vars (VaultItemPlaintext.login i) =
      let key = to_env_key i.name in
      set_fields key i.custom_fields (
        set_optional (suffixed key "TOTP") i.totp
          (set_given (suffixed key "USERNAME") i.username (set_given key i.password [])))
  item_to_env_vars (VaultItemPlaintext.note i) = (to_env_key i.name, i.content) ∷ []
  item_to_env_vars (VaultItemPlaintext.card i) = []
  item_to_env_vars (VaultItemPlaintext.identity i) = []
  item_to_env_vars (VaultItemPlaintext.ssh_key i) =
      let key = to_env_key i.name in
      insert (suffixed key "PRIVATE") i.private_key
        (set_optional (suffixed key "PUBLIC") i.public_key [])

  -- The variable of a field, by the item's key.
  abbrev pub field_key : String → String → String
  field_key key field =
      if str_eq field "password"
      then key
      else if str_eq field "username"
      then suffixed key "USERNAME"
      else if str_eq field "totp"
      then suffixed key "TOTP"
      else suffixed key (to_env_key field)

  -- The item's name and the field of a reference; no reference, no slash or no name is malformed.
  unfoldable pub parse_reference : String → Result ResolveError (String × String)
  unfolding after_prefix at_slash
  parse_reference ref = do
    rest ← or_throw (after_prefix ref_prefix ref) malformed
    (name, field) ← or_throw (at_slash rest) malformed
    if str_eq name "" then err malformed else ok (name, field)

  unfoldable pub resolve_reference : List VaultItemPlaintext → String → Result ResolveError String
  resolve_reference vault ref = do
    parsed ← parse_reference ref
    item ←
        or_throw
          (find (λ i. str_eq (cases.lower_case (name_of i)) (cases.lower_case parsed.0)) vault)
          no_item
    or_throw
        (lookup (field_key (to_env_key (name_of item)) (cases.lower_case parsed.1))
          (item_to_env_vars item))
        no_field
