-- ===== src/Cli/Adopt.antt =====
-- apps/cli/src/adopt.ts: a secret is moved from a file into the vault. The secret that was found on the
-- line is an argument (`extractSecret` reads it by regular expressions), and so are the names that the
-- path gives; writing the file and the redacted preview are not modelled.
use Prim.Native.Char.{code}
use Prim.Native.String
use nopass.Prelude.{
  ℕ, ◌≡◌, String, Bool, true, false, not, ◌&&◌, ◌||◌, List, [], ◌∷◌, Option, none, some, Result, ok,
  err, ◌>>=◌, ◌>>◌, guard, str_eq, if◌then◌else◌, leb, ◌==◌, any,
}
use nopass.Types.Vault.{LoginItem}
use nopass.Cli.Refs.{Cases, format_reference}
pub mod Laws

pub data AdoptError : Type 0 where
  bad_name name_taken save_failed : AdoptError

-- `env_key`, with what stands before and after the value, is there for the assignment of a `.env` file.
pub record Assignment : Type 0 where
  pub env_key : String
  pub export_prefix : Bool
  pub trailing : String

pub record ExtractedSecret : Type 0 where
  pub value : String
  pub assignment : Option Assignment

pub record AdoptResult : Type 0 where
  pub item_name : String
  pub reference : String
  -- the line as it is rewritten, in a `.env` file
  pub rewritten : Option String

-- `${prefix}${key}='${reference}'${trailing}`
unfoldable pub rewrite_line : Assignment → String → String
rewrite_line a reference =
    String.◌++◌ (if a.export_prefix then "export " else "") (
      String.◌++◌ a.env_key (String.◌++◌ "='" (String.◌++◌ reference (String.◌++◌ "'" a.trailing))))

-- `project` is the directory's name, `place` is `${basename(path)}:${lineNumber}`.
unfoldable pub default_item_name : String → String → Option Assignment → String
default_item_name project place (some a) = String.◌++◌ project (String.◌++◌ " " a.env_key)
default_item_name project place none = String.◌++◌ project (String.◌++◌ " " place)

-- `!/[/'\u0000-\u001f\u007f]/.test(name)`
unfoldable pub is_valid_name : String → Bool
is_valid_name String.[] = true
is_valid_name (String.◌∷◌ c s) =
    not (code c == b'/' || (code c == 39 || (leb (code c) 31 || code c == 127))) && is_valid_name s

abbrev pub name_or : Option String → String → String
name_or (some name) other = name
name_or none other = other

abbrev pub rewritten_by : Option Assignment → String → Option String
rewritten_by none reference = none
rewritten_by (some a) reference = some (rewrite_line a reference)

module _ (cases : Cases) where
  -- The item that is saved, and the result; `save` may fail, and nothing is returned then.
  unfoldable pub adopt_secret :
      ExtractedSecret
      → Option String
      → String
      → String
      → String
      → List String
      → (LoginItem → Bool)
      → Result AdoptError (LoginItem × AdoptResult)
  adopt_secret secret name project place moved_from existing_names save = do
    let item_name = name_or name (default_item_name project place secret.assignment)
    guard (is_valid_name item_name) bad_name
    guard (not (any (λ n. str_eq (cases.lower_case n) (cases.lower_case item_name)) existing_names))
        name_taken
    let item : LoginItem = record {
      name = item_name;
      tags = none;
      username = "";
      password = secret.value;
      urls = [];
      totp = none;
      notes = some (String.◌++◌ "Moved from " moved_from);
      custom_fields = [];
      passkey = none;
    }
    guard (save item) save_failed
    let reference = format_reference item_name "password"
    ok (
      item,
      record {
        item_name = item_name;
        reference = reference;
        rewritten = rewritten_by secret.assignment reference;
      },
    )
