-- ===== src/Trust.antt =====
-- What a device remembers of the accounts on it: packages/crypto/src/trust-index.ts and
-- packages/crypto/src/account-state.ts.
use nopass.Prelude.{
  ℕ, ◌≡◌, String, Bool, true, false, not, ◌&&◌, ◌||◌, List, [], ◌∷◌, ◌++◌, Option, none, some,
  Result, ok, err, str_eq, if◌then◌else◌, get_or_else, filter, ltb,
}
use nopass.Prelude.Sets.{has, add, add_all}
use nopass.Prelude.Maps.{lookup, insert}
use nopass.Types.Api.{KdfParams, default_kdf_params}
use nopass.Errors.{Error, weak_kdf_params}
pub mod Laws
pub mod Stores

-- From the id of an account's trust state to the legacy ids that it recorded.
abbrev pub TrustIndex : Type 0
TrustIndex = List (String × List String)

-- `index[trustId] ?? []`
abbrev pub ids_of : TrustIndex → String → List String
ids_of index trust_id = get_or_else (lookup trust_id index) []

-- The ids that are not null, undefined or empty.
unfoldable pub truthy : List (Option String) → List String
truthy [] = []
truthy (none ∷ ids) = truthy ids
truthy (some id ∷ ids) = if str_eq id "" then truthy ids else id ∷ truthy ids

unfoldable pub record_legacy_ids : TrustIndex → String → List (Option String) → TrustIndex
record_legacy_ids index trust_id ids =
    insert trust_id (add_all (add_all [] (ids_of index trust_id)) (truthy ids)) index

-- The ids of every entry but that of `trust_id`.
unfoldable pub others : TrustIndex → String → List String
others [] trust_id = []
others ((id, ids) ∷ index) trust_id =
    if str_eq id trust_id then others index trust_id else ids ++ others index trust_id

-- `strip prefix key` is what follows the prefix in the key, if it starts with it: `key.startsWith`
-- and `key.slice`.
module _ (strip : String → String → Option String) where
  abbrev pub is_own : TrustIndex → String → Option String → Bool
  is_own index trust_id none = false
  is_own index trust_id (some id) =
      has id (ids_of index trust_id) && not (has id (others index trust_id))

  unfoldable pub own_legacy_keys : TrustIndex → String → List String → String → List String
  own_legacy_keys index trust_id keys prefix =
      filter (λ key. is_own index trust_id (strip prefix key)) keys

pub record AccountState : Type 0 where
  pub opaque_login : Option Bool
  pub account_key : Option Bool

abbrev pub AccountStateStore : Type 0
AccountStateStore = List (String × AccountState)

-- A field of a patch replaces the one that is there, unless it is absent.
abbrev pub patched : Option Bool → Option Bool → Option Bool
patched old none = old
patched old (some b) = some b

-- `memoryAccountState`: `get` and `update`
unfoldable pub get_state : AccountStateStore → String → AccountState
get_state states email_hash =
    get_or_else (lookup email_hash states) (record { opaque_login = none; account_key = none })

unfoldable pub update_state : AccountStateStore → String → AccountState → AccountStateStore
update_state states email_hash patch =
    insert email_hash
      (record {
        opaque_login = patched (get_state states email_hash).opaque_login patch.opaque_login;
        account_key = patched (get_state states email_hash).account_key patch.account_key;
      })
      states

unfoldable pub assert_kdf_floor : KdfParams → Result Error KdfParams
assert_kdf_floor params =
    if not (str_eq params.type "argon2id")
      || (ltb params.memory_kib default_kdf_params.memory_kib
          || (ltb params.iterations default_kdf_params.iterations || ltb params.parallelism 1))
    then err weak_kdf_params
    else ok params
