-- ===== src/Extension/Reads.antt =====
-- The messages that read the vault: IS_UNLOCKED, GET_ITEMS, SEARCH_ITEMS and GET_CREDENTIALS. Each
-- but the first waits for auto-lock to be armed after its first look at the vault: `vault` is
-- `vaultState` before that wait, `armed` after it. A read of `null` throws.
use nopass.Prelude.{
  ℕ, ◌≡◌, String, Bool, true, false, not, ◌&&◌, ◌||◌, List, [], ◌∷◌, Option, none, some, Result, ok,
  err, ◌>>=◌, ◌>>◌, guard, or_throw, str_eq, if◌then◌else◌, is_some, find, filter,
}
use nopass.Types.Vault.{EncryptedVaultItem, VaultItemType, VaultItemPlaintext, LoginItem, same_type}
use nopass.Errors.{Error}
use nopass.Platform.{Platform}
use nopass.Envelope.Revisions.{RevisionStore}
use nopass.Envelope.Aad.{binding_for_item}
use nopass.Envelope.Format.{DecryptedItem, VaultKeys, decrypt_vault_item}
use nopass.Autofill.{Web, name_matches, url_matches}
use nopass.Extension.Sender.{Sender, Browser, is_extension_page, is_extension_context, is_truthy}
use nopass.Extension.Session.{Vault}
pub mod Laws
pub mod Selection

-- `{ error }` in an answer, the answer to a fill on another origin with whether the user may confirm
-- it, and what a handler throws, which is answered as an error too.
pub data Failure : Type 0 where
  refused : String → Failure
  origin_mismatch : String → Bool → Failure
  threw : Error → Failure
  null_vault : Failure

pub record SearchResult : Type 0 where
  pub id : String
  pub name : String
  pub username : String
  pub urls : List String
  pub has_passkey : Bool

abbrev pub or_threw {ℓ} : {A : Type ℓ} → Result Error A → Result Failure A
or_threw (ok a) = ok a
or_threw (err e) = err (threw e)

-- `if (plain.type !== "login") …`
abbrev pub as_login : VaultItemPlaintext → Option LoginItem
as_login (VaultItemPlaintext.login i) = some i
as_login (VaultItemPlaintext.note i) = none
as_login (VaultItemPlaintext.card i) = none
as_login (VaultItemPlaintext.identity i) = none
as_login (VaultItemPlaintext.ssh_key i) = none

-- `i.deletedAt === null && i.itemType === "login"`
abbrev pub is_active_login : EncryptedVaultItem → Bool
is_active_login i = not (is_some i.deleted_at) && same_type i.item_type VaultItemType.login

abbrev pub find_item : String → List EncryptedVaultItem → Option EncryptedVaultItem
find_item id items = find (λ i. str_eq i.id id) items

module _ {K : Type 0} (env : Platform K) where
  -- With the revision store after it.
  unfoldable pub decrypt_stored :
      EncryptedVaultItem → Vault K → Result Error (DecryptedItem × Option RevisionStore)
  decrypt_stored item state =
      decrypt_vault_item env item.encrypted (binding_for_item item)
        (record { vault_enc_key = state.vault_enc_key; vault_mac_key = state.vault_mac_key })
        (some state.revisions)

  -- The item of that id and its content, if it is a login.
  unfoldable pub read_login :
      Vault K → String → Result Failure (EncryptedVaultItem × DecryptedItem × LoginItem)
  read_login state id = do
    item ← or_throw (find_item id state.items) (refused "item not found")
    opened ← or_threw (decrypt_stored item state)
    login ← or_throw (as_login opened.0.plaintext) (refused "not a login item")
    ok (item, opened.0, login)

  -- The login behind an item of the list: one that does not decrypt or is none is left out.
  unfoldable pub login_of : Vault K → EncryptedVaultItem → Option (DecryptedItem × LoginItem)
  login_of state item = elim (decrypt_stored item state) [
    | err e ↦ none
    | ok (opened, seen) ↦ elim (as_login opened.plaintext) [
      | none ↦ none
      | some login ↦ some (opened, login)
    ]
  ]

  -- What an item gives to a list of results.
  abbrev pub selected :
      {R : Type 0}
      → (EncryptedVaultItem → DecryptedItem → LoginItem → Option R)
      → EncryptedVaultItem
      → Option (DecryptedItem × LoginItem)
      → List R
      → List R
  selected keep item none rest = rest
  selected keep item (some (opened, login)) rest = elim (keep item opened login) [
    | none ↦ rest
    | some r ↦ r ∷ rest
  ]

  -- The results over the active logins, in order. The code opens them together, each against the
  -- revisions that the vault holds of its own item; that it records the revision it read is left out.
  unfoldable pub select_logins :
      {R : Type 0}
      → (EncryptedVaultItem → DecryptedItem → LoginItem → Option R)
      → Vault K
      → List EncryptedVaultItem
      → List R
  select_logins keep state [] = []
  select_logins keep state (item ∷ items) =
      let rest = select_logins keep state items in
      if is_active_login item then selected keep item (login_of state item) rest else rest

module _ {K : Type 0} (env : Platform K) (web : Web) (browser : Browser) where
  unfoldable pub is_unlocked : Sender → Option (Vault K) → Bool
  is_unlocked sender vault =
      if not (is_extension_context browser sender) then false else is_some vault

  unfoldable pub get_items :
      Sender → Option (Vault K) → Option (Vault K) → Result Failure (List EncryptedVaultItem)
  get_items sender vault armed = do
    guard (is_extension_context browser sender) (refused "unauthorized")
    guard (is_some vault) (refused "locked")
    state ← or_throw armed null_vault
    ok state.items

  -- `url ? urlMatches(plain.urls, url) : !query`
  abbrev pub address_matches : String → Option String → List String → Bool
  address_matches query none urls = str_eq query ""
  address_matches query (some url) urls =
      if str_eq url "" then str_eq query "" else url_matches web urls url

  unfoldable pub search_matches : String → Option String → LoginItem → Bool
  search_matches query url login =
      name_matches web login.name query || address_matches query url login.urls

  unfoldable pub search_result :
      String → Option String → EncryptedVaultItem → DecryptedItem → LoginItem → Option SearchResult
  search_result query url item opened login =
      if search_matches query url login
      then some (record {
        id = item.id;
        name = login.name;
        username = login.username;
        urls = login.urls;
        has_passkey = is_some login.passkey;
      })
      else none

  unfoldable pub search_items :
      Sender
      → Option (Vault K)
      → Option (Vault K)
      → String
      → Option String
      → Result Failure (List SearchResult)
  search_items sender vault armed query url = do
    guard (is_extension_context browser sender) (refused "unauthorized")
    guard (is_some vault) (refused "locked")
    state ← or_throw armed null_vault
    ok (select_logins env (search_result query url) state state.items)

  -- The user name and the password.
  unfoldable pub get_credentials :
      Sender → Option (Vault K) → Option (Vault K) → String → Result Failure (String × String)
  get_credentials sender vault armed id = do
    guard (is_extension_page browser sender) (refused "unauthorized")
    guard (is_some vault) (refused "locked")
    state ← or_throw armed null_vault
    read ← read_login env state id
    ok (read.2.username, read.2.password)
