-- ===== src/Extension/Reads/Laws.antt =====
-- What the messages that read the vault give, and to whom.
use nopass.Prelude.{
  In, ◌≡◌, refl, ◌↔◌, inl, inr, ap, String, true, false, List, Option, some, ok, err, arith,
  Option-cases, Result-cases, is_some,
}
use nopass.Types.Vault.{EncryptedVaultItem, VaultItemPlaintext, LoginItem}
use nopass.Platform.{Platform}
use nopass.Envelope.Revisions.{RevisionStore}
use nopass.Envelope.Format.{DecryptedItem}
use nopass.Autofill.{Web}
use nopass.Extension.Sender.{Sender, Browser, is_extension_page, is_extension_context}
use nopass.Extension.Session.{Vault}
use nopass.Extension.Reads.{
  refused, SearchResult, find_item, as_login, decrypt_stored, read_login, login_of, is_unlocked,
  get_items, search_result, search_items, get_credentials,
}
use nopass.Extension.Reads.Selection.{Selects, In-select_logins_iff}

as_login-some :
    (plaintext : VaultItemPlaintext) (login : LoginItem)
    → as_login plaintext ≡ some login
    → plaintext ≡ VaultItemPlaintext.login login
as_login-some (VaultItemPlaintext.login i) login h = ap VaultItemPlaintext.login (cc h)
as_login-some _ login h = cc

module _ {K : Type 0} (env : Platform K) where
  -- The item of the vault with that id, and the login that it decrypts to.
  pub record Reads (state : Vault K) (id : String) (login : LoginItem) : Type 0 where
    pub item : EncryptedVaultItem
    pub found : find_item id state.items ≡ some item
    pub opened : DecryptedItem
    pub seen : Option RevisionStore
    pub decrypted : decrypt_stored env item state ≡ ok (opened, seen)
    pub content : opened.plaintext ≡ VaultItemPlaintext.login login

  pub read_login-Reads :
      (state : Vault K) (id : String) (item : EncryptedVaultItem) (opened : DecryptedItem)
      (login : LoginItem)
      → read_login env state id ≡ ok (item, opened, login)
      → Reads state id login
  unfolding read_login
  read_login-Reads state id item opened login h = elim (Option-cases (find_item id state.items)) [
    | inl missing ↦ absurd (ground arith)
    | inr (there, found) ↦ elim (Result-cases (decrypt_stored env there state)) [
      | inr (e, thrown) ↦ absurd (ground arith)
      | inl ((read, seen), decrypted) ↦ elim (Option-cases (as_login read.plaintext)) [
        | inl other ↦ absurd (ground arith)
        | inr (l, content) ↦
            let computed : read_login env state id ≡ ok (there, read, l) =
              rw (found, decrypted, content, read_login) refl in
            let same : l ≡ login = cc (h, computed) in
            record {
              item = there;
              found = found;
              opened = read;
              seen = seen;
              decrypted = decrypted;
              content = as_login-some read.plaintext login (cc (content, same));
            }
      ]
    ]
  ]

  login_of-some :
      (state : Vault K) (item : EncryptedVaultItem) (opened : DecryptedItem) (login : LoginItem)
      → login_of env state item ≡ some (opened, login)
      → (seen : Option RevisionStore) × (decrypt_stored env item state ≡ ok (opened, seen))
        × (opened.plaintext ≡ VaultItemPlaintext.login login)
  unfolding login_of
  login_of-some state item opened login h = elim (Result-cases (decrypt_stored env item state)) [
    | inr (e, thrown) ↦ absurd (ground arith)
    | inl ((read, seen), decrypted) ↦ elim (Option-cases (as_login read.plaintext)) [
      | inl other ↦ absurd (ground arith)
      | inr (l, content) ↦
          let computed : login_of env state item ≡ some (read, l) =
            rw (decrypted, content, login_of) refl in
          let same : read ≡ opened = cc (h, computed) in
          let same_login : l ≡ login = cc (h, computed) in
          (
            seen,
            cc (decrypted, same),
            as_login-some opened.plaintext login (cc (content, same, same_login)),
          )
    ]
  ]

module _ {K : Type 0} (env : Platform K) (web : Web) (browser : Browser) where
  -- A content script, which has a tab and runs at an address that is not the extension's, learns
  -- nothing: whatever the vault, it is told that it is locked, and every read is refused.
  pub reads-refused :
      (sender : Sender) (vault armed : Option (Vault K)) (id query : String) (url : Option String)
      → is_extension_context browser sender ≡ false
      → is_some sender.tab ≡ true
      → (is_unlocked env web browser sender vault ≡ false)
        × (get_items env web browser sender vault armed ≡ err (refused "unauthorized"))
        × (search_items env web browser sender vault armed query url ≡ err (refused "unauthorized"))
        × (get_credentials env web browser sender vault armed id ≡ err (refused "unauthorized"))
  unfolding is_unlocked get_items search_items get_credentials is_extension_page
  reads-refused sender vault armed id query url outside in_tab =
      (ground arith, ground arith, ground arith, ground arith)

  -- Credentials are those of the login with that id in the vault, and only the extension's own page
  -- outside a tab gets them, of a vault that is unlocked before and after auto-lock is armed.
  pub get_credentials-Reads :
      (sender : Sender) (vault armed : Option (Vault K)) (id username password : String)
      → get_credentials env web browser sender vault armed id ≡ ok (username, password)
      → (is_extension_page browser sender ≡ true)
        × (is_some vault ≡ true)
        × (state : Vault K) × (login : LoginItem) × (armed ≡ some state)
        × Reads env state id login
        × (login.username ≡ username)
        × (login.password ≡ password)
  unfolding get_credentials
  get_credentials-Reads sender vault armed id username password h = elim (Option-cases armed) [
    | inl gone ↦ absurd (ground arith)
    | inr (state, there) ↦ elim (Result-cases (read_login env state id)) [
      | inr (e, thrown) ↦ absurd (ground arith)
      | inl ((item, opened, login), read) ↦ (
        ground arith,
        ground arith,
        state,
        login,
        there,
        read_login-Reads env state id item opened login read,
        ground arith,
        ground arith,
      )
    ]
  ]

  -- A search of an unlocked vault gives exactly the results of the active logins that decrypt and
  -- whose name, or address where one is asked for, matches.
  pub search_items_iff :
      (sender : Sender) (vault state : Vault K) (query : String) (url : Option String)
      (r : SearchResult)
      → is_extension_context browser sender ≡ true
      → (results : List SearchResult) × (search_items env web browser sender
            (some vault)
            (some state)
            query
            url
          ≡ ok results)
        × (In r results ↔ Selects env (search_result env web browser query url) state state.items r)
  unfolding search_items
  search_items_iff sender vault state query url r inside =
      (_, rw inside refl, In-select_logins_iff env _ state state.items r)
