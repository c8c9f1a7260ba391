-- ===== src/VaultStore.antt =====
-- packages/ui/src/store/vault-store.ts: the store that the web app, the desktop app and the extension
-- share. An action is a function on its state. `now` is the time that a deletion is marked with;
-- `localStorage` holds what was last saved as favorites, if anything.
use nopass.Prelude.{
  ℕ, ◌≡◌, String, Bool, true, false, not, ◌&&◌, List, [], ◌∷◌, ◌++◌, map, Option, none, some, any,
  filter, str_eq, if◌then◌else◌, get_or_else,
}
use nopass.Prelude.Sets.{has, add, add_all}
use nopass.Types.Vault.{EncryptedVaultItem, VaultItemType, same_type}
use nopass.Types.Api.{KdfParams}
pub mod Laws

pub record DerivedKeys (K : Type 0) : Type 0 where
  pub stretched_master_key : K
  pub vault_enc_key : K
  pub vault_mac_key : K

-- What the store reads of a `LoginResponse`.
pub record LoginResponse : Type 0 where
  pub session_token : String
  pub user_id : String
  pub default_vault_id : String
  pub protected_private_key : Option String
  pub protected_private_key_iv : Option String

pub record NopassStore (K : Type 0) : Type 0 where
  pub session_token : Option String
  pub user_id : Option String
  pub default_vault_id : Option String
  pub vault_enc_key : Option K
  pub vault_mac_key : Option K
  pub email : Option String
  pub kdf_params : Option KdfParams
  pub stretched_master_key : Option K
  pub protected_private_key : Option String
  pub protected_private_key_iv : Option String
  pub items : List EncryptedVaultItem
  pub is_loading : Bool
  pub last_sync_at : Option String
  pub favorites : List String
  pub saved_favorites : Option (List String)

-- `ids.delete(id)`
unfoldable pub delete : String → List String → List String
delete id [] = []
delete id (x ∷ xs) = if str_eq x id then xs else x ∷ delete id xs

abbrev pub is_active : EncryptedVaultItem → Bool
is_active i = elim i.deleted_at [ none ↦ true | some t ↦ false ]

-- `items.some((i) => i.id === id)`
abbrev pub lists_item : String → List EncryptedVaultItem → Bool
lists_item id items = any (λ i. str_eq i.id id) items

module _ {K : Type 0} where
  abbrev pub initial : Option (List String) → NopassStore K
  initial saved = record {
    session_token = none;
    user_id = none;
    default_vault_id = none;
    vault_enc_key = none;
    vault_mac_key = none;
    email = none;
    kdf_params = none;
    stretched_master_key = none;
    protected_private_key = none;
    protected_private_key_iv = none;
    items = [];
    is_loading = false;
    last_sync_at = none;
    favorites = add_all [] (get_or_else saved []);
    saved_favorites = saved;
  }

  unfoldable pub set_session :
      NopassStore K → LoginResponse → String → DerivedKeys K → NopassStore K
  set_session s auth email keys = record s {
    session_token = some auth.session_token;
    user_id = some auth.user_id;
    default_vault_id = some auth.default_vault_id;
    email = some email;
    vault_enc_key = some keys.vault_enc_key;
    vault_mac_key = some keys.vault_mac_key;
    stretched_master_key = some keys.stretched_master_key;
    kdf_params = none;
    protected_private_key = auth.protected_private_key;
    protected_private_key_iv = auth.protected_private_key_iv;
  }

  unfoldable pub lock : NopassStore K → NopassStore K
  lock s = record s {
    vault_enc_key = none;
    vault_mac_key = none;
    stretched_master_key = none;
    protected_private_key = none;
    protected_private_key_iv = none;
    items = [];
    last_sync_at = none;
  }

  unfoldable pub set_key_pair : NopassStore K → String → String → NopassStore K
  set_key_pair s key iv = record s {
    protected_private_key = some key;
    protected_private_key_iv = some iv;
  }

  unfoldable pub set_items : NopassStore K → List EncryptedVaultItem → NopassStore K
  set_items s items = record s { items = items }

  unfoldable pub upsert_item : NopassStore K → EncryptedVaultItem → NopassStore K
  upsert_item s item = record s {
    items =
        if lists_item item.id s.items
        then map (λ i. if str_eq i.id item.id then item else i) s.items
        else s.items ++ item ∷ [];
  }

  unfoldable pub mark_deleted : NopassStore K → String → String → NopassStore K
  mark_deleted s now id = record s {
    items = map (λ i. if str_eq i.id id then record i { deleted_at = some now } else i) s.items;
  }

  unfoldable pub set_loading : NopassStore K → Bool → NopassStore K
  set_loading s is_loading = record s { is_loading = is_loading }

  unfoldable pub set_last_sync_at : NopassStore K → String → NopassStore K
  set_last_sync_at s ts = record s { last_sync_at = some ts }

  unfoldable pub set_default_vault_id : NopassStore K → String → NopassStore K
  set_default_vault_id s id = record s { default_vault_id = some id }

  unfoldable pub toggle_favorite : NopassStore K → String → NopassStore K
  toggle_favorite s id =
      let next = if has id s.favorites then delete id s.favorites else add id s.favorites in
      record s { favorites = next; saved_favorites = some next }

  unfoldable pub is_favorite : NopassStore K → String → Bool
  is_favorite s id = has id s.favorites

  unfoldable pub is_unlocked : NopassStore K → Bool
  is_unlocked s = elim s.vault_enc_key [ none ↦ false | some k ↦ true ]

  unfoldable pub active_items : NopassStore K → List EncryptedVaultItem
  active_items s = filter is_active s.items

  unfoldable pub items_by_type : NopassStore K → VaultItemType → List EncryptedVaultItem
  items_by_type s type = filter (λ i. same_type i.item_type type) (active_items s)

-- The actions, as the components dispatch them.
pub data Action (K : Type 0) : Type 0 where
  setting_session : LoginResponse → String → DerivedKeys K → Action K
  locking : Action K
  setting_key_pair : String → String → Action K
  setting_items : List EncryptedVaultItem → Action K
  upserting : EncryptedVaultItem → Action K
  marking_deleted : String → String → Action K
  setting_loading : Bool → Action K
  setting_last_sync_at : String → Action K
  setting_default_vault : String → Action K
  toggling_favorite : String → Action K

unfoldable pub act : {K : Type 0} → NopassStore K → Action K → NopassStore K
act s (setting_session auth email keys) = set_session s auth email keys
act s locking = lock s
act s (setting_key_pair key iv) = set_key_pair s key iv
act s (setting_items items) = set_items s items
act s (upserting item) = upsert_item s item
act s (marking_deleted now id) = mark_deleted s now id
act s (setting_loading b) = set_loading s b
act s (setting_last_sync_at ts) = set_last_sync_at s ts
act s (setting_default_vault id) = set_default_vault_id s id
act s (toggling_favorite id) = toggle_favorite s id
