-- ===== src/VaultModel.antt =====
-- apps/web/src/components/vault/vault-model.ts: search, filters, counts and order of the vault list.
use nopass.Prelude.{
  ℕ, ◌+◌, ◌≡◌, String, Bool, true, false, not, ◌&&◌, ◌||◌, List, [], ◌∷◌, ◌++◌, map, Option, none,
  some, str_eq, if◌then◌else◌, any, all, filter, get_or_else, is_some,
}
use nopass.Prelude.Maps.{lookup, insert}
use nopass.Prelude.Sets.{has}
use nopass.Types.Vault.{
  EncryptedVaultItem, VaultItemPlaintext, VaultItemType, LoginItem, same_type, name_of,
}
pub mod Laws

-- What the code calls of texts: `toLowerCase`, `s.includes(t)`, `trim`, the non-empty parts between
-- white space, the host of an address once it has a scheme (nothing if it is no URL or has no host),
-- whether it starts with a scheme, and `a.localeCompare(b) > 0` of names and of times.
pub record TextTools : Type 0 where
  pub lower_case : String → String
  pub includes : String → String → Bool
  pub trim : String → String
  pub words : String → List String
  pub has_scheme : String → Bool
  pub url_host : String → Option String
  pub with_https : String → String
  pub name_greater : String → String → Bool
  pub time_greater : String → String → Bool

pub data Filter : Type 0 where
  all_items favorite_items : Filter
  of_type : VaultItemType → Filter

pub record FilterState : Type 0 where
  pub vault_id : Option String
  pub filter : Filter
  pub tag : Option String
  pub query : String
  pub review_ids : Option (List String)
  pub favorites : List String

pub record QuickCopy : Type 0 where
  pub label : String
  pub noun : String
  pub value : String

pub data SortKey : Type 0 where
  by_name by_updated by_created : SortKey

-- `p.tags ?? []`
abbrev pub tags_of : VaultItemPlaintext → List String
tags_of (VaultItemPlaintext.login i) = get_or_else i.tags []
tags_of (VaultItemPlaintext.note i) = get_or_else i.tags []
tags_of (VaultItemPlaintext.card i) = get_or_else i.tags []
tags_of (VaultItemPlaintext.identity i) = get_or_else i.tags []
tags_of (VaultItemPlaintext.ssh_key i) = get_or_else i.tags []

unfoldable pub notes_of : VaultItemPlaintext → String
notes_of (VaultItemPlaintext.login i) = get_or_else i.notes ""
notes_of (VaultItemPlaintext.note i) = i.content
notes_of (VaultItemPlaintext.card i) = get_or_else i.notes ""
notes_of (VaultItemPlaintext.identity i) = ""
notes_of (VaultItemPlaintext.ssh_key i) = get_or_else i.notes ""

-- A text that is there and not empty.
abbrev pub truthy_text : Option String → Option String
truthy_text none = none
truthy_text (some s) = if str_eq s "" then none else some s

-- The row's quick copy of a value, if there is one.
abbrev pub copy_of : String → String → Option String → Option QuickCopy
copy_of label noun none = none
copy_of label noun (some value) = some (record { label = label; noun = noun; value = value })

unfoldable pub primary_copy : VaultItemPlaintext → Option QuickCopy
primary_copy (VaultItemPlaintext.login i) =
    if str_eq i.password ""
    then copy_of "Copy username" "Username" (truthy_text (some i.username))
    else copy_of "Copy password" "Password" (some i.password)
primary_copy (VaultItemPlaintext.note i) = none
primary_copy (VaultItemPlaintext.card i) =
    copy_of "Copy card number" "Card number" (truthy_text (some i.number))
primary_copy (VaultItemPlaintext.identity i) =
    copy_of "Copy email" "Email" (truthy_text (some i.email))
primary_copy (VaultItemPlaintext.ssh_key i) =
    copy_of "Copy public key" "Public key" (truthy_text i.public_key)

-- `counts.set(pw, (counts.get(pw) ?? 0) + 1)`
unfoldable pub count_password : List (String × ℕ) → VaultItemPlaintext → List (String × ℕ)
count_password counts (VaultItemPlaintext.login i) =
    if str_eq i.password ""
    then counts
    else insert i.password (get_or_else (lookup i.password counts) 0 + 1) counts
count_password counts (VaultItemPlaintext.note i) = counts
count_password counts (VaultItemPlaintext.card i) = counts
count_password counts (VaultItemPlaintext.identity i) = counts
count_password counts (VaultItemPlaintext.ssh_key i) = counts

unfoldable pub count_from : List (String × ℕ) → List VaultItemPlaintext → List (String × ℕ)
count_from counts [] = counts
count_from counts (p ∷ ps) = count_from (count_password counts p) ps

unfoldable pub password_use_counts : List VaultItemPlaintext → List (String × ℕ)
password_use_counts plaintexts = count_from [] plaintexts

-- The stable sort of `Array.sort`: `after a b` is that `a` belongs behind `b`.
module _ {A : Type 0} (after : A → A → Bool) where
  unfoldable pub insert_sorted : A → List A → List A
  insert_sorted x [] = x ∷ []
  insert_sorted x (y ∷ ys) = if after x y then y ∷ insert_sorted x ys else x ∷ y ∷ ys

  unfoldable pub sort_by : List A → List A
  sort_by [] = []
  sort_by (x ∷ xs) = insert_sorted x (sort_by xs)

module _ (tools : TextTools) where
  unfoldable pub host_of : Option String → Option String
  host_of none = none
  host_of (some url) =
      let trimmed = tools.trim url in
      if str_eq url "" || str_eq trimmed ""
      then none
      else truthy_text
          (tools.url_host (if tools.has_scheme trimmed then trimmed else tools.with_https trimmed))

  -- `hostOf(url) ?? url` of each address
  abbrev pub hosts : List String → List String
  hosts [] = []
  hosts (url ∷ urls) = get_or_else (host_of (some url)) url ∷ hosts urls

  -- What a login adds.
  abbrev pub login_fields : VaultItemPlaintext → List String
  login_fields (VaultItemPlaintext.login i) = i.username ∷ hosts i.urls
  login_fields (VaultItemPlaintext.note i) = []
  login_fields (VaultItemPlaintext.card i) = []
  login_fields (VaultItemPlaintext.identity i) = []
  login_fields (VaultItemPlaintext.ssh_key i) = []

  unfoldable pub searchable_text : VaultItemPlaintext → List String
  searchable_text p = (name_of p ∷ (tags_of p ++ notes_of p ∷ [])) ++ login_fields p

  -- With no term there is nothing to look for, and `every` is true.
  unfoldable pub matches_query : VaultItemPlaintext → String → Bool
  matches_query p query =
      let haystack = map tools.lower_case (searchable_text p) in
      all (λ term. any (λ field. tools.includes field term) haystack)
        (tools.words (tools.lower_case query))

  abbrev pub is_shown_type : Filter → List String → EncryptedVaultItem → Bool
  is_shown_type all_items favorites item = true
  is_shown_type favorite_items favorites item = has item.id favorites
  is_shown_type (of_type t) favorites item = same_type item.item_type t

  abbrev pub has_tag : Option String → Option VaultItemPlaintext → Bool
  has_tag none plain = true
  has_tag (some tag) none = false
  has_tag (some tag) (some p) =
      any (λ t. str_eq (tools.lower_case t) (tools.lower_case tag)) (tags_of p)

  abbrev pub answers : String → Option VaultItemPlaintext → Bool
  answers query none = str_eq (tools.trim query) ""
  answers query (some p) = if str_eq (tools.trim query) "" then true else matches_query p query

  abbrev pub in_review : Option (List String) → String → Bool
  in_review none id = true
  in_review (some ids) id = has id ids

  -- An empty vault id selects no vault.
  abbrev pub in_vault : Option String → String → Bool
  in_vault none vault = true
  in_vault (some wanted) vault = str_eq vault wanted

  unfoldable pub is_shown :
      List (String × VaultItemPlaintext) → FilterState → EncryptedVaultItem → Bool
  is_shown plaintexts state item =
      in_vault (truthy_text state.vault_id) item.vault_id
      && (is_shown_type state.filter state.favorites item
          && (in_review state.review_ids item.id
              && (has_tag (truthy_text state.tag) (lookup item.id plaintexts)
                  && answers state.query (lookup item.id plaintexts))))

  unfoldable pub filter_items :
      List EncryptedVaultItem
      → List (String × VaultItemPlaintext)
      → FilterState
      → List EncryptedVaultItem
  filter_items items plaintexts state = filter (is_shown plaintexts state) items

  -- `plaintexts.get(i.id)?.name ?? ""`
  abbrev pub shown_name : Option VaultItemPlaintext → String
  shown_name none = ""
  shown_name (some p) = name_of p

  -- Newest first, or by name.
  unfoldable pub comes_after :
      List (String × VaultItemPlaintext) → SortKey → EncryptedVaultItem → EncryptedVaultItem → Bool
  comes_after plaintexts by_name a b =
      tools.name_greater (shown_name (lookup a.id plaintexts)) (shown_name (lookup b.id plaintexts))
  comes_after plaintexts by_updated a b = tools.time_greater b.updated_at a.updated_at
  comes_after plaintexts by_created a b = tools.time_greater b.created_at a.created_at

  unfoldable pub sort_items :
      List EncryptedVaultItem
      → List (String × VaultItemPlaintext)
      → SortKey
      → List EncryptedVaultItem
  sort_items items plaintexts key = sort_by (comes_after plaintexts key) items
