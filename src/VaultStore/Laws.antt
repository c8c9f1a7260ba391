-- ===== src/VaultStore/Laws.antt =====
-- Keys, items and favorites over any sequence of actions.
use nopass.Prelude.{
  ◌≡◌, refl, sym, ap, ◌∙◌, ◌⊎◌, inl, inr, String, true, false, not, ◌&&◌, List, [], ◌∷◌, ◌++◌, map,
  Option, none, some, filter, str_eq, if◌then◌else◌, eq_iff, arith, Bool-cases, find, get_or_else,
}
use nopass.Prelude.Sets.{has, add, add_all, has-append, has-add}
use nopass.Types.Vault.{EncryptedVaultItem, VaultItemType, same_type}
use nopass.VaultStore.{
  NopassStore, DerivedKeys, delete, is_active, lists_item, initial, set_session, lock, set_key_pair,
  set_items, upsert_item, mark_deleted, set_loading, set_last_sync_at, set_default_vault_id,
  toggle_favorite, is_favorite, active_items, items_by_type, act, Action, setting_session, locking,
  setting_key_pair, setting_items, upserting, marking_deleted, setting_loading,
  setting_last_sync_at, setting_default_vault, toggling_favorite,
}

-- The three keys are all there, or none is.
abbrev pub Keys : {K : Type 0} → NopassStore K → Type 0
Keys s =
    ((k : DerivedKeys _) × (s.vault_enc_key ≡ some k.vault_enc_key)
      × (s.vault_mac_key ≡ some k.vault_mac_key)
      × (s.stretched_master_key ≡ some k.stretched_master_key))
    ⊎ ((s.vault_enc_key ≡ none) × ((s.vault_mac_key ≡ none) × (s.stretched_master_key ≡ none)))

-- The first item with an id.
abbrev pub item_of : String → List EncryptedVaultItem → Option EncryptedVaultItem
item_of j items = find (λ i. str_eq i.id j) items

item_of-replaced :
    (item : EncryptedVaultItem) (items : List EncryptedVaultItem) (j : String)
    → item_of j (map (λ i. if str_eq i.id item.id then item else i) items)
      ≡ (if str_eq item.id j && lists_item item.id items then some item else item_of j items)
item_of-replaced item [] j = ground arith
item_of-replaced item (i ∷ is) j =
    ground (arith, item_of-replaced item is j, eq_iff i.id item.id, eq_iff i.id j, eq_iff item.id j)

item_of-appended :
    (item : EncryptedVaultItem) (items : List EncryptedVaultItem) (j : String)
    → lists_item item.id items ≡ false
    → item_of j (items ++ item ∷ []) ≡ (if str_eq item.id j then some item else item_of j items)
item_of-appended item [] j h = refl
item_of-appended item (i ∷ is) j h =
    let here : str_eq i.id item.id ≡ false = ground arith in
    let rest : lists_item item.id is ≡ false = ground arith in
    ground
      (arith, item_of-appended item is j rest, eq_iff i.id item.id, eq_iff i.id j, eq_iff item.id j)

active_deleted :
    (now id : String) (items : List EncryptedVaultItem)
    → filter is_active
        (map (λ i. if str_eq i.id id then record i { deleted_at = some now } else i) items)
      ≡ filter (λ i. not (str_eq i.id id)) (filter is_active items)
active_deleted now id [] = refl
active_deleted now id (i ∷ is) = elim (Bool-cases (str_eq i.id id)) [
  | inl same ↦ elim (Bool-cases (is_active i)) [
    | inl active ↦ rw (same, active, same) (active_deleted now id is)
    | inr gone ↦ rw (same, gone) (active_deleted now id is)
  ]
  | inr other ↦ elim (Bool-cases (is_active i)) [
    | inl active ↦ rw (other, active, other) (ap (◌∷◌ i) (active_deleted now id is))
    | inr gone ↦ rw (other, gone) (active_deleted now id is)
  ]
]

-- A list without repetitions, as a `Set` is.
abbrev pub Distinct : List String → Type 0
Distinct [] = Unit
Distinct (x ∷ xs) = (has x xs ≡ false) × Distinct xs

has-delete :
    (id j : String) (xs : List String)
    → Distinct xs
    → has j (delete id xs) ≡ (has j xs && not (str_eq id j))
unfolding has delete
has-delete id j [] d = refl
has-delete id j (x ∷ xs) (new, d) =
    let rest = has-delete id j xs d in
    elim (Bool-cases (str_eq x id)) [
      | inr other ↦ ground (arith, eq_iff x id, eq_iff x j, eq_iff id j)
      | inl same ↦ elim (Bool-cases (str_eq x j)) [
        | inr differ ↦ ground (arith, eq_iff x id, eq_iff x j, eq_iff id j)
        | inl here ↦
            let gone : has j xs ≡ false = ap (λ y. has y xs) (sym ((eq_iff x j).0 here)) ∙ new in
            ground (arith, eq_iff x id, eq_iff x j, eq_iff id j)
      ]
    ]

delete-Distinct : (id : String) (xs : List String) → Distinct xs → Distinct (delete id xs)
unfolding delete
delete-Distinct id [] d = tt
delete-Distinct id (x ∷ xs) (new, d) = elim (Bool-cases (str_eq x id)) [
  | inl same ↦ rw same d
  | inr other ↦
      let h = has-delete id x xs d in
      let still : has x (delete id xs) ≡ false = ground arith in
      rw other (still, delete-Distinct id xs d)
]

append-Distinct :
    (y : String) (xs : List String) → has y xs ≡ false → Distinct xs → Distinct (xs ++ y ∷ [])
unfolding has
append-Distinct y [] h d = (refl, tt)
append-Distinct y (x ∷ xs) h (new, d) =
    let appended = has-append x xs (y ∷ []) in
    let other : str_eq y x ≡ false = ground (arith, eq_iff x y, eq_iff y x) in
    let later : has y xs ≡ false = ground arith in
    let still : has x (xs ++ y ∷ []) ≡ false = ground arith in (still, append-Distinct y xs later d)

add-Distinct : (y : String) (xs : List String) → Distinct xs → Distinct (add y xs)
unfolding add
add-Distinct y xs d = elim (Bool-cases (has y xs)) [
  | inl known ↦ rw known d
  | inr new ↦ rw new (append-Distinct y xs new d)
]

add_all-Distinct : (xs ys : List String) → Distinct xs → Distinct (add_all xs ys)
unfolding add_all
add_all-Distinct xs [] d = d
add_all-Distinct xs (y ∷ ys) d = add_all-Distinct (add y xs) ys (add-Distinct y xs d)

module _ {K : Type 0} where
  -- A state that a sequence of actions leads to from the initial one.
  pub data Reachable : NopassStore K → Type 0 where
    start : (saved : Option (List String)) → Reachable (initial saved)
    step : (s : NopassStore K) (a : Action K) → Reachable s → Reachable (act s a)

  act-Keys : (s : NopassStore K) (a : Action K) → Keys s → Keys (act s a)
  unfolding act set_session lock set_key_pair set_items upsert_item mark_deleted set_loading
      set_last_sync_at set_default_vault_id toggle_favorite
  act-Keys s (setting_session auth email keys) h = inl (keys, refl, refl, refl)
  act-Keys s locking h = inr (refl, (refl, refl))
  act-Keys s (setting_key_pair key iv) h = h
  act-Keys s (setting_items items) h = h
  act-Keys s (upserting item) h = h
  act-Keys s (marking_deleted now id) h = h
  act-Keys s (setting_loading b) h = h
  act-Keys s (setting_last_sync_at ts) h = h
  act-Keys s (setting_default_vault id) h = h
  act-Keys s (toggling_favorite id) h = h

  -- In every state that actions lead to, the vault keys are present or absent together, so that a
  -- locked store holds none of them.
  pub Reachable-Keys : (s : NopassStore K) → Reachable s → Keys s
  Reachable-Keys _ (start saved) = inr (refl, (refl, refl))
  Reachable-Keys _ (step s a r) = act-Keys s a (Reachable-Keys s r)

  -- The first item with an id, after an item was put in or replaced: the new one under its own id, and
  -- for every other id what it was.
  pub item_of-upsert_item :
      (s : NopassStore K) (item : EncryptedVaultItem) (j : String)
      → item_of j (upsert_item s item).items
        ≡ (if str_eq item.id j then some item else item_of j s.items)
  unfolding upsert_item
  item_of-upsert_item s item j = elim (Bool-cases (lists_item item.id s.items)) [
    | inl known ↦ let h = item_of-replaced item s.items j in rw known (ground arith)
    | inr new ↦ rw new (item_of-appended item s.items j new)
  ]

  -- Marking an item as deleted takes the items with that id off the active ones, and only those, in
  -- the list of all and in the list of any type.
  pub active_items-mark_deleted :
      (s : NopassStore K) (now id : String) (type : VaultItemType)
      → (active_items (mark_deleted s now id) ≡ filter (λ i. not (str_eq i.id id)) (active_items s))
        × (items_by_type (mark_deleted s now id) type
            ≡ filter
                (λ i. same_type i.item_type type)
                (filter (λ i. not (str_eq i.id id)) (active_items s)))
  unfolding active_items mark_deleted items_by_type
  active_items-mark_deleted s now id type = (
    active_deleted now id s.items,
    ap (filter (λ i. same_type i.item_type type)) (active_deleted now id s.items),
  )

  act-Distinct :
      (s : NopassStore K) (a : Action K) → Distinct s.favorites → Distinct (act s a).favorites
  unfolding act set_session lock set_key_pair set_items upsert_item mark_deleted set_loading
      set_last_sync_at set_default_vault_id toggle_favorite
  act-Distinct s (setting_session auth email keys) d = d
  act-Distinct s locking d = d
  act-Distinct s (setting_key_pair key iv) d = d
  act-Distinct s (setting_items items) d = d
  act-Distinct s (upserting item) d = d
  act-Distinct s (marking_deleted now id) d = d
  act-Distinct s (setting_loading b) d = d
  act-Distinct s (setting_last_sync_at ts) d = d
  act-Distinct s (setting_default_vault id) d = d
  act-Distinct s (toggling_favorite id) d = elim (Bool-cases (has id s.favorites)) [
    | inl known ↦ rw known (delete-Distinct id s.favorites d)
    | inr new ↦ rw new (add-Distinct id s.favorites d)
  ]

  Reachable-Distinct : (s : NopassStore K) → Reachable s → Distinct s.favorites
  Reachable-Distinct _ (start saved) = add_all-Distinct [] (get_or_else saved []) tt
  Reachable-Distinct _ (step s a r) = act-Distinct s a (Reachable-Distinct s r)

  -- In every state that actions lead to, toggling a favorite changes whether that item is one, and
  -- nothing about the other items; what is saved is the new list.
  pub is_favorite-toggle_favorite :
      (s : NopassStore K) (id j : String)
      → Reachable s
      → (is_favorite (toggle_favorite s id) j
          ≡ (if str_eq id j then not (is_favorite s j) else is_favorite s j))
        × ((toggle_favorite s id).saved_favorites ≡ some (toggle_favorite s id).favorites)
  unfolding is_favorite toggle_favorite
  is_favorite-toggle_favorite s id j r =
      let removed = has-delete id j s.favorites (Reachable-Distinct s r) in
      let added = has-add j id s.favorites in
      elim (Bool-cases (has id s.favorites)) [
        | inl known ↦ (rw known (toggled id j known removed), refl)
        | inr new ↦ (rw new (ground (arith, eq_iff id j)), refl)
      ]
    where
      toggled :
          (id j : String)
          → has id s.favorites ≡ true
          → has j (delete id s.favorites) ≡ (has j s.favorites && not (str_eq id j))
          → has j (delete id s.favorites)
            ≡ (if str_eq id j then not (has j s.favorites) else has j s.favorites)
      toggled id j known removed = elim (Bool-cases (str_eq id j)) [
        | inr other ↦ ground arith
        | inl same ↦
            let here : has j s.favorites ≡ true =
              ap (λ y. has y s.favorites) (sym ((eq_iff id j).0 same)) ∙ known in
            ground arith
      ]
