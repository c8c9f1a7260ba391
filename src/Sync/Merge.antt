-- ===== src/Sync/Merge.antt =====
-- The items after a batch: an item is changed only by a winning delete.
use nopass.Prelude.{
  ◌≡◌, refl, sym, ap, ◌∙◌, inl, inr, String, List, [], ◌∷◌, Option, none, some, arith, Option-cases,
  Bool-cases, eq_iff, str_eq, if◌then◌else◌, ◌++◌, map, subst, str_eq→eq,
}
use mathlib.Core.List.{append-nil, append_assoc}
use nopass.Prelude.Maps.{
  lookup, values, Unique, insert-Unique, on_key, on_key_absent, on_key_same, insert-on_key,
  on_key-Unique, insert-absent, Unique-append_absent,
}
use nopass.Types.Vault.{EncryptedVaultItem}
use nopass.Types.Sync.{SyncEvent, VectorClock}
use nopass.Sync.{
  is_delete, note_event, latest_from, latest_events, item_map, item_map_from, apply_event,
  apply_sync_events, apply_events, merged,
}

-- What the winning event of an item, if there is one, does to it.
abbrev pub marked : Option SyncEvent → EncryptedVaultItem → EncryptedVaultItem
marked none item = item
marked (some e) item =
    if is_delete e.event_type then record item { deleted_at = some e.created_at } else item

-- The winners' effects on a keyed list of items, in place.
abbrev mark_all :
    List (String × SyncEvent)
    → List (String × EncryptedVaultItem)
    → List (String × EncryptedVaultItem)
mark_all ws [] = []
mark_all ws ((k, i) ∷ m) = (k, marked (lookup k ws) i) ∷ mark_all ws m

apply_event-on_key :
    (m : List (String × EncryptedVaultItem)) (id : String) (e : SyncEvent)
    → Unique m
    → apply_event m (id, e) ≡ on_key id (marked (some e)) m
unfolding apply_event
apply_event-on_key m id e u = elim (Bool-cases (is_delete e.event_type)) [
  | inr other ↦ let same = on_key_same id (marked (some e)) m (λ v. ground arith) in ground arith
  | inl deleted ↦ elim (Option-cases (lookup id m)) [
    | inl gone ↦ let same = on_key_absent id (marked (some e)) m gone in ground arith
    | inr (item, found) ↦
        let same = insert-on_key id (marked (some e)) m item u found in ground arith
  ]
]

mark_all-on_key :
    (id : String) (e : SyncEvent) (ws : List (String × SyncEvent))
    (m : List (String × EncryptedVaultItem))
    → lookup id ws ≡ none
    → mark_all ws (on_key id (marked (some e)) m) ≡ mark_all ((id, e) ∷ ws) m
unfolding lookup
mark_all-on_key id e ws [] h = refl
mark_all-on_key id e ws ((k, i) ∷ m) h =
    let ih = mark_all-on_key id e ws m h in
    elim (Bool-cases (str_eq k id)) [
      | inl same ↦
          let here : lookup k ws ≡ none = ap (λ j. lookup j ws) (str_eq→eq same) ∙ h in
          ground (arith, eq_iff k id, eq_iff id k, here, ih)
      | inr other ↦ ground (arith, eq_iff k id, eq_iff id k, ih)
    ]

mark_all-nil : (m : List (String × EncryptedVaultItem)) → mark_all [] m ≡ m
unfolding lookup
mark_all-nil [] = refl
mark_all-nil ((k, i) ∷ m) = ap (◌∷◌ (k, i)) (mark_all-nil m)

apply_events-mark_all :
    (m : List (String × EncryptedVaultItem)) (ws : List (String × SyncEvent))
    → Unique m
    → Unique ws
    → apply_events m ws ≡ mark_all ws m
unfolding apply_events
apply_events-mark_all m [] u v = sym (mark_all-nil m)
apply_events-mark_all m ((id, e) ∷ ws) u v =
    let f = marked (some e) in
    ap (λ x. apply_events x ws) (apply_event-on_key m id e u)
    ∙ apply_events-mark_all (on_key id f m) ws (on_key-Unique id f m u) v.1
    ∙ mark_all-on_key id e ws m v.0

-- The items by id, in their order.
abbrev pub keyed : List EncryptedVaultItem → List (String × EncryptedVaultItem)
keyed items = map (λ i. (i.id, i)) items

item_map_from-keyed :
    (acc : List (String × EncryptedVaultItem)) (items : List EncryptedVaultItem)
    → Unique (acc ++ keyed items)
    → item_map_from acc items ≡ acc ++ keyed items
unfolding item_map_from
item_map_from-keyed acc [] u = sym (append-nil acc)
item_map_from-keyed acc (i ∷ is) u =
    let new = insert-absent i.id i acc (Unique-append_absent acc i.id i (keyed is) u) in
    let split = append_assoc acc ((i.id, i) ∷ []) (keyed is) in
    ap (λ m. item_map_from m is) new
    ∙ item_map_from-keyed (acc ++ (i.id, i) ∷ []) is (subst Unique (sym split) u)
    ∙ split

note_event-Unique :
    (latest : List (String × SyncEvent)) (e : SyncEvent)
    → Unique latest
    → Unique (note_event latest e)
unfolding note_event
note_event-Unique latest e u = ground (arith, insert-Unique e.item_id e latest u)

latest_from-Unique :
    (latest : List (String × SyncEvent)) (es : List SyncEvent)
    → Unique latest
    → Unique (latest_from latest es)
unfolding latest_from
latest_from-Unique latest [] u = u
latest_from-Unique latest (e ∷ es) u =
    latest_from-Unique (note_event latest e) es (note_event-Unique latest e u)

values-mark_all :
    (ws : List (String × SyncEvent)) (items : List EncryptedVaultItem)
    → values (mark_all ws (keyed items)) ≡ map (λ i. marked (lookup i.id ws) i) items
values-mark_all ws [] = refl
values-mark_all ws (i ∷ is) = ap (◌∷◌ (marked (lookup i.id ws) i)) (values-mark_all ws is)

-- A merge of items with distinct ids returns the same items in the same order. Each is unchanged,
-- but for one whose winning event is a delete: its `deletedAt` is that event's `createdAt`.
pub items-apply_sync_events :
    (items : List EncryptedVaultItem) (events : List SyncEvent) (clock : VectorClock)
    → Unique (keyed items)
    → (apply_sync_events items events clock).items
      ≡ map (λ i. marked (lookup i.id (latest_events events)) i) items
unfolding apply_sync_events merged item_map latest_events
items-apply_sync_events items events clock u =
    let ws = latest_from [] events in
    ap (λ m. values (apply_events m ws)) (item_map_from-keyed [] items u)
    ∙ ap values (apply_events-mark_all (keyed items) ws u (latest_from-Unique [] events tt))
    ∙ values-mark_all ws items
