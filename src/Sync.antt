-- ===== src/Sync.antt =====
-- packages/crypto/src/sync-engine.ts: the merge of a batch of sync events into the local items.
use nopass.Prelude.{
  ℕ, ◌≡◌, String, Bool, true, false, not, ◌&&◌, List, [], ◌∷◌, map, Option, none, some, ltb, ◌==◌,
  if◌then◌else◌,
}
use nopass.Prelude.Maps.{lookup, insert, values}
use nopass.Prelude.Text.{text_lt}
use nopass.Types.Vault.{EncryptedVaultItem}
use nopass.Types.Sync.{SyncEvent, SyncEventType, upsert, delete, VectorClock, SyncCheckpoint}
pub mod Order
pub mod Winners
pub mod Table
pub mod Merge
pub mod Clock
pub mod Batches

pub record MergeResult : Type 0 where
  pub items : List EncryptedVaultItem
  pub new_clock : VectorClock

abbrev pub is_delete : SyncEventType → Bool
is_delete upsert = false
is_delete delete = true

unfoldable pub is_most_recent : SyncEvent → SyncEvent → Bool
is_most_recent a b =
    if not (a.sequence_number == b.sequence_number)
    then ltb b.sequence_number a.sequence_number
    else if is_delete a.event_type && not (is_delete b.event_type)
    then true
    else if is_delete b.event_type && not (is_delete a.event_type)
    then false
    else text_lt b.device_id a.device_id

-- One round of the loop over the events.
unfoldable pub note_event : List (String × SyncEvent) → SyncEvent → List (String × SyncEvent)
note_event latest event = elim (lookup event.item_id latest) [
  | none ↦ insert event.item_id event latest
  | some existing ↦
      if is_most_recent event existing then insert event.item_id event latest else latest
]

unfoldable pub latest_from : List (String × SyncEvent) → List SyncEvent → List (String × SyncEvent)
latest_from latest [] = latest
latest_from latest (e ∷ es) = latest_from (note_event latest e) es

unfoldable pub latest_events : List SyncEvent → List (String × SyncEvent)
latest_events events = latest_from [] events

-- `new Map(local.map((i) => [i.id, i]))`
item_map_from :
    List (String × EncryptedVaultItem)
    → List EncryptedVaultItem
    → List (String × EncryptedVaultItem)
item_map_from m [] = m
item_map_from m (i ∷ is) = item_map_from (insert i.id i m) is

pub item_map : List EncryptedVaultItem → List (String × EncryptedVaultItem)
item_map items = item_map_from [] items

-- One winning event: only a delete of an item that is there has an effect.
apply_event :
    List (String × EncryptedVaultItem) → String × SyncEvent → List (String × EncryptedVaultItem)
apply_event m (id, e) =
    if is_delete e.event_type
    then elim (lookup id m) [
      | none ↦ m
      | some item ↦ insert id (record item { deleted_at = some e.created_at }) m
    ]
    else m

apply_events :
    List (String × EncryptedVaultItem)
    → List (String × SyncEvent)
    → List (String × EncryptedVaultItem)
apply_events m [] = m
apply_events m (w ∷ ws) = apply_events (apply_event m w) ws

-- `event.sequenceNumber > (newClock[event.deviceId] ?? -1)`
is_newer : ℕ → Option ℕ → Bool
is_newer n none = true
is_newer n (some current) = ltb current n

tick : VectorClock → SyncEvent → VectorClock
tick clock e =
    if is_newer e.sequence_number (lookup e.device_id clock)
    then insert e.device_id e.sequence_number clock
    else clock

pub update_clock : VectorClock → List SyncEvent → VectorClock
update_clock clock [] = clock
update_clock clock (e ∷ es) = update_clock (tick clock e) es

-- The items by id after the batch.
pub merged : List EncryptedVaultItem → List SyncEvent → List (String × EncryptedVaultItem)
merged items events = apply_events (item_map items) (latest_events events)

pub apply_sync_events : List EncryptedVaultItem → List SyncEvent → VectorClock → MergeResult
apply_sync_events items events clock = record {
  items = values (merged items events);
  new_clock = update_clock clock events;
}

pub build_sync_checkpoints : VectorClock → List SyncCheckpoint
build_sync_checkpoints clock =
    map (λ c. record { device_id = c.0; last_synced_sequence = c.1 }) clock
