-- ===== src/Types/Sync.antt =====
-- packages/types/src/sync.ts. A sequence number is a natural number.
use nopass.Prelude.{ℕ, String, List, Option}

pub data SyncEventType : Type 0 where
  upsert delete : SyncEventType

pub record SyncEvent : Type 0 where
  pub id : String
  pub user_id : String
  pub device_id : String
  pub sequence_number : ℕ
  pub event_type : SyncEventType
  pub item_id : String
  pub encrypted_delta : Option String
  pub delta_iv : Option String
  pub created_at : String

-- Device id to the last sequence number seen of it.
abbrev pub VectorClock : Type 0
VectorClock = List (String × ℕ)

pub record SyncCheckpoint : Type 0 where
  pub device_id : String
  pub last_synced_sequence : ℕ
