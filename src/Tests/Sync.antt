-- ===== src/Tests/Sync.antt =====
-- One item, deleted on one device and written again on another.
use nopass.Prelude.{In, ℕ, ◌≡◌, ◌≢◌, refl, arith, String, [], ◌∷◌, none, some, map}
use nopass.Prelude.Maps.{lookup}
use nopass.Types.Vault.{VaultItemType, EncryptedVaultItem}
use nopass.Types.Sync.{SyncEvent, SyncEventType, upsert, delete}
use nopass.Sync.{latest_events, apply_sync_events}
use nopass.Sync.Winners.{Winner, latest_events-Winner}
use nopass.Sync.Merge.{marked, items-apply_sync_events}
use nopass.Sync.Batches.{apply-batches_differ}

abbrev pub an_item : EncryptedVaultItem
an_item = record {
  id = "00000000-0000-0000-0000-000000000001";
  vault_id = "v";
  user_id = "u";
  org_id = none;
  item_type = VaultItemType.note;
  encrypted = record { blob = "aab"; blob_iv = "b"; blob_mac = "b" };
  version = 1;
  deleted_at = none;
  created_at = "t0";
  updated_at = "t0";
}

abbrev an_event : String → ℕ → SyncEventType → SyncEvent
an_event device n kind = record {
  id = "e";
  user_id = "u";
  device_id = device;
  sequence_number = n;
  event_type = kind;
  item_id = "00000000-0000-0000-0000-000000000001";
  encrypted_delta = none;
  delta_iv = none;
  created_at = "t1";
}

abbrev a_delete : SyncEvent
a_delete = an_event "phone" 3 delete

abbrev an_upsert : SyncEvent
an_upsert = an_event "laptop" 4 upsert

apply-batches_differ_example :
    ((apply_sync_events (an_item ∷ []) (a_delete ∷ an_upsert ∷ []) []).items ≡ an_item ∷ [])
    × ((apply_sync_events
          (apply_sync_events (an_item ∷ []) (a_delete ∷ []) []).items
          (an_upsert ∷ [])
          []).items
        ≡ record an_item { deleted_at = some "t1" } ∷ [])
apply-batches_differ_example =
    apply-batches_differ an_item a_delete an_upsert [] [] refl refl refl refl (omega arith)

items-apply_sync_events_example :
    (apply_sync_events (an_item ∷ []) (a_delete ∷ []) []).items
    ≡ map (λ i. marked (lookup i.id (latest_events (a_delete ∷ []))) i) (an_item ∷ [])
unfolding lookup
items-apply_sync_events_example =
    items-apply_sync_events (an_item ∷ []) (a_delete ∷ []) [] (refl, tt)

latest_events-Winner_example :
    ((w : SyncEvent)
      → lookup "i" (latest_events (a_delete ∷ an_upsert ∷ [])) ≡ some w
      → Winner (a_delete ∷ an_upsert ∷ []) "i" w)
    × (lookup "i" (latest_events (a_delete ∷ an_upsert ∷ [])) ≡ none
        → (e : SyncEvent) → In e (a_delete ∷ an_upsert ∷ [])
        → e.item_id ≢ "i")
latest_events-Winner_example = latest_events-Winner (a_delete ∷ an_upsert ∷ []) "i"
