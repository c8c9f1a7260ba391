-- ===== src/Sync/Batches.antt =====
-- How a merge depends on where the stream of events is cut into batches.
use nopass.Prelude.{◌<◌, ◌≡◌, refl, [], ◌∷◌, some, arith, ◌∙◌, eq_iff, ap, sym}
use nopass.Prelude.Maps.{lookup, insert}
use nopass.Types.Vault.{EncryptedVaultItem}
use nopass.Types.Sync.{SyncEvent, upsert, delete, VectorClock}
use nopass.Sync.{is_most_recent, note_event, latest_from, latest_events, apply_sync_events}
use nopass.Sync.Merge.{marked, items-apply_sync_events}

latest-one : (e : SyncEvent) → latest_events (e ∷ []) ≡ (e.item_id, e) ∷ []
unfolding latest_events latest_from note_event lookup insert
latest-one e = refl

latest-later :
    (d u : SyncEvent)
    → d.item_id ≡ u.item_id
    → d.sequence_number < u.sequence_number
    → latest_events (d ∷ u ∷ []) ≡ (d.item_id, u) ∷ []
unfolding latest_events latest_from note_event lookup insert is_most_recent
latest-later d u same later = ground (arith, eq_iff d.item_id u.item_id)

-- Whether an item ends up deleted depends on the batches. If a delete is followed by an upsert of
-- the same item with a higher sequence number, then in one batch the upsert wins and the item is
-- left as it was; in two batches the item stays deleted.
pub apply-batches_differ :
    (i : EncryptedVaultItem) (d u : SyncEvent) (c c' : VectorClock)
    → d.item_id ≡ i.id
    → u.item_id ≡ i.id
    → d.event_type ≡ delete
    → u.event_type ≡ upsert
    → d.sequence_number < u.sequence_number
    → ((apply_sync_events (i ∷ []) (d ∷ u ∷ []) c).items ≡ i ∷ [])
      × ((apply_sync_events (apply_sync_events (i ∷ []) (d ∷ []) c).items (u ∷ []) c').items
          ≡ record i { deleted_at = some d.created_at } ∷ [])
unfolding lookup
apply-batches_differ i d u c c' di ui dd uu later = (
  items-apply_sync_events (i ∷ []) (d ∷ u ∷ []) c (refl, tt)
      ∙ ap (λ l. marked (lookup i.id l) i ∷ []) (latest-later d u (di ∙ sym ui) later)
      ∙ ground (arith, eq_iff d.item_id i.id),
  ap (λ l. (apply_sync_events l (u ∷ []) c').items) first
      ∙ items-apply_sync_events (j ∷ []) (u ∷ []) c' (refl, tt)
      ∙ ap (λ l. marked (lookup j.id l) j ∷ []) (latest-one u)
      ∙ ground (arith, eq_iff u.item_id i.id),
)
  where
    j : EncryptedVaultItem
    j = record i { deleted_at = some d.created_at }

    first : (apply_sync_events (i ∷ []) (d ∷ []) c).items ≡ j ∷ []
    first =
        items-apply_sync_events (i ∷ []) (d ∷ []) c (refl, tt)
        ∙ ap (λ l. marked (lookup i.id l) i ∷ []) (latest-one d)
        ∙ ground (arith, eq_iff d.item_id i.id)
