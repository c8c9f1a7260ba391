-- ===== src/Sync/Winners.antt =====
-- The event that wins for an item: no event of the batch about that item is more recent.
use nopass.Prelude.{In, ◌≡◌, inl, inr, String, false, List, [], none, some, ◌≢◌, ◌↔◌}
use nopass.Prelude.Maps.{lookup}
use nopass.Types.Sync.{SyncEvent}
use nopass.Sync.{is_most_recent, latest_events}
use nopass.Sync.Order.{is_most_recent-total, Tied}
use nopass.Sync.Table.{Table, Or, empty-Table, Table-of_iff, latest_from-Table}

-- What the table of winners of a batch holds for an item.
pub record Winner (events : List SyncEvent) (id : String) (w : SyncEvent) : Type 0 where
  pub about : w.item_id ≡ id
  pub listed : In w events
  pub best : (e : SyncEvent) → In e events → e.item_id ≡ id → is_most_recent e w ≡ false

latest_events-Table : (events : List SyncEvent) → Table (λ x. In x events) (latest_events events)
unfolding latest_events
latest_events-Table events =
    Table-of_iff (Or (λ x. ⊥) events) (λ x. In x events) _
      (λ x. (λ o. elim o [ inl p ↦ absurd p | inr i ↦ i ], λ i. inr i))
      (latest_from-Table (λ x. ⊥) [] events empty-Table)

-- The loop keeps, for each item, an event of the batch about it that no other such event beats,
-- and has an entry for every item that an event is about.
pub latest_events-Winner :
    (events : List SyncEvent) (id : String)
    → ((w : SyncEvent) → lookup id (latest_events events) ≡ some w → Winner events id w)
      × (lookup id (latest_events events) ≡ none → (e : SyncEvent) → In e events → e.item_id ≢ id)
latest_events-Winner events id =
    let t = latest_events-Table events in
    (
      λ w h.
          let p = t.present id w h in record { about = p.about; listed = p.listed; best = p.best },
      t.absent id,
    )

-- Two batches with the same events, in whatever order and however often, choose winners for an
-- item that agree in sequence number, in being a delete or not, and in device.
pub latest_events-same :
    (events events' : List SyncEvent) (id : String) (w w' : SyncEvent)
    → ((e : SyncEvent) → In e events ↔ In e events')
    → lookup id (latest_events events) ≡ some w
    → lookup id (latest_events events') ≡ some w'
    → Tied w w'
latest_events-same events events' id w w' same h h' =
    let p = (latest_events-Winner events id).0 w h in
    let q = (latest_events-Winner events' id).0 w' h' in
    is_most_recent-total w w' (q.best w ((same w).0 p.listed) p.about)
      (p.best w' ((same w').1 q.listed) q.about)
