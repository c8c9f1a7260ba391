-- ===== src/Sync/Order.antt =====
-- `isMostRecent` is a strict order that decides between any two events of an item, up to events
-- that agree in sequence number, kind and device.
use nopass.Prelude.{◌≡◌, true, false, arith}
use nopass.Prelude.Text.{utf16, text_lt, lt_units_trans, lt_units-total}
use nopass.Types.Sync.{SyncEvent}
use nopass.Sync.{is_most_recent, is_delete}

pub is_most_recent_trans :
    (a b c : SyncEvent)
    → is_most_recent a b ≡ true
    → is_most_recent b c ≡ true
    → is_most_recent a c ≡ true
unfolding is_most_recent text_lt
is_most_recent_trans a b c p q =
    ground (arith, lt_units_trans (utf16 c.device_id) (utf16 b.device_id) (utf16 a.device_id))

-- Events that neither beats the other.
pub record Tied (a b : SyncEvent) : Type 0 where
  pub sequence : a.sequence_number ≡ b.sequence_number
  pub kind : is_delete a.event_type ≡ is_delete b.event_type
  pub device : utf16 a.device_id ≡ utf16 b.device_id

pub is_most_recent-total :
    (a b : SyncEvent) → is_most_recent a b ≡ false → is_most_recent b a ≡ false → Tied a b
unfolding is_most_recent text_lt
is_most_recent-total a b p q = record {
  sequence = ground arith;
  kind = ground arith;
  device = ground (arith, lt_units-total (utf16 a.device_id) (utf16 b.device_id));
}
