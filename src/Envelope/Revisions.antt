-- ===== src/Envelope/Revisions.antt =====
-- `MemoryRevisionStore` of packages/crypto/src/item-envelope.ts: the highest revision seen of each
-- item, and whether version 1 blobs are still accepted. `snapshots` holds what `onChange` was given,
-- newest first. A revision is a natural number, so the code's `?? -1` is "absent".
use nopass.Prelude.{
  ℕ, ◌≡◌, String, Bool, true, false, List, [], ◌∷◌, Option, none, some, leb, if◌then◌else◌,
}
use nopass.Prelude.Maps.{lookup, insert}
pub mod Laws

pub record RevisionSnapshot : Type 0 where
  pub revisions : List (String × ℕ)
  pub v2_only : Bool

pub record RevisionStore : Type 0 where
  pub current : RevisionSnapshot
  pub open current use *
  pub snapshots : List RevisionSnapshot

-- The constructor, from what was persisted.
unfoldable pub open_store : RevisionSnapshot → RevisionStore
open_store initial = record { current = initial; snapshots = [] }

unfoldable pub get : RevisionStore → String → Option ℕ
get s item = lookup item s.revisions

changed : RevisionStore → RevisionSnapshot → RevisionStore
changed s c = record { current = c; snapshots = c ∷ s.snapshots }

-- `revision <= (get(itemId) ?? -1)`
already : ℕ → Option ℕ → Bool
already revision none = false
already revision (some highest) = leb revision highest

-- `record`
unfoldable pub record_revision : RevisionStore → String → ℕ → RevisionStore
unfolding changed already
record_revision s item revision =
    if already revision (lookup item s.revisions)
    then s
    else changed s (record { revisions = insert item revision s.revisions; v2_only = s.v2_only })

unfoldable pub mark_v2_only : RevisionStore → RevisionStore
unfolding changed
mark_v2_only s =
    if s.v2_only then s else changed s (record { revisions = s.revisions; v2_only = true })
