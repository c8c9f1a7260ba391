-- ===== src/Trust/Stores.antt =====
-- `openRevisionStore`, `publishV2Only` and `openKeyPinStore` of
-- packages/ui/src/lib/local-trust-state.ts, less localStorage: what it held under the account's name
-- and the legacy records that the account takes over are arguments. The stores written back are the
-- results.
use nopass.Prelude.{
  ℕ, ◌≡◌, refl, String, Bool, true, false, List, [], ◌∷◌, Option, none, some, Result, ok, err,
  ◌>>=◌, arith, if◌then◌else◌, guard, ◌>>◌,
}
use nopass.Prelude.Maps.{lookup, insert}
use nopass.Errors.{Error, request_failed}
use nopass.Platform.{Platform}
use nopass.Envelope.Revisions.{
  RevisionSnapshot, RevisionStore, open_store, record_revision, mark_v2_only,
}
use nopass.Envelope.Upgrade.{apply_v2_only_marker, v2_only_marker}
use nopass.Identity.Pins.{KeyPinStore}
pub mod Laws

-- One legacy record, and all of them.
unfoldable pub record_all : RevisionStore → List (String × ℕ) → RevisionStore
record_all store [] = store
record_all store ((item, revision) ∷ rest) = record_all (record_revision store item revision) rest

unfoldable pub merge_records : RevisionStore → List (List (String × ℕ)) → RevisionStore
merge_records store [] = store
merge_records store (r ∷ rs) = merge_records (record_all store r) rs

-- `pins[userId] ??= identityKey`
unfoldable pub pin_if_new : KeyPinStore → String × String → KeyPinStore
pin_if_new pins (user, key) = elim (lookup user pins) [
  | none ↦ insert user key pins
  | some known ↦ pins
]

unfoldable pub add_pins : KeyPinStore → List (String × String) → KeyPinStore
add_pins pins [] = pins
add_pins pins (p ∷ ps) = add_pins (pin_if_new pins p) ps

unfoldable pub open_key_pin_store : KeyPinStore → List KeyPinStore → KeyPinStore
open_key_pin_store pins [] = pins
open_key_pin_store pins (record_1 ∷ records) = open_key_pin_store (add_pins pins record_1) records

module _ {K : Type 0} (env : Platform K) (vault_mac_key : K) where
  -- `fetched` is the marker that the server gave, or nothing if it was not asked or did not answer.
  unfoldable pub open_revision_store :
      RevisionSnapshot → List (List (String × ℕ)) → Option (Option String) → RevisionStore
  open_revision_store stored legacy fetched =
      let store = merge_records (open_store stored) legacy in
      elim fetched [
        | none ↦ store
        | some marker ↦ apply_v2_only_marker env marker vault_mac_key store
      ]

  -- `publish` sends the marker and says whether the server took it.
  unfoldable pub publish_v2_only : (String → Bool) → RevisionStore → Result Error RevisionStore
  publish_v2_only publish store = do
    guard (publish (v2_only_marker env vault_mac_key)) request_failed
    ok (mark_v2_only store)
