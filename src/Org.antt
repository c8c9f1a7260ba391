-- ===== src/Org.antt =====
-- packages/ui/src/lib/org-trust.ts: how the user interface obtains, re-signs and rotates the key of
-- an organization.
pub mod Check
pub mod Resign
pub mod Rotation
pub mod Items
