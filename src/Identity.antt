-- ===== src/Identity.antt =====
-- packages/crypto/src/identity.ts: identity keys, key pins, and signed wraps of organization keys.
pub mod Bundle
pub mod Pins
pub mod Wrap
pub mod Chain
