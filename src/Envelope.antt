-- ===== src/Envelope.antt =====
-- packages/crypto/src/item-envelope.ts and aes-gcm.ts: the versioned envelope of a vault item.
pub mod Revisions
pub mod Aad
pub mod Legacy
pub mod Format
pub mod Upgrade
