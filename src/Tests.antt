-- ===== src/Tests.antt =====
-- Concrete inputs: a platform of simple functions that has the properties assumed of the real one,
-- and each theorem at work on a small case.
mod Toy
mod Envelope
mod Sync
mod Shared
mod Rotations
mod Clients
mod Session
mod Extension
mod Ceremonies
mod Account
mod Secrets
mod Passkeys
