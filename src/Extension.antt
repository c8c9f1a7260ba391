-- ===== src/Extension.antt =====
-- apps/extension/src/background/index.ts: the service worker of the browser extension.
pub mod Sender
pub mod Session
pub mod Reads
pub mod Fill
pub mod Consent
pub mod Ceremony
pub mod Passkeys
