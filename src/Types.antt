-- ===== src/Types.antt =====
-- packages/types/src: the data that the clients and the server exchange.
pub mod Vault
pub mod Sync
pub mod Api
