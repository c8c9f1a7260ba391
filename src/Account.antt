-- ===== src/Account.antt =====
-- The account: keys derived from the master password, the account key that does not depend on it,
-- login, and the change of the password (packages/crypto/src).
pub mod Kdf
pub mod Key
pub mod Login
pub mod Unlock
pub mod PasswordChange
pub mod History
