-- ===== src/Lib.antt =====
-- Verification of nopass, a zero-knowledge password manager: the clients' own logic, in TypeScript.
--
-- The server stores ciphertext and is not trusted. What protects a user is code in the clients: the
-- envelope that binds a ciphertext to its row, the memory of what a device has seen, the chain of
-- signatures that vouches for the key of an organization, and the rules for autofill. These are the
-- parts modelled here, each definition a translation of one function or one round of its loop.
--
-- The parts:
--   Prelude (tests, lists, maps, sets, bytes, texts, results) is shared by all.
--   Types, Errors: packages/types/src/{vault,sync,api}.ts, packages/crypto/src/types.ts, and what the
--     code throws, one constructor for each error.
--   Platform: the code that nopass calls and does not contain (Web Crypto, TextEncoder, atob, JSON, the
--     @noble libraries), a record of functions that every other part takes as an argument. What is
--     assumed of it is a record of laws, named by each theorem that uses it.
--   Uuid: uuidBytes, of item-envelope.ts and identity.ts.
--   Envelope: packages/crypto/src/item-envelope.ts and aes-gcm.ts. Revisions is MemoryRevisionStore,
--     Aad is itemAad, Legacy is the version 1 format, Format is encryptVaultItem and decryptVaultItem,
--     Upgrade is upgradeLegacyItems and the version 2 marker.
--   Sync: packages/crypto/src/sync-engine.ts.
--   Identity: packages/crypto/src/identity.ts. Bundle is key bundles and safety numbers, Pins is
--     verifyMemberKey and confirmKey, Wrap is signed wraps, Chain is verifyOrgKeyChain.
--   Org: packages/ui/src/lib/org-trust.ts. Check is checkOrgKey and openOrgKey (its History is any
--     course of them), Resign is buildResignedWraps, Rotation is buildRotation, Items is
--     decryptOrgItem and the ledger of packages/ui/src/lib/local-trust-state.ts.
--   VaultStore: packages/ui/src/store/vault-store.ts.
--   VaultModel: apps/web/src/components/vault/vault-model.ts, the list of the web vault.
--   Autofill, WebUrl: apps/extension/src/lib/url-match.ts and web-url.ts.
--   Webauthn: packages/crypto/src/webauthn.ts.
--   Trust: packages/crypto/src/trust-index.ts and account-state.ts; Trust/Stores is the
--     rest of local-trust-state.ts.
--   Account: packages/crypto/src. Kdf is kdf.ts, Key is the account key and its wrap of account-key.ts,
--     Login is password-login.ts, Unlock is unlockAccount with the migration and the upgrade from SRP,
--     PasswordChange is password-change.ts. History is any course of logins and unlocks on a device.
--   Srp: packages/crypto/src/srp-client.ts. Numbers is its big integers and modPow, over native numbers
--     with the exponent as fuel; Powers, Premaster, Compare and Login are the way to a whole login.
--   Recovery: packages/crypto/src/recovery.ts (Code, Kit) and account-recovery.ts (Complete).
--   Cli: apps/cli/src/secret-refs.ts (Refs) and adopt.ts (Adopt).
--   Extension: apps/extension/src/background/index.ts. Sender is who sent a message, Session is the
--     unlocked session (unlock, lock, restore, auto-lock), Reads, Fill, Consent and Passkeys are the
--     messages of handleMessage.
--   Tests: a platform of simple functions that satisfies the laws, and small cases.
-- Org uses Identity to decide on a key and Envelope to read and write items; Identity and Envelope use
-- only Platform. Account uses Trust for what a device remembers of an account; Extension uses
-- Envelope to open items, Autofill and Webauthn to decide, and its own Session for the vault.
--
-- How code becomes definitions: a mutable store is an argument and a result; a function that
-- throws returns a Result; `await` is sequencing, but in Extension/Session, where a call is cut
-- at each `await` into tasks and a run takes them on in any order, and in the other messages of
-- the extension, which take `vaultState` as it is after each wait that they read it after; and a
-- call of another party (the write of an upgrade, the decryption of a wrap) is a function
-- argument. Random values (ivs, padding, fresh keys) are arguments. Loops recurse on the list
-- they run over. The loops on numbers take the number as fuel, which is enough since it falls:
-- the exponent of modPow, a number as it loses its hex digits, and the bits that are left of a
-- recovery code. Sequence numbers, revisions and epochs are natural numbers, with the code's own
-- bounds (Number.MAX_SAFE_INTEGER, 32-bit epochs) as its checks; bytes are numbers below 256; a
-- Map or an object is a list of pairs in insertion order; texts are compared by UTF-16 code
-- units.
--
-- Not modelled: erasing secrets from memory, localStorage and its failures, clipboard and timers;
-- the imports of raw keys, share links, the import of other managers' items; base64url; of the
-- extension's background script the message listener, the logging, the detection interval of
-- idleness and loadRevisions, whose parts are Trust and Envelope/Revisions; the content scripts;
-- the commands of the command line client, its session file and the regular expressions that read
-- a line of a file; React components; the Rust server and desktop shell.
pub mod Prelude
pub mod Types
pub mod Errors
pub mod Platform
pub mod Uuid
pub mod Envelope
pub mod Sync
pub mod Identity
pub mod Org
pub mod VaultStore
pub mod VaultModel
pub mod Srp
pub mod Recovery
pub mod Cli
pub mod Autofill
pub mod WebUrl
pub mod Webauthn
pub mod Trust
pub mod Account
pub mod Extension
pub mod Tests
