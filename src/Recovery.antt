-- ===== src/Recovery.antt =====
-- packages/crypto/src/recovery.ts and account-recovery.ts: recovery codes, the keys they derive, the
-- kit that they open, and a recovery to its end. Texts of codes are lists of their UTF-16 code units.
pub mod Code
pub mod Kit
pub mod Complete
