-- ===== src/Cli.antt =====
-- apps/cli/src: secrets by reference.
pub mod Refs
pub mod Adopt
