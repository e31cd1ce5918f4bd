-- ===== src/Cli.antt =====
-- The command line (cli/).
pub mod Validate
pub mod Build
pub mod Conformance
