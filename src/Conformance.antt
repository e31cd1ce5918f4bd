-- ===== src/Conformance.antt =====
-- The conformance harness (conformance/).
pub mod Match
pub mod Placeholders
pub mod Scenario
pub mod Harness
pub mod Player
