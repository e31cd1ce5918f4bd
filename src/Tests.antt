-- ===== src/Tests.antt =====
-- Runs of the code on small inputs, and the theorems at inputs that meet their hypotheses.
mod Protocol
mod Scene
mod Input
mod Codec
mod Kit
mod Session
mod Conformance
mod Interop
mod Cli
mod Writer
mod Lsml
mod Player
mod Driver
mod Command
mod Adapters
