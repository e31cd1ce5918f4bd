-- ===== src/Protocol.antt =====
-- The wire protocol (protocol/): roles, error codes, sequence numbers, leaf paths, frames, codec.
pub mod Types
pub mod Errors
pub mod Sequence
pub mod LeafPath
pub mod Frames
pub mod Envelope
pub mod Codec
