-- ===== src/Protocol/Codec.antt =====
-- protocol/codec.py: encoding and decoding of typed frames.
pub mod Parse
pub mod Decode
pub mod Encode
pub mod Parts
pub mod Accepted
pub mod RoundTrip
