-- ===== src/Protocol.antt =====
-- The crate `oshioki_protocol` (protocol/src).
pub mod Error
pub mod Cbor
pub mod External
pub mod Example
pub mod Encoding
pub mod Cose
pub mod Device
pub mod Challenge
pub mod Timing
pub mod Request
pub mod Decision
pub mod Assertion
pub mod Seal
pub mod Enrollment
pub mod Auth
pub mod Tool
pub mod Socket
pub mod Terminal
mod Tests
