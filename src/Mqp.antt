-- ===== src/Mqp.antt =====
-- agent/src/proto/mqp.rs: the MQP wire codec.
pub mod Crc
pub mod Detect
pub mod Header
pub mod Decode
pub mod Layout
pub mod RoundTrip
pub mod Damage
pub mod Reply
pub mod Tests
