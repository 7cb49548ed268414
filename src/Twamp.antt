-- ===== src/Twamp.antt =====
-- agent/src/proto/twamp.rs: TWAMP-Light.
pub mod Time
pub mod Estimate
pub mod Packet
pub mod RoundTrip
pub mod Tests
