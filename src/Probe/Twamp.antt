-- ===== src/Probe/Twamp.antt =====
-- agent/src/probe/twamp.rs: the TWAMP-Light responder and sender.
pub mod Responder
pub mod Answers
pub mod Sender
pub mod Runs
pub mod Session
pub mod EndToEnd
pub mod Tests
