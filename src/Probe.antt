-- ===== src/Probe.antt =====
-- agent/src/probe: the probe data plane.
pub mod Net
pub mod Clock
pub mod Reflector
pub mod Sender
pub mod EndToEnd
pub mod Twamp
pub mod Tests
