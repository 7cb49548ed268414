-- ===== src/RouterOs.antt =====
-- agent/src/routeros: the host router's diagnostics.
pub mod Btest
pub mod Names
pub mod Duration
pub mod Verdict
pub mod Tests
