-- ===== src/Stats.antt =====
-- agent/src/collector: from samples to metrics.
pub mod Sample
pub mod Sort
pub mod Loss
pub mod Reorder
pub mod Isqrt
pub mod Dscp
pub mod Spread
pub mod Rtt
pub mod Tests
