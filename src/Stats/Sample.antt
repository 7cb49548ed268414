-- ===== src/Stats/Sample.antt =====
-- agent/src/collector/stats.rs: a probe packet's outcome, as the senders record it.
use mikrotik_quality_agent.Base.{ℕ, Option}

pub record Sample : Type 0 where
  pub seq : ℕ
  pub reflector_seq : Option ℕ
  pub rtt_ns : ℕ
  pub tx_dscp : ℕ
  pub rx_dscp : Option ℕ
  pub arrival_index : ℕ
