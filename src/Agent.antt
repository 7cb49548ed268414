-- ===== src/Agent.antt =====
-- agent/src/agent.rs: the managed agent loop.
pub mod Submit
pub mod Drain
pub mod Flush
pub mod Enqueue
pub mod Ledger
pub mod Execute
pub mod Reports
pub mod Poll
pub mod Loop
pub mod Invariant
pub mod Outage
pub mod Told
pub mod Offline
pub mod Grants
pub mod Withdrawal
pub mod Tests
