-- ===== src/Lib.antt =====
-- MikrotikQualityAgent: the agent's measurement core, modelled from the Rust sources under agent/src.
--
-- The agent measures network paths. Senders pace probe packets, reflectors send them back, and the
-- collector turns the samples into metrics; results wait in a bounded spool until the controller takes
-- them. The agent's loop asks the controller for tasks, runs those that its plan says are due, spools
-- their results and submits them, and goes on measuring while the controller is out of reach.
--
-- Files
--   Base            shared names; lists, tests, bits, byte buffers and errors over the native numbers
--   Agent           agent/src/agent.rs
--     Submit        `enqueue` and `drain_spool`;  Drain, Flush, Enqueue, Ledger: what they promise
--     Execute       `execute`, `run_mqp_probe`, `run_host_task`;  Reports: what they report
--     Poll          the agent's state and `poll_tasks`;  Grants, Withdrawal: what a poll changes
--     Loop          the loop of `run` as `iteration`;  Invariant: what it keeps; Outage, Offline: what
--                   it does while the controller is out of reach, with Told
--   Controller      agent/src/controller/mod.rs: `ControllerError`, `Backoff`
--     Window        how long the backoff waits
--     Enrol         `enrol` and `verify` of agent/src/agent.rs;  Retries, SameAgent: their properties
--     Wire          agent/src/controller/client.rs: `TaskDto`, `into_plan`;  Digits: session identifiers
--   Spool           agent/src/spool.rs: `Spool`, `push`, `take` (`take_batch`), `return_unsent`, ...
--     Invariant     what a well-formed spool is
--     Eviction      the loop of `push`;  Push: what a push does;  Onset: runs of pushes
--     Drain         `take` and `return_unsent`
--   Mqp             agent/src/proto/mqp.rs
--     Crc           `crc16_ccitt`, with its inner loop as `crc_rounds`
--     Header        the header, `encode`, `decode`, `stamp_t1`, `make_reply_in_place`, `stamp_t3`
--     Detect, Decode, Layout, RoundTrip, Damage, Reply   their properties
--   Probe
--     Net           addresses and what the socket reports of a datagram
--     Clock         agent/src/probe/mod.rs: `Clock`, and round trips between two clocks
--     Reflector     agent/src/probe/reflector.rs: the registry and `handle`; Answer, Silence and Counts
--                   have its properties
--     Sender        agent/src/probe/sender.rs: `accept_reply` and the loop of `run` as `step` and
--                   `send_all`; Accept, Samples and Runs have their properties
--     EndToEnd      a probe from the sender to the reflector and back
--     Twamp         agent/src/probe/twamp.rs: Responder (`AllowList`, `handle` as `handle_twamp`), Sender
--                   (`accept` as `accept_twamp`, `run` as `start_twamp`, `send_session` and
--                   `linger_session`); Answers, Runs, Session and EndToEnd have their properties
--   RouterOs        agent/src/routeros/btest.rs: Btest (`to_request`, `parse`, `run`), Names (`Protocol::parse`,
--                   `Direction::parse`); Duration and Verdict have its properties
--   Plan            agent/src/tasks/plan.rs: `accept`, `reap_expired`, `next_due`, `reconcile_recurring`;
--                   Schedule, Laws and Invariant have its properties
--   Stats           agent/src/collector/stats.rs: Sample, Loss (`loss_stats`), Reorder (`reorder_stats`),
--                   Rtt (`rtt_stats`, `jitter_stats`), Isqrt (`isqrt_u128`), Dscp (`dscp_stats`,
--                   `summarise`); Sort and Spread have lemmas on sorting and on the figures
--   Twamp           agent/src/proto/twamp.rs: Time (`NtpTimestamp`), Estimate (`ErrorEstimate`), Packet
--                   (encode and decode), RoundTrip
--   */Tests         runs on small inputs
--
-- Conventions
--   A byte buffer is a list of numbers; `copy_from_slice` into a range is `write`, and a call that
--   changes a buffer in place returns the buffer. Machine integers are plain numbers, with wrap-around
--   written out where the source wraps, and their ranges as hypotheses (`IsHeader`, `IsBytes`).
--   Arithmetic that overflows is that of the release build. The largest argument of `isqrt_u128`, at
--   which the source divides by zero, is outside the model, and so is a linger time so long that its
--   deadline leaves the range of the system's clock, where the addition panics.
--   The loop of `Spool::push` runs on fuel `length entries + 1` and the loop of `return_unsent` too:
--   each round but the last removes an entry, so the fuel never decides the result. The loop of
--   `drain_spool` runs on the same fuel, for the same reason, and Newton's iteration on `n + 1` rounds.
--   Hash maps are association lists (Base/Dict). Durations are numbers of nanoseconds. The clock's
--   readings, what arrives and whether `bind` and `send_to` succeed are arguments: a run of a sender is a list
--   of events, and the theorems hold for every such list. What the controller answers, what the backoff
--   draws and what a task comes to are arguments of the agent's loop in the same way (`World`).
--   Floating-point arithmetic is a parameter: percentages, ranks and the scaling of the backoff's window.
--
-- Not modelled
--   The MOS estimate; sockets, tasks and timers; serialisation, logging, HTTP and the identity file; the
--   configuration and the command line; discovery and packet capture, of which the agent's model takes
--   the outcome as an argument; the Go server.
mod Base
pub mod Controller
pub mod Agent
pub mod Spool
pub mod Mqp
pub mod Probe
pub mod Stats
pub mod Twamp
pub mod Plan
pub mod RouterOs
