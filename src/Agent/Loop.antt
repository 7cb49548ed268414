-- ===== src/Agent/Loop.antt =====
-- The loop of `run`, of agent/src/agent.rs, an iteration at a time. What an iteration reads from the
-- clock, what the controller answers and what a task comes to are its arguments (`World`).
use Prim.Native.String.{String}
use mikrotik_quality_agent.Base.{
  ℕ, ◌+◌, ◌-◌, min, max, Bool, true, false, Option, none, some, List, [], ◌∷◌, leb, if◌then◌else◌,
  length, Result,
}
use mathlib.Core.Option.{get_or as unwrap_or}
use mikrotik_quality_agent.Controller.{ControllerError, Backoff, next_delay, reset}
use mikrotik_quality_agent.Controller.Wire.{TaskDto}
use mikrotik_quality_agent.Plan.{Task, Plan, Skipped, reap_expired, next_due, time_until_due}
use mikrotik_quality_agent.Probe.Reflector.{active_count}
use mikrotik_quality_agent.Probe.Sender.{ProbeConfig, ProbeRun}
use mikrotik_quality_agent.Spool.{clear_dropped}
use mikrotik_quality_agent.Agent.Submit.{enqueue, drain_spool}
use mikrotik_quality_agent.Agent.Execute.{Outside, Body, Outcome, HostTask, skipped_body, execute}
use mikrotik_quality_agent.Agent.Poll.{Agent, Texts, poll_tasks}

-- The request of a heartbeat, without the capabilities, which do not change while the agent runs.
pub record Heartbeat : Type 0 where
  pub uptime_s : ℕ
  pub active_sessions : ℕ
  pub last_error : Option String
  pub spool_dropped : ℕ
  pub spool_depth : ℕ

-- The intervals of the configuration.
pub record Pace : Type 0 where
  pub poll_interval : ℕ
  pub heartbeat_interval : ℕ

-- The agent and the variables of `run`.
pub record Running (P J : Type 0) : Type 0 where
  pub agent : Agent P J
  pub comms : Backoff
  pub next_poll : ℕ
  pub next_heartbeat : ℕ

-- The clock at the start of an iteration, when the tasks have arrived, when a task is asked for, and
-- when the wait is computed (twice); the answers to the poll, the heartbeat and each submission; the draw of the backoff; the
-- outcomes of a probe and of a diagnostic, with the times of its start and its end.
pub record World (P E : Type 0) : Type 0 where
  pub now : ℕ
  pub now_leased : ℕ
  pub now_due : ℕ
  pub now_wait : ℕ
  pub now_poll : ℕ
  pub uptime_s : ℕ
  pub stamp : String
  pub started : String
  pub ended : String
  pub leased : Result ControllerError (List (TaskDto P))
  pub beats : Heartbeat → Bool
  pub answers : ℕ → Result ControllerError ℕ
  pub draw : ℕ → ℕ
  pub probe : ProbeConfig → Outcome ProbeRun
  pub host : Option (HostTask → Outcome E)

module _ {P F S E : Type 0} (texts : Texts) (out : Outside P F S) (size : Body F S E → ℕ)
    (pace : Pace) where
  abbrev pub J : Type 0
  J = Body F S E

  abbrev pub enqueue_in : Agent P J → J → Agent P J
  enqueue_in a body = record a { spool = enqueue size a.spool body }

  -- The results of the one-shots that expired.
  abbrev pub enqueue_skipped : String → Agent P J → List (Skipped P) → Agent P J
  enqueue_skipped stamp a [] = a
  enqueue_skipped stamp a (s ∷ skipped) =
      enqueue_skipped stamp (enqueue_in a (skipped_body s.task s.reason stamp)) skipped

  abbrev pub reap : World P E → Agent P J → Agent P J
  reap w a =
      let (plan, skipped) = reap_expired a.plan w.now in
      enqueue_skipped w.stamp (record a { plan = plan }) skipped

  -- What a poll does to the schedule of polls.
  abbrev pub polled : World P E → Running P J → Agent P J × Bool → Running P J
  polled w r (a, true) = record r {
    agent = a;
    comms = reset r.comms;
    next_poll = w.now + pace.poll_interval;
  }
  polled w r (a, false) =
      let (comms, delay) = next_delay w.draw r.comms in
      record r { agent = a; comms = comms; next_poll = w.now + delay }

  abbrev pub poll : World P E → Running P J → Running P J
  poll w r =
      if leb r.next_poll w.now
      then polled w r (poll_tasks texts r.agent w.now_leased w.leased)
      else r

  abbrev pub heartbeat_of : World P E → Agent P J → Heartbeat
  heartbeat_of w a = record {
    uptime_s = w.uptime_s;
    active_sessions = active_count a.registry;
    last_error = a.last_error;
    spool_dropped = a.spool.dropped;
    spool_depth = length a.spool.entries;
  }

  abbrev pub beaten : Agent P J → Bool → Agent P J
  beaten a true = record a { spool = clear_dropped a.spool }
  beaten a false = a

  abbrev pub beat : World P E → Running P J → Running P J
  beat w r =
      if leb r.next_heartbeat w.now
      then record r {
        agent = beaten r.agent (w.beats (heartbeat_of w r.agent));
        next_heartbeat = w.now + pace.heartbeat_interval;
      }
      else r

  abbrev pub report : Agent P J → Option J → Agent P J
  report a none = a
  report a (some body) = enqueue_in a body

  abbrev pub drain : World P E → Agent P J → Agent P J
  drain w a = record a { spool = (drain_spool size w.answers a.spool).0 }

  -- How long the agent sleeps when nothing is due: between 50 ms and 5 s.
  unfoldable pub wait : World P E → Running P J → ℕ
  wait w r =
      max
        (min
          (min (unwrap_or (time_until_due r.agent.plan w.now_wait) pace.poll_interval)
            (r.next_poll - w.now_poll))
          5000000000)
        50000000

  abbrev pub with_agent : Running P J → Agent P J → Running P J
  with_agent r a = record r { agent = a }

  -- The end of the iteration: a task is run and there is no wait, or there is none and the loop sleeps.
  abbrev pub work : World P E → Running P J → Plan P × Option (Task P) → Running P J × Option ℕ
  work w r (plan, some task) =
      let a =
        report (record (r.agent) { plan = plan })
          (execute out w.started w.ended w.probe w.host task) in
      (with_agent r (drain w a), none)
  work w r (plan, none) =
      let done = with_agent r (drain w (record (r.agent) { plan = plan })) in
      (done, some (wait w done))

  unfoldable pub iteration : World P E → Running P J → Running P J × Option ℕ
  iteration w r =
      let spoken = beat w (poll w (with_agent r (reap w r.agent))) in
      work w spoken (next_due spoken.agent.plan w.now_due)
