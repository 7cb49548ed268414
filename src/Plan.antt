-- ===== src/Plan.antt =====
-- agent/src/tasks/plan.rs: what the agent measures, and when. An `Instant` is a number of
-- nanoseconds; the parameters of a task, an opaque JSON value, are of any type `P`.
pub mod Schedule
pub mod Laws
pub mod Invariant
pub mod Tests
use Prim.Native.String.{String}
use mikrotik_quality_agent.Base.{
  ℕ, min, ◌+◌, ◌-◌, Bool, true, false, ◌||◌, Option, none, some, List, [], ◌∷◌, ◌++◌, ltb, leb,
  if◌then◌else◌, length,
}
use mikrotik_quality_agent.Base.Dict.{Key, lookup, insert, remove, text_key}
use mathlib.Core.Option.{get_or as unwrap_or}
use mathlib.Core.Option

pub data Kind : Type 0 where
  mqp_probe twamp_probe tcp_connect router_os_btest path_trace wifi_signal packet_capture : Kind

pub data Role : Type 0 where
  sender reflector : Role

pub record Peer : Type 0 where
  pub agent_id : String
  pub name : String
  pub address : String
  pub probe_port : ℕ

pub record Task (P : Type 0) : Type 0 where
  pub task_id : String
  pub session_id : ℕ
  pub kind : Kind
  pub role : Role
  pub peer : Option Peer
  pub params : P
  pub recurring : Bool
  pub interval : Option ℕ

pub record Scheduled (P : Type 0) : Type 0 where
  pub task : Task P
  pub deadline : Option ℕ
  pub due_at : ℕ

abbrev pub reason_expired : String
reason_expired = "one-shot expired before it could run"

pub record Skipped (P : Type 0) : Type 0 where
  pub task : Task P
  pub reason : String

pub record Plan (P : Type 0) : Type 0 where
  pub recurring : List (String × Scheduled P)
  pub oneshot : List (Scheduled P)
  pub default_interval : ℕ

-- `Plan::new`.
abbrev pub new_plan : {P : Type 0} → ℕ → Plan P
new_plan default_interval = record {
  recurring = [];
  oneshot = [];
  default_interval = default_interval;
}

abbrev pub expired : ℕ → Option ℕ → Bool
expired now none = false
expired now (some d) = leb d now

-- The next due time on the grid, or a whole interval from now after a stall.
unfoldable pub advance : ℕ → ℕ → ℕ → ℕ
advance due_at interval now =
    if ltb interval (now - due_at) then now + interval else due_at + interval

abbrev pub kept_id : List String → String → Bool
kept_id [] id = false
kept_id (k ∷ keep) id = text_key.same k id || kept_id keep id

abbrev pub shorter : ℕ → Option ℕ → Option ℕ
shorter a none = some a
shorter a (some b) = some (min a b)

module _ {P : Type 0} where
  abbrev pub recurring_len : Plan P → ℕ
  recurring_len p = length p.recurring

  abbrev pub oneshot_len : Plan P → ℕ
  oneshot_len p = length p.oneshot

  -- The recurring task's entry after `accept`.
  abbrev pub refreshed : Task P → ℕ → Option (Scheduled P) → Scheduled P
  refreshed task now (some existing) = record existing { task = task; deadline = none }
  refreshed task now none = record { task = task; deadline = none; due_at = now }

  abbrev pub queued : String → List (Scheduled P) → Bool
  queued id [] = false
  queued id (s ∷ oneshot) = text_key.same s.task.task_id id || queued id oneshot

  abbrev pub accept_recurring : Plan P → Task P → ℕ → Plan P
  accept_recurring p task now = record p {
    recurring =
        insert task.task_id (refreshed task now (lookup task.task_id p.recurring)) p.recurring;
  }

  abbrev pub push_oneshot : Plan P → Task P → Option ℕ → ℕ → Plan P
  push_oneshot p task expires_in now = record p {
    oneshot =
        p.oneshot
        ++ record { task = task; deadline = Option.map (λ d. now + d) expires_in; due_at = now }
          ∷ [];
  }

  unfoldable pub accept : Plan P → Task P → Option ℕ → ℕ → Plan P
  accept p task expires_in now =
      if task.recurring
      then accept_recurring p task now
      else (if queued task.task_id p.oneshot then p else push_oneshot p task expires_in now)

  abbrev pub keep_or_skip :
      Scheduled P
      → Bool
      → List (Scheduled P) × List (Skipped P)
      → List (Scheduled P) × List (Skipped P)
  keep_or_skip s false (kept, out) = (s ∷ kept, out)
  keep_or_skip s true (kept, out) = (kept, record { task = s.task; reason = reason_expired } ∷ out)

  -- The `retain` of `reap_expired`, with what it pushes to `out`.
  abbrev pub reap : ℕ → List (Scheduled P) → List (Scheduled P) × List (Skipped P)
  reap now [] = ([], [])
  reap now (s ∷ oneshot) = keep_or_skip s (expired now s.deadline) (reap now oneshot)

  abbrev pub reap_expired : Plan P → ℕ → Plan P × List (Skipped P)
  reap_expired p now = (record p { oneshot = (reap now p.oneshot).0 }, (reap now p.oneshot).1)

  abbrev pub first_of : Scheduled P → Option (Scheduled P) → Option (Scheduled P)
  first_of s none = some s
  first_of s (some t) = if leb s.due_at t.due_at then some s else some t

  -- The entry that is due and due first: `filter` and `min_by_key`.
  unfoldable pub earliest : ℕ → List (String × Scheduled P) → Option (Scheduled P)
  earliest now [] = none
  earliest now ((id, s) ∷ m) =
      let rest = earliest now m in if leb s.due_at now then first_of s rest else rest

  -- `get_mut`, the new due time and the task.
  abbrev pub fire : Plan P → ℕ → String → Option (Scheduled P) → Plan P × Option (Task P)
  fire p now id none = (p, none)
  fire p now id (some s) = (
    record p {
      recurring =
          insert id
            (record s {
              due_at = advance s.due_at (unwrap_or s.task.interval p.default_interval) now;
            })
            p.recurring;
    },
    some s.task,
  )

  abbrev pub fire_first : Plan P → ℕ → Option (Scheduled P) → Plan P × Option (Task P)
  fire_first p now none = (p, none)
  fire_first p now (some s) = fire p now s.task.task_id (lookup s.task.task_id p.recurring)

  abbrev pub next_of : Plan P → ℕ → List (Scheduled P) → Plan P × Option (Task P)
  next_of p now (s ∷ oneshot) = (record p { oneshot = oneshot }, some s.task)
  next_of p now [] = fire_first p now (earliest now p.recurring)

  unfoldable pub next_due : Plan P → ℕ → Plan P × Option (Task P)
  next_due p now = next_of p now p.oneshot

  abbrev pub withdraw : String → Plan P → Plan P
  withdraw id p = record p { recurring = remove id p.recurring }

  abbrev pub is_there : Option (Scheduled P) → Bool
  is_there none = false
  is_there (some s) = true

  -- `Plan::remove`.
  abbrev pub remove_task : Plan P → String → Plan P × Bool
  remove_task p id = (withdraw id p, is_there (lookup id p.recurring))

  unfoldable pub retain : List String → List (String × Scheduled P) → List (String × Scheduled P)
  retain keep [] = []
  retain keep ((id, s) ∷ m) = if kept_id keep id then (id, s) ∷ retain keep m else retain keep m

  abbrev pub reconcile_recurring : Plan P → List String → Plan P × ℕ
  reconcile_recurring p keep = (
    record p { recurring = retain keep p.recurring },
    length p.recurring - length (retain keep p.recurring),
  )

  -- The least wait among the recurring tasks.
  abbrev pub least_wait : ℕ → List (String × Scheduled P) → Option ℕ
  least_wait now [] = none
  least_wait now ((id, s) ∷ m) = shorter (s.due_at - now) (least_wait now m)

  abbrev pub wait_of : Plan P → ℕ → List (Scheduled P) → Option ℕ
  wait_of p now (s ∷ oneshot) = some 0
  wait_of p now [] = least_wait now p.recurring

  abbrev pub time_until_due : Plan P → ℕ → Option ℕ
  time_until_due p now = wait_of p now p.oneshot
