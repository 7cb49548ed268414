-- ===== src/Agent/Tests.antt =====
-- Small runs of the agent.

use mikrotik_quality_agent.Base.{
  ℕ, true, false, none, some, List, map, [], ◌∷◌, Result, ok, err, ◌≡◌, ◌⊎◌, refl, arith,
}
use mikrotik_quality_agent.Base.Dict.{lookup, insert, text_key, nat_key, has_key}
use mikrotik_quality_agent.Controller.{ControllerError, transport, default_backoff}
use mikrotik_quality_agent.Controller.Wire.{
  TaskDto, into_plan, parse_session_id, parse_u64, parse_digits, to_digit,
}
use mikrotik_quality_agent.Controller.Digits.{parse_session_id-value}
use mikrotik_quality_agent.Plan.{
  Task, Plan, mqp_probe, sender, kept_id, next_due, earliest, advance,
}
use mikrotik_quality_agent.Probe.Net.{v4}
use mikrotik_quality_agent.Spool.{Spool, Entry}
use mikrotik_quality_agent.Spool.Invariant.{IsValid, total_bytes}
use mikrotik_quality_agent.Agent.Submit.{drain_spool}
use mikrotik_quality_agent.Agent.Drain.{Drained, delivered, drain_spool-Drained}
use mikrotik_quality_agent.Agent.Ledger.{
  Books, Balanced, result, submission, heartbeat, happen_all, happen_all-Balanced,
}
use mikrotik_quality_agent.Agent.Flush.{drain_spool-delivers}
use mikrotik_quality_agent.Agent.Execute.{Outside, Body, timed_out}
use mikrotik_quality_agent.Agent.Poll.{Agent, Texts, poll_tasks}
use mikrotik_quality_agent.Agent.Loop.{Pace, Running, World}
use mikrotik_quality_agent.Agent.Invariant.{IsAgent, iterations, iterations-IsAgent}
use mikrotik_quality_agent.Agent.Told.{enqueue_all, id_of}
use mikrotik_quality_agent.Agent.Offline.{IsDown, plan_offline, iterations-enqueue_all}
use mikrotik_quality_agent.Agent.Grants.{SomeGrants, poll_tasks_grants}
use mikrotik_quality_agent.Agent.Withdrawal.{listed, unlisted, poll_tasks-unlisted}

abbrev one : ℕ → ℕ
one n = 1

abbrev cell : ℕ → Entry ℕ
cell n = record { item = n; bytes = 1 }

abbrev spool : Spool ℕ
spool = record {
  cfg = record { max_entries = 4; max_bytes = 10; onset_reserve = 2 };
  entries = cell 5 ∷ cell 6 ∷ cell 7 ∷ [];
  bytes = 3;
  dropped = 2;
  dropped_total = 7;
}

spool-IsValid : IsValid spool
unfolding total_bytes
spool-IsValid = omega arith

drain_spool-Drained_example :
    Drained one spool (drain_spool one (λ k. err (transport "reset")) spool)
drain_spool-Drained_example =
    drain_spool-Drained one (λ k. err (transport "reset")) spool spool-IsValid
      (refl, (refl, (refl, tt)))

drain_spool-delivers_example :
    ((drain_spool one (λ k. ok 3) spool).0.entries ≡ [])
    × (delivered (drain_spool one (λ k. ok 3) spool).1 ≡ 5 ∷ 6 ∷ 7 ∷ [])
drain_spool-delivers_example =
    drain_spool-delivers one (λ k. ok 3) spool (λ k. (3, refl)) spool-IsValid
      (refl, (refl, (refl, tt)))

-- 255 is decimal.
parse_session_id-value_example : parse_session_id (λ c. false) (50 ∷ 53 ∷ 53 ∷ []) ≡ some 255
parse_session_id-value_example =
    parse_session_id-value (λ c. false) 50 (53 ∷ 53 ∷ []) (λ c low high. refl)
      (omega arith, omega arith, (omega arith, omega arith, (omega arith, omega arith, tt)))
      (omega arith)

an_explicit_prefix :
    parse_session_id (λ c. false) (48 ∷ 120 ∷ 99 ∷ 97 ∷ 102 ∷ 101 ∷ []) ≡ some 0xcafe
unfolding parse_session_id parse_u64 parse_digits to_digit
an_explicit_prefix = refl

too_large :
    parse_u64 10 (
      49 ∷ 56 ∷ 52 ∷ 52 ∷ 54 ∷ 55 ∷ 52 ∷ 52 ∷ 48 ∷ 55 ∷ 51 ∷ 55 ∷ 48 ∷ 57 ∷ 53 ∷ 53 ∷ 49 ∷ 54 ∷ 49
      ∷ 54 ∷ [])
    ≡ none
unfolding parse_u64 parse_digits to_digit
too_large = refl

abbrev outside : Outside ℕ ℕ ℕ
outside = record {
  get_u64 = λ p key. none;
  get_text = λ p key. none;
  parse_ip = λ s. some (v4 7);
  percent = λ a b. 0;
  rank = λ p n. 0;
  score = λ a b l c. 0;
  time_limit = λ t. "traceroute exceeded its time limit";
}

abbrev texts : Texts
texts = record {
  is_space = λ c. false;
  parse_ip = λ s. some (v4 7);
  message = λ f. "bad";
  display = λ e. "down";
}

abbrev pace : Pace
pace = record { poll_interval = 10000000000; heartbeat_interval = 60000000000 }

abbrev task : Task ℕ
task = record {
  task_id = "a";
  session_id = 0xCAFE;
  kind = mqp_probe;
  role = sender;
  peer = none;
  params = 0;
  recurring = true;
  interval = some 10;
}

abbrev size : Body ℕ ℕ ℕ → ℕ
size body = 2

abbrev plan : Plan ℕ
plan = record {
  recurring = ("a", record { task = task; deadline = none; due_at = 5 }) ∷ [];
  oneshot = [];
  default_interval = 60;
}

abbrev agent : Agent ℕ (Body ℕ ℕ ℕ)
agent = record {
  plan = plan;
  spool = record {
    cfg = record { max_entries = 4; max_bytes = 10; onset_reserve = 2 };
    entries = [];
    bytes = 0;
    dropped = 0;
    dropped_total = 0;
  };
  registry = record { sessions = [] };
  last_error = none;
}

abbrev running : Running ℕ (Body ℕ ℕ ℕ)
running = record { agent = agent; comms = default_backoff; next_poll = 0; next_heartbeat = 0 }

-- An iteration at which the controller is down.
abbrev outage : ℕ → World ℕ ℕ
outage now = record {
  now = now;
  now_leased = now;
  now_due = now;
  now_wait = now;
  now_poll = now;
  uptime_s = 1;
  stamp = "t";
  started = "t0";
  ended = "t1";
  leased = err (transport "down");
  beats = λ h. false;
  answers = λ k. err (transport "down");
  draw = λ c. c;
  probe = λ cfg. timed_out;
  host = none;
}

agent-IsAgent : IsAgent texts outside size pace agent
unfolding has_key total_bytes
agent-IsAgent = record {
  plan = record { keys = (refl, tt); keyed = (refl, tt); ids = tt };
  spool = record { valid = omega arith; sized = tt };
}

iterations-IsAgent_example :
    IsAgent texts outside size pace
      (iterations texts outside size pace running (outage 6 ∷ outage 20 ∷ [])).agent
iterations-IsAgent_example =
    iterations-IsAgent texts outside size pace running (outage 6 ∷ outage 20 ∷ []) agent-IsAgent

outage-IsDown : (now : ℕ) → IsDown texts outside size pace (outage now)
outage-IsDown now = ((transport "down", refl), (λ h. refl), (transport "down", refl))

-- The task is reported in both iterations.
iterations-enqueue_all_example :
    (bodies : List (Body ℕ ℕ ℕ)) × ((iterations texts outside size pace running
        (outage 6 ∷ outage 20 ∷ [])).agent.spool
      ≡ enqueue_all size agent.spool bodies)
    × (map id_of bodies ≡ ("a", 0xCAFE) ∷ ("a", 0xCAFE) ∷ [])
    × ((iterations texts outside size pace running (outage 6 ∷ outage 20 ∷ [])).agent.plan
        ≡ plan_offline texts outside size pace plan (outage 6 ∷ outage 20 ∷ []))
unfolding next_due earliest insert lookup advance
iterations-enqueue_all_example =
    iterations-enqueue_all texts outside size pace running (outage 6 ∷ outage 20 ∷ [])
      (outage-IsDown 6, (outage-IsDown 20, tt)) agent-IsAgent.spool

abbrev dto : TaskDto ℕ
dto = record {
  task_id = "b";
  session_id = 53 ∷ [];
  kind = "mqp_probe";
  role = "sender";
  peer = none;
  params = 0;
  recurring = true;
  interval_s = some 10;
  expires_in_s = none;
}

poll_tasks_grants_example :
    (lookup 9 (poll_tasks texts agent 6 (ok (dto ∷ []))).0.registry.sessions
      ≡ lookup 9 agent.registry.sessions)
    ⊎ ((dtos : List (TaskDto ℕ)) × (◌≡◌ {A = Result ControllerError (List (TaskDto ℕ))}
          (ok (dto ∷ []))
          (ok dtos))
        × SomeGrants texts 9 dtos)
poll_tasks_grants_example = poll_tasks_grants texts 9 agent 6 (ok (dto ∷ []))

not_listed : kept_id (listed texts (dto ∷ [])) "a" ≡ false
unfolding listed into_plan parse_session_id parse_u64 parse_digits to_digit
not_listed = refl

poll_tasks-unlisted_example :
    lookup "a" (poll_tasks texts agent 6 (ok (dto ∷ []))).0.plan.recurring
    ≡ unlisted texts (listed texts (dto ∷ [])) (lookup "a" plan.recurring)
poll_tasks-unlisted_example = poll_tasks-unlisted texts agent 6 (dto ∷ []) "a" not_listed

abbrev books : Books ℕ
books = record { spool = spool; sent = []; reported = 0 }

happen_all-Balanced_example : Balanced one books 2 (
    happen_all one books (
      result 8
      ∷ result 9
      ∷ submission (λ k. err (transport "reset"))
      ∷ heartbeat true
      ∷ submission (λ k. ok 4)
      ∷ []))
happen_all-Balanced_example =
    happen_all-Balanced one books
      (result 8
        ∷ result 9
        ∷ submission (λ k. err (transport "reset"))
        ∷ heartbeat true
        ∷ submission (λ k. ok 4)
        ∷ [])
      (record { valid = spool-IsValid; sized = (refl, (refl, (refl, tt))) })
