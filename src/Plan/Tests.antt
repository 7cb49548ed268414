-- ===== src/Plan/Tests.antt =====
-- Small plans, after the unit tests of plan.rs.
use Prim.Native.String.{String}
use mikrotik_quality_agent.Base.{ℕ, Bool, true, false, none, some, [], ◌∷◌, ◌≡◌, ◌⊎◌, refl}
use mikrotik_quality_agent.Base.Dict.{lookup, insert, KeysDiffer, has_key, text_key}
use mikrotik_quality_agent.Plan.{
  Task, Scheduled, Plan, mqp_probe, sender, earliest, next_due, time_until_due, advance,
}
use mikrotik_quality_agent.Plan.Schedule.{
  Keyed, OneShotRuns, NothingRuns, RecurringRuns, next_due_lem,
}
use mikrotik_quality_agent.Plan.Laws.{IsPlan}

abbrev task : String → Bool → Task ℕ
task id recurring = record {
  task_id = id;
  session_id = 0xCAFE;
  kind = mqp_probe;
  role = sender;
  peer = none;
  params = 0;
  recurring = recurring;
  interval = some 10;
}

abbrev entry : String → Bool → ℕ → Scheduled ℕ
entry id recurring due = record { task = task id recurring; deadline = some 50; due_at = due }

abbrev plan : Plan ℕ
plan = record {
  recurring = ("a", entry "a" true 7) ∷ ("b", entry "b" true 5) ∷ [];
  oneshot = entry "c" false 0 ∷ [];
  default_interval = 60;
}

abbrev idle : Plan ℕ
idle = record plan { oneshot = [] }

waits : time_until_due idle 3 ≡ some 2
waits = refl

fires : (next_due idle 20).1 ≡ some (task "b" true)
unfolding next_due earliest lookup insert advance
fires = refl

keys : KeysDiffer plan.recurring
unfolding has_key
keys = (refl, (refl, tt))

keyed : Keyed plan.recurring
keyed = (refl, (refl, tt))

plan-IsPlan : IsPlan plan
plan-IsPlan = record { keys = keys; keyed = keyed; ids = (refl, tt) }

first : earliest 20 plan.recurring ≡ some (entry "b" true 5)
unfolding earliest
first = refl

next_due_lem_example : OneShotRuns idle 20 ⊎ (NothingRuns idle 20 ⊎ RecurringRuns idle 20)
next_due_lem_example = next_due_lem idle 20 keys keyed

-- The task of that case: "b", which is more than its interval of 10 late.
which : (next_due idle 20).0.recurring ≡ insert "b" (entry "b" true 30) idle.recurring
unfolding next_due earliest lookup insert advance
which = refl
