-- ===== src/Agent/Outage.antt =====
-- How long the agent sleeps, and what becomes of its plan while the controller answers no poll.
use Prim.Native.String.{String}
use mikrotik_quality_agent.Base.{
  ℕ, ◌+◌, ◌≤◌, max, Bool, true, false, Option, none, some, List, [], ◌∷◌, leb, if◌then◌else◌, err,
  ◌≡◌, refl, ap, ◌∙◌, arith,
}
use mathlib.Core.Option.{get_or as unwrap_or}
use mikrotik_quality_agent.Controller.{ControllerError}
use mikrotik_quality_agent.Plan.{Task, Plan, Skipped, reap_expired, next_due, time_until_due}
use mikrotik_quality_agent.Agent.Execute.{Outside, Body, skipped_body}
use mikrotik_quality_agent.Agent.Poll.{Agent, Texts, poll_tasks}
use mikrotik_quality_agent.Agent.Loop.{
  Pace, Running, World, enqueue_in, enqueue_skipped, polled, poll, beaten, beat, heartbeat_of,
  report, wait, work, iteration,
}
use mikrotik_quality_agent.Agent.Invariant.{spoken}

module _ {P F S E : Type 0} (texts : Texts) (out : Outside P F S) (size : Body F S E → ℕ)
    (pace : Pace) where
  -- The agent does not sleep for less than 50 ms or more than 5 s, and past the time that a task is due
  -- by at most the 50 ms.
  pub wait-bounds :
      (w : World P E) (r : Running P (Body F S E))
      → (50000000 ≤ wait texts out size pace w r)
        × (wait texts out size pace w r ≤ 5000000000)
        × (wait texts out size pace w r
            ≤ max 50000000 (unwrap_or (time_until_due r.agent.plan w.now_wait) pace.poll_interval))
  unfolding wait
  wait-bounds w r = omega arith

  -- The plan and the task of an agent that has a clock and no controller.
  abbrev pub alone : Plan P → World P E → Plan P × Option (Task P)
  alone plan w = next_due (reap_expired plan w.now).0 w.now_due

  skipped_plan :
      (stamp : String) (a : Agent P (Body F S E)) (skipped : List (Skipped P))
      → (enqueue_skipped texts out size pace stamp a skipped).plan ≡ a.plan
  skipped_plan stamp a [] = refl
  skipped_plan stamp a (s ∷ skipped) =
      skipped_plan stamp (enqueue_in texts out size pace a (skipped_body s.task s.reason stamp))
        skipped

  polled_plan :
      (w : World P E) (r : Running P (Body F S E)) (why : ControllerError)
      → w.leased ≡ err why
      → (poll texts out size pace w r).agent.plan ≡ r.agent.plan
  unfolding poll_tasks
  polled_plan w r why down =
      ap
        (λ o.
          (if leb r.next_poll w.now
            then polled texts out size pace w r (poll_tasks texts r.agent w.now_leased o)
            else r).agent.plan)
        down
      ∙ (elim (leb r.next_poll w.now)
          as (λ b.
            (if b
              then polled texts out size pace w r (poll_tasks texts r.agent w.now_leased (err why))
              else r).agent.plan
            ≡ r.agent.plan) [ true ↦ refl | false ↦ refl ])

  beaten_plan :
      (a : Agent P (Body F S E)) (b : Bool) → (beaten texts out size pace a b).plan ≡ a.plan
  beaten_plan a true = refl
  beaten_plan a false = refl

  beat_plan :
      (w : World P E) (r : Running P (Body F S E))
      → (beat texts out size pace w r).agent.plan ≡ r.agent.plan
  beat_plan w r =
      elim (leb r.next_heartbeat w.now)
        as (λ b.
          (if b
            then record r {
              agent =
                  beaten texts out size pace r.agent
                    (w.beats (heartbeat_of texts out size pace w r.agent));
              next_heartbeat = w.now + pace.heartbeat_interval;
            }
            else r).agent.plan
          ≡ r.agent.plan) [ true ↦ beaten_plan r.agent _ | false ↦ refl ]

  report_plan :
      (a : Agent P (Body F S E)) (o : Option (Body F S E))
      → (report texts out size pace a o).plan ≡ a.plan
  report_plan a none = refl
  report_plan a (some body) = refl

  work_plan :
      (w : World P E) (r : Running P (Body F S E)) (x : Plan P × Option (Task P))
      → (work texts out size pace w r x).0.agent.plan ≡ x.0
  work_plan w r (plan, none) = refl
  work_plan w r (plan, some task) = report_plan (record (r.agent) { plan = plan }) _

  pub spoken_plan :
      (w : World P E) (r : Running P (Body F S E)) (why : ControllerError)
      → w.leased ≡ err why
      → (spoken texts out size pace w r).agent.plan ≡ (reap_expired r.agent.plan w.now).0
  spoken_plan w r why down =
      beat_plan w _
      ∙ polled_plan w _ why down
      ∙ skipped_plan w.stamp _ (reap_expired r.agent.plan w.now).1

  -- An iteration whose poll fails keeps the plan that the agent would keep with no controller at all.
  pub iteration_plan :
      (w : World P E) (r : Running P (Body F S E)) (why : ControllerError)
      → w.leased ≡ err why
      → (iteration texts out size pace w r).0.agent.plan ≡ (alone r.agent.plan w).0
  unfolding iteration
  iteration_plan w r why down =
      work_plan w (spoken texts out size pace w r) _
      ∙ ap (λ p. (next_due p w.now_due).0) (spoken_plan w r why down)
