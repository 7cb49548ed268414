-- ===== src/Agent/Invariant.antt =====
-- The agent's invariant, through any number of iterations of its loop.
use Prim.Native.String.{String}
use mikrotik_quality_agent.Base.{
  ℕ, ◌+◌, Bool, true, false, Option, none, some, List, [], ◌∷◌, leb, if◌then◌else◌, Result, ok, err,
}
use mikrotik_quality_agent.Controller.{ControllerError}
use mikrotik_quality_agent.Controller.Wire.{TaskDto, into_plan}
use mikrotik_quality_agent.Plan.{Task, Plan, Skipped, reap_expired, next_due}
use mikrotik_quality_agent.Plan.Laws.{IsPlan, accept-IsPlan}
use mikrotik_quality_agent.Plan.Invariant.{
  reap_expired-IsPlan, reconcile_recurring-IsPlan, next_due-IsPlan,
}
use mikrotik_quality_agent.Spool.{clear_dropped}
use mikrotik_quality_agent.Agent.Drain.{drain_spool-Drained}
use mikrotik_quality_agent.Agent.Enqueue.{IsAgentSpool, enqueue-IsAgentSpool}
use mikrotik_quality_agent.Agent.Execute.{Outside, Body, skipped_body, execute}
use mikrotik_quality_agent.Agent.Poll.{
  Agent, Texts, Leased, lease, lease_all, reconciled, poll_tasks,
}
use mikrotik_quality_agent.Agent.Loop.{
  Pace, Running, World, enqueue_in, enqueue_skipped, reap, polled, poll, beaten, beat, heartbeat_of,
  report, drain, with_agent, work, iteration,
}

module _ {P : Type 0} (texts : Texts) where
  lease-IsPlan :
      (now : ℕ) (l : Leased P) (r : Result ControllerError (Task P × Option ℕ))
      → IsPlan l.plan
      → IsPlan (lease texts now l r).plan
  lease-IsPlan now l (err e) h = h
  lease-IsPlan now l (ok (task, expires_in)) h = accept-IsPlan l.plan task expires_in now h

  lease_all-IsPlan :
      (now : ℕ) (l : Leased P) (dtos : List (TaskDto P))
      → IsPlan l.plan
      → IsPlan (lease_all texts now l dtos).plan
  unfolding lease_all
  lease_all-IsPlan now l [] h = h
  lease_all-IsPlan now l (dto ∷ dtos) h =
      lease_all-IsPlan now (lease texts now l (into_plan texts.is_space texts.message dto)) dtos
        (lease-IsPlan now l (into_plan texts.is_space texts.message dto) h)

  reconciled-IsPlan :
      (ids : List String) (plan : Plan P) → IsPlan plan → IsPlan (reconciled texts ids plan)
  reconciled-IsPlan [] plan h = h
  reconciled-IsPlan (id ∷ ids) plan h = reconcile_recurring-IsPlan plan (id ∷ ids) h

module _ {P F S E : Type 0} (texts : Texts) (out : Outside P F S) (size : Body F S E → ℕ)
    (pace : Pace) where
  -- Well formed: the plan holds one entry for each task, and the spool is within its ceilings, with
  -- each entry counted at the size of its result.
  pub record IsAgent (a : Agent P (Body F S E)) : Type 0 where
    pub plan : IsPlan a.plan
    pub spool : IsAgentSpool size a.spool

  enqueue_in-IsAgent :
      (a : Agent P (Body F S E)) (body : Body F S E)
      → IsAgent a
      → IsAgent (enqueue_in texts out size pace a body)
  enqueue_in-IsAgent a body h = record {
    plan = h.plan;
    spool = enqueue-IsAgentSpool size a.spool body h.spool;
  }

  enqueue_skipped-IsAgent :
      (stamp : String) (a : Agent P (Body F S E)) (skipped : List (Skipped P))
      → IsAgent a
      → IsAgent (enqueue_skipped texts out size pace stamp a skipped)
  enqueue_skipped-IsAgent stamp a [] h = h
  enqueue_skipped-IsAgent stamp a (s ∷ skipped) h =
      enqueue_skipped-IsAgent stamp
        (enqueue_in texts out size pace a (skipped_body s.task s.reason stamp)) skipped
        (enqueue_in-IsAgent a (skipped_body s.task s.reason stamp) h)

  reap-IsAgent :
      (w : World P E) (a : Agent P (Body F S E))
      → IsAgent a
      → IsAgent (reap texts out size pace w a)
  reap-IsAgent w a h =
      enqueue_skipped-IsAgent w.stamp (record a { plan = (reap_expired a.plan w.now).0 })
        (reap_expired a.plan w.now).1
        (record { plan = reap_expired-IsPlan a.plan w.now h.plan; spool = h.spool })

  poll_tasks-IsAgent :
      (a : Agent P (Body F S E)) (now : ℕ) (r : Result ControllerError (List (TaskDto P)))
      → IsAgent a
      → IsAgent (poll_tasks texts a now r).0
  unfolding poll_tasks
  poll_tasks-IsAgent a now (err e) h = record { plan = h.plan; spool = h.spool }
  poll_tasks-IsAgent a now (ok dtos) h =
      let l : Leased P = record { recurring_ids = []; registry = a.registry; plan = a.plan } in
      record {
        plan =
            reconciled-IsPlan texts (lease_all texts now l dtos).recurring_ids
              (lease_all texts now l dtos).plan (lease_all-IsPlan texts now l dtos h.plan);
        spool = h.spool;
      }

  polled-IsAgent :
      (w : World P E) (r : Running P (Body F S E)) (x : Agent P (Body F S E) × Bool)
      → IsAgent x.0
      → IsAgent (polled texts out size pace w r x).agent
  polled-IsAgent w r (a, true) h = h
  polled-IsAgent w r (a, false) h = h

  poll-IsAgent :
      (w : World P E) (r : Running P (Body F S E))
      → IsAgent r.agent
      → IsAgent (poll texts out size pace w r).agent
  poll-IsAgent w r h =
      elim (leb r.next_poll w.now)
        as (λ b.
          IsAgent
            (if b
              then polled texts out size pace w r (poll_tasks texts r.agent w.now_leased w.leased)
              else r).agent) [
                | true ↦ polled-IsAgent w r _ (poll_tasks-IsAgent r.agent w.now_leased w.leased h)
                | false ↦ h
              ]

  beaten-IsAgent :
      (a : Agent P (Body F S E)) (b : Bool) → IsAgent a → IsAgent (beaten texts out size pace a b)
  unfolding clear_dropped
  beaten-IsAgent a false h = h
  beaten-IsAgent a true h = record {
    plan = h.plan;
    spool = record {
      valid = record {
        exact = h.spool.valid.exact;
        few = h.spool.valid.few;
        small = h.spool.valid.small;
      };
      sized = h.spool.sized;
    };
  }

  beat-IsAgent :
      (w : World P E) (r : Running P (Body F S E))
      → IsAgent r.agent
      → IsAgent (beat texts out size pace w r).agent
  beat-IsAgent w r h =
      elim (leb r.next_heartbeat w.now)
        as (λ b.
          IsAgent
            (if b
              then record r {
                agent =
                    beaten texts out size pace r.agent
                      (w.beats (heartbeat_of texts out size pace w r.agent));
                next_heartbeat = w.now + pace.heartbeat_interval;
              }
              else r).agent) [ true ↦ beaten-IsAgent r.agent _ h | false ↦ h ]

  report-IsAgent :
      (a : Agent P (Body F S E)) (o : Option (Body F S E))
      → IsAgent a
      → IsAgent (report texts out size pace a o)
  report-IsAgent a none h = h
  report-IsAgent a (some body) h = enqueue_in-IsAgent a body h

  drain-IsAgent :
      (w : World P E) (a : Agent P (Body F S E))
      → IsAgent a
      → IsAgent (drain texts out size pace w a)
  drain-IsAgent w a h =
      let d = drain_spool-Drained size w.answers a.spool h.spool.valid h.spool.sized in
      record { plan = h.plan; spool = record { valid = d.valid; sized = d.sized } }

  work-IsAgent :
      (w : World P E) (r : Running P (Body F S E)) (x : Plan P × Option (Task P))
      → IsPlan x.0
      → IsAgent r.agent
      → IsAgent (work texts out size pace w r x).0.agent
  work-IsAgent w r (plan, none) p h =
      drain-IsAgent w (record (r.agent) { plan = plan }) (record { plan = p; spool = h.spool })
  work-IsAgent w r (plan, some task) p h = drain-IsAgent w _ (
      report-IsAgent (record (r.agent) { plan = plan })
        (execute out w.started w.ended w.probe w.host task) (record { plan = p; spool = h.spool }))

  abbrev pub spoken : World P E → Running P (Body F S E) → Running P (Body F S E)
  spoken w r = beat texts out size pace w (
      poll texts out size pace w
        (with_agent texts out size pace r (reap texts out size pace w r.agent)))

  -- An iteration keeps the agent well formed, whatever the clock shows, whatever the controller answers
  -- and however the task ends.
  pub iteration-IsAgent :
      (w : World P E) (r : Running P (Body F S E))
      → IsAgent r.agent
      → IsAgent (iteration texts out size pace w r).0.agent
  unfolding iteration
  iteration-IsAgent w r h =
      let next = spoken w r in
      let v = beat-IsAgent w _ (poll-IsAgent w _ (reap-IsAgent w r.agent h)) in
      work-IsAgent w next (next_due next.agent.plan w.now_due)
        (next_due-IsPlan next.agent.plan w.now_due v.plan) v

  -- The state after these iterations.
  abbrev pub iterations : Running P (Body F S E) → List (World P E) → Running P (Body F S E)
  iterations r [] = r
  iterations r (w ∷ worlds) = iterations (iteration texts out size pace w r).0 worlds

  -- The agent stays well formed for as long as it runs.
  pub iterations-IsAgent :
      (r : Running P (Body F S E)) (worlds : List (World P E))
      → IsAgent r.agent
      → IsAgent (iterations r worlds).agent
  iterations-IsAgent r [] h = h
  iterations-IsAgent r (w ∷ worlds) h =
      iterations-IsAgent (iteration texts out size pace w r).0 worlds (iteration-IsAgent w r h)
