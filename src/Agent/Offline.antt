-- ===== src/Agent/Offline.antt =====
-- What the agent measures and keeps while the controller is out of reach.
use Prim.Native.String.{String}
use mikrotik_quality_agent.Base.{
  ℕ, ◌+◌, true, false, Option, none, some, List, [], ◌∷◌, ◌++◌, map, length, leb, if◌then◌else◌,
  Result, err, Bool-cases, inl, inr, subst, ◌≡◌, refl, sym, ap, ◌∙◌,
}
use mikrotik_quality_agent.Controller.{ControllerError}
use mikrotik_quality_agent.Plan.{Task, Plan, reap_expired, next_due}
use mikrotik_quality_agent.Spool.{Spool, is_empty, take_batch, clear_dropped}
use mikrotik_quality_agent.Spool.Drain.{return_unsent-take_batch}
use mikrotik_quality_agent.Agent.Submit.{submit_batch, after_post, drain_spool, drain}
use mikrotik_quality_agent.Agent.Enqueue.{IsAgentSpool}
use mikrotik_quality_agent.Agent.Execute.{Outside, Body, execute}
use mikrotik_quality_agent.Agent.Poll.{Agent, Texts, poll_tasks}
use mikrotik_quality_agent.Agent.Loop.{
  Pace, Running, Heartbeat, World, polled, poll, beaten, beat, heartbeat_of, reap, work, iteration,
}
use mikrotik_quality_agent.Agent.Invariant.{spoken, iterations}
use mikrotik_quality_agent.Agent.Outage.{alone, spoken_plan, iteration_plan}
use mikrotik_quality_agent.Agent.Told.{
  enqueue_all, told, skipped_ids, id_of, Reported, Reported-append, Reported-IsAgentSpool,
  skipped-Reported, kind-Reported,
}

module _ {J : Type 0} (size : J → ℕ) where
  -- A drain whose first request fails leaves the spool as it was.
  drain_spool-down :
      (answers : ℕ → Result ControllerError ℕ) (s : Spool J) (why : ControllerError)
      → answers 0 ≡ err why
      → IsAgentSpool size s
      → (drain_spool size answers s).0 ≡ s
  unfolding drain_spool drain
  drain_spool-down answers s why down h = elim (Bool-cases (is_empty s)) [
    | inl nothing ↦ rw (nothing, drain) refl
    | inr some_left ↦
        rw (some_left, drain)
          (ap
              (λ a.
                (after_post size (take_batch s submit_batch).0 (take_batch s submit_batch).1 a (
                  drain size answers (length s.entries) 1
                    (clear_dropped (take_batch s submit_batch).0))).0)
              down
            ∙ return_unsent-take_batch size s submit_batch h.valid h.sized)
  ]

module _ {P F S E : Type 0} (texts : Texts) (out : Outside P F S) (size : Body F S E → ℕ)
    (pace : Pace) where
  -- The controller answers neither the poll, the heartbeat nor the first submission.
  abbrev pub IsDown : World P E → Type 0
  IsDown w =
      ((why : ControllerError) × (w.leased ≡ err why))
      × ((h : Heartbeat) → w.beats h ≡ false)
      × ((why : ControllerError) × (w.answers 0 ≡ err why))

  abbrev pub AllDown : List (World P E) → Type 0
  AllDown [] = Unit {0}
  AllDown (w ∷ worlds) = IsDown w × AllDown worlds

  polled_spool :
      (w : World P E) (r : Running P (Body F S E)) (why : ControllerError)
      → w.leased ≡ err why
      → (poll texts out size pace w r).agent.spool ≡ r.agent.spool
  unfolding poll_tasks
  polled_spool w r why down =
      ap
        (λ o.
          (if leb r.next_poll w.now
            then polled texts out size pace w r (poll_tasks texts r.agent w.now_leased o)
            else r).agent.spool)
        down
      ∙ (elim (leb r.next_poll w.now)
          as (λ b.
            (if b
              then polled texts out size pace w r (poll_tasks texts r.agent w.now_leased (err why))
              else r).agent.spool
            ≡ r.agent.spool) [ true ↦ refl | false ↦ refl ])

  beat_spool :
      (w : World P E) (r : Running P (Body F S E))
      → w.beats (heartbeat_of texts out size pace w r.agent) ≡ false
      → (beat texts out size pace w r).agent.spool ≡ r.agent.spool
  beat_spool w r down =
      elim (leb r.next_heartbeat w.now)
        as (λ b.
          (if b
            then record r {
              agent =
                  beaten texts out size pace r.agent
                    (w.beats (heartbeat_of texts out size pace w r.agent));
              next_heartbeat = w.now + pace.heartbeat_interval;
            }
            else r).agent.spool
          ≡ r.agent.spool) [
            | true ↦ ap (λ b. (beaten texts out size pace r.agent b).spool) down
            | false ↦ refl
          ]

  work-Reported :
      (w : World P E) (r : Running P (Body F S E)) (x : Plan P × Option (Task P))
      → IsDown w
      → IsAgentSpool size r.agent.spool
      → Reported size r.agent.spool (work texts out size pace w r x).0.agent.spool (told x.1)
  unfolding execute
  work-Reported w r (plan, none) (no_poll, no_beat, (why, down)) h =
      ([], drain_spool-down size w.answers r.agent.spool why down h, refl)
  work-Reported w r (plan, some task) (no_poll, no_beat, (why, down)) h =
      let a : Agent P (Body F S E) = record (r.agent) { plan = plan } in
      let reported = kind-Reported texts out size pace w a task task.kind task.role in
      let (bodies, e, ids) = reported in
      (
        bodies,
        drain_spool-down size w.answers _ why down
              (Reported-IsAgentSpool size r.agent.spool _ _ reported h)
            ∙ e,
        ids,
      )

  spoken_spool :
      (w : World P E) (r : Running P (Body F S E))
      → IsDown w
      → (spoken texts out size pace w r).agent.spool ≡ (reap texts out size pace w r.agent).spool
  spoken_spool w r ((why, no_poll), no_beat, down) =
      beat_spool w _ (no_beat _) ∙ polled_spool w _ why no_poll

  -- The identifiers that an iteration reports: of the one-shots that expired, then of the task that the
  -- plan and the clock ask for.
  abbrev pub told_offline : Plan P → World P E → List (String × ℕ)
  told_offline plan w =
      skipped_ids (reap_expired plan w.now).1
      ++ told (next_due (reap_expired plan w.now).0 w.now_due).1

  abbrev pub all_told : Plan P → List (World P E) → List (String × ℕ)
  all_told plan [] = []
  all_told plan (w ∷ worlds) =
      told_offline plan w ++ all_told (alone texts out size pace plan w).0 worlds

  abbrev pub plan_offline : Plan P → List (World P E) → Plan P
  plan_offline plan [] = plan
  plan_offline plan (w ∷ worlds) = plan_offline (alone texts out size pace plan w).0 worlds

  iteration-Reported :
      (w : World P E) (r : Running P (Body F S E))
      → IsDown w
      → IsAgentSpool size r.agent.spool
      → Reported size r.agent.spool
          (iteration texts out size pace w r).0.agent.spool
          (told_offline r.agent.plan w)
  unfolding iteration
  iteration-Reported w r down h =
      let next = spoken texts out size pace w r in
      let x = next_due next.agent.plan w.now_due in
      let skips =
        skipped-Reported texts out size pace w.stamp
          (record (r.agent) { plan = (reap_expired r.agent.plan w.now).0 })
          (reap_expired r.agent.plan w.now).1 in
      let spoke =
        subst (λ s. Reported size r.agent.spool s (skipped_ids (reap_expired r.agent.plan w.now).1))
          (sym (spoken_spool w r down)) skips in
      let valid = Reported-IsAgentSpool size r.agent.spool next.agent.spool _ spoke h in
      let same =
        ap (λ p. told (next_due p w.now_due).1)
          (spoken_plan texts out size pace w r down.0.0 down.0.1) in
      Reported-append size r.agent.spool next.agent.spool _ _ _ spoke (
        subst
          (λ ids.
            Reported size next.agent.spool (work texts out size pace w next x).0.agent.spool ids)
          same (work-Reported w next x down valid))

  iterations-Reported :
      (r : Running P (Body F S E)) (worlds : List (World P E))
      → AllDown worlds
      → IsAgentSpool size r.agent.spool
      → Reported size r.agent.spool
          (iterations texts out size pace r worlds).agent.spool
          (all_told r.agent.plan worlds)
  iterations-Reported r [] down h = ([], refl, refl)
  iterations-Reported r (w ∷ worlds) (down, rest) h =
      let next = (iteration texts out size pace w r).0 in
      let first = iteration-Reported w r down h in
      let valid = Reported-IsAgentSpool size r.agent.spool next.agent.spool _ first h in
      let later =
        subst
          (λ p.
            Reported size next.agent.spool (iterations texts out size pace next worlds).agent.spool
              (all_told p worlds))
          (iteration_plan texts out size pace w r down.0.0 down.0.1)
          (iterations-Reported next worlds rest valid) in
      Reported-append size r.agent.spool next.agent.spool _ _ _ first later

  iterations_plan :
      (r : Running P (Body F S E)) (worlds : List (World P E))
      → AllDown worlds
      → (iterations texts out size pace r worlds).agent.plan ≡ plan_offline r.agent.plan worlds
  iterations_plan r [] down = refl
  iterations_plan r (w ∷ worlds) (down, rest) =
      iterations_plan (iteration texts out size pace w r).0 worlds rest
      ∙ ap (λ p. plan_offline p worlds) (iteration_plan texts out size pace w r down.0.0 down.0.1)

  -- However long the controller answers no poll, no heartbeat and no first submission of a drain, the
  -- agent's spool, if it is well formed, is the one that results from spooling results in a row, none of
  -- which a drain takes away: for each iteration one for every one-shot that expired and one for the
  -- task that the plan and the clock ask for, under the identifiers of the task and in that order, where
  -- only a reflector's task of the MQP probe has none. The plan is the one that the clock alone makes.
  pub iterations-enqueue_all :
      (r : Running P (Body F S E)) (worlds : List (World P E))
      → AllDown worlds
      → IsAgentSpool size r.agent.spool
      → (bodies : List (Body F S E)) × ((iterations texts out size pace r worlds).agent.spool
          ≡ enqueue_all size r.agent.spool bodies)
        × (map id_of bodies ≡ all_told r.agent.plan worlds)
        × ((iterations texts out size pace r worlds).agent.plan ≡ plan_offline r.agent.plan worlds)
  iterations-enqueue_all r worlds down h =
      let (bodies, e, ids) = iterations-Reported r worlds down h in
      (bodies, e, ids, iterations_plan r worlds down)
