-- ===== src/Agent/Told.antt =====
-- Results that are spooled in a row, and the tasks that they are of.
use Prim.Native.String.{String}
use mikrotik_quality_agent.Base.{
  ℕ, Option, none, some, List, [], ◌∷◌, ◌++◌, map, subst, ◌≡◌, refl, sym, ap, ◌∙◌,
}
use mikrotik_quality_agent.Plan.{
  Kind, mqp_probe, twamp_probe, tcp_connect, router_os_btest, path_trace, wifi_signal,
  packet_capture, Role, sender, reflector, Task, Skipped,
}
use mikrotik_quality_agent.Spool.{Spool}
use mikrotik_quality_agent.Agent.Submit.{enqueue}
use mikrotik_quality_agent.Agent.Enqueue.{IsAgentSpool, enqueue-IsAgentSpool}
use mikrotik_quality_agent.Agent.Execute.{Outside, Body, skipped_body, by_kind}
use mikrotik_quality_agent.Agent.Reports.{run_mqp_probe-IsOf, run_host_task-IsOf}
use mikrotik_quality_agent.Agent.Poll.{Agent, Texts}
use mikrotik_quality_agent.Agent.Loop.{Pace, World, enqueue_in, enqueue_skipped, report}

module _ {J : Type 0} (size : J → ℕ) where
  -- The spool after these results.
  abbrev pub enqueue_all : Spool J → List J → Spool J
  enqueue_all s [] = s
  enqueue_all s (body ∷ bodies) = enqueue_all (enqueue size s body) bodies

  pub enqueue_all-append :
      (s : Spool J) (xs ys : List J) → enqueue_all s (xs ++ ys) ≡ enqueue_all (enqueue_all s xs) ys
  enqueue_all-append s [] ys = refl
  enqueue_all-append s (x ∷ xs) ys = enqueue_all-append (enqueue size s x) xs ys

  enqueue_all-IsAgentSpool :
      (s : Spool J) (bodies : List J)
      → IsAgentSpool size s
      → IsAgentSpool size (enqueue_all s bodies)
  enqueue_all-IsAgentSpool s [] h = h
  enqueue_all-IsAgentSpool s (body ∷ bodies) h =
      enqueue_all-IsAgentSpool (enqueue size s body) bodies (enqueue-IsAgentSpool size s body h)

-- A task is answered by one result; the authorisation of a reflector by none.
abbrev pub told_kind : Kind → Role → String × ℕ → List (String × ℕ)
told_kind mqp_probe reflector id = []
told_kind mqp_probe sender id = id ∷ []
told_kind path_trace role id = id ∷ []
told_kind router_os_btest role id = id ∷ []
told_kind packet_capture role id = id ∷ []
told_kind wifi_signal role id = id ∷ []
told_kind twamp_probe role id = id ∷ []
told_kind tcp_connect role id = id ∷ []

map-append : {A B : Type 0} (f : A → B) (xs ys : List A) → map f (xs ++ ys) ≡ map f xs ++ map f ys
map-append f [] ys = refl
map-append f (x ∷ xs) ys = ap (◌∷◌ (f x)) (map-append f xs ys)

module _ {P : Type 0} where
  abbrev pub told : Option (Task P) → List (String × ℕ)
  told none = []
  told (some task) = told_kind task.kind task.role (task.task_id, task.session_id)

  -- The identifiers of one-shots that expired.
  abbrev pub skipped_ids : List (Skipped P) → List (String × ℕ)
  skipped_ids [] = []
  skipped_ids (s ∷ skipped) = (s.task.task_id, s.task.session_id) ∷ skipped_ids skipped

module _ {F S E : Type 0} where
  -- The identifiers that a result is filed under.
  abbrev pub id_of : Body F S E → String × ℕ
  id_of body = (body.task_id, body.session_id)

module _ {F S E : Type 0} (size : Body F S E → ℕ) where
  -- Results that turn the one spool into the other and are filed under these identifiers.
  abbrev pub Reported : Spool (Body F S E) → Spool (Body F S E) → List (String × ℕ) → Type 0
  Reported before after ids =
      (bodies : List (Body F S E)) × (after ≡ enqueue_all size before bodies)
      × (map id_of bodies ≡ ids)

  pub Reported-append :
      (s t u : Spool (Body F S E)) (xs ys : List (String × ℕ))
      → Reported s t xs
      → Reported t u ys
      → Reported s u (xs ++ ys)
  Reported-append s t u xs ys (front, te, tids) (back, ue, uids) = (
    front ++ back,
    ue ∙ ap (λ x. enqueue_all size x back) te ∙ sym (enqueue_all-append size s front back),
    map-append id_of front back ∙ (λ i. tids i ++ uids i),
  )

  pub Reported-IsAgentSpool :
      (s t : Spool (Body F S E)) (ids : List (String × ℕ))
      → Reported s t ids
      → IsAgentSpool size s
      → IsAgentSpool size t
  Reported-IsAgentSpool s t ids (bodies, e, same) h =
      subst (IsAgentSpool size) (sym e) (enqueue_all-IsAgentSpool size s bodies h)

module _ {P F S E : Type 0} (texts : Texts) (out : Outside P F S) (size : Body F S E → ℕ)
    (pace : Pace) where
  pub skipped-Reported :
      (stamp : String) (a : Agent P (Body F S E)) (skipped : List (Skipped P))
      → Reported size a.spool
          (enqueue_skipped texts out size pace stamp a skipped).spool
          (skipped_ids skipped)
  skipped-Reported stamp a [] = ([], refl, refl)
  skipped-Reported stamp a (s ∷ skipped) =
      let (bodies, e, ids) =
        skipped-Reported stamp
          (enqueue_in texts out size pace a (skipped_body s.task s.reason stamp)) skipped in
      (
        skipped_body s.task s.reason stamp ∷ bodies,
        e,
        ap (◌∷◌ (s.task.task_id, s.task.session_id)) ids,
      )

  one-Reported :
      (s : Spool (Body F S E)) (task : Task P) (body : Body F S E)
      → (body.task_id ≡ task.task_id) × (body.session_id ≡ task.session_id)
      → Reported size s (enqueue size s body) ((task.task_id, task.session_id) ∷ [])
  one-Reported s task body (t, u) = (body ∷ [], refl, λ i. (t i, u i) ∷ [])

  pub kind-Reported :
      (w : World P E) (a : Agent P (Body F S E)) (task : Task P) (kind : Kind) (role : Role)
      → Reported size a.spool
          (report texts out size pace a
            (by_kind out w.started w.ended w.probe w.host task kind role)).spool
          (told_kind kind role (task.task_id, task.session_id))
  kind-Reported w a task mqp_probe reflector = ([], refl, refl)
  kind-Reported w a task mqp_probe sender =
      one-Reported a.spool task _
        (run_mqp_probe-IsOf out w.started w.ended w.probe w.host task task.peer)
  kind-Reported w a task path_trace role =
      one-Reported a.spool task _
        (run_host_task-IsOf out w.started w.ended w.probe w.host task _ w.host)
  kind-Reported w a task router_os_btest role =
      one-Reported a.spool task _
        (run_host_task-IsOf out w.started w.ended w.probe w.host task _ w.host)
  kind-Reported w a task packet_capture role =
      one-Reported a.spool task _
        (run_host_task-IsOf out w.started w.ended w.probe w.host task _ w.host)
  kind-Reported w a task wifi_signal role =
      one-Reported a.spool task _
        (run_host_task-IsOf out w.started w.ended w.probe w.host task _ w.host)
  kind-Reported w a task twamp_probe role = one-Reported a.spool task _ (refl, refl)
  kind-Reported w a task tcp_connect role = one-Reported a.spool task _ (refl, refl)
