-- ===== src/Agent/Withdrawal.antt =====
-- Which recurring tasks a poll withdraws.
use Prim.Native.String.{String}
use mikrotik_quality_agent.Base.{
  ℕ, true, false, ◌||◌, Option, none, some, List, [], ◌∷◌, ◌++◌, append_assoc, append-nil,
  if◌then◌else◌, Result, ok, err, Bool-cases, inl, inr, ◌≡◌, refl, sym, ap, ◌∙◌, arith,
}
use mikrotik_quality_agent.Base.Dict.{lookup, text_key}
use mikrotik_quality_agent.Controller.{ControllerError}
use mikrotik_quality_agent.Controller.Wire.{TaskDto, into_plan}
use mikrotik_quality_agent.Plan.{
  Task, Scheduled, Plan, accept, kept_id, queued, push_oneshot, accept_recurring, refreshed,
}
use mikrotik_quality_agent.Plan.Laws.{accept-lookup, reconcile_recurring_lem}
use mikrotik_quality_agent.Agent.Poll.{
  Agent, Texts, Leased, lease, lease_all, reconciled, poll_tasks,
}

kept_append :
    (xs ys : List String) (id : String) → kept_id (xs ++ ys) id ≡ (kept_id xs id || kept_id ys id)
kept_append [] ys id = refl
kept_append (x ∷ xs) ys id = ap (λ b. text_key.same x id || b) (kept_append xs ys id) ∙ ground arith

module _ {P : Type 0} where
  -- The recurring task, if it is one.
  abbrev pub recurring_of : Result ControllerError (Task P × Option ℕ) → List String
  recurring_of (err e) = []
  recurring_of (ok (task, expires_in)) = if task.recurring then task.task_id ∷ [] else []

  accept_oneshot :
      (p : Plan P) (task : Task P) (expires_in : Option ℕ) (now : ℕ)
      → task.recurring ≡ false
      → (accept p task expires_in now).recurring ≡ p.recurring
  unfolding accept
  accept_oneshot p task expires_in now e =
      ap
        (λ b.
          (if b
            then accept_recurring p task now
            else (if queued task.task_id p.oneshot
                then p
                else push_oneshot p task expires_in now)).recurring)
        e
      ∙ (elim (queued task.task_id p.oneshot)
          as (λ b. (if b then p else push_oneshot p task expires_in now).recurring ≡ p.recurring) [
            | true ↦ refl
            | false ↦ refl
          ])

  accept_other :
      (p : Plan P) (task : Task P) (expires_in : Option ℕ) (now : ℕ) (id : String)
      → kept_id (if task.recurring then task.task_id ∷ [] else []) id ≡ false
      → lookup id (accept p task expires_in now).recurring ≡ lookup id p.recurring
  accept_other p task expires_in now id free = elim (Bool-cases task.recurring) [
    | inr once ↦ ap (lookup id) (accept_oneshot p task expires_in now once)
    | inl again ↦
        let apart : kept_id (task.task_id ∷ []) id ≡ false =
          ap (λ b. kept_id (if b then task.task_id ∷ [] else []) id) (sym again) ∙ free in
        let other : text_key.same task.task_id id ≡ false = ground (arith, apart) in
        accept-lookup p task expires_in now id again
        ∙ ap
            (λ b.
              if b
              then some (refreshed task now (lookup task.task_id p.recurring))
              else lookup id p.recurring)
            other
  ]

module _ {P : Type 0} (texts : Texts) where
  -- The recurring tasks of an answer that can be interpreted.
  unfoldable pub listed : List (TaskDto P) → List String
  listed [] = []
  listed (dto ∷ dtos) = recurring_of (into_plan texts.is_space texts.message dto) ++ listed dtos

  lease_ids :
      (now : ℕ) (l : Leased P) (r : Result ControllerError (Task P × Option ℕ))
      → (lease texts now l r).recurring_ids ≡ l.recurring_ids ++ recurring_of r
  lease_ids now l (err e) = sym (append-nil l.recurring_ids)
  lease_ids now l (ok (task, expires_in)) =
      elim task.recurring
        as (λ b.
          (if b then l.recurring_ids ++ task.task_id ∷ [] else l.recurring_ids)
          ≡ l.recurring_ids ++ (if b then task.task_id ∷ [] else [])) [
            | true ↦ refl
            | false ↦ sym (append-nil l.recurring_ids)
          ]

  lease_all_ids :
      (now : ℕ) (l : Leased P) (dtos : List (TaskDto P))
      → (lease_all texts now l dtos).recurring_ids ≡ l.recurring_ids ++ listed dtos
  unfolding lease_all listed
  lease_all_ids now l [] = sym (append-nil l.recurring_ids)
  lease_all_ids now l (dto ∷ dtos) =
      let r = into_plan texts.is_space texts.message dto in
      lease_all_ids now (lease texts now l r) dtos
      ∙ ap (λ ids. ids ++ listed dtos) (lease_ids now l r)
      ∙ append_assoc l.recurring_ids (recurring_of r) (listed dtos)

  lease_other :
      (now : ℕ) (l : Leased P) (r : Result ControllerError (Task P × Option ℕ)) (id : String)
      → kept_id (recurring_of r) id ≡ false
      → lookup id (lease texts now l r).plan.recurring ≡ lookup id l.plan.recurring
  lease_other now l (err e) id free = refl
  lease_other now l (ok (task, expires_in)) id free =
      accept_other l.plan task expires_in now id free

  lease_all_other :
      (now : ℕ) (l : Leased P) (dtos : List (TaskDto P)) (id : String)
      → kept_id (listed dtos) id ≡ false
      → lookup id (lease_all texts now l dtos).plan.recurring ≡ lookup id l.plan.recurring
  unfolding lease_all listed
  lease_all_other now l [] id free = refl
  lease_all_other now l (dto ∷ dtos) id free =
      let r = into_plan texts.is_space texts.message dto in
      let apart = kept_append (recurring_of r) (listed dtos) id in
      lease_all_other now (lease texts now l r) dtos id (ground (arith, free, apart))
      ∙ lease_other now l r id (ground (arith, free, apart))

  -- What becomes of a recurring task that an answer does not list.
  abbrev pub unlisted : List String → Option (Scheduled P) → Option (Scheduled P)
  unlisted [] before = before
  unlisted (id ∷ ids) before = none

  reconciled_other :
      (ids : List String) (plan : Plan P) (id : String)
      → kept_id ids id ≡ false
      → lookup id (reconciled texts ids plan).recurring ≡ unlisted ids (lookup id plan.recurring)
  reconciled_other [] plan id free = refl
  reconciled_other (x ∷ ids) plan id free =
      (reconcile_recurring_lem plan (x ∷ ids) id).0
      ∙ ap (λ b. if b then lookup id plan.recurring else none) free

  -- A recurring task that an answer of success does not list is withdrawn if the answer lists any
  -- recurring task at all; if it lists none, the task stays in the plan as it was.
  pub poll_tasks-unlisted :
      {J : Type 0} (a : Agent P J) (now : ℕ) (dtos : List (TaskDto P)) (id : String)
      → kept_id (listed dtos) id ≡ false
      → lookup id (poll_tasks texts a now (ok dtos)).0.plan.recurring
        ≡ unlisted (listed dtos) (lookup id a.plan.recurring)
  unfolding poll_tasks
  poll_tasks-unlisted a now dtos id free =
      let l : Leased P = record { recurring_ids = []; registry = a.registry; plan = a.plan } in
      ap (λ ids. lookup id (reconciled texts ids (lease_all texts now l dtos).plan).recurring)
        (lease_all_ids now l dtos)
      ∙ reconciled_other (listed dtos) (lease_all texts now l dtos).plan id free
      ∙ ap (unlisted (listed dtos)) (lease_all_other now l dtos id free)
