-- ===== src/Plan/Laws.antt =====
-- What the plan keeps: one entry for each recurring task, one for each queued one-shot.
use Prim.Native.String.{String}
use mikrotik_quality_agent.Base.{
  ℕ, Bool, true, false, ◌||◌, Option, none, some, List, [], ◌∷◌, ◌++◌, if◌then◌else◌, ◌≡◌, refl,
  sym, ap, ◌∙◌, arith, Bool-cases, inl, inr, subst, map,
}
use mikrotik_quality_agent.Base.Dict.{
  lookup, insert, KeysDiffer, text_key, insert-KeysDiffer, lookup-insert,
}
use mikrotik_quality_agent.Plan.{
  Task, Scheduled, Skipped, Plan, retain, kept_id, reconcile_recurring, accept, accept_recurring,
  push_oneshot, refreshed, queued, expired, reap, keep_or_skip, reap_expired, reason_expired,
}
use mikrotik_quality_agent.Plan.Schedule.{Keyed}

abbrev pub bool_eq : Bool → Bool → Bool
bool_eq true b = b
bool_eq false true = false
bool_eq false false = true

module _ {P : Type 0} where
  abbrev pub IdsDiffer : List (Scheduled P) → Type 0
  IdsDiffer [] = Unit {0}
  IdsDiffer (s ∷ oneshot) = (queued s.task.task_id oneshot ≡ false) × IdsDiffer oneshot

  pub record IsPlan (p : Plan P) : Type 0 where
    pub keys : KeysDiffer p.recurring
    pub keyed : Keyed p.recurring
    pub ids : IdsDiffer p.oneshot

  pub insert-Keyed :
      (id : String) (s : Scheduled P) (m : List (String × Scheduled P))
      → id ≡ s.task.task_id
      → Keyed m
      → Keyed (insert id s m)
  unfolding insert
  insert-Keyed id s [] e h = (e, tt)
  insert-Keyed id s ((j, t) ∷ m) e (first, rest) =
      elim (text_key.same j id)
        as (λ b. Keyed (if b then (id, s) ∷ m else (j, t) ∷ insert id s m)) [
          | true ↦ (e, rest)
          | false ↦ (first, insert-Keyed id s m e rest)
        ]

  queued-append :
      (id : String) (oneshot : List (Scheduled P)) (s : Scheduled P)
      → queued id (oneshot ++ s ∷ []) ≡ (queued id oneshot || text_key.same s.task.task_id id)
  queued-append id [] s = ground arith
  queued-append id (t ∷ oneshot) s =
      ap (λ b. text_key.same t.task.task_id id || b) (queued-append id oneshot s) ∙ ground arith

  append-IdsDiffer :
      (oneshot : List (Scheduled P)) (s : Scheduled P)
      → IdsDiffer oneshot
      → queued s.task.task_id oneshot ≡ false
      → IdsDiffer (oneshot ++ s ∷ [])
  append-IdsDiffer [] s h free = (refl, tt)
  append-IdsDiffer (t ∷ oneshot) s (alone, rest) free =
      let apart : text_key.same s.task.task_id t.task.task_id ≡ false = ground (
        arith,
        free,
        text_key.same_iff s.task.task_id t.task.task_id,
        text_key.same_iff t.task.task_id s.task.task_id,
      ) in
      (
        queued-append t.task.task_id oneshot s ∙ ground (arith, alone, apart),
        append-IdsDiffer oneshot s rest (ground (arith, free)),
      )

  refreshed-id :
      (task : Task P) (now : ℕ) (o : Option (Scheduled P))
      → task.task_id ≡ (refreshed task now o).task.task_id
  refreshed-id task now none = refl
  refreshed-id task now (some s) = refl

  accept_recurring-IsPlan :
      (p : Plan P) (task : Task P) (now : ℕ) → IsPlan p → IsPlan (accept_recurring p task now)
  accept_recurring-IsPlan p task now h =
      let s = refreshed task now (lookup task.task_id p.recurring) in
      record {
        keys = insert-KeysDiffer task.task_id s p.recurring h.keys;
        keyed =
            insert-Keyed task.task_id s p.recurring
              (refreshed-id task now (lookup task.task_id p.recurring)) h.keyed;
        ids = h.ids;
      }

  push_oneshot-IsPlan :
      (p : Plan P) (task : Task P) (expires_in : Option ℕ) (now : ℕ)
      → IsPlan p
      → queued task.task_id p.oneshot ≡ false
      → IsPlan (push_oneshot p task expires_in now)
  push_oneshot-IsPlan p task expires_in now h free = record {
    keys = h.keys;
    keyed = h.keyed;
    ids = append-IdsDiffer p.oneshot _ h.ids free;
  }

  -- Accepting a task, a repeated one included, duplicates nothing.
  pub accept-IsPlan :
      (p : Plan P) (task : Task P) (expires_in : Option ℕ) (now : ℕ)
      → IsPlan p
      → IsPlan (accept p task expires_in now)
  unfolding accept
  accept-IsPlan p task expires_in now h = elim (Bool-cases (queued task.task_id p.oneshot)) [
    | inl again ↦
        either task.recurring (ap (λ b. if b then p else push_oneshot p task expires_in now) again)
          h
    | inr free ↦
        either task.recurring (ap (λ b. if b then p else push_oneshot p task expires_in now) free)
          (push_oneshot-IsPlan p task expires_in now h free)
  ]
    where
      either :
          (b : Bool) {q r : Plan P}
          → r ≡ q
          → IsPlan q
          → IsPlan (if b then accept_recurring p task now else r)
      either true e w = accept_recurring-IsPlan p task now h
      either false e w = subst IsPlan (sym e) w

  -- A recurring task that is accepted stands in the plan with its new description, due when it was
  -- due before, or now if it is new; the other recurring tasks are as they were.
  pub accept-lookup :
      (p : Plan P) (task : Task P) (expires_in : Option ℕ) (now : ℕ) (id : String)
      → task.recurring ≡ true
      → lookup id (accept p task expires_in now).recurring ≡ (
          if text_key.same task.task_id id
          then some (refreshed task now (lookup task.task_id p.recurring))
          else lookup id p.recurring)
  unfolding accept
  accept-lookup p task expires_in now id e =
      ap
        (λ b.
          lookup id
            (if b
              then accept_recurring p task now
              else (if queued task.task_id p.oneshot
                  then p
                  else push_oneshot p task expires_in now)).recurring)
        e
      ∙ lookup-insert task.task_id id (refreshed task now (lookup task.task_id p.recurring))
          p.recurring

  -- The one-shots in which the deadline is over, and the others, in their order.
  abbrev pub overdue : ℕ → Bool → List (Scheduled P) → List (Scheduled P)
  overdue now late [] = []
  overdue now late (s ∷ oneshot) =
      if bool_eq (expired now s.deadline) late
      then s ∷ overdue now late oneshot
      else overdue now late oneshot

  abbrev pub skip : Scheduled P → Skipped P
  skip s = record { task = s.task; reason = reason_expired }

  reap_lem :
      (now : ℕ) (oneshot : List (Scheduled P))
      → reap now oneshot ≡ (overdue now false oneshot, map skip (overdue now true oneshot))
  reap_lem now [] = refl
  reap_lem now (s ∷ oneshot) =
      ap (keep_or_skip s (expired now s.deadline)) (reap_lem now oneshot)
      ∙ sorted (expired now s.deadline) (overdue now false oneshot) (overdue now true oneshot)
    where
      sorted :
          (b : Bool) (kept late : List (Scheduled P))
          → keep_or_skip s b (kept, map skip late) ≡ (
            if bool_eq b false then s ∷ kept else kept,
            map skip (if bool_eq b true then s ∷ late else late),
          )
      sorted true kept late = refl
      sorted false kept late = refl

  -- Reaping leaves the one-shots whose deadline is not over and reports the others, both in their
  -- order, and does not touch recurring work.
  pub reap_expired_lem :
      (p : Plan P) (now : ℕ)
      → ((reap_expired p now).0.oneshot ≡ overdue now false p.oneshot)
        × ((reap_expired p now).1 ≡ map skip (overdue now true p.oneshot))
        × ((reap_expired p now).0.recurring ≡ p.recurring)
  reap_expired_lem p now =
      (ap (λ r. r.0) (reap_lem now p.oneshot), ap (λ r. r.1) (reap_lem now p.oneshot), refl)

  -- One entry of a map that is filtered.
  retain_entry :
      (b c k : Bool) (s : Scheduled P) (before after : Option (Scheduled P))
      → after ≡ (if k then before else none)
      → (c ≡ true → k ≡ b)
      → (if b then (if c then some s else after) else after)
        ≡ (if k then (if c then some s else before) else none)
  retain_entry true true k s before after e same = rw (same refl) refl
  retain_entry false true k s before after e same = e ∙ rw (same refl) refl
  retain_entry true false k s before after e same = e
  retain_entry false false k s before after e same = e

  retain-lookup :
      (keep : List String) (m : List (String × Scheduled P)) (id : String)
      → lookup id (retain keep m) ≡ (if kept_id keep id then lookup id m else none)
  unfolding retain lookup
  retain-lookup keep [] id =
      elim (kept_id keep id)
        as (λ b. ◌≡◌ {A = Option (Scheduled P)} none (if b then none else none)) [
          | true ↦ refl
          | false ↦ refl
        ]
  retain-lookup keep ((j, s) ∷ m) id =
      (elim (kept_id keep j)
        as (λ b. lookup id (if b then (j, s) ∷ retain keep m else retain keep m) ≡ (
          if b
          then (if text_key.same j id then some s else lookup id (retain keep m))
          else lookup id (retain keep m))) [ true ↦ refl | false ↦ refl ])
      ∙ retain_entry (kept_id keep j) (text_key.same j id) (kept_id keep id) s (lookup id m)
          (lookup id (retain keep m)) (retain-lookup keep m id)
          (λ same. ap (kept_id keep) (sym ((text_key.same_iff j id).0 same)))

  -- Reconciling keeps the recurring tasks that are named, unchanged, drops the others, and leaves the
  -- one-shots alone.
  pub reconcile_recurring_lem :
      (p : Plan P) (keep : List String) (id : String)
      → (lookup id (reconcile_recurring p keep).0.recurring
          ≡ (if kept_id keep id then lookup id p.recurring else none))
        × ((reconcile_recurring p keep).0.oneshot ≡ p.oneshot)
  reconcile_recurring_lem p keep id = (retain-lookup keep p.recurring id, refl)
