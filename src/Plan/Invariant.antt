-- ===== src/Plan/Invariant.antt =====
-- The plan's invariant through the operations of the agent's loop.
use Prim.Native.String.{String}
use mikrotik_quality_agent.Base.{
  ℕ, Bool, true, false, Option, none, some, List, [], ◌∷◌, if◌then◌else◌, ◌≡◌, refl, sym, ap, ◌∙◌,
  arith, Bool-cases, inl, inr,
}
use mathlib.Core.Option.{some-injective, none-ne-some}
use mikrotik_quality_agent.Base.Dict.{lookup, has_key, KeysDiffer, text_key, insert-KeysDiffer}
use mikrotik_quality_agent.Plan.{
  Scheduled, Skipped, Plan, retain, kept_id, reconcile_recurring, queued, expired, reap,
  keep_or_skip, reap_expired, fire, fire_first, next_of, next_due,
}
use mikrotik_quality_agent.Plan.Schedule.{Keyed}
use mikrotik_quality_agent.Plan.Laws.{IdsDiffer, IsPlan, insert-Keyed}

module _ {P : Type 0} where
  queued-keep_or_skip :
      (id : String) (s : Scheduled P) (b : Bool) (r : List (Scheduled P) × List (Skipped P))
      → text_key.same s.task.task_id id ≡ false
      → queued id r.0 ≡ false
      → queued id (keep_or_skip s b r).0 ≡ false
  queued-keep_or_skip id s true (kept, out) other free = free
  queued-keep_or_skip id s false (kept, out) other free = ground (arith, other, free)

  queued-reap :
      (id : String) (now : ℕ) (oneshot : List (Scheduled P))
      → queued id oneshot ≡ false
      → queued id (reap now oneshot).0 ≡ false
  queued-reap id now [] free = free
  queued-reap id now (s ∷ oneshot) free =
      queued-keep_or_skip id s (expired now s.deadline) (reap now oneshot) (ground (arith, free))
        (queued-reap id now oneshot (ground (arith, free)))

  keep_or_skip-IdsDiffer :
      (s : Scheduled P) (b : Bool) (r : List (Scheduled P) × List (Skipped P))
      → queued s.task.task_id r.0 ≡ false
      → IdsDiffer r.0
      → IdsDiffer (keep_or_skip s b r).0
  keep_or_skip-IdsDiffer s true (kept, out) free h = h
  keep_or_skip-IdsDiffer s false (kept, out) free h = (free, h)

  reap-IdsDiffer :
      (now : ℕ) (oneshot : List (Scheduled P)) → IdsDiffer oneshot → IdsDiffer (reap now oneshot).0
  reap-IdsDiffer now [] h = tt
  reap-IdsDiffer now (s ∷ oneshot) (free, h) =
      keep_or_skip-IdsDiffer s (expired now s.deadline) (reap now oneshot)
        (queued-reap s.task.task_id now oneshot free) (reap-IdsDiffer now oneshot h)

  -- Dropping the expired one-shots keeps the plan well formed.
  pub reap_expired-IsPlan : (p : Plan P) (now : ℕ) → IsPlan p → IsPlan (reap_expired p now).0
  reap_expired-IsPlan p now h = record {
    keys = h.keys;
    keyed = h.keyed;
    ids = reap-IdsDiffer now p.oneshot h.ids;
  }

  has_key-retain :
      (keep : List String) (id : String) (m : List (String × Scheduled P))
      → has_key id m ≡ false
      → has_key id (retain keep m) ≡ false
  unfolding has_key retain
  has_key-retain keep id [] free = free
  has_key-retain keep id ((j, s) ∷ m) free =
      let rest = has_key-retain keep id m (ground (arith, free)) in
      elim (kept_id keep j)
        as (λ b. has_key id (if b then (j, s) ∷ retain keep m else retain keep m) ≡ false) [
          | true ↦ ground (arith, free, rest)
          | false ↦ rest
        ]

  retain-KeysDiffer :
      (keep : List String) (m : List (String × Scheduled P))
      → KeysDiffer m
      → KeysDiffer (retain keep m)
  unfolding retain
  retain-KeysDiffer keep [] h = tt
  retain-KeysDiffer keep ((j, s) ∷ m) (free, h) =
      elim (kept_id keep j)
        as (λ b. KeysDiffer (if b then (j, s) ∷ retain keep m else retain keep m)) [
          | true ↦ (has_key-retain keep j m free, retain-KeysDiffer keep m h)
          | false ↦ retain-KeysDiffer keep m h
        ]

  retain-Keyed :
      (keep : List String) (m : List (String × Scheduled P)) → Keyed m → Keyed (retain keep m)
  unfolding retain
  retain-Keyed keep [] h = tt
  retain-Keyed keep ((j, s) ∷ m) (here, h) =
      elim (kept_id keep j) as (λ b. Keyed (if b then (j, s) ∷ retain keep m else retain keep m)) [
        | true ↦ (here, retain-Keyed keep m h)
        | false ↦ retain-Keyed keep m h
      ]

  -- Withdrawing recurring tasks keeps the plan well formed.
  pub reconcile_recurring-IsPlan :
      (p : Plan P) (keep : List String) → IsPlan p → IsPlan (reconcile_recurring p keep).0
  reconcile_recurring-IsPlan p keep h = record {
    keys = retain-KeysDiffer keep p.recurring h.keys;
    keyed = retain-Keyed keep p.recurring h.keyed;
    ids = h.ids;
  }

  lookup-Keyed :
      (id : String) (m : List (String × Scheduled P)) (s : Scheduled P)
      → Keyed m
      → lookup id m ≡ some s
      → id ≡ s.task.task_id
  unfolding lookup
  lookup-Keyed id [] s h e = absurd (none-ne-some s e)
  lookup-Keyed id ((j, t) ∷ m) s (here, h) e = elim (Bool-cases (text_key.same j id)) [
    | inl same ↦
        sym ((text_key.same_iff j id).0 same)
        ∙ here
        ∙ ap (λ x. x.task.task_id)
            (some-injective t s (sym (ap (λ b. if b then some t else lookup id m) same) ∙ e))
    | inr other ↦
        lookup-Keyed id m s h (sym (ap (λ b. if b then some t else lookup id m) other) ∙ e)
  ]

  fire-IsPlan :
      (p : Plan P) (now : ℕ) (id : String) (o : Option (Scheduled P))
      → lookup id p.recurring ≡ o
      → IsPlan p
      → IsPlan (fire p now id o).0
  fire-IsPlan p now id none e h = h
  fire-IsPlan p now id (some s) e h = record {
    keys = insert-KeysDiffer id _ p.recurring h.keys;
    keyed = insert-Keyed id _ p.recurring (lookup-Keyed id p.recurring s h.keyed e) h.keyed;
    ids = h.ids;
  }

  fire_first-IsPlan :
      (p : Plan P) (now : ℕ) (o : Option (Scheduled P)) → IsPlan p → IsPlan (fire_first p now o).0
  fire_first-IsPlan p now none h = h
  fire_first-IsPlan p now (some s) h = fire-IsPlan p now s.task.task_id _ refl h

  next_of-IsPlan :
      (p : Plan P) (now : ℕ) (oneshot : List (Scheduled P))
      → IdsDiffer oneshot
      → IsPlan p
      → IsPlan (next_of p now oneshot).0
  next_of-IsPlan p now [] ids h = fire_first-IsPlan p now _ h
  next_of-IsPlan p now (s ∷ oneshot) (free, ids) h = record {
    keys = h.keys;
    keyed = h.keyed;
    ids = ids;
  }

  -- Handing out the next task keeps the plan well formed.
  pub next_due-IsPlan : (p : Plan P) (now : ℕ) → IsPlan p → IsPlan (next_due p now).0
  unfolding next_due
  next_due-IsPlan p now h = next_of-IsPlan p now p.oneshot h.ids h
