-- ===== src/Plan/Schedule.antt =====
-- Which recurring task is next, and when it is next due.
use Prim.Native.String.{String}
use mikrotik_quality_agent.Base.{
  ℕ, ◌+◌, ◌≤◌, ◌<◌, true, false, Option, none, some, List, [], ◌∷◌, leb, if◌then◌else◌, ◌≡◌, refl,
  sym, ap, ◌∙◌, ◌-◌, ◌⊎◌, ltb, arith, Bool-cases, inl, inr, subst,
}
use mikrotik_quality_agent.Base.Dict.{lookup, insert, has_key, KeysDiffer, text_key}
use mikrotik_quality_agent.Plan.{
  Scheduled, Plan, earliest, advance, first_of, fire, fire_first, next_of, next_due,
}
use mathlib.Core.Option.{get_or as unwrap_or, none-ne-some}

-- A task that is less than one interval late keeps its cadence; a later one starts a new one now.
abbrev pub Cadence : ℕ → ℕ → ℕ → ℕ → Type 0
Cadence due_at interval now again =
    ((now ≤ due_at + interval) × (again ≡ due_at + interval))
    ⊎ ((due_at + interval < now) × (again ≡ now + interval))

advance-Cadence :
    (due_at interval now : ℕ)
    → due_at ≤ now
    → Cadence due_at interval now (advance due_at interval now)
unfolding advance
advance-Cadence due_at interval now h = elim (Bool-cases (ltb interval (now - due_at))) [
  | inl late ↦ inr (ground arith, ap (λ b. if b then now + interval else due_at + interval) late)
  | inr soon ↦ inl (ground arith, ap (λ b. if b then now + interval else due_at + interval) soon)
]

leb_le : (a b : ℕ) → leb a b ≡ true → a ≤ b
leb_le a b e = ground arith

leb_gt : (a b : ℕ) → leb a b ≡ false → b < a
leb_gt a b e = ground arith

leb_lt : (a b : ℕ) → leb a b ≡ false → b ≤ a
leb_lt a b e = ground arith

later_or_above : (now t u due : ℕ) → t ≤ u → (now < due) ⊎ (u ≤ due) → (now < due) ⊎ (t ≤ due)
later_or_above now t u due h (inl later) = inl later
later_or_above now t u due h (inr above) = inr (omega arith)

module _ {P : Type 0} where
  -- Each entry stands under its task's identifier.
  abbrev pub Keyed : List (String × Scheduled P) → Type 0
  Keyed [] = Unit {0}
  Keyed ((id, s) ∷ m) = (id ≡ s.task.task_id) × Keyed m

  -- Every entry is due at `t` or later, or not due yet.
  abbrev pub NoneBefore : ℕ → ℕ → List (String × Scheduled P) → Type 0
  NoneBefore now t [] = Unit {0}
  NoneBefore now t ((id, s) ∷ m) = ((now < s.due_at) ⊎ (t ≤ s.due_at)) × NoneBefore now t m

  NoneBefore-le :
      (now t u : ℕ) (m : List (String × Scheduled P))
      → t ≤ u
      → NoneBefore now u m
      → NoneBefore now t m
  NoneBefore-le now t u [] h g = tt
  NoneBefore-le now t u ((id, s) ∷ m) h (first, rest) =
      (later_or_above now t u s.due_at h first, NoneBefore-le now t u m h rest)

  -- No entry is due yet.
  abbrev pub NoneDue : ℕ → List (String × Scheduled P) → Type 0
  NoneDue now [] = Unit {0}
  NoneDue now ((id, s) ∷ m) = (now < s.due_at) × NoneDue now m

  NoneDue-before :
      (now t : ℕ) (m : List (String × Scheduled P)) → NoneDue now m → NoneBefore now t m
  NoneDue-before now t [] h = tt
  NoneDue-before now t ((id, s) ∷ m) (later, rest) = (inl later, NoneDue-before now t m rest)

  -- What `earliest` finds.
  Best : ℕ → List (String × Scheduled P) → Option (Scheduled P) → Type 0
  Best now m none = NoneDue now m
  Best now m (some s) =
      (s.due_at ≤ now) × NoneBefore now s.due_at m × (lookup s.task.task_id m ≡ some s)

  lookup-no_key :
      (id : String) (m : List (String × Scheduled P)) → has_key id m ≡ false → lookup id m ≡ none
  unfolding lookup has_key
  lookup-no_key id [] h = refl
  lookup-no_key id ((j, s) ∷ m) h = ground (arith, lookup-no_key id m)

  -- An entry of another key does not hide one that is found behind it.
  lookup-behind :
      (id key : String) (t s : Scheduled P) (m : List (String × Scheduled P))
      → has_key id m ≡ false
      → lookup key m ≡ some s
      → lookup key ((id, t) ∷ m) ≡ some s
  unfolding lookup
  lookup-behind id key t s m free found = elim (Bool-cases (text_key.same id key)) [
    | inr other ↦ ap (λ b. if b then some t else lookup key m) other ∙ found
    | inl same ↦ absurd (
        none-ne-some s (
          sym (lookup-no_key id m free)
          ∙ ap (λ k. lookup k m) ((text_key.same_iff id key).0 same)
          ∙ found))
  ]

  lookup-here :
      (id key : String) (t : Scheduled P) (m : List (String × Scheduled P))
      → id ≡ key
      → lookup key ((id, t) ∷ m) ≡ some t
  unfolding lookup
  lookup-here id key t m e =
      ap (λ b. if b then some t else lookup key m) ((text_key.same_iff id key).1 e)

  behind_step :
      (now : ℕ) (id : String) (t : Scheduled P) (m : List (String × Scheduled P))
      (o : Option (Scheduled P))
      → has_key id m ≡ false
      → now < t.due_at
      → Best now m o
      → Best now ((id, t) ∷ m) o
  unfolding Best
  behind_step now id t m none free later h = (later, h)
  behind_step now id t m (some s) free later (due, before, found) =
      (due, (inl later, before), lookup-behind id s.task.task_id t s m free found)

  front_step :
      (now : ℕ) (id : String) (t : Scheduled P) (m : List (String × Scheduled P))
      (o : Option (Scheduled P))
      → has_key id m ≡ false
      → id ≡ t.task.task_id
      → t.due_at ≤ now
      → Best now m o
      → Best now ((id, t) ∷ m) (first_of t o)
  unfolding Best
  front_step now id t m none free key here h = (
    here,
    (inr (omega arith), NoneDue-before now t.due_at m h),
    lookup-here id t.task.task_id t m key,
  )
  front_step now id t m (some s) free key here (due, before, found) =
      elim (Bool-cases (leb t.due_at s.due_at)) [
        | inl first ↦
            subst (Best now ((id, t) ∷ m)) (sym (ap (λ b. if b then some t else some s) first)) (
              here,
              (inr (omega arith), NoneBefore-le now t.due_at s.due_at m (leb_le _ _ first) before),
              lookup-here id t.task.task_id t m key,
            )
        | inr later ↦
            subst (Best now ((id, t) ∷ m)) (sym (ap (λ b. if b then some t else some s) later)) (
              due,
              (inr (leb_lt t.due_at s.due_at later), before),
              lookup-behind id s.task.task_id t s m free found,
            )
      ]

  earliest-Best :
      (now : ℕ) (m : List (String × Scheduled P))
      → KeysDiffer m
      → Keyed m
      → Best now m (earliest now m)
  unfolding earliest Best
  earliest-Best now [] d k = tt
  earliest-Best now ((id, t) ∷ m) (free, d) (key, k) =
      let rest = earliest-Best now m d k in
      elim (Bool-cases (leb t.due_at now)) [
        | inl here ↦
            subst (Best now ((id, t) ∷ m))
              (sym (ap (λ b. if b then first_of t (earliest now m) else earliest now m) here))
              (front_step now id t m (earliest now m) free key (leb_le _ _ here) rest)
        | inr later ↦
            subst (Best now ((id, t) ∷ m))
              (sym (ap (λ b. if b then first_of t (earliest now m) else earliest now m) later))
              (behind_step now id t m (earliest now m) free (leb_gt _ _ later) rest)
      ]

  -- What `next_due` does with a plan: the first one-shot runs and leaves the queue; or there is none
  -- and no recurring task is due, and nothing happens; or there is none, and a recurring task runs that
  -- no due task precedes, and gets a new due time in its place.
  abbrev pub OneShotRuns : Plan P → ℕ → Type 0
  OneShotRuns p now =
      (s : Scheduled P) × (rest : List (Scheduled P)) × (p.oneshot ≡ s ∷ rest)
      × (next_due p now ≡ (record p { oneshot = rest }, some s.task))

  abbrev pub NothingRuns : Plan P → ℕ → Type 0
  NothingRuns p now = (p.oneshot ≡ []) × NoneDue now p.recurring × (next_due p now ≡ (p, none))

  abbrev pub RecurringRuns : Plan P → ℕ → Type 0
  RecurringRuns p now =
      (s : Scheduled P) × (again : ℕ) × (p.oneshot ≡ [])
      × (lookup s.task.task_id p.recurring ≡ some s)
      × (s.due_at ≤ now)
      × NoneBefore now s.due_at p.recurring
      × Cadence s.due_at (unwrap_or s.task.interval p.default_interval) now again
      × (next_due p now ≡ (
        record p { recurring = insert s.task.task_id (record s { due_at = again }) p.recurring },
        some s.task,
      ))

  recurring_lem :
      (p : Plan P) (now : ℕ) (o : Option (Scheduled P))
      → earliest now p.recurring ≡ o
      → Best now p.recurring o
      → p.oneshot ≡ []
      → NothingRuns p now ⊎ RecurringRuns p now
  unfolding next_due Best
  recurring_lem p now none e later idle =
      inl (idle, later, ap (next_of p now) idle ∙ ap (fire_first p now) e)
  recurring_lem p now (some s) e (due, before, found) idle = inr (
    s,
    advance s.due_at (unwrap_or s.task.interval p.default_interval) now,
    idle,
    found,
    due,
    before,
    advance-Cadence s.due_at (unwrap_or s.task.interval p.default_interval) now due,
    ap (next_of p now) idle ∙ ap (fire_first p now) e ∙ ap (fire p now s.task.task_id) found,
  )

  queued_lem :
      (p : Plan P) (now : ℕ) (queue : List (Scheduled P))
      → p.oneshot ≡ queue
      → Best now p.recurring (earliest now p.recurring)
      → OneShotRuns p now ⊎ (NothingRuns p now ⊎ RecurringRuns p now)
  unfolding next_due
  queued_lem p now [] idle best = inr (recurring_lem p now _ refl best idle)
  queued_lem p now (s ∷ rest) waiting best = inl (s, rest, waiting, ap (next_of p now) waiting)

  -- With keys that are all different and are the identifiers of their tasks, `next_due` runs the first
  -- one-shot; without one-shots it runs nothing if no recurring task is due, and else a task that is due
  -- and that no due task precedes. That task keeps its place and is due again one interval after its due
  -- time or, if it is more than one interval late, one interval from now.
  pub next_due_lem :
      (p : Plan P) (now : ℕ)
      → KeysDiffer p.recurring
      → Keyed p.recurring
      → OneShotRuns p now ⊎ (NothingRuns p now ⊎ RecurringRuns p now)
  next_due_lem p now d k = queued_lem p now p.oneshot refl (earliest-Best now p.recurring d k)
