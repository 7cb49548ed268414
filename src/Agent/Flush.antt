-- ===== src/Agent/Flush.antt =====
-- A controller that answers gets everything that the spool holds.
use mikrotik_quality_agent.Base.{
  ℕ, zero, suc, ◌<◌, Bool, true, false, ◌==◌, List, [], ◌∷◌, ◌++◌, ltb, if◌then◌else◌, length,
  length-drop, drop_all, append-nil, Result, ok, Bool-cases, inl, inr, ◌≡◌, refl, sym, ap, ◌∙◌,
  arith,
}
use mikrotik_quality_agent.Spool.{Spool, is_empty, clear_dropped}
use mikrotik_quality_agent.Spool.Invariant.{IsValid}
use mikrotik_quality_agent.Spool.Drain.{items, Sized}
use mikrotik_quality_agent.Controller.{ControllerError}
use mikrotik_quality_agent.Agent.Submit.{Post, submit_batch, after_post, drain, drain_spool}
use mikrotik_quality_agent.Agent.Drain.{
  delivered, drain_spool-Drained, taken, batch, left, length-batch,
}

empty_nil : {A : Type 0} (xs : List A) → (length xs == 0) ≡ true → xs ≡ []
empty_nil [] h = refl
empty_nil (x ∷ xs) h = absurd (ground arith)

more_left : {A : Type 0} (xs : List A) → (length xs == 0) ≡ false → 0 < length xs
more_left [] h = absurd (ground arith)
more_left (x ∷ xs) h = omega arith

ltb_lt : (a b : ℕ) → ltb a b ≡ true → a < b
ltb_lt a b e = ground arith

module _ {J : Type 0} (size : J → ℕ) (answers : ℕ → Result ControllerError ℕ) where
  -- The controller answers every request.
  abbrev pub IsReachable : Type 0
  IsReachable = (round : ℕ) → (accepted : ℕ) × (answers round ≡ ok accepted)

  round-empties :
      (s : Spool J) (answer : Result ControllerError ℕ) (rest : Spool J × List (Post J))
      (accepted : ℕ)
      → answer ≡ ok accepted
      → (length (clear_dropped (taken size s)).entries < length s.entries → rest.0.entries ≡ [])
      → 0 < length s.entries
      → (after_post size (taken size s) (batch size s) answer rest).0.entries ≡ []
  unfolding clear_dropped
  round-empties s answer (end, posts) accepted e next some_left =
      let post : Post J = record {
        results = batch size s;
        dropped = (taken size s).dropped;
        is_accepted = true;
      } in
      let outcome : Bool → Spool J × List (Post J) =
        λ b. if b then (clear_dropped (taken size s), post ∷ []) else (end, post ∷ posts) in
      ap (λ a. (after_post size (taken size s) (batch size s) a (end, posts)).0.entries) e
      ∙ (elim (Bool-cases (ltb (length (batch size s)) submit_batch)) [
        | inl short ↦
            ap (λ b. (outcome b).0.entries) short
            ∙ left size s
            ∙ drop_all submit_batch s.entries (omega (arith, length-batch size s, ltb_lt _ _ short))
        | inr full ↦
            ap (λ b. (outcome b).0.entries) full
            ∙ next (
                omega
                  (arith, some_left, ap length (left size s), length-drop submit_batch s.entries))
      ])

  drain-empties :
      IsReachable
      → (fuel round : ℕ) (s : Spool J) → length s.entries < fuel
      → (drain size answers fuel round s).0.entries ≡ []
  unfolding drain is_empty
  drain-empties up zero round s h = absurd (omega arith)
  drain-empties up (suc fuel) round s h = elim (Bool-cases (length s.entries == 0)) [
    | inl nothing ↦ rw (nothing, drain) (empty_nil s.entries nothing)
    | inr some_left ↦
        let (accepted, e) = up round in
        rw (some_left, drain)
          (round-empties s (answers round) _ accepted e
            (λ fewer.
              drain-empties up fuel (suc round) (clear_dropped (taken size s))
                (omega (arith, fewer)))
            (more_left s.entries some_left))
  ]

  -- If the controller answers every request, a drain ends with an empty spool, and all that the spool
  -- held is delivered in its order.
  pub drain_spool-delivers :
      (s : Spool J)
      → IsReachable
      → IsValid s
      → Sized size s.entries
      → ((drain_spool size answers s).0.entries ≡ [])
        × (delivered (drain_spool size answers s).1 ≡ items s.entries)
  unfolding drain_spool
  drain_spool-delivers s up v h =
      let nothing = drain-empties up (suc (length s.entries)) 0 s (omega arith) in
      (
        nothing,
        sym (append-nil _)
            ∙ ap (λ l. delivered (drain_spool size answers s).1 ++ items l) (sym nothing)
            ∙ (drain_spool-Drained size answers s v h).conserved,
      )
