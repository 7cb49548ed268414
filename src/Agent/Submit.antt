-- ===== src/Agent/Submit.antt =====
-- `enqueue` and `drain_spool` of agent/src/agent.rs: how results get into the spool and from there to
-- the controller. `size` is the length of a result's JSON text, and `answers` is what the controller
-- says to each request of the drain.
use mikrotik_quality_agent.Base.{
  ℕ, zero, suc, Bool, true, false, List, [], ◌∷◌, ltb, if◌then◌else◌, length, Result, ok, err,
}
use mikrotik_quality_agent.Spool.{Spool, push, is_empty, take_batch, return_unsent, clear_dropped}
use mikrotik_quality_agent.Spool.Drain.{with_sizes}
use mikrotik_quality_agent.Controller.{ControllerError}

abbrev pub submit_batch : ℕ
submit_batch = 100

-- A request of `submit_results` that was made, and whether it was answered.
pub record Post (J : Type 0) : Type 0 where
  pub results : List J
  pub dropped : ℕ
  pub is_accepted : Bool

module _ {J : Type 0} (size : J → ℕ) where
  abbrev pub enqueue : Spool J → J → Spool J
  enqueue s body = (push s body (size body)).0

  -- From the answer on. `rest` is what the loop does from here if it goes on.
  abbrev pub after_post :
      Spool J
      → List J
      → Result ControllerError ℕ
      → Spool J × List (Post J)
      → Spool J × List (Post J)
  after_post t batch (ok accepted) (end, posts) =
      let post : Post J = record { results = batch; dropped = t.dropped; is_accepted = true } in
      if ltb (length batch) submit_batch then (clear_dropped t, post ∷ []) else (end, post ∷ posts)
  after_post t batch (err e) rest = (
    return_unsent t (with_sizes size batch),
    record { results = batch; dropped = t.dropped; is_accepted = false } ∷ [],
  )

  module _ (answers : ℕ → Result ControllerError ℕ) where
    -- The loop, from the request of number `round` on. Each round that goes on has taken results away,
    -- so one round for each result and one more are enough (`Agent.Drain.drain_spool-delivers`).
    unfoldable pub drain : ℕ → ℕ → Spool J → Spool J × List (Post J)
    drain zero round s = (s, [])
    drain (suc fuel) round s = elim (is_empty s) [
      | true ↦ (s, [])
      | false ↦
          let (t, batch) = take_batch s submit_batch in
          after_post t batch (answers round) (drain fuel (suc round) (clear_dropped t))
    ]

    unfoldable pub drain_spool : Spool J → Spool J × List (Post J)
    drain_spool s = drain (suc (length s.entries)) 0 s
