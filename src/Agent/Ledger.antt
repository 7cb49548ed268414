-- ===== src/Agent/Ledger.antt =====
-- The books of the spool: where each result goes, and what the controller is told of the lost ones.
use mikrotik_quality_agent.Base.{
  ℕ, zero, suc, ◌+◌, Bool, true, false, List, [], ◌∷◌, ◌++◌, ltb, if◌then◌else◌, length,
  length-append, take, drop, length-take, length-drop, Result, ok, err, Bool-cases, inl, inr, ◌≡◌,
  ap, ◌∙◌, arith,
}
use mikrotik_quality_agent.Spool.{Spool, is_empty, clear_dropped}
use mikrotik_quality_agent.Spool.Invariant.{IsValid}
use mikrotik_quality_agent.Spool.Push.{push_lem}
use mikrotik_quality_agent.Spool.Drain.{items, Sized, take_batch_lem, return_unsent-take_batch}
use mikrotik_quality_agent.Controller.{ControllerError}
use mikrotik_quality_agent.Agent.Submit.{
  Post, submit_batch, enqueue, after_post, drain, drain_spool,
}
use mikrotik_quality_agent.Agent.Drain.{
  delivered, drain_spool-Drained, taken, batch, taken-Sized, cleared-IsValid, length-items,
}
use mikrotik_quality_agent.Agent.Enqueue.{IsAgentSpool, enqueue-IsAgentSpool}

-- What happens to the spool of an agent.
pub data SpoolEvent (J : Type 0) : Type 0 where
  result : J → SpoolEvent J
  submission : (ℕ → Result ControllerError ℕ) → SpoolEvent J
  heartbeat : (is_answered : Bool) → SpoolEvent J

-- The losses that the accepted requests report.
abbrev pub told : {J : Type 0} → List (Post J) → ℕ
told [] = 0
told (p ∷ posts) = if p.is_accepted then p.dropped + told posts else told posts

-- The spool, the results delivered so far and the losses reported so far.
pub record Books (J : Type 0) : Type 0 where
  pub spool : Spool J
  pub sent : List J
  pub reported : ℕ

abbrev pub acknowledged : {J : Type 0} → Books J → Bool → Books J
acknowledged b true = record b {
  spool = clear_dropped b.spool;
  reported = b.reported + b.spool.dropped;
}
acknowledged b false = b

module _ {J : Type 0} (size : J → ℕ) where
  unfoldable pub happen : Books J → SpoolEvent J → Books J
  happen b (result body) = record b { spool = enqueue size b.spool body }
  happen b (submission answers) =
      let (s, posts) = drain_spool size answers b.spool in
      record { spool = s; sent = b.sent ++ delivered posts; reported = b.reported + told posts }
  happen b (heartbeat is_answered) = acknowledged b is_answered

  unfoldable pub happen_all : Books J → List (SpoolEvent J) → Books J
  happen_all b [] = b
  happen_all b (e ∷ events) = happen_all (happen b e) events

  abbrev pub results : List (SpoolEvent J) → ℕ
  results [] = 0
  results (result body ∷ events) = suc (results events)
  results (submission answers ∷ events) = results events
  results (heartbeat is_answered ∷ events) = results events

  enqueue_counts :
      (s : Spool J) (body : J)
      → let t = enqueue size s body in
        (length t.entries + t.dropped_total ≡ length s.entries + s.dropped_total + 1)
        × (t.dropped + s.dropped_total ≡ s.dropped + t.dropped_total)
  enqueue_counts s body =
      let p = push_lem s body (size body) in
      let r = s.cfg.onset_reserve in
      elim p.outcome [
        | inl (_, kept) ↦
            let len =
              ap length kept.entries
              ∙ length-append (take r s.entries)
                  (drop (r + p.k) s.entries ++ record { item = body; bytes = size body } ∷ []) in
            (
              omega (
                arith,
                len,
                kept.counted_total,
                length-take r s.entries,
                length-drop (r + p.k) s.entries,
                length-append (drop (r + p.k) s.entries)
                    (record { item = body; bytes = size body } ∷ []),
                p.possible,
              ),
              omega (arith, kept.counted, kept.counted_total),
            )
        | inr (_, gone) ↦ (
          omega (arith, gone.lost, gone.counted_total),
          omega (arith, gone.counted, gone.counted_total),
        )
      ]

  after_post-told :
      (s : Spool J) (answer : Result ControllerError ℕ) (rest : Spool J × List (Post J))
      → IsValid s
      → Sized size s.entries
      → told rest.1 + rest.0.dropped ≡ 0
      → let r = after_post size (taken size s) (batch size s) answer rest in
        told r.1 + r.0.dropped ≡ s.dropped
  unfolding clear_dropped
  after_post-told s (err e) rest v h next =
      omega (arith, ap (λ t. t.dropped) (return_unsent-take_batch size s submit_batch v h))
  after_post-told s (ok n) (end, posts) v h next =
      let same : (taken size s).dropped ≡ s.dropped =
        ap (λ t. t.dropped) ((take_batch_lem s submit_batch).1) in
      elim (Bool-cases (ltb (length (batch size s)) submit_batch)) [
        | inl short ↦ rw short (omega (arith, same))
        | inr full ↦ rw full (omega (arith, same, next))
      ]

  drain-told :
      (answers : ℕ → Result ControllerError ℕ) (fuel round : ℕ) (s : Spool J)
      → IsValid s
      → Sized size s.entries
      → let r = drain size answers fuel round s in told r.1 + r.0.dropped ≡ s.dropped
  unfolding drain clear_dropped
  drain-told answers zero round s v h = omega arith
  drain-told answers (suc fuel) round s v h = elim (Bool-cases (is_empty s)) [
    | inl nothing ↦ rw (nothing, drain) (omega arith)
    | inr some_left ↦
        rw (some_left, drain)
          (after_post-told s (answers round) _ v h (
            drain-told answers fuel (suc round) (clear_dropped (taken size s))
              (cleared-IsValid size s v) (taken-Sized size s h)))
  ]

  -- The books before and after some events that brought `n` results.
  pub record Balanced (before : Books J) (n : ℕ) (after : Books J) : Type 0 where
    pub results :
        length after.sent + length after.spool.entries + after.spool.dropped_total
        ≡ length before.sent + length before.spool.entries + before.spool.dropped_total + n
    pub losses :
        after.reported + after.spool.dropped + before.spool.dropped_total
        ≡ before.reported + before.spool.dropped + after.spool.dropped_total
    pub spool : IsAgentSpool size after.spool

  acknowledged-Balanced :
      (b : Books J) (is_answered : Bool)
      → IsAgentSpool size b.spool
      → Balanced b 0 (acknowledged b is_answered)
  unfolding clear_dropped
  acknowledged-Balanced b false h = record {
    results = omega arith;
    losses = omega arith;
    spool = h;
  }
  acknowledged-Balanced b true h = record {
    results = omega arith;
    losses = omega arith;
    spool = record {
      valid = record { exact = h.valid.exact; few = h.valid.few; small = h.valid.small };
      sized = h.sized;
    };
  }

  happen-Balanced :
      (b : Books J) (e : SpoolEvent J)
      → IsAgentSpool size b.spool
      → Balanced b (results (e ∷ [])) (happen b e)
  unfolding happen drain_spool
  happen-Balanced b (result body) h =
      let (kept, lost) = enqueue_counts b.spool body in
      record {
        results = omega (arith, kept);
        losses = omega (arith, lost);
        spool = enqueue-IsAgentSpool size b.spool body h;
      }
  happen-Balanced b (submission answers) h =
      let d = drain_spool-Drained size answers b.spool h.valid h.sized in
      let (s, posts) = drain_spool size answers b.spool in
      record {
        results = omega (
          arith,
          ap length d.conserved,
          d.total,
          length-append b.sent (delivered posts),
          length-append (delivered posts) (items s.entries),
          length-items size s.entries,
          length-items size b.spool.entries,
        );
        losses = omega (
          arith,
          d.total,
          drain-told answers (suc (length b.spool.entries)) 0 b.spool h.valid h.sized,
        );
        spool = record { valid = d.valid; sized = d.sized };
      }
  happen-Balanced b (heartbeat is_answered) h = acknowledged-Balanced b is_answered h

  results_cons :
      (e : SpoolEvent J) (events : List (SpoolEvent J))
      → results (e ∷ events) ≡ results (e ∷ []) + results events
  results_cons (result body) events = omega arith
  results_cons (submission answers) events = omega arith
  results_cons (heartbeat is_answered) events = omega arith

  -- However results, submissions and heartbeats follow one another and whatever the controller answers,
  -- the books balance: the results that came are delivered, still held, or counted in the total of lost
  -- ones; and the lost ones have been reported to the controller or wait in the counter to be.
  pub happen_all-Balanced :
      (b : Books J) (events : List (SpoolEvent J))
      → IsAgentSpool size b.spool
      → Balanced b (results events) (happen_all b events)
  unfolding happen_all
  happen_all-Balanced b [] h = record { results = omega arith; losses = omega arith; spool = h }
  happen_all-Balanced b (e ∷ events) h =
      let first = happen-Balanced b e h in
      let rest = happen_all-Balanced (happen b e) events first.spool in
      record {
        results = omega (arith, first.results, rest.results, results_cons e events);
        losses = omega (arith, first.losses, rest.losses);
        spool = rest.spool;
      }
