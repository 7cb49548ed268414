-- ===== src/Agent/Drain.antt =====
-- What `drain_spool` promises: no result is lost or sent twice.
use mikrotik_quality_agent.Base.{
  ℕ, zero, suc, ◌≤◌, min, true, List, [], ◌∷◌, ◌++◌, ltb, if◌then◌else◌, length, take, drop,
  length-take, take-append-drop, append_assoc, Result, ok, err, Bool-cases, inl, inr, ◌≡◌, refl,
  sym, ap, ◌∙◌, arith,
}
use mikrotik_quality_agent.Spool.{Spool, Entry, is_empty, take_batch, return_unsent, clear_dropped}
use mikrotik_quality_agent.Spool.Invariant.{IsValid}
use mikrotik_quality_agent.Spool.Drain.{
  items, Sized, with_sizes, take_batch_lem, take_batch-IsValid, return_unsent-take_batch,
}
use mikrotik_quality_agent.Controller.{ControllerError}
use mikrotik_quality_agent.Agent.Submit.{Post, submit_batch, after_post, drain, drain_spool}

-- The results that the controller accepted, in the order of the requests.
abbrev pub delivered : {J : Type 0} → List (Post J) → List J
delivered [] = []
delivered (p ∷ posts) = if p.is_accepted then p.results ++ delivered posts else delivered posts

abbrev pub SmallPosts : {J : Type 0} → List (Post J) → Type 0
SmallPosts [] = Unit {0}
SmallPosts (p ∷ posts) = (length p.results ≤ submit_batch) × SmallPosts posts

module _ {J : Type 0} (size : J → ℕ) where
  -- What a drain leaves of the spool `s`.
  pub record Drained (s : Spool J) (r : Spool J × List (Post J)) : Type 0 where
    pub conserved : delivered r.1 ++ items r.0.entries ≡ items s.entries
    pub valid : IsValid r.0
    pub sized : Sized size r.0.entries
    pub small : SmallPosts r.1
    pub total : r.0.dropped_total ≡ s.dropped_total

  pub Sized-drop : (n : ℕ) (es : List (Entry J)) → Sized size es → Sized size (drop n es)
  Sized-drop zero es h = h
  Sized-drop (suc n) [] h = tt
  Sized-drop (suc n) (x ∷ es) (first, h) = Sized-drop n es h

  map-append : (xs ys : List (Entry J)) → items (xs ++ ys) ≡ items xs ++ items ys
  map-append [] ys = refl
  map-append (x ∷ xs) ys = ap (◌∷◌ x.item) (map-append xs ys)

  pub length-items : (xs : List (Entry J)) → length (items xs) ≡ length xs
  length-items [] = refl
  length-items (x ∷ xs) = omega (arith, length-items xs)

  module _ (s : Spool J) where
    abbrev pub taken : Spool J
    taken = (take_batch s submit_batch).0

    abbrev pub batch : List J
    batch = (take_batch s submit_batch).1

    pub left : taken.entries ≡ drop submit_batch s.entries
    left = ap (λ t. t.entries) ((take_batch_lem s submit_batch).1)

    batch-split : batch ++ items taken.entries ≡ items s.entries
    batch-split = rw left (
        rw ((take_batch_lem s submit_batch).0) (
          sym (map-append (take submit_batch s.entries) (drop submit_batch s.entries))
          ∙ ap items (take-append-drop submit_batch s.entries)))

    pub length-batch : length batch ≡ min submit_batch (length s.entries)
    length-batch =
        ap length ((take_batch_lem s submit_batch).0)
        ∙ length-items (take submit_batch s.entries)
        ∙ length-take submit_batch s.entries

    pub cleared-IsValid : IsValid s → IsValid (clear_dropped taken)
    unfolding clear_dropped
    cleared-IsValid v =
        let w = take_batch-IsValid s submit_batch v in
        record { exact = w.exact; few = w.few; small = w.small }

    pub taken-Sized : Sized size s.entries → Sized size taken.entries
    taken-Sized h = rw left (Sized-drop submit_batch s.entries h)

    -- What one round makes of the rest of the loop.
    after_post-Drained :
        (answer : Result ControllerError ℕ) (rest : Spool J × List (Post J))
        → IsValid s
        → Sized size s.entries
        → Drained (clear_dropped taken) rest
        → Drained s (after_post size taken batch answer rest)
    unfolding clear_dropped
    after_post-Drained (err e) rest v h next =
        let same : return_unsent taken (with_sizes size batch) ≡ s =
          return_unsent-take_batch size s submit_batch v h in
        rw same (record {
          conserved = refl;
          valid = v;
          sized = h;
          small = (omega (arith, length-batch), tt);
          total = refl;
        })
    after_post-Drained (ok n) (end, posts) v h next =
        let w = cleared-IsValid v in
        let post : Post J = record {
          results = batch;
          dropped = taken.dropped;
          is_accepted = true;
        } in
        let total : taken.dropped_total ≡ s.dropped_total =
          ap (λ t. t.dropped_total) ((take_batch_lem s submit_batch).1) in
        elim (Bool-cases (ltb (length batch) submit_batch)) [
          | inl short ↦ rw short (record {
            conserved = append_assoc batch [] (items taken.entries) ∙ batch-split;
            valid = w;
            sized = taken-Sized h;
            small = (omega (arith, length-batch), tt);
            total = total;
          })
          | inr full ↦ rw full (record {
            conserved =
                append_assoc batch (delivered posts) (items end.entries)
                ∙ ap (λ l. batch ++ l) next.conserved
                ∙ batch-split;
            valid = next.valid;
            sized = next.sized;
            small = (omega (arith, length-batch), next.small);
            total = next.total ∙ total;
          })
        ]

  module _ (answers : ℕ → Result ControllerError ℕ) where
    drain-Drained :
        (fuel round : ℕ) (s : Spool J)
        → IsValid s
        → Sized size s.entries
        → Drained s (drain size answers fuel round s)
    unfolding drain clear_dropped
    drain-Drained zero round s v h = record {
      conserved = refl;
      valid = v;
      sized = h;
      small = tt;
      total = refl;
    }
    drain-Drained (suc fuel) round s v h = elim (Bool-cases (is_empty s)) [
      | inl nothing ↦
          rw (nothing, drain)
            (record { conserved = refl; valid = v; sized = h; small = tt; total = refl })
      | inr some_left ↦
          let rest =
            drain-Drained fuel (suc round) (clear_dropped (taken s)) (cleared-IsValid s v)
              (taken-Sized s h) in
          rw (some_left, drain) (after_post-Drained s (answers round) _ v h rest)
    ]

    -- Whatever the controller answers, the results that it accepted, in the order of the requests, and
    -- then those that the spool still holds are the results that it held: none is lost, none is sent
    -- again after it was accepted and none changes its place. A request carries at most 100 results,
    -- the spool stays within its ceilings and nothing is counted as dropped.
    pub drain_spool-Drained :
        (s : Spool J) → IsValid s → Sized size s.entries → Drained s (drain_spool size answers s)
    unfolding drain_spool
    drain_spool-Drained s v h = drain-Drained (suc (length s.entries)) 0 s v h
