-- ===== src/Spool/Drain.antt =====
-- `take` and `return_unsent`: what a submission takes, and what a failed one puts back.
use mikrotik_quality_agent.Base.{
  ℕ, zero, suc, ◌+◌, ◌-◌, ◌≤◌, ◌<◌, min, Bool, true, false, Option, none, some, List, [], ◌∷◌, ◌++◌,
  map, ◌≡◌, refl, sym, ap, ◌∙◌, ◌⊎◌, inl, inr, arith, length, take, drop, length-append,
  length-drop, take-append-drop, take_all, take-take, append-nil,
}
use mikrotik_quality_agent.Spool.{
  Spool, Entry, would_exceed, discard, take_loop, take_batch, pop_back, trim_back, return_unsent,
}
use mikrotik_quality_agent.Spool.Invariant.{
  IsValid, total_bytes, total_bytes-append, Popped, pop_back-Popped, discard-IsValid,
  push_front-IsValid,
}

module _ {A : Type 0} where
  abbrev pub items : List (Entry A) → List A
  items = map (λ (e : Entry A). e.item)

  take_loop_lem :
      (n : ℕ) (es : List (Entry A)) (bytes : ℕ)
      → take_loop n es bytes ≡ (items (take n es), drop n es, bytes - total_bytes (take n es))
  unfolding take_loop total_bytes
  take_loop_lem zero es bytes = ground arith
  take_loop_lem (suc n) [] bytes = ground arith
  take_loop_lem (suc n) (e ∷ es) bytes = ground (arith, take_loop_lem n es (bytes - e.bytes))

  min_cut :
      (n : ℕ) (es : List (Entry A))
      → (take (min n (length es)) es ≡ take n es) × (drop (min n (length es)) es ≡ drop n es)
  min_cut zero es = ground arith
  min_cut (suc n) [] = ground arith
  min_cut (suc n) (e ∷ es) = ground (arith, min_cut n es)

  -- `take` hands out the oldest entries, in order and as many as asked for or there are, and leaves
  -- the others in order, with the byte count less theirs.
  pub take_batch_lem :
      (s : Spool A) (limit : ℕ)
      → let (t, out) = take_batch s limit in
        (out ≡ items (take limit s.entries))
        × (t ≡ record s {
          entries = drop limit s.entries;
          bytes = s.bytes - total_bytes (take limit s.entries);
        })
  unfolding take_batch
  take_batch_lem s limit =
      let (cut, rest) = min_cut limit s.entries in
      let e = take_loop_lem (min limit (length s.entries)) s.entries s.bytes in
      rw e (rw (cut, rest) (refl, refl))

  total_bytes_split :
      (n : ℕ) (es : List (Entry A))
      → total_bytes es ≡ total_bytes (take n es) + total_bytes (drop n es)
  total_bytes_split n es =
      sym (ap total_bytes (take-append-drop n es)) ∙ total_bytes-append (take n es) (drop n es)

  pub take_batch-IsValid : (s : Spool A) (limit : ℕ) → IsValid s → IsValid (take_batch s limit).0
  take_batch-IsValid s limit v = rw ((take_batch_lem s limit).1) (
      omega (
        arith,
        v.exact,
        v.few,
        v.small,
        total_bytes_split limit s.entries,
        length-drop limit s.entries,
      ))

  -- The inner loop of `return_unsent`: entries go from the back until the newcomer fits or none is
  -- left, each counted once.
  pub record Trimmed (s : Spool A) (bytes : ℕ) (t : Spool A) : Type 0 where
    pub kept : ℕ
    pub entries : t.entries ≡ take kept s.entries
    pub counted_total : length t.entries + t.dropped_total ≡ length s.entries + s.dropped_total
    pub config : t.cfg ≡ s.cfg
    pub valid : IsValid s → IsValid t
    pub ends : (would_exceed t bytes ≡ false) ⊎ (t.entries ≡ [])

  -- A cut list is the list cut.
  pub take_append : (xs ys : List (Entry A)) → take (length xs) (xs ++ ys) ≡ xs
  take_append [] ys = refl
  take_append (x ∷ xs) ys = ap (◌∷◌ x) (take_append xs ys)

  Trimmed-next :
      (s : Spool A) (bytes : ℕ) (x : Entry A) (rest : List (Entry A)) (t : Spool A)
      → s.entries ≡ rest ++ x ∷ []
      → Trimmed (discard s x rest) bytes t
      → Trimmed s bytes t
  Trimmed-next s bytes x rest t e next =
      let (k, _, cut) = take-take next.kept (length rest) s.entries in
      let rest_cut : take (length rest) s.entries ≡ rest = rw e (take_append rest (x ∷ [])) in
      record {
        kept = k;
        entries = next.entries ∙ ap (take next.kept) (sym rest_cut) ∙ cut;
        counted_total = omega (arith, next.counted_total, ap length e, length-append rest (x ∷ []));
        config = next.config;
        valid = λ v. next.valid (rw (← append-nil rest) (discard-IsValid s x rest [] v e));
        ends = next.ends;
      }

  trim_back-Trimmed :
      (fuel : ℕ) (s : Spool A) (bytes : ℕ)
      → length s.entries < fuel
      → Trimmed s bytes (trim_back fuel s bytes)
  unfolding trim_back
  trim_back-Trimmed zero s bytes h = absurd (omega arith)
  trim_back-Trimmed (suc fuel) s bytes h =
      go (would_exceed s bytes) refl (pop_back s.entries) refl (pop_back-Popped s.entries)
        (λ x rest p. trim_back-Trimmed fuel (discard s x rest) bytes p)
    where
      go :
          (b : Bool)
          → would_exceed s bytes ≡ b
          → (r : Option (Entry A × List (Entry A))) → pop_back s.entries ≡ r
          → Popped s.entries r
          → ((x : Entry A) (rest : List (Entry A))
              → length rest < fuel
              → Trimmed (discard s x rest) bytes (trim_back fuel (discard s x rest) bytes))
          → Trimmed s bytes (trim_back (suc fuel) s bytes)
      go false e r q p next =
          rw (e, trim_back)
            (record {
              kept = length s.entries;
              entries = sym (take_all (length s.entries) s.entries (omega arith));
              counted_total = refl;
              config = refl;
              valid = λ v. v;
              ends = inl e;
            })
      go true e none q p next =
          rw (e, trim_back)
            (rw (q, trim_back)
              (record {
                kept = length s.entries;
                entries = sym (take_all (length s.entries) s.entries (omega arith));
                counted_total = refl;
                config = refl;
                valid = λ v. v;
                ends = inr p;
              }))
      go true e (some (x, rest)) q p next =
          rw (e, trim_back)
            (rw (q, trim_back)
              (Trimmed-next s bytes x rest _ p
                (next x rest (omega (arith, ap length p, length-append rest (x ∷ []))))))

  abbrev pub restored : List (A × ℕ) → List (Entry A)
  restored = map (λ p. record { item = p.0; bytes = p.1 })

  -- `return_unsent` puts the batch back in front, in order, and makes room from the back only: what
  -- it leaves is the batch and then the spool, cut somewhere behind the batch's first result; and
  -- every result that the cut loses is counted.
  pub return_unsent_lem :
      (batch : List (A × ℕ)) (s : Spool A)
      → (kept : ℕ) × ((return_unsent s batch).entries ≡ take kept (restored batch ++ s.entries))
        × ((batch ≡ []) ⊎ (0 < kept))
        × (length (return_unsent s batch).entries + (return_unsent s batch).dropped_total
            ≡ length batch + length s.entries + s.dropped_total)
  unfolding return_unsent
  return_unsent_lem [] s =
      (length s.entries, sym (take_all _ s.entries (omega arith)), inl refl, omega arith)
  return_unsent_lem ((item, bytes) ∷ batch) s =
      let t = return_unsent s batch in
      let (kept, same, _, counted) = return_unsent_lem batch s in
      let cut = trim_back-Trimmed (suc (length t.entries)) t bytes (omega arith) in
      let (k, _, twice) = take-take cut.kept kept (restored batch ++ s.entries) in
      (
        suc k,
        ap (◌∷◌ (record { item = item; bytes = bytes }))
            (cut.entries ∙ ap (take cut.kept) same ∙ twice),
        inr (omega arith),
        omega (arith, cut.counted_total, counted),
      )

  -- Results that each fit an empty spool.
  abbrev pub EachFits : ℕ → List (A × ℕ) → Type 0
  EachFits limit [] = Unit {0}
  EachFits limit ((item, bytes) ∷ batch) = (bytes ≤ limit) × EachFits limit batch

  empty_fits :
      (s : Spool A) (bytes : ℕ)
      → IsValid s
      → s.entries ≡ []
      → 0 < s.cfg.max_entries
      → bytes ≤ s.cfg.max_bytes
      → would_exceed s bytes ≡ false
  unfolding would_exceed total_bytes
  empty_fits s bytes v e some_room fits = ground (arith, v.exact, ap total_bytes e, ap length e)

  return_unsent_config : (batch : List (A × ℕ)) (s : Spool A) → (return_unsent s batch).cfg ≡ s.cfg
  unfolding return_unsent
  return_unsent_config [] s = refl
  return_unsent_config ((item, bytes) ∷ batch) s =
      let t = return_unsent s batch in
      (trim_back-Trimmed (suc (length t.entries)) t bytes (omega arith)).config
      ∙ return_unsent_config batch s

  -- Putting results back respects both ceilings, if each of them alone is under the byte ceiling.
  pub return_unsent-IsValid :
      (batch : List (A × ℕ)) (s : Spool A)
      → IsValid s
      → 0 < s.cfg.max_entries
      → EachFits s.cfg.max_bytes batch
      → IsValid (return_unsent s batch)
  unfolding return_unsent
  return_unsent-IsValid [] s v room fits = v
  return_unsent-IsValid ((item, bytes) ∷ batch) s v room fits =
      let t = return_unsent s batch in
      let cut = trim_back-Trimmed (suc (length t.entries)) t bytes (omega arith) in
      let config = cut.config ∙ return_unsent_config batch s in
      let w = cut.valid (return_unsent-IsValid batch s v room fits.1) in
      push_front-IsValid _ item bytes w (elim cut.ends [
        | inl fitting ↦ fitting
        | inr nothing ↦ empty_fits _ bytes w nothing (rw config room) (rw config fits.0)
      ])

  module _ (size : A → ℕ) where
    -- Each entry carries the size of its item, as `enqueue` and `drain_spool` of agent.rs compute it.
    abbrev pub Sized : List (Entry A) → Type 0
    Sized [] = Unit {0}
    Sized (e ∷ es) = (e.bytes ≡ size e.item) × Sized es

    abbrev pub with_sizes : List A → List (A × ℕ)
    with_sizes = map (λ (a : A). (a, size a))

    abbrev front : Spool A → List (Entry A) → ℕ → Spool A
    front s es bytes = record s { entries = es ++ s.entries; bytes = bytes }

    trim_back_fits :
        (fuel : ℕ) (s : Spool A) (bytes : ℕ)
        → would_exceed s bytes ≡ false
        → trim_back (suc fuel) s bytes ≡ s
    unfolding trim_back
    trim_back_fits fuel s bytes e = rw (e, trim_back)

    front_fits :
        (s : Spool A) (x : Entry A) (es : List (Entry A)) (bytes total : ℕ)
        → IsValid (front s (x ∷ es) total)
        → total ≡ s.bytes + total_bytes (x ∷ es)
        → bytes ≡ s.bytes + total_bytes es
        → (would_exceed (front s es bytes) x.bytes ≡ false) × IsValid (front s es bytes)
    unfolding would_exceed total_bytes
    front_fits s x es bytes total v e d =
        (ground (arith, v.exact, v.few, v.small), omega (arith, v.exact, v.few, v.small))

    return_front :
        (es : List (Entry A)) (s : Spool A) (bytes : ℕ)
        → Sized es
        → IsValid (front s es bytes)
        → bytes ≡ s.bytes + total_bytes es
        → return_unsent s (with_sizes (items es)) ≡ front s es bytes
    unfolding return_unsent total_bytes
    return_front [] s bytes sized v e = ap (λ n. record s { bytes = n }) (omega arith)
    return_front (x ∷ es) s bytes sized v e =
        let before = s.bytes + total_bytes es in
        let (fits, w) = front_fits s x es before bytes v e refl in
        rw (return_front es s before sized.1 w refl, ← sized.0)
          (rw (trim_back_fits _ (front s es before) x.bytes fits)
            (ap (λ n. front s (x ∷ es) n) (omega arith)))

    pub Sized-take : (n : ℕ) (es : List (Entry A)) → Sized es → Sized (take n es)
    Sized-take zero es h = tt
    Sized-take (suc n) [] h = tt
    Sized-take (suc n) (x ∷ es) h = (h.0, Sized-take n es h.1)

    -- A submission that fails loses nothing: taking a batch and putting it back restores the spool
    -- whole, for any well-formed spool whose entries carry the sizes of their results.
    pub return_unsent-take_batch :
        (s : Spool A) (limit : ℕ)
        → IsValid s
        → Sized s.entries
        → let (t, out) = take_batch s limit in return_unsent t (with_sizes out) ≡ s
    return_unsent-take_batch s limit v sized =
        let (out, rest) = take_batch_lem s limit in
        let split = total_bytes_split limit s.entries in
        let t : Spool A = record s {
          entries = drop limit s.entries;
          bytes = s.bytes - total_bytes (take limit s.entries);
        } in
        let whole : front t (take limit s.entries) s.bytes ≡ s =
          ap (λ es. record s { entries = es }) (take-append-drop limit s.entries) in
        rw (out, rest)
          (return_front (take limit s.entries) t s.bytes (Sized-take limit s.entries sized)
              (rw whole v) (omega (arith, v.exact, split))
            ∙ whole)
