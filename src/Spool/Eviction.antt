-- ===== src/Spool/Eviction.antt =====
-- The loop of `push`: how many entries it evicts, which ones, and that it ends by its own tests.
use mikrotik_quality_agent.Base.{
  ℕ, zero, suc, ◌+◌, ◌≤◌, ◌<◌, true, false, none, some, List, ◌++◌, ◌≡◌, refl, sym, ap, ◌∙◌,
  add-zero, take_prefix, drop_prefix, drop-drop, take-append-drop, ◌⊎◌, inl, inr, arith, length,
  take, drop, length-append, length-take, length-drop, Bool-cases, leb, leb→le,
}
use mikrotik_quality_agent.Spool.{
  Spool, Entry, Room, made, refused, remove_at, would_exceed, discard, count_dropped, make_room,
}
use mikrotik_quality_agent.Spool.Invariant.{IsValid, remove_at_within, discard-IsValid}

module _ {A : Type 0} where
  -- The entries after one eviction at `r`.
  abbrev pub without : ℕ → List (Entry A) → List (Entry A)
  without r es = take r es ++ drop (suc r) es

  pub length-without :
      (r : ℕ) (es : List (Entry A)) → r < length es → length es ≡ suc (length (without r es))
  length-without r es h =
      omega (
        arith,
        length-append (take r es) (drop (suc r) es),
        length-take r es,
        length-drop (suc r) es,
      )

  without_again :
      (r k : ℕ) (es : List (Entry A))
      → r < length es
      → take r (without r es) ++ drop (r + k) (without r es) ≡ take r es ++ drop (r + suc k) es
  without_again r k es h =
      rw
        (
          take_prefix r es (drop (suc r) es) (omega arith),
          drop_prefix r k es (drop (suc r) es) (omega arith),
          drop-drop k (suc r) es,
        )
        (ap (λ n. take r es ++ drop n es) (omega arith))

  -- One eviction, and `k` of them: the entry just past the reserve goes.
  pub evict_one : Spool A → Spool A
  evict_one s = elim (remove_at s.entries s.cfg.onset_reserve) [
    | none ↦ s
    | some (e, rest) ↦ discard s e rest
  ]

  pub evict : ℕ → Spool A → Spool A
  evict zero s = s
  evict (suc k) s = evict k (evict_one s)

  -- The loop stops after `k` evictions. Before each the newcomer did not fit and there was an
  -- unprotected entry; after the last one it fits, or nothing unprotected is left.
  pub record Ends (s : Spool A) (bytes evicted : ℕ) (result : Room A) : Type 0 where
    pub k : ℕ
    pub forced :
        (j : ℕ)
        → j < k
        → (would_exceed (evict j s) bytes ≡ true)
          × (s.cfg.onset_reserve < length (evict j s).entries)
    pub stops :
        ((result ≡ made (evict k s) (evicted + k)) × (would_exceed (evict k s) bytes ≡ false))
        ⊎ ((result ≡ refused (count_dropped (evict k s)))
            × (would_exceed (evict k s) bytes ≡ true)
            × (length (evict k s).entries ≤ s.cfg.onset_reserve))

  evict-suc :
      (k : ℕ) (s : Spool A) (e : Entry A) (rest : List (Entry A))
      → remove_at s.entries s.cfg.onset_reserve ≡ some (e, rest)
      → evict (suc k) s ≡ evict k (discard s e rest)
  unfolding evict evict_one
  evict-suc k s e rest h = rw (h, evict_one)

  pub evict-zero : (s : Spool A) → evict zero s ≡ s
  unfolding evict
  evict-zero s = refl

  Ends-next :
      (s : Spool A) (bytes evicted : ℕ) (e : Entry A) (rest : List (Entry A)) (result : Room A)
      → would_exceed s bytes ≡ true
      → s.cfg.onset_reserve < length s.entries
      → remove_at s.entries s.cfg.onset_reserve ≡ some (e, rest)
      → Ends (discard s e rest) bytes (evicted + 1) result
      → Ends s bytes evicted result
  Ends-next s bytes evicted e rest result full more h next = record {
    k = suc next.k;
    forced = elim [
      | zero ↦ λ _. rw (evict-zero s) (full, more)
      | suc j ↦ λ p. rw (evict-suc j s e rest h) (next.forced j (omega arith))
    ];
    stops = rw (evict-suc next.k s e rest h) (elim next.stops [
      | inl (p, q) ↦ inl (p ∙ ap (made (evict next.k (discard s e rest))) (omega arith), q)
      | inr h ↦ inr h
    ]);
  }

  module _ (fuel : ℕ) (s : Spool A) (bytes evicted : ℕ) where
    make_room_fits :
        would_exceed s bytes ≡ false → make_room (suc fuel) s bytes evicted ≡ made s evicted
    unfolding make_room
    make_room_fits h = rw (h, make_room)

    make_room_refused :
        would_exceed s bytes ≡ true
        → leb (length s.entries) s.cfg.onset_reserve ≡ true
        → make_room (suc fuel) s bytes evicted ≡ refused (count_dropped s)
    unfolding make_room
    make_room_refused h p = rw (h, make_room) (rw (p, make_room))

    make_room_evicts :
        (e : Entry A) (rest : List (Entry A))
        → would_exceed s bytes ≡ true
        → leb (length s.entries) s.cfg.onset_reserve ≡ false
        → remove_at s.entries s.cfg.onset_reserve ≡ some (e, rest)
        → make_room (suc fuel) s bytes evicted
          ≡ make_room fuel (discard s e rest) bytes (evicted + 1)
    unfolding make_room
    make_room_evicts e rest h p q = rw (h, make_room) (rw (p, make_room) (rw (q, make_room)))

  pub make_room-Ends :
      (fuel : ℕ) (s : Spool A) (bytes evicted : ℕ)
      → length s.entries < fuel
      → Ends s bytes evicted (make_room fuel s bytes evicted)
  make_room-Ends zero s bytes evicted h = absurd (omega arith)
  make_room-Ends (suc fuel) s bytes evicted h = elim (Bool-cases (would_exceed s bytes)) [
    | inl full ↦ elim (Bool-cases (leb (length s.entries) s.cfg.onset_reserve)) [
      | inl protected ↦ rw (make_room_refused fuel s bytes evicted full protected) (record {
        k = 0;
        forced = λ j p. absurd (omega arith);
        stops = rw (evict-zero s) (inr (refl, full, leb→le _ _ protected));
      })
      | inr more ↦
          let within : s.cfg.onset_reserve < length s.entries = ground arith in
          let (e, gone, _) = remove_at_within s.entries s.cfg.onset_reserve within in
          let rest = without s.cfg.onset_reserve s.entries in
          rw (make_room_evicts fuel s bytes evicted e rest full more gone) (
            Ends-next s bytes evicted e rest _ full within gone (
              make_room-Ends fuel (discard s e rest) bytes (evicted + 1)
                (omega (arith, length-without s.cfg.onset_reserve s.entries within))))
    ]
    | inr fits ↦ rw (make_room_fits fuel s bytes evicted fits) (record {
      k = 0;
      forced = λ j p. absurd (omega arith);
      stops = rw (evict-zero s) (inl (ap (made s) (omega arith), fits));
    })
  ]

  -- What `k` evictions leave: the reserve, and what stood more than `k` places past it.
  pub entries-evict :
      (k : ℕ) (s : Spool A)
      → s.cfg.onset_reserve + k ≤ length s.entries
      → (evict k s).entries
        ≡ take s.cfg.onset_reserve s.entries ++ drop (s.cfg.onset_reserve + k) s.entries
  entries-evict zero s h =
      rw (evict-zero s)
        (rw (add-zero s.cfg.onset_reserve) (sym (take-append-drop s.cfg.onset_reserve s.entries)))
  entries-evict (suc k) s h =
      let within : s.cfg.onset_reserve < length s.entries = omega arith in
      let (e, gone, _) = remove_at_within s.entries s.cfg.onset_reserve within in
      let rest = without s.cfg.onset_reserve s.entries in
      rw (evict-suc k s e rest gone) (
        entries-evict k (discard s e rest)
          (omega (arith, length-without s.cfg.onset_reserve s.entries within))
        ∙ without_again s.cfg.onset_reserve k s.entries within)

  -- Each eviction is counted once in either counter.
  pub evict_counts :
      (k : ℕ) (s : Spool A)
      → s.cfg.onset_reserve + k ≤ length s.entries
      → ((evict k s).cfg ≡ s.cfg)
        × ((evict k s).dropped ≡ s.dropped + k)
        × ((evict k s).dropped_total ≡ s.dropped_total + k)
        × (length s.entries ≡ length (evict k s).entries + k)
  evict_counts zero s h = rw (evict-zero s) (refl, omega arith, omega arith, omega arith)
  evict_counts (suc k) s h =
      let within : s.cfg.onset_reserve < length s.entries = omega arith in
      let (e, gone, _) = remove_at_within s.entries s.cfg.onset_reserve within in
      let rest = without s.cfg.onset_reserve s.entries in
      let fewer = length-without s.cfg.onset_reserve s.entries within in
      let ih = evict_counts k (discard s e rest) (omega arith) in
      rw (evict-suc k s e rest gone)
        (ih.0, omega (arith, ih.1), omega (arith, ih.2), omega (arith, ih.3))

  pub evict-IsValid :
      (k : ℕ) (s : Spool A)
      → s.cfg.onset_reserve + k ≤ length s.entries
      → IsValid s
      → IsValid (evict k s)
  evict-IsValid zero s h v = rw (evict-zero s) v
  evict-IsValid (suc k) s h v =
      let r = s.cfg.onset_reserve in
      let within : r < length s.entries = omega arith in
      let (e, gone, split) = remove_at_within s.entries r within in
      let rest = without r s.entries in
      rw (evict-suc k s e rest gone) (
        evict-IsValid k (discard s e rest) (omega (arith, length-without r s.entries within))
          (discard-IsValid s e (take r s.entries) (drop (suc r) s.entries) v split))
