-- ===== src/Spool/Push.antt =====
-- `push`: what a push keeps, what it discards, and what it answers.
use mikrotik_quality_agent.Base.{
  ℕ, zero, suc, ◌+◌, ◌≤◌, ◌<◌, true, false, List, [], ◌∷◌, ◌++◌, ◌≡◌, refl, sym, ap, ◌∙◌, ◌⊎◌, inl,
  inr, arith, length, take, drop, take-append-drop, drop_all, append-nil, append_assoc, all_below,
  all_below_intro, false≢true, add-zero, if◌then◌else◌, ◌==◌,
}
use mikrotik_quality_agent.Spool.{
  Spool, Entry, Accepted, queued, queued_evicting, rejected, Room, would_exceed, finish_push, push,
}
use mikrotik_quality_agent.Spool.Invariant.{IsValid, push_back-IsValid}
use mikrotik_quality_agent.Spool.Eviction.{
  evict, evict-zero, Ends, make_room-Ends, entries-evict, evict_counts, evict-IsValid,
}

module _ {A : Type 0} where
  -- `k` evictions that were all possible.
  abbrev pub CanEvict : ℕ → Spool A → Type 0
  CanEvict k s = (k ≡ 0) ⊎ (s.cfg.onset_reserve + k ≤ length s.entries)

  forced-CanEvict :
      (k : ℕ) (s : Spool A)
      → ((j : ℕ) → j < k → s.cfg.onset_reserve < length (evict j s).entries)
      → CanEvict k s
  forced-CanEvict zero s h = inl refl
  forced-CanEvict (suc k) s h = elim (forced-CanEvict k s (λ j p. h j (omega arith))) [
    | inl none_yet ↦
        inr (omega (arith, h 0 (omega arith), ap length (ap (λ t. t.entries) (evict-zero s))))
    | inr room ↦ inr (omega (arith, h k (omega arith), evict_counts k s room))
  ]

  evicted :
      (k : ℕ) (s : Spool A)
      → CanEvict k s
      → ((evict k s).entries
          ≡ take s.cfg.onset_reserve s.entries ++ drop (s.cfg.onset_reserve + k) s.entries)
        × ((evict k s).cfg ≡ s.cfg)
        × ((evict k s).dropped ≡ s.dropped + k)
        × ((evict k s).dropped_total ≡ s.dropped_total + k)
        × (length s.entries ≡ length (evict k s).entries + k)
  evicted zero s h = rw (evict-zero s) (
    rw (add-zero s.cfg.onset_reserve) (sym (take-append-drop s.cfg.onset_reserve s.entries)),
    refl,
    omega arith,
    omega arith,
    omega arith,
  )
  evicted (suc k) s (inl h) = absurd (omega arith)
  evicted (suc k) s (inr h) =
      let (cfg, dropped, total, len) = evict_counts (suc k) s h in
      (entries-evict (suc k) s h, cfg, dropped, total, len)

  evict_config : (k : ℕ) (s : Spool A) → CanEvict k s → (evict k s).cfg ≡ s.cfg
  evict_config k s h = (evicted k s h).1

  -- Where nothing unprotected is left, the reserve is all that is left.
  onset_only :
      (k r : ℕ) (es rest : List (Entry A))
      → rest ≡ take r es ++ drop (r + k) es
      → length es ≡ length rest + k
      → length rest ≤ r
      → rest ≡ take r es
  onset_only k r es rest e len h =
      e ∙ ap (◌++◌ (take r es)) (drop_all (r + k) es (omega arith)) ∙ append-nil (take r es)

  abbrev pub new_entry : A → ℕ → Entry A
  new_entry item bytes = record { item = item; bytes = bytes }

  -- What a push of `item` makes of `s`, with its answer, when `k` entries are evicted for it.
  pub record Kept (s : Spool A) (item : A) (bytes k : ℕ) (t : Spool A) : Type 0 where
    pub fits : would_exceed (evict k s) bytes ≡ false
    pub entries :
        t.entries
        ≡ take s.cfg.onset_reserve s.entries
          ++ (drop (s.cfg.onset_reserve + k) s.entries ++ new_entry item bytes ∷ [])
    pub counted : t.dropped ≡ s.dropped + k
    pub counted_total : t.dropped_total ≡ s.dropped_total + k

  pub record Refused (s : Spool A) (bytes k : ℕ) (t : Spool A) : Type 0 where
    pub full : would_exceed (evict k s) bytes ≡ true
    pub entries : t.entries ≡ take s.cfg.onset_reserve s.entries
    pub lost : length s.entries ≡ length t.entries + k
    pub counted : t.dropped ≡ s.dropped + (k + 1)
    pub counted_total : t.dropped_total ≡ s.dropped_total + (k + 1)

  pub record Pushed (s : Spool A) (item : A) (bytes : ℕ) (t : Spool A) (answer : Accepted)
      : Type 0 where
    pub k : ℕ
    pub possible : CanEvict k s
    pub least : all_below k (λ j. would_exceed (evict j s) bytes) ≡ true
    pub outcome :
        ((answer ≡ (if k == 0 then queued else queued_evicting k)) × Kept s item bytes k t)
        ⊎ ((answer ≡ rejected) × Refused s bytes k t)
    pub config : t.cfg ≡ s.cfg

  abbrev PushedBy : Spool A → A → ℕ → Spool A × Accepted → Type 0
  PushedBy s item bytes r = Pushed s item bytes r.0 r.1

  Ends-Pushed :
      (s : Spool A) (item : A) (bytes : ℕ) (room : Room A)
      → Ends s bytes 0 room
      → PushedBy s item bytes (finish_push item bytes room)
  unfolding finish_push
  Ends-Pushed s item bytes room ends =
      let can = forced-CanEvict ends.k s (λ j p. (ends.forced j p).1) in
      let (entries, cfg, dropped, total, len) = evicted ends.k s can in
      elim ends.stops [
        | inl (made_it, fits) ↦ rw made_it (record {
          k = ends.k;
          possible = can;
          least = all_below_intro ends.k _ (λ j p. (ends.forced j p).0);
          outcome = inl (
            ground arith,
            record {
              fits = fits;
              entries = rw entries (append_assoc (take s.cfg.onset_reserve s.entries) _ _);
              counted = dropped;
              counted_total = total;
            },
          );
          config = cfg;
        })
        | inr (refused_it, full, few) ↦ rw refused_it (record {
          k = ends.k;
          possible = can;
          least = all_below_intro ends.k _ (λ j p. (ends.forced j p).0);
          outcome = inr (
            refl,
            record {
              full = full;
              entries = onset_only ends.k s.cfg.onset_reserve s.entries _ entries len few;
              lost = len;
              counted = omega arith;
              counted_total = omega arith;
            },
          );
          config = cfg;
        })
      ]

  -- A push of `item` of `bytes` bytes evicts the least number `k` of unprotected entries, oldest
  -- first, after which the newcomer fits, and appends it; the answer tells whether `k` is 0. If the
  -- newcomer still does not fit when nothing unprotected is left, the push is refused, and the spool
  -- holds exactly the protected entries. The reserve of oldest entries is kept either way, and each
  -- entry lost and each newcomer refused is counted once in both drop counters.
  pub push_lem : (s : Spool A) (item : A) (bytes : ℕ) → PushedBy s item bytes (push s item bytes)
  unfolding push
  push_lem s item bytes =
      Ends-Pushed s item bytes _ (make_room-Ends (suc (length s.entries)) s bytes 0 (omega arith))

  can-IsValid : (k : ℕ) (s : Spool A) → CanEvict k s → IsValid s → IsValid (evict k s)
  can-IsValid zero s h v = rw (evict-zero s) v
  can-IsValid (suc k) s (inl h) v = absurd (omega arith)
  can-IsValid (suc k) s (inr h) v = evict-IsValid (suc k) s h v

  Ends-IsValid :
      (s : Spool A) (item : A) (bytes : ℕ) (room : Room A)
      → Ends s bytes 0 room
      → IsValid s
      → IsValid (finish_push item bytes room).0
  unfolding finish_push
  Ends-IsValid s item bytes room ends v =
      let can = forced-CanEvict ends.k s (λ j p. (ends.forced j p).1) in
      let w = can-IsValid ends.k s can v in
      elim ends.stops [
        | inl (made_it, fits) ↦ rw made_it (push_back-IsValid (evict ends.k s) item bytes w fits)
        | inr (refused_it, _, _) ↦
            rw refused_it (record { exact = w.exact; few = w.few; small = w.small })
      ]

  -- A push keeps the byte count exact and both ceilings respected, whatever its size and its answer.
  pub push-IsValid :
      (s : Spool A) (item : A) (bytes : ℕ) → IsValid s → IsValid (push s item bytes).0
  unfolding push
  push-IsValid s item bytes =
      Ends-IsValid s item bytes _ (make_room-Ends (suc (length s.entries)) s bytes 0 (omega arith))

  would_exceed_oversized :
      (s : Spool A) (bytes : ℕ) → s.cfg.max_bytes < bytes → would_exceed s bytes ≡ true
  unfolding would_exceed
  would_exceed_oversized s bytes h = ground arith

  -- A result larger than the byte ceiling is refused, and yet it costs every unprotected entry.
  pub push_oversized :
      (s : Spool A) (item : A) (bytes : ℕ)
      → s.cfg.max_bytes < bytes
      → ((push s item bytes).1 ≡ rejected)
        × ((push s item bytes).0.entries ≡ take s.cfg.onset_reserve s.entries)
  push_oversized s item bytes h =
      let p = push_lem s item bytes in
      elim p.outcome [
        | inl (_, kept) ↦
            let cfg = evict_config p.k s p.possible in
            absurd
              (false≢true (sym kept.fits ∙ would_exceed_oversized (evict p.k s) bytes (rw cfg h)))
        | inr (answer, gone) ↦ (answer, gone.entries)
      ]

  -- The loop of `agent.rs` that spools results while nothing can be submitted.
  unfoldable pub push_all : Spool A → List (A × ℕ) → Spool A
  push_all s [] = s
  push_all s ((item, bytes) ∷ rest) = push_all (push s item bytes).0 rest
