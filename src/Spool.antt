-- ===== src/Spool.antt =====
-- agent/src/spool.rs: the bounded in-memory result spool.
--
-- `usize` and `u64` counters are plain numbers: each difference that the code takes is of a value
-- that was added before, and no counter comes near 2^64.
pub mod Invariant
pub mod Eviction
pub mod Push
pub mod Onset
pub mod Drain
pub mod Tests
use mikrotik_quality_agent.Base.{
  ℕ, zero, suc, ◌+◌, ◌-◌, min, max, Bool, true, false, ◌||◌, Option, none, some, List, [], ◌∷◌,
  ◌++◌, ltb, leb, ◌==◌, if◌then◌else◌, length,
}

pub record SpoolConfig : Type 0 where
  pub max_entries : ℕ
  pub max_bytes : ℕ
  pub onset_reserve : ℕ

-- `SpoolConfig::new`, from the reserve that the source computes in floating point as
-- `(max_entries as f64 * onset_fraction.clamp(0.0, 0.9)) as usize`.
pub new_config : ℕ → ℕ → ℕ → SpoolConfig
new_config max_entries max_bytes reserve = record {
  max_entries = max max_entries 1;
  max_bytes = max max_bytes 1;
  onset_reserve = min reserve (max_entries - 1);
}

pub data Accepted : Type 0 where
  queued : Accepted
  queued_evicting : ℕ → Accepted
  rejected : Accepted

pub record SpoolStats : Type 0 where
  pub entries : ℕ
  pub bytes : ℕ
  pub dropped : ℕ
  pub dropped_total : ℕ

pub record Entry (A : Type 0) : Type 0 where
  pub item : A
  pub bytes : ℕ

-- The head of `entries` is the front of the `VecDeque`.
pub record Spool (A : Type 0) : Type 0 where
  pub cfg : SpoolConfig
  pub entries : List (Entry A)
  pub bytes : ℕ
  pub dropped : ℕ
  pub dropped_total : ℕ

-- `VecDeque::remove`: the removed element and the rest.
abbrev pub remove_at {ℓ} : {A : Type ℓ} → List A → ℕ → Option (A × List A)
remove_at [] i = none
remove_at (x ∷ xs) zero = some (x, xs)
remove_at (x ∷ xs) (suc i) = elim (remove_at xs i) [ none ↦ none | some (y, ys) ↦ some (y, x ∷ ys) ]

-- `VecDeque::pop_back`: the last element and the rest.
abbrev pub pop_back {ℓ} : {A : Type ℓ} → List A → Option (A × List A)
pop_back [] = none
pop_back (x ∷ xs) = elim (pop_back xs) [ none ↦ some (x, []) | some (y, ys) ↦ some (y, x ∷ ys) ]

-- How the `while` loop of `push` ends: with room made, or by `return Accepted::Rejected`.
pub data Room (A : Type 0) : Type 0 where
  made : Spool A → ℕ → Room A
  refused : Spool A → Room A

module _ {A : Type 0} where
  pub new : SpoolConfig → Spool A
  new cfg = record { cfg = cfg; entries = []; bytes = 0; dropped = 0; dropped_total = 0 }

  unfoldable pub is_empty : Spool A → Bool
  is_empty s = length s.entries == 0

  pub stats : Spool A → SpoolStats
  stats s = record {
    entries = length s.entries;
    bytes = s.bytes;
    dropped = s.dropped;
    dropped_total = s.dropped_total;
  }

  pub would_exceed : Spool A → ℕ → Bool
  would_exceed s incoming =
      leb s.cfg.max_entries (length s.entries) || ltb s.cfg.max_bytes (s.bytes + incoming)

  -- Forget one entry of `bytes` bytes and count it.
  abbrev pub discard : Spool A → Entry A → List (Entry A) → Spool A
  discard s e rest = record s {
    entries = rest;
    bytes = s.bytes - e.bytes;
    dropped = s.dropped + 1;
    dropped_total = s.dropped_total + 1;
  }

  abbrev pub count_dropped : Spool A → Spool A
  count_dropped s = record s { dropped = s.dropped + 1; dropped_total = s.dropped_total + 1 }

  -- The loop, with the number evicted so far. Each round but the last removes an entry, so
  -- `length entries + 1` rounds are enough (`Spool.Eviction.make_room-Ends`).
  pub make_room : ℕ → Spool A → ℕ → ℕ → Room A
  make_room zero s bytes evicted = made s evicted
  make_room (suc fuel) s bytes evicted = elim (would_exceed s bytes) [
    | false ↦ made s evicted
    | true ↦ elim (leb (length s.entries) s.cfg.onset_reserve) [
      | true ↦ refused (count_dropped s)
      | false ↦ elim (remove_at s.entries s.cfg.onset_reserve) [
        | none ↦ made s evicted
        | some (e, rest) ↦ make_room fuel (discard s e rest) bytes (evicted + 1)
      ]
    ]
  ]

  abbrev pub push_back : Spool A → A → ℕ → Spool A
  push_back s item bytes = record s {
    bytes = s.bytes + bytes;
    entries = s.entries ++ record { item = item; bytes = bytes } ∷ [];
  }

  pub finish_push : A → ℕ → Room A → Spool A × Accepted
  finish_push item bytes (made s evicted) =
      (push_back s item bytes, if evicted == 0 then queued else queued_evicting evicted)
  finish_push item bytes (refused s) = (s, rejected)

  pub push : Spool A → A → ℕ → Spool A × Accepted
  push s item bytes = finish_push item bytes (make_room (suc (length s.entries)) s bytes 0)

  -- The loop of `take`, over the rounds left.
  pub take_loop : ℕ → List (Entry A) → ℕ → List A × List (Entry A) × ℕ
  take_loop zero es bytes = ([], es, bytes)
  take_loop (suc n) [] bytes = ([], [], bytes)
  take_loop (suc n) (e ∷ es) bytes =
      let (out, rest, left) = take_loop n es (bytes - e.bytes) in (e.item ∷ out, rest, left)

  pub take_batch : Spool A → ℕ → Spool A × List A
  take_batch s limit =
      let (out, rest, left) = take_loop (min limit (length s.entries)) s.entries s.bytes in
      (record s { entries = rest; bytes = left }, out)

  -- The inner `while` of `return_unsent`. Each round removes an entry, so one round for each entry
  -- is enough (`Spool.Drain.trim_back-Trimmed`).
  pub trim_back : ℕ → Spool A → ℕ → Spool A
  trim_back zero s bytes = s
  trim_back (suc fuel) s bytes = elim (would_exceed s bytes) [
    | false ↦ s
    | true ↦ elim (pop_back s.entries) [
      | none ↦ s
      | some (e, rest) ↦ trim_back fuel (discard s e rest) bytes
    ]
  ]

  abbrev pub push_front : Spool A → A → ℕ → Spool A
  push_front s item bytes = record s {
    bytes = s.bytes + bytes;
    entries = record { item = item; bytes = bytes } ∷ s.entries;
  }

  -- `items.into_iter().rev()`: the last item first, so the rest of the list is done before its head.
  pub return_unsent : Spool A → List (A × ℕ) → Spool A
  return_unsent s [] = s
  return_unsent s ((item, bytes) ∷ items) =
      let t = return_unsent s items in
      push_front (trim_back (suc (length t.entries)) t bytes) item bytes

  unfoldable pub clear_dropped : Spool A → Spool A
  clear_dropped s = record s { dropped = 0 }
