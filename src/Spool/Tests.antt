-- ===== src/Spool/Tests.antt =====
-- Runs of the spool on small inputs, after the unit tests of spool.rs, and its theorems at them.
use mikrotik_quality_agent.Base.{ℕ, map, ◌≡◌, refl, arith, List, [], ◌∷◌, take}
use mikrotik_quality_agent.Spool.{
  Spool, Entry, queued_evicting, rejected, push, make_room, finish_push, would_exceed, take_batch,
  return_unsent,
}
use mikrotik_quality_agent.Spool.Invariant.{IsValid, total_bytes}
use mikrotik_quality_agent.Spool.Push.{Pushed, push_lem, push-IsValid, push_oversized, push_all}
use mikrotik_quality_agent.Spool.Onset.{push_all-onset}
use mikrotik_quality_agent.Spool.Drain.{take_batch-IsValid, return_unsent-take_batch, items}

abbrev cell : ℕ → Entry ℕ
cell n = record { item = n; bytes = 1 }

-- A spool of at most four results and ten bytes, with a reserve of two, and full.
abbrev full : Spool ℕ
full = record {
  cfg = record { max_entries = 4; max_bytes = 10; onset_reserve = 2 };
  entries = cell 0 ∷ cell 1 ∷ cell 2 ∷ cell 3 ∷ [];
  bytes = 4;
  dropped = 0;
  dropped_total = 7;
}

full-IsValid : IsValid full
unfolding total_bytes
full-IsValid = omega arith

-- The oldest unprotected result goes.
push_full : items (push full 4 1).0.entries ≡ 0 ∷ 1 ∷ 3 ∷ 4 ∷ []
unfolding push make_room finish_push would_exceed
push_full = refl

push_full_answer : (push full 4 1).1 ≡ queued_evicting 1
unfolding push make_room finish_push would_exceed
push_full_answer = refl

push_too_large : (push full 4 11).1 ≡ rejected
unfolding push make_room finish_push would_exceed
push_too_large = refl

push_lem_example : Pushed full 4 1 (push full 4 1).0 (push full 4 1).1
push_lem_example = push_lem full 4 1

push-IsValid_example : IsValid (push full 4 3).0
push-IsValid_example = push-IsValid full 4 3 full-IsValid

push_oversized_example :
    ((push full 4 11).1 ≡ rejected) × ((push full 4 11).0.entries ≡ cell 0 ∷ cell 1 ∷ [])
push_oversized_example = push_oversized full 4 11 (omega arith)

push_all-onset_example :
    take 2 (push_all full ((4, 1) ∷ (5, 9) ∷ (6, 12) ∷ [])).entries ≡ cell 0 ∷ cell 1 ∷ []
push_all-onset_example = push_all-onset ((4, 1) ∷ (5, 9) ∷ (6, 12) ∷ []) full (omega arith)

take_batch-IsValid_example : IsValid (take_batch full 3).0
take_batch-IsValid_example = take_batch-IsValid full 3 full-IsValid

abbrev batch : List (ℕ × ℕ)
batch = (8, 1) ∷ (9, 2) ∷ []

return_unsent-take_batch_example :
    return_unsent (take_batch full 3).0 (map (λ a. (a, 1)) (take_batch full 3).1) ≡ full
return_unsent-take_batch_example =
    return_unsent-take_batch (λ a. 1) full 3 full-IsValid (refl, (refl, (refl, (refl, tt))))
