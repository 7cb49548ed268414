-- ===== src/Stats/Tests.antt =====
-- Statistics of small runs, after the unit tests of stats.rs.
use mikrotik_quality_agent.Base.{
  ◌*◌, ◌/◌, ◌≤◌, ◌<◌, ◌^◌, arith, ℕ, ◌+◌, List, [], ◌∷◌, some, Option, ◌≡◌, refl, length, map,
}
use mikrotik_quality_agent.Stats.Sample.{Sample}
use native.Mathlib.Nat.{mul-le-mul_right}
use mikrotik_quality_agent.Stats.Isqrt.{isqrt_u128, newton, isqrt_u128_lem}
use mikrotik_quality_agent.Stats.Rtt.{RttStats, to_us, rtt_stats, stats_of, percentile, variance}
use mikrotik_quality_agent.Stats.Spread.{InOrder, rtt_stats-InOrder}
use mikrotik_quality_agent.Stats.Dscp.{
  DscpStats, dscp_stats, class, echoed, occurrences, dscp_stats_lem,
}
use mikrotik_quality_agent.Stats.Loss.{loss_stats, loss_stats_lem}
use mikrotik_quality_agent.Stats.Reorder.{reorder_stats, reorder_stats_lem, count_reordered}
use mikrotik_quality_agent.Stats.Sort.{sort_by_key, insert_sorted, total, All}

abbrev sample : ℕ → ℕ → Option ℕ → Sample
sample seq arrival_index reflector_seq = record {
  seq = seq;
  reflector_seq = reflector_seq;
  rtt_ns = 20;
  tx_dscp = 46;
  rx_dscp = some 46;
  arrival_index = arrival_index;
}

abbrev run : List Sample
run = sample 0 0 (some 0) ∷ sample 2 1 (some 2) ∷ sample 1 2 (some 1) ∷ sample 2 3 (some 4) ∷ []

abbrev percent : ℕ → ℕ → ℕ
percent missing sent = missing

one_each_way : (loss_stats percent 6 run).reverse_lost ≡ 1
unfolding loss_stats
one_each_way = refl

one_late : (reorder_stats run).reordered ≡ 1
unfolding reorder_stats sort_by_key insert_sorted
one_late = refl

one_twice : (reorder_stats run).duplicated ≡ 1
unfolding reorder_stats sort_by_key insert_sorted
one_twice = refl

-- Of seven packets the reflector answered five, of which one answer was lost.
loss_stats_lem_example :
    ((loss_stats percent 7 run).forward_lost ≡ 2)
    × ((loss_stats percent 7 run).reverse_lost ≡ 1)
    × ((loss_stats percent 7 run).unknown_direction ≡ 0)
loss_stats_lem_example =
    loss_stats_lem percent 7 4
      (sample 0 0 (some 0) ∷ sample 2 1 (some 2) ∷ sample 1 2 (some 1) ∷ []) (sample 2 3 (some 4))
      []
      (
        (0, refl, omega arith),
        ((2, refl, omega arith), ((1, refl, omega arith), ((4, refl, omega arith), tt))),
      )
      refl (omega arith) (omega arith) (omega arith)

reorder_stats_lem_example :
    (reorder_stats run).reordered
    ≡ count_reordered []
        (map (λ (s : Sample). s.seq) (sort_by_key (λ (s : Sample). s.arrival_index) run))
reorder_stats_lem_example = reorder_stats_lem run

abbrev rank : ℕ → ℕ → ℕ
rank p len = (p * len + 99) / 100

abbrev figures : RttStats
figures = record {
  min_us = 0;
  avg_us = 0;
  max_us = 0;
  stddev_us = 0;
  p50_us = 0;
  p95_us = 0;
  p99_us = 0;
}

figures_of_run : rtt_stats rank run ≡ some figures
unfolding rtt_stats stats_of sort_by_key insert_sorted total percentile variance isqrt_u128 newton
figures_of_run = refl

rank_mono : (p q n : ℕ) → p ≤ q → rank p n ≤ rank q n
rank_mono p q n h = omega (arith, mul-le-mul_right n h)

run_short : All (λ (s : Sample). s.rtt_ns < 2 ^ 64) run
run_short = omega arith

rtt_stats-InOrder_example : InOrder figures × All (λ s. (0 ≤ to_us s) × (to_us s ≤ 0)) run
rtt_stats-InOrder_example = rtt_stats-InOrder rank run figures rank_mono run_short figures_of_run

isqrt_u128_lem_example :
    (isqrt_u128 17 * isqrt_u128 17 ≤ 17) × (17 < (isqrt_u128 17 + 1) * (isqrt_u128 17 + 1))
isqrt_u128_lem_example = isqrt_u128_lem 17 (omega arith)

four : isqrt_u128 17 ≡ 4
unfolding isqrt_u128 newton
four = refl

abbrev seen : DscpStats ℕ
seen = record { requested = 46; observed_mode = 46; conformant_pct = 4 }

seen_in_run : dscp_stats percent 46 run ≡ some seen
unfolding dscp_stats
seen_in_run = refl

dscp_stats_lem_example :
    (46 < 64)
    × ((k : ℕ) → k < 64 → occurrences k (echoed run) ≤ occurrences 46 (echoed run))
    × (4 ≡ percent (occurrences (class 46) (echoed run)) (length (echoed run)))
dscp_stats_lem_example = dscp_stats_lem percent 46 run seen seen_in_run
