-- ===== src/Stats/Rtt.antt =====
-- `rtt_stats`, `jitter_stats` and `percentile`. The rank of a percentile is computed in floating
-- point: `rank p len` stands for `((p / 100.0) * len as f64).ceil() as usize`. The sums of 64-bit
-- numbers fit the 128 bits that the source adds them in.
use mikrotik_quality_agent.Base.{
  ℕ, ◌+◌, ◌-◌, ◌*◌, ◌/◌, min, Option, none, some, List, [], ◌∷◌, ◌==◌, if◌then◌else◌, length, map,
  get_or,
}
use mikrotik_quality_agent.Stats.Sample.{Sample}
use mikrotik_quality_agent.Stats.Sort.{sort_by_key, total}
use mikrotik_quality_agent.Stats.Isqrt.{isqrt_u128}

pub record RttStats : Type 0 where
  pub min_us : ℕ
  pub avg_us : ℕ
  pub max_us : ℕ
  pub stddev_us : ℕ
  pub p50_us : ℕ
  pub p95_us : ℕ
  pub p99_us : ℕ

pub record JitterStats : Type 0 where
  pub ipdv_avg_us : ℕ
  pub pdv_p95_us : ℕ

abbrev pub to_us : Sample → ℕ
to_us s = s.rtt_ns / 1000

abbrev pub sort : List ℕ → List ℕ
sort xs = sort_by_key (λ x. x) xs

abbrev pub sum : List ℕ → ℕ
sum xs = total (λ x. x) xs

-- `u64::abs_diff`.
abbrev pub abs_diff : ℕ → ℕ → ℕ
abs_diff a b = (a - b) + (b - a)

unfoldable pub variance : List ℕ → ℕ → ℕ
variance us avg = total (λ v. abs_diff v avg * abs_diff v avg) us / length us

-- The differences of neighbours with consecutive numbers.
unfoldable pub deltas : List Sample → List ℕ
deltas [] = []
deltas (a ∷ []) = []
deltas (a ∷ b ∷ by_seq) =
    let rest = deltas (b ∷ by_seq) in
    if b.seq == a.seq + 1 then abs_diff (to_us b) (to_us a) ∷ rest else rest

module _ (rank : ℕ → ℕ → ℕ) where
  -- The index of a percentile in a sorted slice.
  abbrev pub percentile_index : ℕ → ℕ → ℕ
  percentile_index p len = min (rank p len - 1) (len - 1)

  unfoldable pub percentile : List ℕ → ℕ → ℕ
  percentile [] p = 0
  percentile (x ∷ xs) p = get_or (x ∷ xs) (percentile_index p (length (x ∷ xs))) 0

  unfoldable pub stats_of : List ℕ → RttStats
  stats_of us =
      let n = length us in
      let avg = sum us / n in
      record {
        min_us = get_or us 0 0;
        avg_us = avg;
        max_us = get_or us (n - 1) 0;
        stddev_us = isqrt_u128 (variance us avg);
        p50_us = percentile us 50;
        p95_us = percentile us 95;
        p99_us = percentile us 99;
      }

  unfoldable pub rtt_stats : List Sample → Option RttStats
  rtt_stats [] = none
  rtt_stats (s ∷ samples) = some (stats_of (sort (map to_us (s ∷ samples))))

  abbrev pub jitter_of : List Sample → List ℕ → Option JitterStats
  jitter_of samples [] = none
  jitter_of samples (d ∷ ds) =
      let us = sort (map to_us samples) in
      let median = percentile us 50 in
      let devs = sort (map (λ v. abs_diff v median) us) in
      some
        (record { ipdv_avg_us = sum (d ∷ ds) / length (d ∷ ds); pdv_p95_us = percentile devs 95 })

  unfoldable pub jitter_stats : List Sample → Option JitterStats
  jitter_stats [] = none
  jitter_stats (a ∷ []) = none
  jitter_stats (a ∷ b ∷ samples) =
      jitter_of (a ∷ b ∷ samples) (deltas (sort_by_key (λ (s : Sample). s.seq) (a ∷ b ∷ samples)))
