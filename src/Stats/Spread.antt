-- ===== src/Stats/Spread.antt =====
-- The statistics of round trips lie within the samples, in their order.
use mikrotik_quality_agent.Base.{
  ℕ, suc, ◌+◌, ◌-◌, ◌*◌, ◌/◌, ◌≤◌, ◌<◌, ◌^◌, some, List, [], ◌∷◌, length, map, get_or, ◌≡◌, ap,
  subst, ◌∙◌, arith, length-map, le_or_lt, inl, inr,
}
use mathlib.Core.Option.{some-injective, none-ne-some}
use native.Mathlib.Nat.{mul-le-mul, div-le_of_le-mul, le-div_iff_mul-le, mul_comm}
use mikrotik_quality_agent.Stats.Sample.{Sample}
use mikrotik_quality_agent.Stats.Sort.{
  total, All, All-map, All-sort_back, All-get_or, Sorted, get_or_mono, sort_by_key-Sorted,
  All-sort_by_key, length-sort_by_key,
}
use mikrotik_quality_agent.Stats.Isqrt.{isqrt_u128, isqrt_u128_lem}
use mikrotik_quality_agent.Stats.Rtt.{
  RttStats, to_us, sort, sum, abs_diff, variance, percentile, percentile_index, stats_of, rtt_stats,
}

suc_times : (n k : ℕ) → suc n * k ≡ k + n * k
suc_times n k = grind arith

square_fits : (d : ℕ) → d < 2 ^ 64 → d * d + 1 < 2 ^ 128
square_fits d h =
    let square : d * d ≤ (2 ^ 64 - 1) * (2 ^ 64 - 1) =
      mul-le-mul {n₂ = 2 ^ 64 - 1} {m₂ = 2 ^ 64 - 1} (omega arith) (omega arith) in
    omega (arith, square)

to_us-lt : (s : Sample) → s.rtt_ns < 2 ^ 64 → to_us s < 2 ^ 64
to_us-lt s h = omega arith

square_up : (d : ℕ) → d * d < suc d * suc d
square_up d = grind arith

-- Bounds on every term bound the sum.
total-between :
    (f : ℕ → ℕ) (low high : ℕ) (xs : List ℕ)
    → All (λ x. (low ≤ f x) × (f x ≤ high)) xs
    → (length xs * low ≤ total f xs) × (total f xs ≤ length xs * high)
unfolding total
total-between f low high [] h = (omega arith, omega arith)
total-between f low high (x ∷ xs) (h, hs) =
    let (above, below) = total-between f low high xs hs in
    (
      omega (arith, h.0, above, suc_times (length xs) low),
      omega (arith, h.1, below, suc_times (length xs) high),
    )

Between : ℕ → ℕ → List ℕ → Type 0
Between low high xs = All (λ x. (low ≤ x) × (x ≤ high)) xs

below_last :
    (x : ℕ) (xs : List ℕ)
    → Sorted (λ x. x) (x ∷ xs)
    → All (λ y. y ≤ get_or (x ∷ xs) (length xs) 0) (x ∷ xs)
below_last x [] s = (omega arith, tt)
below_last x (y ∷ ys) ((first, _), rest) =
    let below = below_last y ys rest in (omega (arith, first, below.0), below)

All-both :
    {A : Type 0} (P Q : A → Type 0) (xs : List A) → All P xs → All Q xs → All (λ x. P x × Q x) xs
All-both P Q [] h k = tt
All-both P Q (x ∷ xs) (h, hs) (k, ks) = ((h, k), All-both P Q xs hs ks)

-- A sorted list lies between its ends.
Sorted-Between :
    (x : ℕ) (xs : List ℕ)
    → Sorted (λ x. x) (x ∷ xs)
    → Between x (get_or (x ∷ xs) (length xs) 0) (x ∷ xs)
unfolding Between
Sorted-Between x xs s =
    All-both (λ y. x ≤ y) (λ y. y ≤ get_or (x ∷ xs) (length xs) 0) (x ∷ xs) (omega arith, s.0)
      (below_last x xs s)

avg-between :
    (low high sum n : ℕ)
    → 0 < n
    → n * low ≤ sum
    → sum ≤ n * high
    → (low ≤ sum / n) × (sum / n ≤ high)
avg-between low high sum n h above below =
    ((le-div_iff_mul-le h).1 (omega (arith, above, mul_comm low n)), div-le_of_le-mul n below)

spread_one :
    (low high avg v : ℕ)
    → (low ≤ avg) × (avg ≤ high)
    → (low ≤ v) × (v ≤ high)
    → (0 ≤ abs_diff v avg * abs_diff v avg)
      × (abs_diff v avg * abs_diff v avg ≤ (high - low) * (high - low))
spread_one low high avg v h k = (omega arith, mul-le-mul (omega arith) (omega arith))

root-le : (r d n : ℕ) → r * r ≤ n → n ≤ d * d → r ≤ d
root-le r d n h k = elim (le_or_lt r d) [
  | inl fine ↦ fine
  | inr above ↦
      let square : suc d * suc d ≤ r * r = mul-le-mul above above in
      absurd (omega (arith, square, square_up d))
]

-- What the figures of a run owe one another.
pub record InOrder (r : RttStats) : Type 0 where
  pub min_avg : r.min_us ≤ r.avg_us
  pub avg_max : r.avg_us ≤ r.max_us
  pub min_p50 : r.min_us ≤ r.p50_us
  pub p50_p95 : r.p50_us ≤ r.p95_us
  pub p95_p99 : r.p95_us ≤ r.p99_us
  pub p99_max : r.p99_us ≤ r.max_us
  pub deviation : r.stddev_us ≤ r.max_us - r.min_us

module _ (rank : ℕ → ℕ → ℕ) where
  percentile_mono :
      (us : List ℕ) (p q : ℕ)
      → Sorted (λ x. x) us
      → rank p (length us) ≤ rank q (length us)
      → percentile rank us p ≤ percentile rank us q
  unfolding percentile
  percentile_mono [] p q s h = omega arith
  percentile_mono (x ∷ xs) p q s h =
      get_or_mono (x ∷ xs) (percentile_index rank p (suc (length xs)))
        (percentile_index rank q (suc (length xs))) s (omega (arith, h)) (omega arith)

  percentile-between :
      (x : ℕ) (xs : List ℕ) (p : ℕ)
      → Sorted (λ x. x) (x ∷ xs)
      → (x ≤ percentile rank (x ∷ xs) p)
        × (percentile rank (x ∷ xs) p ≤ get_or (x ∷ xs) (length xs) 0)
  unfolding percentile
  percentile-between x xs p s =
      let i = percentile_index rank p (suc (length xs)) in
      (
        get_or_mono (x ∷ xs) 0 i s (omega arith) (omega arith),
        get_or_mono (x ∷ xs) i (length xs) s (omega arith) (omega arith),
      )

  stats_of-InOrder :
      (us : List ℕ)
      → 0 < length us
      → Sorted (λ x. x) us
      → get_or us (length us - 1) 0 < 2 ^ 64
      → rank 50 (length us) ≤ rank 95 (length us)
      → rank 95 (length us) ≤ rank 99 (length us)
      → InOrder (stats_of rank us)
  unfolding stats_of variance Between
  stats_of-InOrder [] some_us s fits h k = absurd (omega arith)
  stats_of-InOrder (x ∷ xs) some_us s fits h k =
      let us = x ∷ xs in
      let n = suc (length xs) in
      let high = get_or us (length xs) 0 in
      let last : get_or us (n - 1) 0 ≡ high = ap (λ i. get_or us i 0) (omega arith) in
      let sums = total-between (λ v. v) x high us (Sorted-Between x xs s) in
      let avg = sum us / n in
      let avg_in = avg-between x high (sum us) n (omega arith) sums.0 sums.1 in
      let squares =
        total-between (λ v. abs_diff v avg * abs_diff v avg) 0 ((high - x) * (high - x)) us
          (All-map _ _ us (λ v. spread_one x high avg v avg_in) (Sorted-Between x xs s)) in
      let small : variance us avg ≤ (high - x) * (high - x) = div-le_of_le-mul n squares.1 in
      let wide : (high - x) * (high - x) + 1 < 2 ^ 128 =
        square_fits (high - x) (omega (arith, last, fits)) in
      let root = isqrt_u128_lem (variance us avg) (omega (arith, small, wide)) in
      let p50 = percentile-between x xs 50 s in
      let p99 = percentile-between x xs 99 s in
      record {
        min_avg = avg_in.0;
        avg_max = omega (arith, last, avg_in.1);
        min_p50 = p50.0;
        p50_p95 = percentile_mono us 50 95 s h;
        p95_p99 = percentile_mono us 95 99 s k;
        p99_max = omega (arith, last, p99.1);
        deviation = omega (
          arith,
          last,
          root-le (isqrt_u128 (variance us avg)) (high - x) (variance us avg) root.0 small,
        );
      }

  stats_of-between :
      (us : List ℕ)
      → 0 < length us
      → Sorted (λ x. x) us
      → All (λ x. ((stats_of rank us).min_us ≤ x) × (x ≤ (stats_of rank us).max_us)) us
  unfolding stats_of Between
  stats_of-between [] some_us s = absurd (omega arith)
  stats_of-between (x ∷ xs) some_us s =
      let last : get_or (x ∷ xs) (suc (length xs) - 1) 0 ≡ get_or (x ∷ xs) (length xs) 0 =
        ap (λ i. get_or (x ∷ xs) i 0) (omega arith) in
      All-map _ _ (x ∷ xs) (λ v h. (h.0, omega (arith, last, h.1))) (Sorted-Between x xs s)

  All-of_map :
      (P : ℕ → Type 0) (samples : List Sample)
      → All P (map to_us samples)
      → All (λ s. P (to_us s)) samples
  All-of_map P [] h = tt
  All-of_map P (s ∷ samples) (h, hs) = (h, All-of_map P samples hs)

  All-to_map :
      (P : ℕ → Type 0) (samples : List Sample)
      → All (λ s. P (to_us s)) samples
      → All P (map to_us samples)
  All-to_map P [] h = tt
  All-to_map P (s ∷ samples) (h, hs) = (h, All-to_map P samples hs)

  -- The figures of a run with samples, whose times fit 64 bits: the least, the average and the
  -- greatest are in this order and so are the percentiles between them, if the floating-point ranks
  -- are; the deviation is not above the spread; and every sample is between the least and the greatest.
  pub rtt_stats-InOrder :
      (samples : List Sample) (r : RttStats)
      → ((p q n : ℕ) → p ≤ q → rank p n ≤ rank q n)
      → All (λ s. s.rtt_ns < 2 ^ 64) samples
      → rtt_stats rank samples ≡ some r
      → InOrder r × All (λ s. (r.min_us ≤ to_us s) × (to_us s ≤ r.max_us)) samples
  unfolding rtt_stats
  rtt_stats-InOrder [] r ranks fits e = absurd (none-ne-some r e)
  rtt_stats-InOrder (s ∷ samples) r ranks fits e =
      let us = map to_us (s ∷ samples) in
      let same : stats_of rank (sort us) ≡ r = some-injective _ _ e in
      let size : length (sort us) ≡ suc (length samples) =
        length-sort_by_key (λ x. x) us ∙ ap suc (length-map to_us samples) in
      let narrow : All (λ x. x < 2 ^ 64) us =
        All-to_map (λ x. x < 2 ^ 64) (s ∷ samples)
          (All-map _ _ (s ∷ samples) (λ t. to_us-lt t) fits) in
      let last =
        All-get_or (λ x. x < 2 ^ 64) (sort us) (length (sort us) - 1)
          (All-sort_by_key (λ x. x) (λ x. x < 2 ^ 64) us narrow) (omega (arith, size)) in
      let sorted = sort_by_key-Sorted (λ x. x) us in
      let some_us : 0 < length (sort us) = omega (arith, size) in
      let within : ℕ → Type 0 =
        λ x. ((stats_of rank (sort us)).min_us ≤ x) × (x ≤ (stats_of rank (sort us)).max_us) in
      subst (λ r. InOrder r × All (λ s. (r.min_us ≤ to_us s) × (to_us s ≤ r.max_us)) (s ∷ samples))
        same
        (
          stats_of-InOrder (sort us) some_us sorted last (ranks 50 95 _ (omega arith))
              (ranks 95 99 _ (omega arith)),
          All-of_map within (s ∷ samples)
              (All-sort_back (λ x. x) within us (stats_of-between (sort us) some_us sorted)),
        )
