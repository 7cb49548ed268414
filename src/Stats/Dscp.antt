-- ===== src/Stats/Dscp.antt =====
-- `dscp_stats`: which traffic class the packets arrived in; and `summarise`, which puts the figures of
-- a run together. `percent part whole` stands for a percentage in floating point, rounded to two
-- places.
use mikrotik_quality_agent.Base.{
  ℕ, zero, suc, ◌+◌, ◌≤◌, ◌<◌, bit_and, bit_and_mask, Bool, true, false, Option, none, some, List,
  [], ◌∷◌, leb, ◌==◌, ==_iff, if◌then◌else◌, length, get_or, set, replicate, length-set,
  get_or-set_self, ◌≡◌, ◌≢◌, refl, ap, subst, sym, ◌∙◌, arith, Bool-cases, le_or_lt, inl, inr,
}
use mathlib.Core.Option.{some-injective, none-ne-some}
use mikrotik_quality_agent.Stats.Sample.{Sample}
use mikrotik_quality_agent.Stats.Loss.{LossStats, loss_stats}
use mikrotik_quality_agent.Stats.Reorder.{ReorderStats, reorder_stats}
use mikrotik_quality_agent.Stats.Rtt.{RttStats, JitterStats, rtt_stats, jitter_stats}

pub record DscpStats (F : Type 0) : Type 0 where
  pub requested : ℕ
  pub observed_mode : ℕ
  pub conformant_pct : F

-- `filter_map(|s| s.rx_dscp)`.
abbrev pub add_echo : Option ℕ → List ℕ → List ℕ
add_echo none ds = ds
add_echo (some d) ds = d ∷ ds

abbrev pub echoed : List Sample → List ℕ
echoed [] = []
echoed (s ∷ samples) = add_echo s.rx_dscp (echoed samples)

abbrev pub class : ℕ → ℕ
class d = bit_and d 0x3F

-- One entry of `counts` for each class.
abbrev pub count_classes : List ℕ → List ℕ → List ℕ
count_classes counts [] = counts
count_classes counts (d ∷ ds) =
    count_classes (set counts (class d) (get_or counts (class d) 0 + 1)) ds

-- `max_by_key` over the enumerated counts: of equal ones the last.
abbrev pub mode_from : List ℕ → ℕ → ℕ → ℕ → ℕ
mode_from [] i best most = best
mode_from (c ∷ counts) i best most = elim (leb most c) [
  | true ↦ mode_from counts (suc i) i c
  | false ↦ mode_from counts (suc i) best most
]

abbrev pub mode : List ℕ → ℕ
mode [] = 0
mode (c ∷ counts) = mode_from counts 1 0 c

module _ {F : Type 0} (percent : ℕ → ℕ → F) where
  abbrev pub dscp_of : ℕ → List ℕ → Option (DscpStats F)
  dscp_of requested [] = none
  dscp_of requested (d ∷ ds) =
      let counts = count_classes (replicate 64 0) (d ∷ ds) in
      some (record {
        requested = requested;
        observed_mode = mode counts;
        conformant_pct = percent (get_or counts (class requested) 0) (length (d ∷ ds));
      })

  unfoldable pub dscp_stats : ℕ → List Sample → Option (DscpStats F)
  dscp_stats requested samples = dscp_of requested (echoed samples)

pub record ProbeMetrics (F : Type 0) : Type 0 where
  pub rtt : Option RttStats
  pub jitter : Option JitterStats
  pub loss : LossStats F
  pub reorder : ReorderStats
  pub dscp : Option (DscpStats F)

module _ {F : Type 0} (percent : ℕ → ℕ → F) (rank : ℕ → ℕ → ℕ) where
  abbrev pub requested_stats : Option ℕ → List Sample → Option (DscpStats F)
  requested_stats none samples = none
  requested_stats (some d) samples = dscp_stats percent d samples

  unfoldable pub summarise : ℕ → List Sample → Option ℕ → ProbeMetrics F
  summarise sent samples requested_dscp = record {
    rtt = rtt_stats rank samples;
    jitter = jitter_stats rank samples;
    loss = loss_stats percent sent samples;
    reorder = reorder_stats samples;
    dscp = requested_stats requested_dscp samples;
  }

-- How many of the classes seen are `k`.
abbrev pub occurrences : ℕ → List ℕ → ℕ
occurrences k [] = 0
occurrences k (d ∷ ds) = let rest = occurrences k ds in if class d == k then rest + 1 else rest

get_or-set_ne : (xs : List ℕ) (i j v : ℕ) → i ≢ j → get_or (set xs i v) j 0 ≡ get_or xs j 0
get_or-set_ne [] i j v h = refl
get_or-set_ne (x ∷ xs) zero zero v h = absurd (h refl)
get_or-set_ne (x ∷ xs) zero (suc j) v h = refl
get_or-set_ne (x ∷ xs) (suc i) zero v h = refl
get_or-set_ne (x ∷ xs) (suc i) (suc j) v h = get_or-set_ne xs i j v (λ e. h (ap suc e))

leb_le : (a b : ℕ) → leb a b ≡ true → a ≤ b
leb_le a b e = ground arith

leb_gt : (a b : ℕ) → leb a b ≡ false → b < a
leb_gt a b e = ground arith

class-lt : (d : ℕ) → class d < 64
class-lt d = omega (arith, bit_and_mask 6 d)

length-count_classes : (counts ds : List ℕ) → length (count_classes counts ds) ≡ length counts
length-count_classes counts [] = refl
length-count_classes counts (d ∷ ds) =
    length-count_classes (set counts (class d) (get_or counts (class d) 0 + 1)) ds
    ∙ length-set counts (class d) (get_or counts (class d) 0 + 1)

count_classes_lem :
    (counts ds : List ℕ) (k : ℕ)
    → 64 ≤ length counts
    → get_or (count_classes counts ds) k 0 ≡ get_or counts k 0 + occurrences k ds
count_classes_lem counts [] k long = omega arith
count_classes_lem counts (d ∷ ds) k long =
    let next = set counts (class d) (get_or counts (class d) 0 + 1) in
    let rest =
      count_classes_lem next ds k
        (omega (arith, length-set counts (class d) (get_or counts (class d) 0 + 1), long)) in
    elim (Bool-cases (class d == k)) [
      | inl here ↦
          let e : class d ≡ k = (==_iff (class d) k).0 here in
          let one : get_or next k 0 ≡ get_or counts k 0 + 1 =
            subst (λ j. get_or next j 0 ≡ get_or counts j 0 + 1) e
              (get_or-set_self counts (class d) (get_or counts (class d) 0 + 1) 0
                (omega (arith, class-lt d, long))) in
          rw here (omega (arith, rest, one))
      | inr other ↦
          let same =
            get_or-set_ne counts (class d) k (get_or counts (class d) 0 + 1) (λ e. ground arith) in
          rw other (omega (arith, rest, same))
    ]

-- The classes below `i` are searched, and `best` is one of the fullest among them.
record Searched (every : List ℕ) (i best most : ℕ) : Type 0 where
  found : get_or every best 0 ≡ most
  below : best < i
  fullest : (k : ℕ) → k < i → get_or every k 0 ≤ most

-- `m` is the place of a fullest class among the first `n`.
abbrev pub Fullest : List ℕ → ℕ → ℕ → Type 0
Fullest every n m = (m < n) × ((k : ℕ) → k < n → get_or every k 0 ≤ get_or every m 0)

Fullest-step :
    (every : List ℕ) (i n m : ℕ) → Fullest every (suc i + n) m → Fullest every (i + suc n) m
Fullest-step every i n m (inside, fullest) = (omega arith, λ k lt. fullest k (omega arith))

mode_from-Fullest :
    (every counts : List ℕ) (i best most : ℕ)
    → ((j : ℕ) → get_or counts j 0 ≡ get_or every (i + j) 0)
    → Searched every i best most
    → Fullest every (i + length counts) (mode_from counts i best most)
mode_from-Fullest every [] i best most rest h =
    (omega (arith, h.below), λ k lt. omega (arith, h.fullest k (omega arith), h.found))
mode_from-Fullest every (c ∷ counts) i best most rest h =
    let here : c ≡ get_or every i 0 = rest 0 ∙ ap (λ j. get_or every j 0) (omega arith) in
    let behind : (j : ℕ) → get_or counts j 0 ≡ get_or every (suc i + j) 0 =
      λ j. rest (suc j) ∙ ap (λ j. get_or every j 0) (omega arith) in
    let result : Bool → ℕ = λ b. elim b as (λ b. ℕ) [
      | true ↦ mode_from counts (suc i) i c
      | false ↦ mode_from counts (suc i) best most
    ] in
    elim (Bool-cases (leb most c)) [
      | inl fuller ↦
          subst (λ b. Fullest every (i + suc (length counts)) (result b)) (sym fuller)
            (Fullest-step every i (length counts) (mode_from counts (suc i) i c) (
              mode_from-Fullest every counts (suc i) i c behind (record {
                found = sym here;
                below = omega arith;
                fullest = λ k lt. elim (le_or_lt i k) [
                  | inl last ↦ let e : k ≡ i = omega arith in rw e (omega (arith, here))
                  | inr before ↦ omega (arith, h.fullest k before, leb_le most c fuller)
                ];
              })))
      | inr not_fuller ↦
          subst (λ b. Fullest every (i + suc (length counts)) (result b)) (sym not_fuller)
            (Fullest-step every i (length counts) (mode_from counts (suc i) best most) (
              mode_from-Fullest every counts (suc i) best most behind (record {
                found = h.found;
                below = omega (arith, h.below);
                fullest = λ k lt. elim (le_or_lt i k) [
                  | inl last ↦
                      let e : k ≡ i = omega arith in
                      rw e (omega (arith, here, leb_gt most c not_fuller))
                  | inr before ↦ h.fullest k before
                ];
              })))
    ]

mode-Fullest : (counts : List ℕ) → 0 < length counts → Fullest counts (length counts) (mode counts)
mode-Fullest [] h = absurd (omega arith)
mode-Fullest (c ∷ counts) h =
    let same : 0 + suc (length counts) ≡ suc (length counts) = omega arith in
    subst (λ n. Fullest (c ∷ counts) n (mode_from counts 1 0 c)) same
      (Fullest-step (c ∷ counts) 0 (length counts) (mode_from counts 1 0 c) (
        mode_from-Fullest (c ∷ counts) counts 1 0 c
          (λ j. ap (λ j. get_or (c ∷ counts) j 0) {x = suc j} (omega arith))
          (record {
            found = refl;
            below = omega arith;
            fullest = λ k lt. let e : k ≡ 0 = omega arith in rw e (omega arith);
          })))

get_or-zeros : (n k : ℕ) → get_or {A = ℕ} (replicate n 0) k 0 ≡ 0
get_or-zeros zero k = refl
get_or-zeros (suc n) zero = refl
get_or-zeros (suc n) (suc k) = get_or-zeros n k

-- Of the packets whose class the reflector saw, the mode is a most frequent class, and the
-- conformant ones are those of the requested class.
pub dscp_stats_lem :
    {F : Type 0} (percent : ℕ → ℕ → F) (requested : ℕ) (samples : List Sample) (st : DscpStats F)
    → dscp_stats percent requested samples ≡ some st
    → (st.observed_mode < 64)
      × ((k : ℕ)
          → k < 64
          → occurrences k (echoed samples) ≤ occurrences st.observed_mode (echoed samples))
      × (st.conformant_pct
          ≡ percent (occurrences (class requested) (echoed samples)) (length (echoed samples)))
unfolding dscp_stats
dscp_stats_lem percent requested samples st e = of_echoed (echoed samples) e
  where
    of_echoed :
        (ds : List ℕ)
        → dscp_of percent requested ds ≡ some st
        → (st.observed_mode < 64)
          × ((k : ℕ) → k < 64 → occurrences k ds ≤ occurrences st.observed_mode ds)
          × (st.conformant_pct ≡ percent (occurrences (class requested) ds) (length ds))
    of_echoed [] e = absurd (none-ne-some st e)
    of_echoed (d ∷ ds) e =
        let counts = count_classes (replicate 64 0) (d ∷ ds) in
        let same = some-injective _ _ e in
        let size : length counts ≡ 64 = length-count_classes (replicate 64 0) (d ∷ ds) in
        let full = mode-Fullest counts (omega (arith, size)) in
        let counted : (k : ℕ) → get_or counts k 0 ≡ occurrences k (d ∷ ds) = λ k.
          count_classes_lem (replicate 64 0) (d ∷ ds) k (omega arith)
          ∙ omega (arith, get_or-zeros 64 k) in
        subst
          (λ st.
            (st.observed_mode < 64)
            × ((k : ℕ) → k < 64 → occurrences k (d ∷ ds) ≤ occurrences st.observed_mode (d ∷ ds))
            × (st.conformant_pct
                ≡ percent (occurrences (class requested) (d ∷ ds)) (length (d ∷ ds))))
          same
          (
            omega (arith, full.0, size),
            λ k lt.
                omega (arith, full.1 k (omega (arith, size, lt)), counted k, counted (mode counts)),
            ap (λ n. percent n (suc (length ds))) (counted (class requested)),
          )
