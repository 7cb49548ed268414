-- ===== src/Stats/Reorder.antt =====
-- `reorder_stats`: late and repeated packets. Sorting is insertion sort: the keys that it sorts by are
-- the arrival numbers, which differ, or are the whole elements, so that any sort gives the same list.
use mikrotik_quality_agent.Base.{
  ℕ, ◌+◌, ◌-◌, max, Bool, true, false, ◌||◌, List, [], ◌∷◌, ltb, ◌==◌, if◌then◌else◌, length, map,
  ◌≡◌, refl, arith, ap, ◌∙◌, sym,
}
use mikrotik_quality_agent.Stats.Sort.{sort_by_key}
use mikrotik_quality_agent.Stats.Sample.{Sample}

pub record ReorderStats : Type 0 where
  pub reordered : ℕ
  pub max_displacement : ℕ
  pub duplicated : ℕ

-- `Vec::dedup`: of equal neighbours the first stays.
abbrev pub dedup : List ℕ → List ℕ
dedup [] = []
dedup (a ∷ []) = a ∷ []
dedup (a ∷ b ∷ xs) = let rest = dedup (b ∷ xs) in if a == b then rest else a ∷ rest

-- The counters of the loop: reordered packets and the largest displacement.
abbrev pub late : ℕ → ℕ × ℕ → ℕ × ℕ
late displacement (reordered, largest) = (reordered + 1, max displacement largest)

-- The loop behind its first round, with the high-water mark: it rises to `seq` unless that is lower.
abbrev pub walk : ℕ → List ℕ → ℕ × ℕ
walk high_water [] = (0, 0)
walk high_water (seq ∷ seqs) =
    let rest = walk (max high_water seq) seqs in
    if ltb seq high_water then late (high_water - seq) rest else rest

abbrev pub walk_from_first : List ℕ → ℕ × ℕ
walk_from_first [] = (0, 0)
walk_from_first (seq ∷ seqs) = walk seq seqs

unfoldable pub reorder_stats : List Sample → ReorderStats
reorder_stats samples =
    let seen = dedup (sort_by_key (λ s. s) (map (λ (s : Sample). s.seq) samples)) in
    let by_arrival =
      map (λ (s : Sample). s.seq) (sort_by_key (λ (s : Sample). s.arrival_index) samples) in
    record {
      reordered = (walk_from_first by_arrival).0;
      max_displacement = (walk_from_first by_arrival).1;
      duplicated = length samples - length seen;
    }

-- The definition of RFC 4737: a packet is reordered if a higher number came before it.
abbrev pub any_above : ℕ → List ℕ → Bool
any_above seq [] = false
any_above seq (x ∷ before) = ltb seq x || any_above seq before

abbrev pub count_reordered : List ℕ → List ℕ → ℕ
count_reordered before [] = 0
count_reordered before (seq ∷ seqs) =
    let rest = count_reordered (seq ∷ before) seqs in
    if any_above seq before then rest + 1 else rest

late-count : (d : ℕ) (r : ℕ × ℕ) → (late d r).0 ≡ r.0 + 1
late-count d (reordered, largest) = refl

walk_lem :
    (high_water : ℕ) (before seqs : List ℕ)
    → ((x : ℕ) → any_above x before ≡ ltb x high_water)
    → (walk high_water seqs).0 ≡ count_reordered before seqs
walk_lem high_water before [] h = refl
walk_lem high_water before (seq ∷ seqs) h =
    let mark : (x : ℕ) → (ltb x seq || any_above x before) ≡ ltb x (max high_water seq) =
      λ x. ground (arith, h x) in
    let rest = walk_lem (max high_water seq) (seq ∷ before) seqs mark in
    let after = walk (max high_water seq) seqs in
    pick (ltb seq high_water) (late (high_water - seq) after) after
    ∙ ap (λ b. if b then (late (high_water - seq) after).0 else after.0) (sym (h seq))
    ∙ ap (λ n. if any_above seq before then n else after.0) (late-count (high_water - seq) after)
    ∙ ap (λ n. if any_above seq before then n + 1 else n) rest
  where
    pick : (b : Bool) (p q : ℕ × ℕ) → (if b then p else q).0 ≡ (if b then p.0 else q.0)
    pick true p q = refl
    pick false p q = refl

walk_from_first_lem : (seqs : List ℕ) → (walk_from_first seqs).0 ≡ count_reordered [] seqs
walk_from_first_lem [] = refl
walk_from_first_lem (seq ∷ seqs) = walk_lem seq (seq ∷ []) seqs (λ x. ground arith)

-- The packets counted as reordered are those that came after one of a higher number, as RFC 4737 has
-- it: the code's high-water mark stands for all that came before.
pub reorder_stats_lem :
    (samples : List Sample)
    → (reorder_stats samples).reordered
      ≡ count_reordered []
          (map (λ (s : Sample). s.seq) (sort_by_key (λ (s : Sample). s.arrival_index) samples))
unfolding reorder_stats
reorder_stats_lem samples =
    walk_from_first_lem
      (map (λ (s : Sample). s.seq) (sort_by_key (λ (s : Sample). s.arrival_index) samples))
