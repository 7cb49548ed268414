-- ===== src/Stats/Loss.antt =====
-- `loss_stats`: which packets are missing, and on which way they were lost. The rounded percentage is
-- floating-point: `percent missing sent` stands for it.
use mikrotik_quality_agent.Base.{
  ℕ, ◌+◌, ◌-◌, min, max, Bool, true, false, ◌&&◌, ◌++◌, ◌≤◌, ◌<◌, ◌^◌, refl, ap, ◌∙◌, Option, none,
  some, List, [], ◌∷◌, if◌then◌else◌, length, ◌≡◌, arith,
}
use mathlib.Core.Option.{some-injective}
use mikrotik_quality_agent.Stats.Sample.{Sample}

pub record LossStats (F : Type 0) : Type 0 where
  pub sent : ℕ
  pub received : ℕ
  pub forward_lost : ℕ
  pub reverse_lost : ℕ
  pub unknown_direction : ℕ
  pub loss_pct : F

abbrev pub is_counted : Option ℕ → Bool
is_counted none = false
is_counted (some n) = true

abbrev pub all_counted : List Sample → Bool
all_counted [] = true
all_counted (s ∷ samples) = is_counted s.reflector_seq && all_counted samples

abbrev pub higher : Option ℕ → Option ℕ → Option ℕ
higher none rest = rest
higher (some n) none = some n
higher (some n) (some m) = some (max n m)

abbrev pub highest_reflector_seq : List Sample → Option ℕ
highest_reflector_seq [] = none
highest_reflector_seq (s ∷ samples) = higher s.reflector_seq (highest_reflector_seq samples)

-- The losses by direction: forward, reverse, unknown.
abbrev pub by_direction : ℕ → ℕ → Option ℕ → ℕ × ℕ × ℕ
by_direction missing distinct_replies none = (0, 0, missing)
by_direction missing distinct_replies (some high) =
    let replies_generated = min (high + 1) 0xFFFF_FFFF in
    let reverse = replies_generated - distinct_replies in
    (missing - reverse, min reverse missing, 0)

module _ {F : Type 0} (percent : ℕ → ℕ → F) where
  unfoldable pub loss_stats : ℕ → List Sample → LossStats F
  loss_stats sent samples =
      let received = length samples in
      let missing = sent - received in
      let (forward, reverse, unknown) =
        if all_counted samples
        then by_direction missing received (highest_reflector_seq samples)
        else (0, 0, missing) in
      record {
        sent = sent;
        received = received;
        forward_lost = forward;
        reverse_lost = reverse;
        unknown_direction = unknown;
        loss_pct = percent missing sent;
      }

-- Every sample carries a number of the reflector, which is not above `high`.
abbrev pub NumberedTo : ℕ → List Sample → Type 0
NumberedTo high [] = Unit {0}
NumberedTo high (s ∷ samples) =
    ((n : ℕ) × (s.reflector_seq ≡ some n) × (n ≤ high)) × NumberedTo high samples

all_counted_lem :
    (high : ℕ) (samples : List Sample) → NumberedTo high samples → all_counted samples ≡ true
all_counted_lem high [] h = refl
all_counted_lem high (s ∷ samples) ((n, e, below), h) =
    ap (λ o. is_counted o && all_counted samples) e ∙ all_counted_lem high samples h

at_most :
    (n high : ℕ)
    → n ≤ high
    → (o : Option ℕ) → higher (some high) o ≡ some high
    → higher (some high) (higher (some n) o) ≡ some high
at_most n high below none e = ap some (omega (arith, below))
at_most n high below (some m) e = ap some (omega (arith, below, some-injective _ _ e))

highest-le :
    (high : ℕ) (samples : List Sample)
    → NumberedTo high samples
    → higher (some high) (highest_reflector_seq samples) ≡ some high
highest-le high [] h = refl
highest-le high (s ∷ samples) ((n, e, below), h) =
    ap (λ o. higher (some high) (higher o (highest_reflector_seq samples))) e
    ∙ at_most n high below (highest_reflector_seq samples) (highest-le high samples h)

highest_found :
    (high : ℕ) (before : List Sample) (s : Sample) (after : List Sample)
    → NumberedTo high (before ++ s ∷ after)
    → s.reflector_seq ≡ some high
    → highest_reflector_seq (before ++ s ∷ after) ≡ some high
highest_found high [] s after (first, h) e =
    ap (λ o. higher o (highest_reflector_seq after)) e ∙ highest-le high after h
highest_found high (t ∷ before) s after ((n, te, below), h) e =
    (λ i. higher (te i) (highest_found high before s after h e i)) ∙ ap some (omega (arith, below))

module _ {F : Type 0} (percent : ℕ → ℕ → F) where
  -- If every sample carries a number of the reflector that is not above `high` and one of them carries
  -- `high`, the reflector has answered `high + 1` packets; where these are no more than were sent, which
  -- is less than 2^32, and no fewer than the samples, the packets that it did not answer are the forward
  -- losses, the answers that did not arrive are the reverse losses, and no loss is left without a
  -- direction.
  pub loss_stats_lem :
      (sent high : ℕ) (before : List Sample) (s : Sample) (after : List Sample)
      → NumberedTo high (before ++ s ∷ after)
      → s.reflector_seq ≡ some high
      → high + 1 ≤ sent
      → length (before ++ s ∷ after) ≤ high + 1
      → sent < 2 ^ 32
      → ((loss_stats percent sent (before ++ s ∷ after)).forward_lost ≡ sent - (high + 1))
        × ((loss_stats percent sent (before ++ s ∷ after)).reverse_lost
            ≡ high + 1 - length (before ++ s ∷ after))
        × ((loss_stats percent sent (before ++ s ∷ after)).unknown_direction ≡ 0)
  unfolding loss_stats
  loss_stats_lem sent high before s after numbered reaches answered few narrow =
      let samples = before ++ s ∷ after in
      let received = length samples in
      let missing = sent - received in
      let split : (if all_counted samples
            then by_direction missing received (highest_reflector_seq samples)
            else (0, 0, missing))
          ≡ by_direction missing received (some high) =
        ap
          (λ b.
            if b
            then by_direction missing received (highest_reflector_seq samples)
            else (0, 0, missing))
          (all_counted_lem high samples numbered)
        ∙ ap (by_direction missing received) (highest_found high before s after numbered reaches) in
      (
        ap (λ (t : ℕ × ℕ × ℕ). t.0) split ∙ omega arith,
        ap (λ (t : ℕ × ℕ × ℕ). t.1) split ∙ omega arith,
        ap (λ (t : ℕ × ℕ × ℕ). t.2) split,
      )
