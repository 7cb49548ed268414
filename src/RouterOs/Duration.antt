-- ===== src/RouterOs/Duration.antt =====
-- The durations of a bandwidth test: the one asked for and the one that the router echoes.
use mikrotik_quality_agent.Base.{
  ℕ, ◌+◌, ◌-◌, ◌*◌, ◌/◌, ◌^◌, ◌<◌, min, max, none, List, [], ◌∷◌, ◌++◌, length, ltb, ◌≡◌, ap, ◌∙◌,
  arith,
}
use mikrotik_quality_agent.Controller.Wire.{to_digit}
use mikrotik_quality_agent.Controller.Digits.{
  Decimal, value, to_digit_decimal, shift, le_mul, one_le_pow,
}
use mikrotik_quality_agent.RouterOs.Btest.{
  BtestConfig, to_request, unit_secs, next_num, next_total, secs_from, parse_secs,
}

-- A test is asked for with at least 1 and at most 45 seconds, which are those of the configuration but
-- for these limits, and the note on a reduced duration goes with it exactly when it is reduced.
pub to_request-bounds :
    (cfg : BtestConfig)
    → let (body, reduced) = to_request cfg in
      (body.duration_s ≡ min (max (cfg.duration / 1000000000) 1) 45)
      × (reduced ≡ ltb 45 (cfg.duration / 1000000000))
unfolding to_request
to_request-bounds cfg = (ground arith, ground arith)

-- Digits and the letter of their unit.
pub record Part : Type 0 where
  pub digits : List ℕ
  pub unit : ℕ

-- A duration as text, and its seconds.
abbrev pub written : List Part → List ℕ
written [] = []
written (p ∷ parts) = p.digits ++ p.unit ∷ written parts

abbrev pub worth : List Part → ℕ
worth [] = 0
worth (p ∷ parts) = value p.digits * unit_secs p.unit + worth parts

-- Decimal digits of 64 bits, then something that is no digit.
abbrev pub AreParts : List Part → Type 0
AreParts [] = Unit {0}
AreParts (p ∷ parts) =
    Decimal p.digits × (value p.digits < 2 ^ 64) × (to_digit 10 p.unit ≡ none) × AreParts parts

secs_from-digits :
    (total num : ℕ) (cs rest : List ℕ)
    → Decimal cs
    → num * 10 ^ length cs + value cs < 2 ^ 64
    → secs_from total num (cs ++ rest) ≡ secs_from total (num * 10 ^ length cs + value cs) rest
unfolding secs_from
secs_from-digits total num [] rest h small = ap (λ n. secs_from total n rest) (omega arith)
secs_from-digits total num (c ∷ cs) rest (low, high, h) small =
    let d = c - 48 in
    let p = 10 ^ length cs in
    let same = shift num d (length cs) in
    let bound = le_mul (num * 10 + d) p (one_le_pow (length cs)) in
    let next : next_num num d ≡ num * 10 + d = omega (arith, same, bound, small) in
    rw (to_digit_decimal c low high, secs_from)
      (rw next (
        secs_from-digits total (num * 10 + d) cs rest h (omega (arith, same, small))
        ∙ ap (λ n. secs_from total n rest) (omega (arith, same))))

secs_from-written :
    (total : ℕ) (parts : List Part)
    → AreParts parts
    → total + worth parts < 2 ^ 64
    → secs_from total 0 (written parts) ≡ total + worth parts
unfolding secs_from
secs_from-written total [] h small = omega arith
secs_from-written total (p ∷ parts) (digits, fits, no_digit, h) small =
    let v = value p.digits in
    let w = v * unit_secs p.unit in
    let next : next_total total v p.unit ≡ total + w = omega (arith, small) in
    let start : 0 * 10 ^ length p.digits + v ≡ v = omega arith in
    secs_from-digits total 0 p.digits (p.unit ∷ written parts) digits (omega (arith, fits))
    ∙ ap (λ n. secs_from total n (p.unit ∷ written parts)) start
    ∙ rw (no_digit, secs_from)
        (rw next (secs_from-written (total + w) parts h (omega (arith, small)) ∙ omega arith))

-- A duration that the router echoes in any units is read as its seconds, if they fit 64 bits.
pub parse_secs-written :
    (parts : List Part)
    → AreParts parts
    → worth parts < 2 ^ 64
    → parse_secs (written parts) ≡ worth parts
unfolding parse_secs
parse_secs-written parts h small = secs_from-written 0 parts h (omega (arith, small)) ∙ omega arith
