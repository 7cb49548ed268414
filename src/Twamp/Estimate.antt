-- ===== src/Twamp/Estimate.antt =====
-- `ErrorEstimate`: a flag, six bits of scale and eight of multiplier in a word of 16 bits.
use mikrotik_quality_agent.Base.{
  ℕ, ◌+◌, ◌*◌, ◌/◌, ◌%◌, ◌^◌, ◌<◌, ◌≤◌, bit_or, bit_and, bit_or_sum, bit_and_mask, bit_and_pow,
  Bool, true, false, not, ◌==◌, if◌then◌else◌, ◌≡◌, ap, ◌∙◌, arith,
}

pub record ErrorEstimate : Type 0 where
  pub synchronized : Bool
  pub scale : ℕ
  pub multiplier : ℕ

-- `ErrorEstimate::UNSYNCHRONIZED`.
abbrev pub unsynchronized : ErrorEstimate
unsynchronized = record { synchronized = false; scale = 12; multiplier = 1 }

unfoldable pub from_u16 : ℕ → ErrorEstimate
from_u16 v = record {
  synchronized = not (bit_and v 0x8000 == 0);
  scale = bit_and (v / 2 ^ 8) 0x3F;
  multiplier = bit_and v 0xFF;
}

unfoldable pub to_u16 : ErrorEstimate → ℕ
to_u16 e =
    let s = if e.synchronized then 0x8000 else 0 in
    bit_or (bit_or s (bit_and e.scale 0x3F * 2 ^ 8)) e.multiplier

abbrev pub IsEstimate : ErrorEstimate → Type 0
IsEstimate e = (e.scale < 64) × (e.multiplier < 256)

fields :
    (flag scale multiplier : ℕ)
    → scale < 64
    → multiplier < 256
    → bit_or (bit_or (flag * 2 ^ 15) (bit_and scale 0x3F * 2 ^ 8)) multiplier
      ≡ flag * 2 ^ 15 + scale * 256 + multiplier
fields flag scale multiplier hs hm =
    let low : bit_and scale 0x3F ≡ scale = bit_and_mask 6 scale ∙ omega (arith, hs) in
    let high : bit_or (flag * 2 ^ 15) (bit_and scale 0x3F * 2 ^ 8) ≡ (flag * 128 + scale) * 2 ^ 8 =
      bit_or_sum 15 flag (bit_and scale 0x3F * 2 ^ 8) (omega (arith, low, hs))
      ∙ omega (arith, low) in
    ap (λ x. bit_or x multiplier) high
    ∙ bit_or_sum 8 (flag * 128 + scale) multiplier (omega (arith, hm))
    ∙ omega arith

abbrev sign : Bool → ℕ
sign true = 1
sign false = 0

-- The word as a number.
pub to_u16_lem :
    (e : ErrorEstimate)
    → IsEstimate e
    → to_u16 e ≡ sign e.synchronized * 2 ^ 15 + e.scale * 256 + e.multiplier
unfolding to_u16
to_u16_lem e (scale, multiplier) =
    elim e.synchronized
      as (λ b.
        bit_or (bit_or (if b then 0x8000 else 0) (bit_and e.scale 0x3F * 2 ^ 8)) e.multiplier
        ≡ sign b * 2 ^ 15 + e.scale * 256 + e.multiplier) [
          | true ↦ fields 1 e.scale e.multiplier scale multiplier
          | false ↦ fields 0 e.scale e.multiplier scale multiplier
        ]

flag_lem :
    (b : Bool) (scale multiplier : ℕ)
    → scale < 64
    → multiplier < 256
    → not (bit_and (sign b * 2 ^ 15 + scale * 256 + multiplier) 0x8000 == 0) ≡ b
flag_lem b scale multiplier hs hm =
    ap (λ x. not (x == 0)) (bit_and_pow 15 (sign b * 2 ^ 15 + scale * 256 + multiplier)) ∙ top b
  where
    top :
        (b : Bool)
        → not (((sign b * 2 ^ 15 + scale * 256 + multiplier) / 2 ^ 15 % 2 * 2 ^ 15) == 0) ≡ b
    top true = ap (λ x. not (x == 0)) {y = 2 ^ 15} (omega arith)
    top false = ap (λ x. not (x == 0)) {y = 0} (omega arith)

scale_lem :
    (b : Bool) (scale multiplier : ℕ)
    → scale < 64
    → multiplier < 256
    → (sign b * 2 ^ 15 + scale * 256 + multiplier) / 2 ^ 8 % 2 ^ 6 ≡ scale
scale_lem b scale multiplier hs hm = omega arith

multiplier_lem :
    (b : Bool) (scale multiplier : ℕ)
    → multiplier < 256
    → (sign b * 2 ^ 15 + scale * 256 + multiplier) % 2 ^ 8 ≡ multiplier
multiplier_lem b scale multiplier hm = omega arith

sign-le : (b : Bool) → sign b ≤ 1
sign-le true = omega arith
sign-le false = omega arith

-- An estimate survives the wire.
pub from_u16-to_u16 : (e : ErrorEstimate) → IsEstimate e → from_u16 (to_u16 e) ≡ e
unfolding from_u16
from_u16-to_u16 e (hs, hm) =
    let v = sign e.synchronized * 2 ^ 15 + e.scale * 256 + e.multiplier in
    ap from_u16 (to_u16_lem e (hs, hm)) ∙ (λ i. record {
      synchronized = flag_lem e.synchronized e.scale e.multiplier hs hm i;
      scale = (bit_and_mask 6 (v / 2 ^ 8) ∙ scale_lem e.synchronized e.scale e.multiplier hs hm) i;
      multiplier = (bit_and_mask 8 v ∙ multiplier_lem e.synchronized e.scale e.multiplier hm) i;
    })

pub to_u16-lt : (e : ErrorEstimate) → IsEstimate e → to_u16 e < 256 ^ 2
to_u16-lt e (hs, hm) = omega (arith, to_u16_lem e (hs, hm), sign-le e.synchronized)
