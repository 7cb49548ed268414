-- ===== src/Probe/Clock.antt =====
-- agent/src/probe/mod.rs: the clock of the probes. What its `Instant` shows as elapsed since the origin
-- is an argument of each reading.
use mikrotik_quality_agent.Base.{
  ℕ, ◌+◌, ◌-◌, ◌*◌, ◌/◌, ◌^◌, ◌≤◌, ◌<◌, min, bit_and_mask, false, Option, none, some, ltb,
  if◌then◌else◌, ◌≡◌, ap, ◌∙◌, arith,
}
use mathlib.Core.Option.{get_or as unwrap_or}
use mikrotik_quality_agent.Twamp.Time.{
  NtpTimestamp, from_unix_nanos, as_units, as_units_lem, units_to_nanos, duration_since, round_trip,
}

pub record Clock : Type 0 where
  pub wall_origin_nanos : ℕ

-- `Clock::new`, from what the system clock shows since 1970, if it is not before.
abbrev pub new_clock : Option ℕ → Clock
new_clock since_epoch = record { wall_origin_nanos = unwrap_or since_epoch 0 }

abbrev pub now_ns : Clock → ℕ → ℕ
now_ns c elapsed = min elapsed (2 ^ 64 - 1)

unfoldable pub now_ntp : Clock → ℕ → NtpTimestamp
now_ntp c elapsed = from_unix_nanos (c.wall_origin_nanos + elapsed)

-- The era of NTP is not over at this reading.
abbrev pub InEra : Clock → ℕ → Type 0
InEra c elapsed = (c.wall_origin_nanos + elapsed) / 1000000000 + 2208988800 < 2 ^ 32

units_lem :
    (ns : ℕ)
    → ns / 1000000000 + 2208988800 < 2 ^ 32
    → as_units (from_unix_nanos ns) ≡ 2208988800 * 2 ^ 32 + ns * 2 ^ 32 / 1000000000
unfolding from_unix_nanos
units_lem ns h = as_units_lem (from_unix_nanos ns) (omega arith) ∙ omega arith

nanos_lem : (d : ℕ) → units_to_nanos d ≡ d * 1000000000 / 2 ^ 32
nanos_lem d = omega (arith, bit_and_mask 32 d)

-- Two readings of a clock, as a duration.
abbrev pub between : Clock → ℕ → ℕ → Option ℕ
between c a b = duration_since (now_ntp c b) (now_ntp c a)

-- The difference of two readings is the time that has passed, or a nanosecond less.
pub between_lem :
    (c : Clock) (a b : ℕ)
    → a ≤ b
    → InEra c b
    → (d : ℕ) × (between c a b ≡ some d) × (d ≤ b - a) × (b - a ≤ d + 1)
unfolding now_ntp duration_since
between_lem c a b h era =
    let x = c.wall_origin_nanos + a in
    let y = c.wall_origin_nanos + b in
    let ux = units_lem x (omega (arith, era, h)) in
    let uy = units_lem y era in
    let u = as_units (from_unix_nanos x) in
    let v = as_units (from_unix_nanos y) in
    let ordered : ltb v u ≡ false = ground (arith, ux, uy) in
    let same = nanos_lem (v - u) in
    (
      units_to_nanos (v - u),
      ap (λ t. if t then none else some (units_to_nanos (v - u))) ordered,
      omega (arith, same, ux, uy, h),
      omega (arith, same, ux, uy, h),
    )

-- The round trip that a sender computes from its own clock's readings at `a` and `b` and the responder's
-- at `p` and `q` is the time that passed at the sender less the time that the packet spent at the
-- responder, to the nanosecond, whatever wall times the two clocks started from.
pub round_trip-now_ntp :
    (c r : Clock) (a b p q : ℕ)
    → a ≤ b
    → p ≤ q
    → q - p ≤ b - a
    → InEra c b
    → InEra r q
    → (rtt : ℕ) × (round_trip (now_ntp c a) (now_ntp r p) (now_ntp r q) (now_ntp c b) ≡ some rtt)
      × (rtt ≤ ((b - a) - (q - p)) + 1)
      × ((b - a) - (q - p) ≤ rtt + 1)
unfolding round_trip
round_trip-now_ntp c r a b p q h g fits era era_r =
    let (total, is_total, t_low, t_high) = between_lem c a b h era in
    let (away, is_away, a_low, a_high) = between_lem r p q g era_r in
    (
      total - away,
      ap
            (λ o. elim o [
              | none ↦ none
              | some total ↦ some (total - unwrap_or (duration_since (now_ntp r q) (now_ntp r p)) 0)
            ])
            is_total
          ∙ ap (λ o. some (total - unwrap_or o 0)) is_away,
      omega (arith, t_low, t_high, a_low, a_high, fits),
      omega (arith, t_low, t_high, a_low, a_high, fits),
    )
