-- ===== src/Twamp/Time.antt =====
-- NTP timestamps. A `Duration` is its number of nanoseconds; the shifts are products and quotients of
-- powers of two.
use mikrotik_quality_agent.Base.{
  ℕ, ◌+◌, ◌-◌, ◌*◌, ◌/◌, ◌%◌, ◌^◌, ◌≤◌, ◌<◌, bit_or, bit_and, bit_or_sum, Option, none, some, List,
  ◌++◌, ◌≡◌, ap, ◌∙◌, arith, ltb, if◌then◌else◌, to_be_bytes, from_be_bytes, slice,
}
use mathlib.Core.Option.{get_or as unwrap_or}

abbrev pub ntp_unix_offset : ℕ
ntp_unix_offset = 2208988800

pub record NtpTimestamp : Type 0 where
  pub seconds : ℕ
  pub fraction : ℕ

-- `NtpTimestamp::ZERO`.
abbrev pub zero_time : NtpTimestamp
zero_time = record { seconds = 0; fraction = 0 }

abbrev pub from_bytes : List ℕ → NtpTimestamp
from_bytes b = record {
  seconds = from_be_bytes (slice 0 4 b);
  fraction = from_be_bytes (slice 4 4 b);
}

abbrev pub to_bytes : NtpTimestamp → List ℕ
to_bytes t = to_be_bytes 4 t.seconds ++ to_be_bytes 4 t.fraction

unfoldable pub from_unix_nanos : ℕ → NtpTimestamp
from_unix_nanos ns =
    let secs = ns / 1000000000 % 2 ^ 64 in
    let sub_ns = ns % 1000000000 in
    record {
      seconds = (secs + ntp_unix_offset) % 2 ^ 64 % 2 ^ 32;
      fraction = sub_ns * 2 ^ 32 / 1000000000 % 2 ^ 32;
    }

unfoldable pub to_unix_nanos : NtpTimestamp → ℕ
to_unix_nanos t =
    let secs = (t.seconds + (2 ^ 64 - ntp_unix_offset)) % 2 ^ 64 in
    let sub_ns = t.fraction * 1000000000 / 2 ^ 32 in secs * 1000000000 + sub_ns

unfoldable pub as_units : NtpTimestamp → ℕ
as_units t = bit_or (t.seconds * 2 ^ 32) t.fraction

-- The nanoseconds of a difference in units of 2^-32 s.
abbrev pub units_to_nanos : ℕ → ℕ
units_to_nanos diff = diff / 2 ^ 32 * 1000000000 + bit_and diff (2 ^ 32 - 1) * 1000000000 / 2 ^ 32

unfoldable pub duration_since : NtpTimestamp → NtpTimestamp → Option ℕ
duration_since t earlier =
    let a = as_units t in
    let b = as_units earlier in if ltb a b then none else some (units_to_nanos (a - b))

unfoldable pub round_trip : NtpTimestamp → NtpTimestamp → NtpTimestamp → NtpTimestamp → Option ℕ
round_trip t1 t2 t3 t4 = elim (duration_since t4 t1) [
  | none ↦ none
  | some total ↦ some (total - unwrap_or (duration_since t3 t2) 0)
]

-- Until the era of NTP ends, a time of the Unix clock survives the NTP format but for less than a
-- nanosecond, which the truncation takes.
pub to_unix_nanos-from_unix_nanos :
    (ns : ℕ)
    → ns / 1000000000 + 2208988800 < 2 ^ 32
    → (to_unix_nanos (from_unix_nanos ns) ≤ ns) × (ns ≤ to_unix_nanos (from_unix_nanos ns) + 1)
unfolding to_unix_nanos from_unix_nanos
to_unix_nanos-from_unix_nanos ns h = omega arith

pub as_units_lem :
    (t : NtpTimestamp) → t.fraction < 2 ^ 32 → as_units t ≡ t.seconds * 2 ^ 32 + t.fraction
unfolding as_units
as_units_lem t h = bit_or_sum 32 t.seconds t.fraction h

duration_since-shift :
    (t s u v : NtpTimestamp) (shift : ℕ)
    → as_units u ≡ as_units t + shift
    → as_units v ≡ as_units s + shift
    → duration_since u v ≡ duration_since t s
unfolding duration_since
duration_since-shift t s u v shift e f =
    let order : ltb (as_units u) (as_units v) ≡ ltb (as_units t) (as_units s) = ground arith in
    let gap : as_units u - as_units v ≡ as_units t - as_units s = omega arith in
    ap (λ b. if b then none else some (units_to_nanos (as_units u - as_units v))) order
    ∙ ap (λ d. if ltb (as_units t) (as_units s) then none else some (units_to_nanos d)) gap

-- A round trip takes the reflector's clock into account only by the time between its readings: with
-- that clock shifted by any amount it is the same.
pub round_trip-shift :
    (t1 t2 t3 t4 u2 u3 : NtpTimestamp) (shift : ℕ)
    → as_units u2 ≡ as_units t2 + shift
    → as_units u3 ≡ as_units t3 + shift
    → round_trip t1 u2 u3 t4 ≡ round_trip t1 t2 t3 t4
unfolding round_trip
round_trip-shift t1 t2 t3 t4 u2 u3 shift e2 e3 =
    ap
      (λ d. elim (duration_since t4 t1) as (λ o. Option ℕ) [
        | none ↦ none
        | some total ↦ some (total - unwrap_or d 0)
      ])
      (duration_since-shift t3 t2 u3 u2 shift e3 e2)
