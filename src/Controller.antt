-- ===== src/Controller.antt =====
-- agent/src/controller/mod.rs: the errors of the controller's API and the backoff between attempts.
-- A `Duration` is its number of nanoseconds.
pub mod Window
pub mod Enrol
pub mod Retries
pub mod SameAgent
pub mod Wire
pub mod Digits
pub mod Tests
use Prim.Native.String.{String}
use mikrotik_quality_agent.Base.{
  ℕ, ◌+◌, ◌-◌, ◌*◌, ◌^◌, min, max, Bool, true, false, ◌||◌, leb, ◌==◌,
}

pub record Identity : Type 0 where
  pub agent_id : String
  pub token : String
  pub group : String

pub data ControllerError : Type 0 where
  transport : String → ControllerError
  unauthorized : ControllerError
  http : (status : ℕ) (body : String) → ControllerError
  decode_error : String → ControllerError
  state_error : String → ControllerError

abbrev pub is_retryable : ControllerError → Bool
is_retryable (transport why) = true
is_retryable (http status body) = leb 500 status || (status == 429)
is_retryable unauthorized = false
is_retryable (decode_error why) = false
is_retryable (state_error why) = false

abbrev pub needs_reregistration : ControllerError → Bool
needs_reregistration unauthorized = true
needs_reregistration (transport why) = false
needs_reregistration (http status body) = false
needs_reregistration (decode_error why) = false
needs_reregistration (state_error why) = false

pub record Backoff : Type 0 where
  pub base : ℕ
  pub most : ℕ
  pub attempt : ℕ

-- `Backoff::new`.
abbrev pub new_backoff : ℕ → ℕ → Backoff
new_backoff base most = record { base = base; most = most; attempt = 0 }

-- `Backoff::default`.
abbrev pub default_backoff : Backoff
default_backoff = new_backoff 1000000000 300000000000

-- `Duration::MAX`: 2^64 - 1 seconds and 999 999 999 nanoseconds.
abbrev pub duration_max : ℕ
duration_max = 2 ^ 64 * 1000000000 - 1

-- `Duration::saturating_mul`.
abbrev pub saturating_mul : ℕ → ℕ → ℕ
saturating_mul d n = min (d * n) duration_max

-- The top of the window.
unfoldable pub ceiling : Backoff → ℕ
ceiling b = min (saturating_mul b.base (2 ^ min b.attempt 20)) b.most

-- The next delay. The draw is `|ceiling| ceiling.mul_f64(rand_unit.clamp(0.0, 1.0))`.
unfoldable pub next_delay : (ℕ → ℕ) → Backoff → Backoff × ℕ
next_delay draw b = (
  record b { attempt = min (b.attempt + 1) (2 ^ 32 - 1) },
  max (draw (ceiling b)) (min b.base (ceiling b)),
)

abbrev pub reset : Backoff → Backoff
reset b = record b { attempt = 0 }
