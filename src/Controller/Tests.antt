-- ===== src/Controller/Tests.antt =====
-- Small runs of enrolment.

use mikrotik_quality_agent.Base.{ℕ, ◌≤◌, false, some, [], ◌∷◌, ok, err, ◌≡◌, refl, arith}
use mikrotik_quality_agent.Controller.{Identity, http, unauthorized, default_backoff, next_delay}
use mikrotik_quality_agent.Controller.Window.{IsDraw, next_delay-bounds}
use mikrotik_quality_agent.Controller.Enrol.{
  Attempt, verify, register, registered, enrol, enrolled, resumed,
}
use mikrotik_quality_agent.Controller.Retries.{Ends, register_reaches}
use mikrotik_quality_agent.Controller.SameAgent.{enrol-enrolled}

abbrev half : ℕ → ℕ
half c = 0

half-IsDraw : IsDraw default_backoff half
half-IsDraw c h = omega arith

next_delay-bounds_example :
    (1000000000 ≤ (next_delay half default_backoff).1)
    × ((next_delay half default_backoff).1 ≤ 300000000000)
next_delay-bounds_example = next_delay-bounds default_backoff half (omega arith) half-IsDraw

abbrev old : Identity
old = record { agent_id = "b2c3"; token = "t0"; group = "west" }

abbrev renewed : Identity
renewed = record { agent_id = "b2c3"; token = "t1"; group = "west" }

abbrev down : {A : Type 0} → Attempt A
down = record { answer = err (http 503 "down"); draw = half; told_to_stop = false }

abbrev rejects : Attempt (Unit {0})
rejects = record { answer = err unauthorized; draw = half; told_to_stop = false }

abbrev accepts_us : Attempt Identity
accepts_us = record { answer = ok renewed; draw = half; told_to_stop = false }

abbrev resumes : Attempt (Unit {0})
resumes = record { answer = ok tt; draw = half; told_to_stop = false }

-- A controller that comes back does not make the agent register again.
keeps_identity : enrol (λ i. down ∷ down ∷ resumes ∷ []) (λ o. []) (some old) ≡ resumed old
unfolding enrol verify
keeps_identity = refl

register_reaches_example :
    (register default_backoff (down ∷ down ∷ accepts_us ∷ [])).1 ≡ some (registered renewed)
register_reaches_example =
    register_reaches default_backoff (down ∷ down ∷ []) accepts_us [] renewed
      ((http 503 "down", refl, refl, refl), ((http 503 "down", refl, refl, refl), tt)) refl

gives_up :
    enrol (λ i. down ∷ rejects ∷ []) (λ o. down ∷ accepts_us ∷ []) (some old) ≡ enrolled renewed
unfolding enrol verify register
gives_up = refl

enrol-enrolled_example :
    Ends (down ∷ rejects ∷ []) (err unauthorized) × Ends (down ∷ accepts_us ∷ []) (ok renewed)
enrol-enrolled_example =
    enrol-enrolled (λ i. down ∷ rejects ∷ []) (λ o. down ∷ accepts_us ∷ []) old renewed gives_up
