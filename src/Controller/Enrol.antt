-- ===== src/Controller/Enrol.antt =====
-- `Agent::enrol` and `Agent::verify`, of agent/src/agent.rs: the two loops that call the controller
-- until it answers. The controller is a parameter: for each attempt, what it answers, the draw of the
-- backoff and whether the agent was told to shut down during the wait. An end of the list is where the
-- story stops being told, with the agent still waiting.
use Prim.Native.String.{String}
use mikrotik_quality_agent.Base.{
  ℕ, Bool, true, false, Option, none, some, List, [], ◌∷◌, if◌then◌else◌, Result, ok, err,
}
use mathlib.Core.Option
use mikrotik_quality_agent.Controller.{
  Identity, ControllerError, is_retryable, needs_reregistration, Backoff, default_backoff,
  next_delay,
}

pub record Attempt (A : Type 0) : Type 0 where
  pub answer : Result ControllerError A
  pub draw : ℕ → ℕ
  pub told_to_stop : Bool

pub data Verified : Type 0 where
  usable revoked shutting_down : Verified

pub data Registered : Type 0 where
  registered : Identity → Registered
  refused : ControllerError → Registered
  register_stopped : Registered

-- A failure that is retried: the delay, and what follows the wait.
abbrev pub retry : {R : Type 0} → ℕ → Bool → R → List ℕ × Option R → List ℕ × Option R
retry delay true stop (delays, rest) = (delay ∷ [], some stop)
retry delay false stop (delays, rest) = (delay ∷ delays, rest)

abbrev pub verify_answer :
    Attempt (Unit {0})
    → ℕ
    → Result ControllerError (Unit {0})
    → List ℕ × Option Verified
    → List ℕ × Option Verified
verify_answer a delay (ok _) rest = ([], some usable)
verify_answer a delay (err e) rest =
    if needs_reregistration e
    then ([], some revoked)
    else (if is_retryable e
        then retry delay a.told_to_stop shutting_down rest
        else ([], some usable))

-- The delays that it waits and the verdict.
unfoldable pub verify : Backoff → List (Attempt (Unit {0})) → List ℕ × Option Verified
verify b [] = ([], none)
verify b (a ∷ attempts) =
    let (next, delay) = next_delay a.draw b in verify_answer a delay a.answer (verify next attempts)

abbrev pub register_answer :
    Attempt Identity
    → ℕ
    → Result ControllerError Identity
    → List ℕ × Option Registered
    → List ℕ × Option Registered
register_answer a delay (ok id) rest = ([], some (registered id))
register_answer a delay (err e) rest =
    if is_retryable e
    then retry delay a.told_to_stop register_stopped rest
    else ([], some (refused e))

-- The loop of `enrol`.
unfoldable pub register : Backoff → List (Attempt Identity) → List ℕ × Option Registered
register b [] = ([], none)
register b (a ∷ attempts) =
    let (next, delay) = next_delay a.draw b in
    register_answer a delay a.answer (register next attempts)

-- How `enrol` ends: with an agent of this identity or with `bail!`.
pub data Enrolled : Type 0 where
  resumed : Identity → Enrolled
  enrolled : Identity → Enrolled
  bailed : Enrolled
  waiting : Enrolled

abbrev pub registered_as : Option Registered → Enrolled
registered_as (some (registered id)) = enrolled id
registered_as (some (refused e)) = bailed
registered_as (some register_stopped) = bailed
registered_as none = waiting

-- The `agent_id` of the request is that of the stored identity, if there is one.
abbrev pub enrol_afresh : (Option String → List (Attempt Identity)) → Option Identity → Enrolled
enrol_afresh registrar existing =
    registered_as
      (register default_backoff (registrar (Option.map (λ (i : Identity). i.agent_id) existing))).1

abbrev pub verdict :
    (Option String → List (Attempt Identity)) → Identity → Option Verified → Enrolled
verdict registrar id (some usable) = resumed id
verdict registrar id (some revoked) = enrol_afresh registrar (some id)
verdict registrar id (some shutting_down) = bailed
verdict registrar id none = waiting

-- `existing` is what `load_identity` gives.
unfoldable pub enrol :
    (Identity → List (Attempt (Unit {0})))
    → (Option String → List (Attempt Identity))
    → Option Identity
    → Enrolled
enrol heartbeats registrar none = enrol_afresh registrar none
enrol heartbeats registrar (some id) =
    verdict registrar id (verify default_backoff (heartbeats id)).1
