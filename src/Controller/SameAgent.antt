-- ===== src/Controller/SameAgent.antt =====
-- When an agent registers again, and as whom.
use Prim.Native.String.{String}
use mikrotik_quality_agent.Base.{
  ℕ, Bool, Option, none, some, List, [], ◌∷◌, if◌then◌else◌, Result, ok, err, Bool-cases, inl, inr,
  ◌≡◌, refl, sym, ap, ◌∙◌,
}
use mathlib.Core.Option.{some-injective, none-ne-some}
use mikrotik_quality_agent.Controller.{
  Identity, ControllerError, unauthorized, is_retryable, Backoff, default_backoff, next_delay,
}
use mikrotik_quality_agent.Controller.Enrol.{
  Attempt, Verified, usable, revoked, shutting_down, Registered, registered, refused,
  register_stopped, retry, verify, register_answer, register, Enrolled, resumed, enrolled, bailed,
  waiting, registered_as, verdict, enrol,
}
use mikrotik_quality_agent.Controller.Retries.{Ends, Ends-later, verify-revoked}

abbrev identity_of : Option Registered → Option Identity
identity_of (some (registered id)) = some id
identity_of (some (refused e)) = none
identity_of (some register_stopped) = none
identity_of none = none

module _ (b : Backoff) (a : Attempt Identity) (attempts : List (Attempt Identity))
    (id : Identity) where
  abbrev next : Backoff
  next = (next_delay a.draw b).0

  abbrev wait : ℕ
  wait = (next_delay a.draw b).1

  abbrev rest : List ℕ × Option Registered
  rest = register next attempts

  abbrev tried : ControllerError → Bool → List ℕ × Option Registered
  tried e t = if t then retry wait a.told_to_stop register_stopped rest else ([], some (refused e))

  registered_answer :
      (r : Result ControllerError Identity)
      → a.answer ≡ r
      → (identity_of (register next attempts).1 ≡ some id → Ends attempts (ok id))
      → identity_of (register_answer a wait r rest).1 ≡ some id
      → Ends (a ∷ attempts) (ok id)
  registered_answer (ok new) same again h = record {
    before = [];
    last = a;
    later = attempts;
    split = refl;
    passed = tt;
    says = same ∙ ap ok (some-injective _ _ h);
  }
  registered_answer (err e) same again h = elim (Bool-cases (is_retryable e)) [
    | inr odd ↦ absurd (none-ne-some id (sym (ap (λ t. identity_of (tried e t).1) odd) ∙ h))
    | inl passing ↦
        let deeper = sym (ap (λ t. identity_of (tried e t).1) passing) ∙ h in
        elim (Bool-cases a.told_to_stop) [
          | inl stop ↦ absurd (
              none-ne-some id
                (sym (ap (λ t. identity_of (retry wait t register_stopped rest).1) stop) ∙ deeper))
          | inr goes ↦
              Ends-later a attempts (ok id) (e, same, passing, goes)
                (again (
                  sym (ap (λ t. identity_of (retry wait t register_stopped rest).1) goes) ∙ deeper))
        ]
  ]

register-registered :
    (b : Backoff) (attempts : List (Attempt Identity)) (id : Identity)
    → identity_of (register b attempts).1 ≡ some id
    → Ends attempts (ok id)
unfolding register
register-registered b [] id h = absurd (none-ne-some id h)
register-registered b (a ∷ attempts) id h =
    registered_answer b a attempts id a.answer refl
      (register-registered (next_delay a.draw b).0 attempts id) h

abbrev enrolled_id : Enrolled → Option Identity
enrolled_id (enrolled id) = some id
enrolled_id (resumed id) = none
enrolled_id bailed = none
enrolled_id waiting = none

enrolled_id-registered_as : (o : Option Registered) → enrolled_id (registered_as o) ≡ identity_of o
enrolled_id-registered_as none = refl
enrolled_id-registered_as (some (registered id)) = refl
enrolled_id-registered_as (some (refused e)) = refl
enrolled_id-registered_as (some register_stopped) = refl

module _ (heartbeats : Identity → List (Attempt (Unit {0})))
    (registrar : Option String → List (Attempt Identity)) (id new : Identity) where
  by_verdict :
      (o : Option Verified)
      → (verify default_backoff (heartbeats id)).1 ≡ o
      → enrolled_id (verdict registrar id o) ≡ some new
      → Ends (heartbeats id) (err unauthorized) × Ends (registrar (some id.agent_id)) (ok new)
  by_verdict none e h = absurd (none-ne-some new h)
  by_verdict (some usable) e h = absurd (none-ne-some new h)
  by_verdict (some shutting_down) e h = absurd (none-ne-some new h)
  by_verdict (some revoked) e h = (
    verify-revoked default_backoff (heartbeats id) e,
    register-registered default_backoff (registrar (some id.agent_id)) new
        (sym (enrolled_id-registered_as _) ∙ h),
  )

  -- An agent with a stored identity registers again only if the controller answered one of its
  -- heartbeats with `Unauthorized`, after nothing but passing failures; it then names its old
  -- `agent_id`, and takes the identity of the controller's first answer that is not a passing failure.
  pub enrol-enrolled :
      enrol heartbeats registrar (some id) ≡ enrolled new
      → Ends (heartbeats id) (err unauthorized) × Ends (registrar (some id.agent_id)) (ok new)
  unfolding enrol
  enrol-enrolled h = by_verdict (verify default_backoff (heartbeats id)).1 refl (ap enrolled_id h)
