-- ===== src/Controller/Retries.antt =====
-- What the retry loops of enrolment promise.

use mikrotik_quality_agent.Base.{
  ℕ, Bool, true, false, Option, none, some, List, [], ◌∷◌, ◌++◌, if◌then◌else◌, Result, ok, err,
  Bool-cases, inl, inr, ◌≡◌, refl, sym, ap, ◌∙◌, arith,
}
use mathlib.Core.Option.{none-ne-some}
use mikrotik_quality_agent.Controller.{
  Identity, ControllerError, transport, unauthorized, http, decode_error, state_error, is_retryable,
  needs_reregistration, Backoff, next_delay,
}
use mikrotik_quality_agent.Controller.Enrol.{
  Attempt, Verified, usable, revoked, shutting_down, registered, refused, register_stopped, retry,
  verify_answer, verify, register_answer, register,
}

-- An attempt that failed in passing and did not end the loop.
abbrev pub Retried : {A : Type 0} → Attempt A → Type 0
Retried a =
    (e : ControllerError) × (a.answer ≡ err e) × (is_retryable e ≡ true) × (a.told_to_stop ≡ false)

abbrev pub AllRetried : {A : Type 0} → List (Attempt A) → Type 0
AllRetried [] = Unit {0}
AllRetried (a ∷ attempts) = Retried a × AllRetried attempts

retryable_keeps : (e : ControllerError) → is_retryable e ≡ true → needs_reregistration e ≡ false
retryable_keeps (transport why) h = refl
retryable_keeps (http status body) h = refl
retryable_keeps unauthorized h = absurd (ground arith)
retryable_keeps (decode_error why) h = refl
retryable_keeps (state_error why) h = refl

only_unauthorized : (e : ControllerError) → needs_reregistration e ≡ true → e ≡ unauthorized
only_unauthorized unauthorized h = refl
only_unauthorized (transport why) h = absurd (ground arith)
only_unauthorized (http status body) h = absurd (ground arith)
only_unauthorized (decode_error why) h = absurd (ground arith)
only_unauthorized (state_error why) h = absurd (ground arith)

-- After any number of failures in passing, the first answer of success registers the agent.
pub register_reaches :
    (b : Backoff) (before : List (Attempt Identity)) (a : Attempt Identity)
    (later : List (Attempt Identity)) (id : Identity)
    → AllRetried before
    → a.answer ≡ ok id
    → (register b (before ++ a ∷ later)).1 ≡ some (registered id)
unfolding register
register_reaches b [] a later id h e =
    ap
      (λ r.
        (register_answer a (next_delay a.draw b).1 r (register (next_delay a.draw b).0 later)).1)
      e
register_reaches b (x ∷ before) a later id ((why, fails, passing, goes), h) e =
    let (next, delay) = next_delay x.draw b in
    let rest = register next (before ++ a ∷ later) in
    ap (λ r. (register_answer x delay r rest).1) fails
    ∙ ap
        (λ t.
          (if t
            then retry delay x.told_to_stop register_stopped rest
            else ([], some (refused why))).1)
        passing
    ∙ ap (λ s. (retry delay s register_stopped rest).1) goes
    ∙ register_reaches next before a later id h e

-- The first attempt that is not retried, and what it says.
pub record Ends {A : Type 0} (attempts : List (Attempt A)) (answer : Result ControllerError A)
    : Type 0 where
  pub before : List (Attempt A)
  pub last : Attempt A
  pub later : List (Attempt A)
  pub split : attempts ≡ before ++ last ∷ later
  pub passed : AllRetried before
  pub says : last.answer ≡ answer

pub Ends-later :
    {A : Type 0} (a : Attempt A) (attempts : List (Attempt A)) (answer : Result ControllerError A)
    → Retried a
    → Ends attempts answer
    → Ends (a ∷ attempts) answer
Ends-later a attempts answer h w = record {
  before = a ∷ w.before;
  last = w.last;
  later = w.later;
  split = ap (◌∷◌ a) w.split;
  passed = (h, w.passed);
  says = w.says;
}

abbrev is_revoked : Option Verified → Bool
is_revoked (some revoked) = true
is_revoked (some usable) = false
is_revoked (some shutting_down) = false
is_revoked none = false

module _ (b : Backoff) (a : Attempt (Unit {0})) (attempts : List (Attempt (Unit {0}))) where
  abbrev next : Backoff
  next = (next_delay a.draw b).0

  abbrev wait : ℕ
  wait = (next_delay a.draw b).1

  abbrev rest : List ℕ × Option Verified
  rest = verify next attempts

  judged :
      (e : ControllerError)
      → a.answer ≡ err e
      → verify b (a ∷ attempts) ≡ verify_answer a wait (err e) rest
  unfolding verify
  judged e h = ap (λ r. verify_answer a wait r rest) h

  revoked_answer :
      (r : Result ControllerError (Unit {0}))
      → a.answer ≡ r
      → ((verify next attempts).1 ≡ some revoked → Ends attempts (err unauthorized))
      → (verify_answer a wait r rest).1 ≡ some revoked
      → Ends (a ∷ attempts) (err unauthorized)
  revoked_answer (ok u) same again h = absurd (ground (arith, ap is_revoked h))
  revoked_answer (err e) same again h = elim (Bool-cases (needs_reregistration e)) [
    | inl gone ↦ record {
      before = [];
      last = a;
      later = attempts;
      split = refl;
      passed = tt;
      says = same ∙ ap err (only_unauthorized e gone);
    }
    | inr stays ↦
        let inside =
          sym (
            ap
              (λ t.
                (if t
                  then ([], some revoked)
                  else (if is_retryable e
                      then retry wait a.told_to_stop shutting_down rest
                      else ([], some usable))).1)
              stays)
          ∙ h in
        elim (Bool-cases (is_retryable e)) [
          | inr odd ↦ absurd (
              ground (
                arith,
                ap is_revoked (
                    sym (
                      ap
                        (λ t.
                          (if t
                            then retry wait a.told_to_stop shutting_down rest
                            else ([], some usable)).1)
                        odd)
                    ∙ inside),
              ))
          | inl passing ↦
              let deeper =
                sym (
                  ap
                    (λ t.
                      (if t
                        then retry wait a.told_to_stop shutting_down rest
                        else ([], some usable)).1)
                    passing)
                ∙ inside in
              elim (Bool-cases a.told_to_stop) [
                | inl stop ↦ absurd (
                    ground (
                      arith,
                      ap is_revoked
                          (sym (ap (λ t. (retry wait t shutting_down rest).1) stop) ∙ deeper),
                    ))
                | inr goes ↦
                    Ends-later a attempts (err unauthorized) (e, same, passing, goes)
                      (again (sym (ap (λ t. (retry wait t shutting_down rest).1) goes) ∙ deeper))
              ]
        ]
  ]

-- A stored identity is given up only if the controller rejected it: some heartbeat was answered with
-- `Unauthorized`, and all before it failed in passing.
pub verify-revoked :
    (b : Backoff) (attempts : List (Attempt (Unit {0})))
    → (verify b attempts).1 ≡ some revoked
    → Ends attempts (err unauthorized)
unfolding verify
verify-revoked b [] h = absurd (none-ne-some revoked h)
verify-revoked b (a ∷ attempts) h =
    revoked_answer b a attempts a.answer refl (verify-revoked (next_delay a.draw b).0 attempts) h
