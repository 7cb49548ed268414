-- ===== src/Agent/Grants.antt =====
-- What a poll grants and withdraws.

use mikrotik_quality_agent.Base.{
  ℕ, Option, none, some, List, [], ◌∷◌, if◌then◌else◌, Result, ok, err, Bool-cases, inl, inr, ◌⊎◌,
  ◌≡◌, refl, ap, ◌∙◌,
}
use mikrotik_quality_agent.Base.Dict.{lookup, lookup-insert, nat_key, text_key}
use mikrotik_quality_agent.Controller.{ControllerError}
use mikrotik_quality_agent.Controller.Wire.{TaskDto, into_plan}
use mikrotik_quality_agent.Plan.{Role, sender, reflector, Peer, Task}
use mikrotik_quality_agent.Probe.Net.{IpAddr, SocketAddr}
use mikrotik_quality_agent.Probe.Reflector.{Registry, Session, grant}
use mikrotik_quality_agent.Agent.Poll.{
  Agent, Texts, Leased, grant_at, grant_peer, grant_reflector, grant_if, lease, lease_all,
  poll_tasks,
}

module _ (texts : Texts) (session_id : ℕ) where
  abbrev known : Registry → Option Session
  known reg = lookup session_id reg.sessions

  grant_known :
      (reg : Registry) (other : ℕ) (at : SocketAddr)
      → (known (grant reg other at) ≡ known reg) ⊎ (other ≡ session_id)
  unfolding grant
  grant_known reg other at = elim (Bool-cases (nat_key.same other session_id)) [
    | inl here ↦ inr ((nat_key.same_iff other session_id).0 here)
    | inr apart ↦ inl (
        lookup-insert other session_id (record { reflector_seq = 0; peer = at; packets = 0 })
          reg.sessions
        ∙ ap
            (λ b.
              if b then some (record { reflector_seq = 0; peer = at; packets = 0 }) else known reg)
            apart)
  ]

  grant_peer_known :
      (reg : Registry) (other : ℕ) (o : Option Peer)
      → (known (grant_peer texts reg other o) ≡ known reg) ⊎ (other ≡ session_id)
  grant_peer_known reg other none = inl refl
  grant_peer_known reg other (some peer) = at (texts.parse_ip peer.address)
    where
      at :
          (o : Option IpAddr)
          → (known (grant_at texts reg other peer.probe_port o) ≡ known reg) ⊎ (other ≡ session_id)
      at none = inl refl
      at (some ip) = grant_known reg other _

module _ {P : Type 0} (texts : Texts) (session_id : ℕ) where
  -- A task that authorises the session.
  abbrev pub Grants : TaskDto P → Type 0
  Grants dto =
      (task : Task P) × (expires_in : Option ℕ) × (into_plan texts.is_space texts.message dto
        ≡ ok (task, expires_in))
      × (task.role ≡ reflector)
      × (task.session_id ≡ session_id)

  abbrev pub SomeGrants : List (TaskDto P) → Type 0
  SomeGrants [] = ⊥
  SomeGrants (dto ∷ dtos) = Grants dto ⊎ SomeGrants dtos

  grant_if_known :
      (reg : Registry) (task : Task P) (role : Role)
      → (known texts session_id (grant_if texts reg task role) ≡ known texts session_id reg)
        ⊎ ((role ≡ reflector) × (task.session_id ≡ session_id))
  unfolding grant_reflector
  grant_if_known reg task sender = inl refl
  grant_if_known reg task reflector =
      elim (grant_peer_known texts session_id reg task.session_id task.peer) [
        | inl same ↦ inl same
        | inr here ↦ inr (refl, here)
      ]

  lease_known :
      (now : ℕ) (l : Leased P) (dto : TaskDto P) (r : Result ControllerError (Task P × Option ℕ))
      → into_plan texts.is_space texts.message dto ≡ r
      → (known texts session_id (lease texts now l r).registry ≡ known texts session_id l.registry)
        ⊎ Grants dto
  lease_known now l dto (err e) h = inl refl
  lease_known now l dto (ok (task, expires_in)) h =
      elim (grant_if_known l.registry task task.role) [
        | inl same ↦ inl same
        | inr (role, here) ↦ inr (task, expires_in, h, role, here)
      ]

  lease_all_known :
      (now : ℕ) (l : Leased P) (dtos : List (TaskDto P))
      → (known texts session_id (lease_all texts now l dtos).registry
          ≡ known texts session_id l.registry)
        ⊎ SomeGrants dtos
  unfolding lease_all
  lease_all_known now l [] = inl refl
  lease_all_known now l (dto ∷ dtos) =
      let r = into_plan texts.is_space texts.message dto in
      elim (lease_all_known now (lease texts now l r) dtos) [
        | inr later ↦ inr (inr later)
        | inl same ↦ elim (lease_known now l dto r refl) [
          | inl still ↦ inl (same ∙ still)
          | inr here ↦ inr (inl here)
        ]
      ]

  -- The reflector's entry for a session changes in a poll only if the controller, in an answer of
  -- success, sent a reflector's task for this very session.
  pub poll_tasks_grants :
      {J : Type 0} (a : Agent P J) (now : ℕ) (answer : Result ControllerError (List (TaskDto P)))
      → (lookup session_id (poll_tasks texts a now answer).0.registry.sessions
          ≡ lookup session_id a.registry.sessions)
        ⊎ ((dtos : List (TaskDto P)) × (answer ≡ ok dtos) × SomeGrants dtos)
  unfolding poll_tasks
  poll_tasks_grants a now (err e) = inl refl
  poll_tasks_grants a now (ok dtos) =
      elim (lease_all_known now
        (record { recurring_ids = []; registry = a.registry; plan = a.plan }) dtos) [
          | inl same ↦ inl same
          | inr found ↦ inr (dtos, refl, found)
        ]
