-- ===== src/Agent/Poll.antt =====
-- The agent's state and `poll_tasks`, of agent/src/agent.rs. The identity, the configuration and the
-- HTTP client do not change after enrolment and are arguments where they matter.
use Prim.Native.String.{String}
use mikrotik_quality_agent.Base.{
  ℕ, Bool, true, false, Option, none, some, List, [], ◌∷◌, ◌++◌, if◌then◌else◌, Result, ok, err,
}
use mikrotik_quality_agent.Controller.{ControllerError}
use mikrotik_quality_agent.Controller.Wire.{TaskDto, WireFault, into_plan}
use mikrotik_quality_agent.Plan.{
  Role, sender, reflector, Peer, Task, Plan, accept, reconcile_recurring,
}
use mikrotik_quality_agent.Probe.Net.{IpAddr}
use mikrotik_quality_agent.Probe.Reflector.{Registry, grant}
use mikrotik_quality_agent.Spool.{Spool}

pub record Agent (P J : Type 0) : Type 0 where
  pub plan : Plan P
  pub spool : Spool J
  pub registry : Registry
  pub last_error : Option String

-- What the handling of a task list depends on: `char::is_whitespace`, the parsing of an address, and
-- the texts of errors.
pub record Texts : Type 0 where
  pub is_space : ℕ → Bool
  pub parse_ip : String → Option IpAddr
  pub message : WireFault → String
  pub display : ControllerError → String

-- What the loop over the tasks keeps: `recurring_ids`, the registry and the plan.
pub record Leased (P : Type 0) : Type 0 where
  pub recurring_ids : List String
  pub registry : Registry
  pub plan : Plan P

module _ (texts : Texts) where
  abbrev pub grant_at : Registry → ℕ → ℕ → Option IpAddr → Registry
  grant_at reg session_id port none = reg
  grant_at reg session_id port (some ip) = grant reg session_id (record { ip = ip; port = port })

  abbrev pub grant_peer : Registry → ℕ → Option Peer → Registry
  grant_peer reg session_id none = reg
  grant_peer reg session_id (some peer) =
      grant_at reg session_id peer.probe_port (texts.parse_ip peer.address)

  module _ {P : Type 0} where
    unfoldable pub grant_reflector : Registry → Task P → Registry
    grant_reflector reg task = grant_peer reg task.session_id task.peer

    abbrev pub grant_if : Registry → Task P → Role → Registry
    grant_if reg task sender = reg
    grant_if reg task reflector = grant_reflector reg task

    abbrev pub lease : ℕ → Leased P → Result ControllerError (Task P × Option ℕ) → Leased P
    lease now l (err e) = l
    lease now l (ok (task, expires_in)) = record {
      recurring_ids =
          if task.recurring then l.recurring_ids ++ task.task_id ∷ [] else l.recurring_ids;
      registry = grant_if l.registry task task.role;
      plan = accept l.plan task expires_in now;
    }

    unfoldable pub lease_all : ℕ → Leased P → List (TaskDto P) → Leased P
    lease_all now l [] = l
    lease_all now l (dto ∷ dtos) =
        lease_all now (lease now l (into_plan texts.is_space texts.message dto)) dtos

    -- Reconciled, where a recurring task was listed.
    abbrev pub reconciled : List String → Plan P → Plan P
    reconciled [] plan = plan
    reconciled (id ∷ ids) plan = (reconcile_recurring plan (id ∷ ids)).0

    module _ {J : Type 0} where
      abbrev pub with_leased : Agent P J → Leased P → Agent P J
      with_leased a l = record a {
        plan = reconciled l.recurring_ids l.plan;
        registry = l.registry;
        last_error = none;
      }

      unfoldable pub poll_tasks :
          Agent P J → ℕ → Result ControllerError (List (TaskDto P)) → Agent P J × Bool
      poll_tasks a now (err e) = (record a { last_error = some (texts.display e) }, false)
      poll_tasks a now (ok dtos) = (
        with_leased a (
            lease_all now (record { recurring_ids = []; registry = a.registry; plan = a.plan })
              dtos),
        true,
      )
