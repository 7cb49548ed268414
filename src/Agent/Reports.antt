-- ===== src/Agent/Reports.antt =====
-- Every task that runs is reported.
use Prim.Native.String.{String}
use mikrotik_quality_agent.Base.{Option, none, some, ◌≡◌, refl, ◌⊎◌, inl, inr}
use mikrotik_quality_agent.Plan.{
  Kind, mqp_probe, twamp_probe, tcp_connect, router_os_btest, path_trace, wifi_signal,
  packet_capture, Role, sender, reflector, Peer, Task,
}
use mikrotik_quality_agent.Probe.Net.{IpAddr}
use mikrotik_quality_agent.Probe.Sender.{ProbeConfig, ProbeRun}
use mikrotik_quality_agent.Agent.Execute.{
  Outside, Body, Outcome, finished, failed, timed_out, HostTask, probe_at, probed, run_mqp_probe,
  run_host_task, diagnosed, by_kind, execute,
}

module _ {P F S E : Type 0} (out : Outside P F S) (started ended : String)
    (probe : ProbeConfig → Outcome ProbeRun) (host : Option (HostTask → Outcome E)) where
  -- A result is filed under the task that it is of.
  abbrev pub IsOf : Task P → Body F S E → Type 0
  IsOf task body = (body.task_id ≡ task.task_id) × (body.session_id ≡ task.session_id)

  probed-IsOf : (task : Task P) (o : Outcome ProbeRun) → IsOf task (probed out task started ended o)
  probed-IsOf task (finished run) = (refl, refl)
  probed-IsOf task (failed why) = (refl, refl)
  probed-IsOf task timed_out = (refl, refl)

  probe_at-IsOf :
      (task : Task P) (peer : Peer) (o : Option IpAddr)
      → IsOf task (probe_at out task started ended probe peer o)
  probe_at-IsOf task peer none = (refl, refl)
  probe_at-IsOf task peer (some ip) = probed-IsOf task _

  pub run_mqp_probe-IsOf :
      (task : Task P) (o : Option Peer) → IsOf task (run_mqp_probe out task started ended probe o)
  run_mqp_probe-IsOf task none = (refl, refl)
  run_mqp_probe-IsOf task (some peer) = probe_at-IsOf task peer _

  diagnosed-IsOf :
      (task : Task P) (which : HostTask) (o : Outcome E)
      → IsOf task (diagnosed out task started ended which o)
  diagnosed-IsOf task which (finished e) = (refl, refl)
  diagnosed-IsOf task which (failed why) = (refl, refl)
  diagnosed-IsOf task which timed_out = (refl, refl)

  pub run_host_task-IsOf :
      (task : Task P) (which : HostTask) (o : Option (HostTask → Outcome E))
      → IsOf task (run_host_task out task started ended which o)
  run_host_task-IsOf task which none = (refl, refl)
  run_host_task-IsOf task which (some h) = diagnosed-IsOf task which _

  abbrev Reported : Task P → Kind → Role → Option (Body F S E) → Type 0
  Reported task kind role o =
      ((kind ≡ mqp_probe) × (role ≡ reflector) × (o ≡ none))
      ⊎ ((body : Body F S E) × (o ≡ some body) × IsOf task body)

  by_kind_lem :
      (task : Task P) (kind : Kind) (role : Role)
      → Reported task kind role (by_kind out started ended probe host task kind role)
  by_kind_lem task mqp_probe sender = inr (_, refl, run_mqp_probe-IsOf task task.peer)
  by_kind_lem task mqp_probe reflector = inl (refl, refl, refl)
  by_kind_lem task path_trace role = inr (_, refl, run_host_task-IsOf task _ host)
  by_kind_lem task router_os_btest role = inr (_, refl, run_host_task-IsOf task _ host)
  by_kind_lem task packet_capture role = inr (_, refl, run_host_task-IsOf task _ host)
  by_kind_lem task wifi_signal role = inr (_, refl, run_host_task-IsOf task _ host)
  by_kind_lem task twamp_probe role = inr (_, refl, (refl, refl))
  by_kind_lem task tcp_connect role = inr (_, refl, (refl, refl))

  -- Whatever its kind, its parameters and the outcome, a task that runs is answered by one result, under
  -- its own identifiers; only a reflector's task of the MQP probe, which is an authorisation, has none.
  pub execute_reports :
      (task : Task P)
      → ((task.kind ≡ mqp_probe)
          × (task.role ≡ reflector)
          × (execute out started ended probe host task ≡ none))
        ⊎ ((body : Body F S E) × (execute out started ended probe host task ≡ some body)
            × IsOf task body)
  unfolding execute
  execute_reports task = by_kind_lem task task.kind task.role
