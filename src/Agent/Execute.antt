-- ===== src/Agent/Execute.antt =====
-- `execute` and the tasks that it runs, of agent/src/agent.rs. What the agent asks of other code is a
-- parameter (`Outside`): the lookups in a task's JSON parameters, the parsing of an address, the
-- floating-point arithmetic of the metrics and the MOS estimate. What a probe or a diagnostic on the
-- host router comes to is an argument.
use Prim.Native.String.{String}
use mikrotik_quality_agent.Base.{ℕ, ◌*◌, ◌%◌, ◌^◌, Option, none, some, ◌==◌, if◌then◌else◌}
use mathlib.Core.Option
use mathlib.Core.Option.{get_or as unwrap_or}
use mikrotik_quality_agent.Base.Dict.{text_key}
use mikrotik_quality_agent.Plan.{
  Kind, mqp_probe, twamp_probe, tcp_connect, router_os_btest, path_trace, wifi_signal,
  packet_capture, Role, sender, reflector, Peer, Task,
}
use mikrotik_quality_agent.Probe.Net.{IpAddr}
use mikrotik_quality_agent.Probe.Sender.{ProbeConfig, ProbeRun}
use mikrotik_quality_agent.Stats.Rtt.{RttStats, JitterStats}
use mikrotik_quality_agent.Stats.Dscp.{ProbeMetrics, summarise}

pub data Codec : Type 0 where
  g711 g711_plc g729 g722 opus : Codec

pub data HostTask : Type 0 where
  trace btest capture wifi : HostTask

pub record Outside (P F S : Type 0) : Type 0 where
  pub get_u64 : P → String → Option ℕ
  pub get_text : P → String → Option String
  pub parse_ip : String → Option IpAddr
  pub percent : ℕ → ℕ → F
  pub rank : ℕ → ℕ → ℕ
  pub score : ℕ → ℕ → F → Codec → S
  pub time_limit : HostTask → String

pub data Status : Type 0 where
  status_ok status_partial status_failed status_skipped : Status

-- What a result says beside its status.
pub data Payload (F S E : Type 0) : Type 0 where
  metrics : ProbeMetrics F → Option S → Payload F S E
  extra : E → Payload F S E
  error : String → Payload F S E

-- A result, as the JSON object that is spooled.
pub record Body (F S E : Type 0) : Type 0 where
  pub task_id : String
  pub session_id : ℕ
  pub started_at : String
  pub ended_at : String
  pub status : Status
  pub payload : Payload F S E

-- How a task ends that is given a limit of time. A panic ends the agent and has no place here.
pub data Outcome (A : Type 0) : Type 0 where
  finished : A → Outcome A
  failed : String → Outcome A
  timed_out : Outcome A

abbrev pub codec_of : String → Codec
codec_of s =
    if text_key.same s "g711plc"
    then g711_plc
    else (if text_key.same s "g729"
        then g729
        else (if text_key.same s "g722"
            then g722
            else (if text_key.same s "opus" then opus else g711)))

module _ {P F S E : Type 0} where
  abbrev pub failure_body : Task P → String → String → String → Body F S E
  failure_body task started ended why = record {
    task_id = task.task_id;
    session_id = task.session_id;
    started_at = started;
    ended_at = ended;
    status = status_failed;
    payload = error why;
  }

  -- The result of `enqueue_skipped`.
  abbrev pub skipped_body : Task P → String → String → Body F S E
  skipped_body task reason now = record {
    task_id = task.task_id;
    session_id = task.session_id;
    started_at = now;
    ended_at = now;
    status = status_skipped;
    payload = error reason;
  }

module _ {P F S : Type 0} (out : Outside P F S) where
  abbrev pub requested_dscp : Task P → Option ℕ
  requested_dscp task = Option.map (λ v. v % 2 ^ 8) (out.get_u64 task.params "dscp")

  -- The configuration of the probe. A duration in milliseconds becomes one in nanoseconds.
  unfoldable pub probe_config : Task P → Peer → IpAddr → ProbeConfig
  probe_config task peer ip = record {
    session_id = task.session_id;
    peer = record { ip = ip; port = peer.probe_port };
    count = unwrap_or (out.get_u64 task.params "count") 100 % 2 ^ 32;
    interval = unwrap_or (out.get_u64 task.params "interval_ms") 20 * 1000000;
    payload_bytes = unwrap_or (out.get_u64 task.params "payload_bytes") 172;
    dscp = requested_dscp task;
    timeout = unwrap_or (out.get_u64 task.params "timeout_ms") 1000 * 1000000;
    linger = 2000000000;
  }

  -- `m.rtt.zip(m.jitter).map(...)`.
  abbrev pub score_of : ProbeMetrics F → Codec → Option RttStats → Option JitterStats → Option S
  score_of m codec none j = none
  score_of m codec (some r) none = none
  score_of m codec (some r) (some j) = some (out.score r.avg_us j.ipdv_avg_us m.loss.loss_pct codec)

  module _ {E : Type 0} where
    abbrev pub probe_body : Task P → String → String → Codec → ProbeMetrics F → Body F S E
    probe_body task started ended codec m = record {
      task_id = task.task_id;
      session_id = task.session_id;
      started_at = started;
      ended_at = ended;
      status = if m.loss.received == 0 then status_partial else status_ok;
      payload = metrics m (score_of m codec m.rtt m.jitter);
    }

    abbrev pub probed : Task P → String → String → Outcome ProbeRun → Body F S E
    probed task started ended (finished run) =
        probe_body task started ended
          (codec_of (unwrap_or (out.get_text task.params "codec") "g711"))
          (summarise out.percent out.rank run.sent run.samples (requested_dscp task))
    probed task started ended (failed why) = failure_body task started ended why
    probed task started ended timed_out =
        failure_body task started ended "task exceeded its time limit"

    abbrev pub probe_at :
        Task P
        → String
        → String
        → (ProbeConfig → Outcome ProbeRun)
        → Peer
        → Option IpAddr
        → Body F S E
    probe_at task started ended probe peer none =
        skipped_body task "peer address is not an IP" started
    probe_at task started ended probe peer (some ip) =
        probed task started ended (probe (probe_config task peer ip))

    abbrev pub run_mqp_probe :
        Task P → String → String → (ProbeConfig → Outcome ProbeRun) → Option Peer → Body F S E
    run_mqp_probe task started ended probe none = skipped_body task "probe task has no peer" started
    run_mqp_probe task started ended probe (some peer) =
        probe_at task started ended probe peer (out.parse_ip peer.address)

    abbrev pub diagnosed : Task P → String → String → HostTask → Outcome E → Body F S E
    diagnosed task started ended which (finished e) = record {
      task_id = task.task_id;
      session_id = task.session_id;
      started_at = started;
      ended_at = ended;
      status = status_ok;
      payload = extra e;
    }
    diagnosed task started ended which (failed why) = failure_body task started ended why
    diagnosed task started ended which timed_out =
        failure_body task started ended (out.time_limit which)

    -- `host` is the diagnostic on the host router, `none` where no credentials are configured.
    abbrev pub run_host_task :
        Task P → String → String → HostTask → Option (HostTask → Outcome E) → Body F S E
    run_host_task task started ended which none =
        skipped_body task "no RouterOS credentials configured; set MQ_ROUTEROS_HOST/USER/PASS"
          started
    run_host_task task started ended which (some host) =
        diagnosed task started ended which (host which)

    module _ (started ended : String) (probe : ProbeConfig → Outcome ProbeRun)
        (host : Option (HostTask → Outcome E)) where
      abbrev pub by_kind : Task P → Kind → Role → Option (Body F S E)
      by_kind task mqp_probe sender = some (run_mqp_probe task started ended probe task.peer)
      by_kind task mqp_probe reflector = none
      by_kind task path_trace role = some (run_host_task task started ended trace host)
      by_kind task router_os_btest role = some (run_host_task task started ended btest host)
      by_kind task packet_capture role = some (run_host_task task started ended capture host)
      by_kind task wifi_signal role = some (run_host_task task started ended wifi host)
      by_kind task twamp_probe role =
          some (skipped_body task "task kind not implemented in this agent version" started)
      by_kind task tcp_connect role =
          some (skipped_body task "task kind not implemented in this agent version" started)

      -- The result that `execute` spools.
      unfoldable pub execute : Task P → Option (Body F S E)
      execute task = by_kind task task.kind task.role
