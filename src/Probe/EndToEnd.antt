-- ===== src/Probe/EndToEnd.antt =====
-- A probe packet from the sender to the reflector and back.
use mikrotik_quality_agent.Base.{
  ℕ, ◌-◌, ◌%◌, ◌^◌, ◌≤◌, ◌<◌, Bool, true, Option, none, some, List, ◌≡◌, refl, ap, take, length, ok,
  ltb, if◌then◌else◌,
}
use mikrotik_quality_agent.Base.Dict.{lookup, nat_key}
use mikrotik_quality_agent.Probe.Net.{SocketAddr, RecvMeta}
use mikrotik_quality_agent.Probe.Reflector.{Session, Reflector, Sent, accepts, handle}
use mikrotik_quality_agent.Probe.Reflector.Answer.{answer, handle-answers}
use mikrotik_quality_agent.Probe.Sender.{ProbeConfig, accept_reply, sent_time}
use mikrotik_quality_agent.Probe.Sender.Accept.{accept_reply_complete}
use mikrotik_quality_agent.Mqp.Header.{has_flag, decode, request_header}
use mikrotik_quality_agent.Mqp.Reply.{as_reply}
use mikrotik_quality_agent.Probe.Sender.Runs.{probe}
use mathlib.Core.Option.{get_or as unwrap_or}

-- A probe that stands in front of the reflector's buffer and comes from an address that its session
-- accepts is answered; the sender, which sent it at `t1` and receives the answer at `t4` from its
-- peer's address and within the timeout, turns it into the sample whose round trip is
-- `(t4 - t1) - (t3 - t2)`, with the reflector's number and what it observed of the probe.
pub accept_reply-handle :
    (cfg : ProbeConfig) (sent_at : List (Option ℕ)) (seq t1 t2 t3 t4 arrival_index : ℕ)
    → (buf : List ℕ) (n : ℕ) (from at : SocketAddr) (meta : RecvMeta) (sends : Bool)
    → (r : Reflector) (s : Session) → decode (take n buf) ≡ ok (probe cfg seq t1)
    → n ≤ length buf
    → lookup cfg.session_id r.registry.sessions ≡ some s
    → accepts s from ≡ true
    → s.reflector_seq < 256 ^ 4
    → t2 < 256 ^ 8
    → t3 < 256 ^ 8
    → at.ip ≡ cfg.peer.ip
    → sent_time sent_at seq ≡ some t1
    → t1 ≤ t4
    → (t4 - t1) - (t3 - t2) ≤ cfg.timeout % 2 ^ 64
    → (sent : Sent) × ((handle r buf n from meta t2 t3 sends).1 ≡ some sent)
      × (accept_reply sent.bytes at t4 cfg sent_at (unwrap_or cfg.dscp 0) arrival_index
          ≡ some (record {
            seq = seq;
            reflector_seq = some s.reflector_seq;
            rtt_ns = (t4 - t1) - (t3 - t2);
            tx_dscp = unwrap_or cfg.dscp 0;
            rx_dscp = if ltb 0 (unwrap_or meta.ttl 0) then some (unwrap_or meta.dscp 0) else none;
            arrival_index = arrival_index;
          }))
unfolding has_flag request_header
accept_reply-handle cfg sent_at seq t1 t2 t3 t4 arrival_index buf n from at meta sends r s decodes
      fits known accepted f1 f2 f3 here sent_then late quick =
    let h = probe cfg seq t1 in
    let (sent, does, to, reads, padding) =
      handle-answers buf n from meta t2 t3 sends r h s fits decodes refl known accepted refl
        (f1, f2, f3) in
    (
      sent,
      ap (λ x. x.1) does,
      accept_reply_complete cfg t4 (unwrap_or cfg.dscp 0) arrival_index sent.bytes at sent_at
          (as_reply h (answer meta t2 t3 s.reflector_seq)) t1 here reads refl refl sent_then late
          quick,
    )
