-- ===== src/Probe/Twamp/EndToEnd.antt =====
-- A TWAMP-Light packet from the sender to the responder and back.
use mikrotik_quality_agent.Base.{
  ℕ, ◌^◌, ◌≤◌, ◌<◌, max, min, ◌-◌, Bool, true, false, ◌||◌, Option, none, some, List, ltb,
  if◌then◌else◌, take, length, ok, ◌≡◌, ap, ◌∙◌, arith,
}
use mikrotik_quality_agent.Probe.Net.{SocketAddr, RecvMeta, ip_eq_iff}
use mikrotik_quality_agent.Probe.Reflector.{Sent}
use mikrotik_quality_agent.Probe.Sender.{sent_time}
use mikrotik_quality_agent.Probe.Twamp.Responder.{TwampReflector, permits, handle_twamp}
use mikrotik_quality_agent.Probe.Twamp.Answers.{handle_twamp-answers}
use mikrotik_quality_agent.Probe.Twamp.Sender.{
  TwampConfig, accept_twamp, accept_twamp_decoded, judge_sent, judge, unsent, twamp_sample,
}
use mikrotik_quality_agent.Twamp.Time.{NtpTimestamp, round_trip}
use mikrotik_quality_agent.Twamp.Packet.{ReflectorPacket, decode_sender, decode_reflector}
use mikrotik_quality_agent.Twamp.RoundTrip.{IsTime}
use mathlib.Core.Option.{get_or as unwrap_or}

in_time : (a b : ℕ) → b ≤ a → ltb a b ≡ false
in_time a b h = ground arith

-- A reply that answers a packet which was sent, from the peer and in time, is accepted.
accept_twamp_complete :
    (cfg : TwampConfig) (sent_at : List (Option NtpTimestamp)) (t1 t4 : NtpTimestamp)
    (arrival_index rtt : ℕ) (claims : Bool) (bytes : List ℕ) (at : SocketAddr) (r : ReflectorPacket)
    → at.ip ≡ cfg.peer.ip
    → decode_reflector bytes ≡ ok r
    → sent_time sent_at r.sender_sequence ≡ some t1
    → round_trip t1 r.receive_timestamp r.timestamp t4 ≡ some rtt
    → rtt ≤ cfg.timeout
    → accept_twamp bytes at t4 cfg sent_at arrival_index claims
      ≡ (r.error_estimate.synchronized || claims, some (twamp_sample cfg r rtt arrival_index))
unfolding accept_twamp
accept_twamp_complete cfg sent_at t1 t4 arrival_index rtt claims bytes at r here reads sent trip
      quick =
    ap
      (λ b.
        if b
        then accept_twamp_decoded t4 cfg sent_at arrival_index claims (decode_reflector bytes)
        else (claims, none))
      ((ip_eq_iff at.ip cfg.peer.ip).1 here)
    ∙ ap (accept_twamp_decoded t4 cfg sent_at arrival_index claims) reads
    ∙ ap (λ o. (r.error_estimate.synchronized || claims, judge_sent cfg t4 r arrival_index o)) sent
    ∙ ap (λ o. (r.error_estimate.synchronized || claims, judge cfg r arrival_index o)) trip
    ∙ ap
        (λ b. (
          r.error_estimate.synchronized || claims,
          if b then none else some (twamp_sample cfg r rtt arrival_index),
        ))
        (in_time cfg.timeout rtt quick)

-- A packet that stands in front of the responder's buffer and comes from a permitted address is
-- answered; the sender, which sent it at `t1` and receives the answer at `t4` from its peer's address
-- and within the timeout, turns it into the sample whose round trip is that of the four times, and does
-- not take the responder's clock for a synchronised one.
pub accept_twamp-handle_twamp :
    (cfg : TwampConfig) (sent_at : List (Option NtpTimestamp)) (t1 t2 t3 t4 : NtpTimestamp)
    (seq arrival_index rtt : ℕ) (claims : Bool)
    → (buf : List ℕ) (n : ℕ) (from at : SocketAddr) (meta : RecvMeta) (sends : Bool)
      (r : TwampReflector)
    → decode_sender (take n buf) ≡ ok (record (unsent seq) { timestamp = t1 })
    → permits r.allow_list from.ip ≡ true
    → n ≤ 1400
    → max n 41 ≤ length buf
    → seq < 256 ^ 4
    → r.sequence < 256 ^ 4
    → IsTime t1
    → IsTime t2
    → IsTime t3
    → at.ip ≡ cfg.peer.ip
    → sent_time sent_at seq ≡ some t1
    → round_trip t1 t2 t3 t4 ≡ some rtt
    → rtt ≤ cfg.timeout
    → (sent : Sent) × ((handle_twamp r buf n from meta t2 t3 sends).1 ≡ some sent)
      × (accept_twamp sent.bytes at t4 cfg sent_at arrival_index claims ≡ (
        claims,
        some (record {
          seq = seq;
          reflector_seq = none;
          rtt_ns = min rtt (2 ^ 64 - 1);
          tx_dscp = unwrap_or cfg.dscp 0;
          rx_dscp = none;
          arrival_index = arrival_index;
        }),
      ))
accept_twamp-handle_twamp cfg sent_at t1 t2 t3 t4 seq arrival_index rtt claims buf n from at meta
      sends r reads allowed short fits hseq own h1 h2 h3 here sent_then trip quick =
    let request = record (unsent seq) { timestamp = t1 } in
    let (sent, does, to, back, size, padding) =
      handle_twamp-answers r buf n from meta t2 t3 sends request allowed reads
        (hseq, h1, (omega arith, omega arith)) own h2 h3 short fits in
    (
      sent,
      ap (λ x. x.1) does,
      accept_twamp_complete cfg sent_at t1 t4 arrival_index rtt claims sent.bytes at _ here back
          sent_then trip quick,
    )
