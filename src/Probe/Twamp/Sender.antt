-- ===== src/Probe/Twamp/Sender.antt =====
-- The sender: a TWAMP-Light session. Like the MQP sender, its loop is a step for each event, and the
-- clock's readings and the outcome of `send_to` are part of the event.
use mikrotik_quality_agent.Base.{
  ℕ, ◌+◌, ◌-◌, ◌^◌, min, Bool, false, ◌&&◌, ◌||◌, Option, none, some, List, [], ◌∷◌, ◌++◌, ltb, leb,
  if◌then◌else◌, replicate, Result, ok, err, ◌>>=◌, ◌>>◌, guard,
}
use mathlib.Core.Option.{get_or as unwrap_or}
use mikrotik_quality_agent.Probe.Net.{SocketAddr, ip_eq}
use mikrotik_quality_agent.Probe.Sender.{
  Ending, fails, panics, sent_time, mark_sent, count_sent, next_expected,
}
use mikrotik_quality_agent.Stats.Sample.{Sample}
use mikrotik_quality_agent.Twamp.Time.{NtpTimestamp, zero_time, round_trip}
use mikrotik_quality_agent.Twamp.Estimate.{unsynchronized}
use mikrotik_quality_agent.Twamp.Packet.{
  SenderPacket, ReflectorPacket, TwampError, encode_sender, decode_reflector, stamp_sender_tx,
  sender_min_len, max_len,
}

pub record TwampConfig : Type 0 where
  pub peer : SocketAddr
  pub count : ℕ
  pub interval : ℕ
  pub payload_bytes : ℕ
  pub dscp : Option ℕ
  pub timeout : ℕ
  pub linger : ℕ

pub data TwampSenderError : Type 0 where
  io_error : TwampSenderError
  bad_packet_size : (requested : ℕ) → TwampSenderError
  empty_run : TwampSenderError

pub record TwampRun : Type 0 where
  pub sent : ℕ
  pub samples : List Sample
  pub late_ticks : ℕ
  pub peer_claims_sync : Bool

-- A sample of a round trip of `rtt` nanoseconds. The protocol tells neither the direction of a loss
-- nor the class of an arrival.
abbrev pub twamp_sample : TwampConfig → ReflectorPacket → ℕ → ℕ → Sample
twamp_sample cfg r rtt arrival_index = record {
  seq = r.sender_sequence;
  reflector_seq = none;
  rtt_ns = min rtt (2 ^ 64 - 1);
  tx_dscp = unwrap_or cfg.dscp 0;
  rx_dscp = none;
  arrival_index = arrival_index;
}

abbrev pub judge : TwampConfig → ReflectorPacket → ℕ → Option ℕ → Option Sample
judge cfg r arrival_index none = none
judge cfg r arrival_index (some rtt) =
    if ltb cfg.timeout rtt then none else some (twamp_sample cfg r rtt arrival_index)

-- From the recorded T1 on.
abbrev pub judge_sent :
    TwampConfig → NtpTimestamp → ReflectorPacket → ℕ → Option NtpTimestamp → Option Sample
judge_sent cfg t4 r arrival_index none = none
judge_sent cfg t4 r arrival_index (some t1) =
    judge cfg r arrival_index (round_trip t1 r.receive_timestamp r.timestamp t4)

abbrev pub accept_twamp_decoded :
    NtpTimestamp
    → TwampConfig
    → List (Option NtpTimestamp)
    → ℕ
    → Bool
    → Result TwampError ReflectorPacket
    → Bool × Option Sample
accept_twamp_decoded t4 cfg sent_at arrival_index claims (err e) = (claims, none)
accept_twamp_decoded t4 cfg sent_at arrival_index claims (ok r) = (
  r.error_estimate.synchronized || claims,
  judge_sent cfg t4 r arrival_index (sent_time sent_at r.sender_sequence),
)

-- `accept`, with `peer_claims_sync` passed in and out.
unfoldable pub accept_twamp :
    List ℕ
    → SocketAddr
    → NtpTimestamp
    → TwampConfig
    → List (Option NtpTimestamp)
    → ℕ
    → Bool
    → Bool × Option Sample
accept_twamp buf peer t4 cfg sent_at arrival_index claims =
    if ip_eq peer.ip cfg.peer.ip
    then accept_twamp_decoded t4 cfg sent_at arrival_index claims (decode_reflector buf)
    else (claims, none)

-- The variables of `run`.
pub record TwampProgress : Type 0 where
  pub sent_at : List (Option NtpTimestamp)
  pub samples : List Sample
  pub arrival_index : ℕ
  pub late_ticks : ℕ
  pub peer_claims_sync : Bool
  pub tx : List ℕ
  pub seq : ℕ

abbrev pub begin : TwampConfig → TwampProgress
begin cfg = record {
  sent_at = replicate cfg.count none;
  samples = [];
  arrival_index = 0;
  late_ticks = 0;
  peer_claims_sync = false;
  tx = replicate cfg.payload_bytes 0;
  seq = 0;
}

-- What `run` does before its loop; `binds` is the outcome of `socket::bind`, and
-- `tokio::time::interval` panics on a period of zero.
unfoldable pub start_twamp : TwampConfig → Bool → Result (Ending TwampSenderError) TwampProgress
start_twamp cfg binds = do
  guard (leb 1 cfg.count) (fails empty_run)
  guard (leb sender_min_len cfg.payload_bytes && leb cfg.payload_bytes max_len)
      (fails (bad_packet_size cfg.payload_bytes))
  guard binds (fails io_error)
  guard (ltb 0 cfg.interval) panics
  ok (begin cfg)

abbrev pub push_sample : TwampProgress → Bool × Option Sample → TwampProgress
push_sample p (claims, none) = record p { peer_claims_sync = claims }
push_sample p (claims, some s) = record p {
  peer_claims_sync = claims;
  samples = p.samples ++ s ∷ [];
  arrival_index = p.arrival_index + 1;
}

pub record TwampArrival : Type 0 where
  pub datagram : List ℕ
  pub peer : SocketAddr
  pub t4 : NtpTimestamp

unfoldable pub take_arrival : TwampConfig → TwampProgress → TwampArrival → TwampProgress
take_arrival cfg p a =
    push_sample p
      (accept_twamp a.datagram a.peer a.t4 cfg p.sent_at p.arrival_index p.peer_claims_sync)

-- `let _ = stamp_sender_tx(...)`: an error would leave the buffer as it is.
abbrev pub stamped_or : List ℕ → Result TwampError (List ℕ) → List ℕ
stamped_or tx (ok out) = out
stamped_or tx (err e) = tx

abbrev pub unsent : ℕ → SenderPacket
unsent seq = record { sequence = seq; timestamp = zero_time; error_estimate = unsynchronized }

abbrev pub sent_one :
    TwampConfig → ℕ → TwampProgress → ℕ → NtpTimestamp → Bool → List ℕ → TwampProgress
sent_one cfg start p now t1 sends tx = record p {
  late_ticks =
      if ltb (next_expected start p.seq cfg.interval) now then p.late_ticks + 1 else p.late_ticks;
  tx = stamped_or tx (stamp_sender_tx tx t1);
  sent_at = mark_sent p.sent_at p.seq t1 sends;
  seq = p.seq + 1;
}

-- A tick at which the clock shows `now`, then `t1`.
unfoldable pub tick_twamp :
    TwampConfig
    → ℕ
    → TwampProgress
    → ℕ
    → NtpTimestamp
    → Bool
    → Result TwampSenderError TwampProgress
tick_twamp cfg start p now t1 sends = elim (encode_sender (unsent p.seq) p.tx) [
  | err e ↦ err (bad_packet_size cfg.payload_bytes)
  | ok tx ↦ ok (sent_one cfg start p now t1 sends tx)
]

pub data TwampEvent : Type 0 where
  heard : TwampArrival → TwampEvent
  deaf : TwampEvent
  due : (now : ℕ) (t1 : NtpTimestamp) (sends : Bool) → TwampEvent

unfoldable pub step_twamp :
    TwampConfig → ℕ → TwampProgress → TwampEvent → Result TwampSenderError TwampProgress
step_twamp cfg start p (heard a) = ok (take_arrival cfg p a)
step_twamp cfg start p deaf = ok p
step_twamp cfg start p (due now t1 sends) = tick_twamp cfg start p now t1 sends

-- The loop `while seq < count`, on the events that wake it.
unfoldable pub send_session :
    TwampConfig → ℕ → TwampProgress → List TwampEvent → Result TwampSenderError TwampProgress
send_session cfg start p [] = ok p
send_session cfg start p (e ∷ events) =
    if ltb p.seq cfg.count
    then (do next ← step_twamp cfg start p e; send_session cfg start next events)
    else ok p

-- The linger phase, up to the first error (`none`), with a deadline in the range of the system's clock.
unfoldable pub linger_session :
    TwampConfig → TwampProgress → List (Option TwampArrival) → TwampProgress
linger_session cfg p [] = p
linger_session cfg p (none ∷ arrivals) = p
linger_session cfg p (some a ∷ arrivals) = linger_session cfg (take_arrival cfg p a) arrivals

abbrev pub finish_session : TwampProgress → TwampRun
finish_session p = record {
  sent = count_sent p.sent_at;
  samples = p.samples;
  late_ticks = p.late_ticks;
  peer_claims_sync = p.peer_claims_sync;
}
