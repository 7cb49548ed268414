-- ===== src/Probe/Twamp/Tests.antt =====
-- Small runs of the TWAMP-Light plane.
use mikrotik_quality_agent.Base.{
  err, ◌+◌, ℕ, ◌≤◌, true, false, none, some, List, [], ◌∷◌, ◌≡◌, refl, ok, arith, length, take,
  drop, replicate,
}
use mathlib.Core.Option.{get_or as unwrap_or}
use mikrotik_quality_agent.Probe.Net.{v4, SocketAddr, RecvMeta}
use mikrotik_quality_agent.Probe.Clock.{Clock, now_ntp, round_trip-now_ntp}
use mikrotik_quality_agent.Probe.Reflector.{Sent}
use mikrotik_quality_agent.Probe.Sender.Samples.{Samples}
use mikrotik_quality_agent.Probe.Twamp.Responder.{
  TwampReflector, handle_twamp, permits, allow, new_allow_list, sent_off, advanced,
}
use mikrotik_quality_agent.Probe.Twamp.Answers.{handle_twamp-answers, handle_twamp-permitted}
use mikrotik_quality_agent.Probe.Twamp.Sender.{
  TwampConfig, io_error, TwampProgress, accept_twamp, unsent, start_twamp, send_session,
  linger_session, finish_session, deaf, due,
}
use mikrotik_quality_agent.Probe.Sender.{fails}
use mikrotik_quality_agent.Probe.Twamp.Session.{IsTwampConfig, session_lem}
use mikrotik_quality_agent.Probe.Twamp.EndToEnd.{accept_twamp-handle_twamp}
use mikrotik_quality_agent.Twamp.Time.{NtpTimestamp, round_trip, duration_since, as_units}
use mikrotik_quality_agent.Twamp.Estimate.{from_u16}
use mikrotik_quality_agent.Twamp.Packet.{SenderPacket, decode_sender, decode_reflector}

abbrev at : ℕ → ℕ → NtpTimestamp
at s f = record { seconds = s; fraction = f }

abbrev sender_at : SocketAddr
sender_at = record { ip = v4 7; port = 40000 }

abbrev responder_at : SocketAddr
responder_at = record { ip = v4 9; port = 862 }

abbrev config : TwampConfig
config = record {
  peer = responder_at;
  count = 2;
  interval = 20;
  payload_bytes = 16;
  dscp = some 46;
  timeout = 2000000000;
  linger = 100;
}

abbrev responder : TwampReflector
responder = record {
  allow_list = allow new_allow_list (v4 7);
  sequence = 8;
  stats = record { reflected = 0; refused = 0; malformed = 0; send_errors = 0 };
}

-- The first packet, sent at 10 s, in a buffer that something else has used.
abbrev buffer : List ℕ
buffer = 0 ∷ 0 ∷ 0 ∷ 0 ∷ 0 ∷ 0 ∷ 0 ∷ 10 ∷ 0 ∷ 0 ∷ 0 ∷ 0 ∷ 12 ∷ 1 ∷ 5 ∷ 6 ∷ replicate 40 9

abbrev request : SenderPacket
request = record (unsent 0) { timestamp = at 10 0 }

buffer_decodes : decode_sender (take 16 buffer) ≡ ok request
unfolding decode_sender from_u16
buffer_decodes = refl

abbrev arrived : RecvMeta
arrived = record { dscp = some 46; ttl = some 60 }

permitted : permits responder.allow_list (v4 7) ≡ true
permitted = refl

stranger_refused :
    (handle_twamp responder buffer 16 responder_at arrived (at 900 0) (at 900 5) true).1 ≡ none
unfolding handle_twamp
stranger_refused = refl

handle_twamp-answers_example :
    (sent : Sent) × (handle_twamp responder buffer 16 sender_at arrived (at 900 0) (at 900 5) true
      ≡ (sent_off true (advanced responder), some sent))
    × (sent.to ≡ sender_at)
    × (decode_reflector sent.bytes
        ≡ ok (record {
          sequence = responder.sequence;
          timestamp = at 900 5;
          error_estimate = record { synchronized = false; scale = 12; multiplier = 1 };
          receive_timestamp = at 900 0;
          sender_sequence = request.sequence;
          sender_timestamp = request.timestamp;
          sender_error_estimate = request.error_estimate;
          sender_ttl = unwrap_or arrived.ttl 0;
        }))
    × (length sent.bytes ≡ 41)
    × (drop 41 sent.bytes ≡ [])
handle_twamp-answers_example =
    handle_twamp-answers responder buffer 16 sender_at arrived (at 900 0) (at 900 5) true request
      permitted buffer_decodes (omega arith, (omega arith, omega arith), (omega arith, omega arith))
      (omega arith) (omega arith, omega arith) (omega arith, omega arith) (omega arith)
      (omega arith)

trip : round_trip (at 10 0) (at 900 0) (at 900 2147483648) (at 11 0) ≡ some 500000000
unfolding round_trip duration_since as_units
trip = refl

accept_twamp-handle_twamp_example :
    (sent : Sent) × ((handle_twamp responder buffer 16 sender_at arrived
        (at 900 0)
        (at 900 2147483648)
        true).1
      ≡ some sent)
    × (accept_twamp sent.bytes responder_at (at 11 0) config (some (at 10 0) ∷ none ∷ []) 0 false
        ≡ (
          false,
          some (record {
            seq = 0;
            reflector_seq = none;
            rtt_ns = 500000000;
            tx_dscp = 46;
            rx_dscp = none;
            arrival_index = 0;
          }),
        ))
accept_twamp-handle_twamp_example =
    accept_twamp-handle_twamp config (some (at 10 0) ∷ none ∷ []) (at 10 0) (at 900 0)
      (at 900 2147483648) (at 11 0) 0 0 500000000 false buffer 16 sender_at responder_at arrived
      true responder buffer_decodes permitted (omega arith) (omega arith) (omega arith)
      (omega arith) (omega arith, omega arith) (omega arith, omega arith) (omega arith, omega arith)
      refl refl trip (omega arith)

back :
    (sent : Sent) × ((handle_twamp responder buffer 16 sender_at arrived
        (at 900 0)
        (at 900 2147483648)
        true).1
      ≡ some sent)
    × (accept_twamp sent.bytes responder_at (at 11 0) config (some (at 10 0) ∷ none ∷ []) 0 false
        ≡ (
          false,
          some (record {
            seq = 0;
            reflector_seq = none;
            rtt_ns = 500000000;
            tx_dscp = 46;
            rx_dscp = none;
            arrival_index = 0;
          }),
        ))
back =
    accept_twamp-handle_twamp config (some (at 10 0) ∷ none ∷ []) (at 10 0) (at 900 0)
      (at 900 2147483648) (at 11 0) 0 0 500000000 false buffer 16 sender_at responder_at arrived
      true responder buffer_decodes permitted (omega arith) (omega arith) (omega arith)
      (omega arith) (omega arith, omega arith) (omega arith, omega arith) (omega arith, omega arith)
      refl refl trip (omega arith)

handle_twamp-permitted_example :
    (permits responder.allow_list (v4 7) ≡ true)
    × ((r : SenderPacket) × (decode_sender (take 16 buffer) ≡ ok r))
handle_twamp-permitted_example =
    handle_twamp-permitted responder buffer 16 sender_at arrived (at 900 0) (at 900 2147483648) true
      back.1

config-IsTwampConfig : IsTwampConfig config
config-IsTwampConfig = record { count = omega arith; long = omega arith; short = omega arith }

session_lem_example :
    (start_twamp config false ≡ err (fails io_error))
    × ((first : TwampProgress) × (last : TwampProgress) × (start_twamp config true ≡ ok first)
        × (send_session config 0 first (due 0 (at 10 0) true ∷ deaf ∷ due 20 (at 11 0) false ∷ [])
            ≡ ok last)
        × ((finish_session (linger_session config last [])).sent ≤ 2)
        × Samples
            (linger_session config last []).sent_at
            2000000000
            0
            (finish_session (linger_session config last [])).samples)
session_lem_example =
    session_lem config config-IsTwampConfig 0
      (due 0 (at 10 0) true ∷ deaf ∷ due 20 (at 11 0) false ∷ []) [] (omega arith) (omega arith)
      ((omega arith, omega arith), (tt, ((omega arith, omega arith), tt)))

-- A sender in 2026 and a responder whose clock was never set.
abbrev sender_clock : Clock
sender_clock = record { wall_origin_nanos = 1790035200000000000 }

abbrev responder_clock : Clock
responder_clock = record { wall_origin_nanos = 0 }

round_trip-now_ntp_example :
    (rtt : ℕ) × (round_trip
        (now_ntp sender_clock 5)
        (now_ntp responder_clock 100)
        (now_ntp responder_clock 400)
        (now_ntp sender_clock 20005)
      ≡ some rtt)
    × (rtt ≤ 19701)
    × (19700 ≤ rtt + 1)
round_trip-now_ntp_example =
    round_trip-now_ntp sender_clock responder_clock 5 20005 100 400 (omega arith) (omega arith)
      (omega arith) (omega arith) (omega arith)
