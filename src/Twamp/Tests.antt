-- ===== src/Twamp/Tests.antt =====
-- TWAMP-Light on small packets.
use mikrotik_quality_agent.Base.{
  ℕ, true, false, List, [], ◌∷◌, ◌≡◌, refl, arith, replicate, drop, length, some, ok,
}
use mikrotik_quality_agent.Twamp.Time.{
  NtpTimestamp, from_unix_nanos, to_unix_nanos, round_trip, as_units, duration_since,
}
use mikrotik_quality_agent.Twamp.Packet.{
  SenderPacket, encode_reflector, decode_reflector, reply_to, stamp_reflector_tx,
}
use mikrotik_quality_agent.Twamp.RoundTrip.{decode-reply_to}

abbrev at : ℕ → ℕ → NtpTimestamp
at s f = record { seconds = s; fraction = f }

midnight : to_unix_nanos (from_unix_nanos 1_790_035_200_000_000_000) ≡ 1_790_035_200_000_000_000
unfolding to_unix_nanos from_unix_nanos
midnight = refl

half_a_second : round_trip (at 10 0) (at 900 0) (at 900 2147483648) (at 11 0) ≡ some 500000000
unfolding round_trip duration_since as_units
half_a_second = refl

abbrev packet : SenderPacket
packet = record {
  sequence = 3;
  timestamp = at 10 20;
  error_estimate = record { synchronized = true; scale = 5; multiplier = 7 };
}

decode-reply_to_example :
    (mid : List ℕ) × (out : List ℕ) × (encode_reflector
        (reply_to packet 8 (at 30 40) 255)
        (replicate 42 9)
      ≡ ok mid)
    × (stamp_reflector_tx mid (at 50 60) ≡ ok out)
    × (decode_reflector out
        ≡ ok (record {
          sequence = 8;
          timestamp = at 50 60;
          error_estimate = record { synchronized = false; scale = 12; multiplier = 1 };
          receive_timestamp = at 30 40;
          sender_sequence = packet.sequence;
          sender_timestamp = packet.timestamp;
          sender_error_estimate = packet.error_estimate;
          sender_ttl = 255;
        }))
    × (drop 41 out ≡ 9 ∷ [])
    × (length out ≡ 42)
decode-reply_to_example =
    decode-reply_to packet 8 (at 30 40) (at 50 60) 255 (replicate 42 9)
      (omega arith, (omega arith, omega arith), (omega arith, omega arith)) (omega arith)
      (omega arith, omega arith) (omega arith, omega arith) (omega arith) (omega arith)
