-- ===== src/Twamp/Packet.antt =====
-- The packets of TWAMP-Light: their fields, `encode`, `decode` and the stamps.
use mikrotik_quality_agent.Base.{
  ℕ, not, List, [], ◌∷◌, ltb, length, get_or, to_be_bytes, from_be_bytes, slice, write, Result, ok,
  ◌>>◌, guard,
}
use mikrotik_quality_agent.Twamp.Time.{NtpTimestamp, zero_time, from_bytes, to_bytes}
use mikrotik_quality_agent.Twamp.Estimate.{ErrorEstimate, unsynchronized, from_u16, to_u16}

abbrev pub sender_min_len : ℕ
sender_min_len = 14

abbrev pub reflector_min_len : ℕ
reflector_min_len = 41

abbrev pub max_len : ℕ
max_len = 1400

pub data TwampError : Type 0 where
  too_short : (got need : ℕ) → TwampError
  too_long : (got : ℕ) → TwampError

pub record SenderPacket : Type 0 where
  pub sequence : ℕ
  pub timestamp : NtpTimestamp
  pub error_estimate : ErrorEstimate

pub record ReflectorPacket : Type 0 where
  pub sequence : ℕ
  pub timestamp : NtpTimestamp
  pub error_estimate : ErrorEstimate
  pub receive_timestamp : NtpTimestamp
  pub sender_sequence : ℕ
  pub sender_timestamp : NtpTimestamp
  pub sender_error_estimate : ErrorEstimate
  pub sender_ttl : ℕ

unfoldable pub encode_sender : SenderPacket → List ℕ → Result TwampError (List ℕ)
encode_sender p buf = do
  guard (not (ltb (length buf) sender_min_len)) (too_short (length buf) sender_min_len)
  let buf = write 0 (to_be_bytes 4 p.sequence) buf
  let buf = write 4 (to_bytes p.timestamp) buf
  ok (write 12 (to_be_bytes 2 (to_u16 p.error_estimate)) buf)

abbrev pub read_sender : List ℕ → SenderPacket
read_sender buf = record {
  sequence = from_be_bytes (slice 0 4 buf);
  timestamp = from_bytes (slice 4 8 buf);
  error_estimate = from_u16 (from_be_bytes (slice 12 2 buf));
}

unfoldable pub decode_sender : List ℕ → Result TwampError SenderPacket
decode_sender buf = do
  guard (not (ltb (length buf) sender_min_len)) (too_short (length buf) sender_min_len)
  guard (not (ltb max_len (length buf))) (too_long (length buf))
  ok (read_sender buf)

abbrev pub write_reflector : ReflectorPacket → List ℕ → List ℕ
write_reflector p buf =
    let buf = write 0 (to_be_bytes 4 p.sequence) buf in
    let buf = write 4 (to_bytes p.timestamp) buf in
    let buf = write 12 (to_be_bytes 2 (to_u16 p.error_estimate)) buf in
    let buf = write 14 (0 ∷ 0 ∷ []) buf in
    let buf = write 16 (to_bytes p.receive_timestamp) buf in
    let buf = write 24 (to_be_bytes 4 p.sender_sequence) buf in
    let buf = write 28 (to_bytes p.sender_timestamp) buf in
    let buf = write 36 (to_be_bytes 2 (to_u16 p.sender_error_estimate)) buf in
    let buf = write 38 (0 ∷ 0 ∷ []) buf in write 40 (p.sender_ttl ∷ []) buf

unfoldable pub encode_reflector : ReflectorPacket → List ℕ → Result TwampError (List ℕ)
encode_reflector p buf = do
  guard (not (ltb (length buf) reflector_min_len)) (too_short (length buf) reflector_min_len)
  ok (write_reflector p buf)

abbrev pub read_reflector : List ℕ → ReflectorPacket
read_reflector buf = record {
  sequence = from_be_bytes (slice 0 4 buf);
  timestamp = from_bytes (slice 4 8 buf);
  error_estimate = from_u16 (from_be_bytes (slice 12 2 buf));
  receive_timestamp = from_bytes (slice 16 8 buf);
  sender_sequence = from_be_bytes (slice 24 4 buf);
  sender_timestamp = from_bytes (slice 28 8 buf);
  sender_error_estimate = from_u16 (from_be_bytes (slice 36 2 buf));
  sender_ttl = get_or buf 40 0;
}

unfoldable pub decode_reflector : List ℕ → Result TwampError ReflectorPacket
decode_reflector buf = do
  guard (not (ltb (length buf) reflector_min_len)) (too_short (length buf) reflector_min_len)
  guard (not (ltb max_len (length buf))) (too_long (length buf))
  ok (read_reflector buf)

unfoldable pub reply_to : SenderPacket → ℕ → NtpTimestamp → ℕ → ReflectorPacket
reply_to request own_sequence t2 sender_ttl = record {
  sequence = own_sequence;
  timestamp = zero_time;
  error_estimate = unsynchronized;
  receive_timestamp = t2;
  sender_sequence = request.sequence;
  sender_timestamp = request.timestamp;
  sender_error_estimate = request.error_estimate;
  sender_ttl = sender_ttl;
}

unfoldable pub stamp_reflector_tx : List ℕ → NtpTimestamp → Result TwampError (List ℕ)
stamp_reflector_tx buf t3 = do
  guard (not (ltb (length buf) reflector_min_len)) (too_short (length buf) reflector_min_len)
  ok (write 4 (to_bytes t3) buf)

unfoldable pub stamp_sender_tx : List ℕ → NtpTimestamp → Result TwampError (List ℕ)
stamp_sender_tx buf t1 = do
  guard (not (ltb (length buf) sender_min_len)) (too_short (length buf) sender_min_len)
  ok (write 4 (to_bytes t1) buf)
