-- ===== src/Twamp/RoundTrip.antt =====
-- What goes through the wire of TWAMP-Light and back.
use mikrotik_quality_agent.Base.{
  ℕ, ◌≤◌, ◌<◌, ◌^◌, true, false, not, List, ltb, ◌≡◌, refl, ap, ◌∙◌, arith, length, length-write,
  drop, to_be_bytes, from_be_bytes, from_be_bytes-to_be_bytes, write, written_out, ok,
}
use mikrotik_quality_agent.Twamp.Time.{NtpTimestamp, to_bytes}
use mikrotik_quality_agent.Twamp.Estimate.{
  ErrorEstimate, unsynchronized, from_u16, to_u16, IsEstimate, from_u16-to_u16, to_u16-lt,
}
use mikrotik_quality_agent.Twamp.Packet.{
  SenderPacket, ReflectorPacket, encode_sender, decode_sender, read_sender, encode_reflector,
  decode_reflector, read_reflector, write_reflector, reply_to, stamp_reflector_tx, stamp_sender_tx,
}

abbrev pub IsTime : NtpTimestamp → Type 0
IsTime t = (t.seconds < 256 ^ 4) × (t.fraction < 256 ^ 4)

abbrev pub IsSenderPacket : SenderPacket → Type 0
IsSenderPacket p = (p.sequence < 256 ^ 4) × IsTime p.timestamp × IsEstimate p.error_estimate

-- The wire's copies of a number, a time and an estimate.
abbrev word : ℕ → ℕ
word v = from_be_bytes (to_be_bytes 4 v)

abbrev time : NtpTimestamp → NtpTimestamp
time t = record { seconds = word t.seconds; fraction = word t.fraction }

abbrev estimate : ErrorEstimate → ErrorEstimate
estimate e = from_u16 (from_be_bytes (to_be_bytes 2 (to_u16 e)))

time_lem : (t : NtpTimestamp) → IsTime t → time t ≡ t
time_lem t (s, f) = λ i. record {
  seconds = from_be_bytes-to_be_bytes 4 t.seconds s i;
  fraction = from_be_bytes-to_be_bytes 4 t.fraction f i;
}

estimate_lem : (e : ErrorEstimate) → IsEstimate e → estimate e ≡ e
estimate_lem e p =
    ap from_u16 (from_be_bytes-to_be_bytes 2 (to_u16 e) (to_u16-lt e p)) ∙ from_u16-to_u16 e p

long_enough : (n m : ℕ) → m ≤ n → not (ltb n m) ≡ true
long_enough n m h = ground arith

abbrev written_sender : SenderPacket → List ℕ → List ℕ
written_sender p buf =
    write 12 (to_be_bytes 2 (to_u16 p.error_estimate))
      (write 4 (to_bytes p.timestamp) (write 0 (to_be_bytes 4 p.sequence) buf))

length-written_sender :
    (p : SenderPacket) (buf : List ℕ) → length (written_sender p buf) ≡ length buf
length-written_sender p buf = simp length-write

read-written_sender :
    (p : SenderPacket) (buf : List ℕ)
    → 14 ≤ length buf
    → (read_sender (written_sender p buf) ≡ record {
      sequence = word p.sequence;
      timestamp = time p.timestamp;
      error_estimate = estimate p.error_estimate;
    })
      × (drop 14 (written_sender p buf) ≡ drop 14 buf)
read-written_sender p =
    written_out 14
      (λ buf.
        (read_sender (written_sender p buf) ≡ record {
          sequence = word p.sequence;
          timestamp = time p.timestamp;
          error_estimate = estimate p.error_estimate;
        })
        × (drop 14 (written_sender p buf) ≡ drop 14 buf))
      (λ b0 b1 b2 b3 b4 b5 b6 b7 b8 b9 b10 b11 b12 b13 rest. (refl, refl))

-- A sender's packet survives encoding into a buffer of 14 to 1400 bytes, whose padding stays.
pub decode_sender-encode_sender :
    (p : SenderPacket) (buf : List ℕ)
    → IsSenderPacket p
    → 14 ≤ length buf
    → length buf ≤ 1400
    → (out : List ℕ) × (encode_sender p buf ≡ ok out)
      × (decode_sender out ≡ ok p)
      × (drop 14 out ≡ drop 14 buf)
unfolding encode_sender decode_sender
decode_sender-encode_sender p buf (sequence, timestamp, error_estimate) long short =
    let out = written_sender p buf in
    let (reads, padding) = read-written_sender p buf long in
    let same = length-written_sender p buf in
    (
      out,
      rw (long_enough (length buf) 14 long) refl,
      rw (long_enough (length out) 14 (omega (arith, same, long))) (
          rw (long_enough 1400 (length out) (omega (arith, same, short))) (
            ap ok (
              reads ∙ (λ i. record {
                sequence = from_be_bytes-to_be_bytes 4 p.sequence sequence i;
                timestamp = time_lem p.timestamp timestamp i;
                error_estimate = estimate_lem p.error_estimate error_estimate i;
              })))),
      padding,
    )

abbrev stamped_sender : SenderPacket → NtpTimestamp → List ℕ → List ℕ
stamped_sender p t1 buf = write 4 (to_bytes t1) (written_sender p buf)

length-stamped_sender :
    (p : SenderPacket) (t1 : NtpTimestamp) (buf : List ℕ)
    → length (stamped_sender p t1 buf) ≡ length buf
length-stamped_sender p t1 buf = simp length-write

read-stamped_sender :
    (p : SenderPacket) (t1 : NtpTimestamp) (buf : List ℕ)
    → 14 ≤ length buf
    → read_sender (stamped_sender p t1 buf) ≡ record {
      sequence = word p.sequence;
      timestamp = time t1;
      error_estimate = estimate p.error_estimate;
    }
read-stamped_sender p t1 =
    written_out 14
      (λ buf. read_sender (stamped_sender p t1 buf) ≡ record {
        sequence = word p.sequence;
        timestamp = time t1;
        error_estimate = estimate p.error_estimate;
      })
      (λ b0 b1 b2 b3 b4 b5 b6 b7 b8 b9 b10 b11 b12 b13 rest. refl)

-- A sender's packet, encoded and then stamped with T1, decodes to itself with that T1 and keeps the
-- buffer's length.
pub decode_sender-stamp_sender_tx :
    (p : SenderPacket) (t1 : NtpTimestamp) (buf : List ℕ)
    → IsSenderPacket p
    → IsTime t1
    → 14 ≤ length buf
    → length buf ≤ 1400
    → (mid : List ℕ) × (out : List ℕ) × (encode_sender p buf ≡ ok mid)
      × (stamp_sender_tx mid t1 ≡ ok out)
      × (decode_sender out ≡ ok (record p { timestamp = t1 }))
      × (length out ≡ length buf)
unfolding encode_sender decode_sender stamp_sender_tx
decode_sender-stamp_sender_tx p t1 buf (sequence, timestamp, error_estimate) h1 long short =
    let mid = written_sender p buf in
    let out = stamped_sender p t1 buf in
    let same_mid = length-written_sender p buf in
    let same = length-stamped_sender p t1 buf in
    (
      mid,
      out,
      rw (long_enough (length buf) 14 long) refl,
      rw (long_enough (length mid) 14 (omega (arith, same_mid, long))) refl,
      rw (long_enough (length out) 14 (omega (arith, same, long))) (
          rw (long_enough 1400 (length out) (omega (arith, same, short))) (
            ap ok (
              read-stamped_sender p t1 buf long ∙ (λ i. record {
                sequence = from_be_bytes-to_be_bytes 4 p.sequence sequence i;
                timestamp = time_lem t1 h1 i;
                error_estimate = estimate_lem p.error_estimate error_estimate i;
              })))),
      same,
    )

module _ (p : ReflectorPacket) (t3 : NtpTimestamp) where
  abbrev answered : List ℕ → List ℕ
  answered buf = write 4 (to_bytes t3) (write_reflector p buf)

  abbrev on_wire : ReflectorPacket
  on_wire = record {
    sequence = word p.sequence;
    timestamp = time t3;
    error_estimate = estimate p.error_estimate;
    receive_timestamp = time p.receive_timestamp;
    sender_sequence = word p.sender_sequence;
    sender_timestamp = time p.sender_timestamp;
    sender_error_estimate = estimate p.sender_error_estimate;
    sender_ttl = p.sender_ttl;
  }

  length-answered : (buf : List ℕ) → length (answered buf) ≡ length buf
  length-answered buf = simp length-write

  length-write_reflector : (buf : List ℕ) → length (write_reflector p buf) ≡ length buf
  length-write_reflector buf = simp length-write

  read-answered :
      (buf : List ℕ)
      → 41 ≤ length buf
      → (read_reflector (answered buf) ≡ on_wire) × (drop 41 (answered buf) ≡ drop 41 buf)
  read-answered =
      written_out 41
        (λ buf. (read_reflector (answered buf) ≡ on_wire) × (drop 41 (answered buf) ≡ drop 41 buf))
        (λ b0 b1 b2 b3 b4 b5 b6 b7 b8 b9 b10 b11 b12 b13 b14 b15 b16 b17 b18 b19 b20 b21 b22 b23 b24
            b25 b26 b27 b28 b29 b30 b31 b32 b33 b34 b35 b36 b37 b38 b39 b40 rest.
          (refl, refl))

-- The reply to a request, encoded into a buffer of 41 to 1400 bytes and stamped with T3, decodes to
-- what the responder saw, field by field: its own number, T3 and T2, the estimate of a clock that is
-- not synchronised, the request's number, time and estimate, and the TTL. It keeps the buffer's length
-- and its padding.
pub decode-reply_to :
    (request : SenderPacket) (own_sequence : ℕ) (t2 t3 : NtpTimestamp) (ttl : ℕ) (buf : List ℕ)
    → IsSenderPacket request
    → own_sequence < 256 ^ 4
    → IsTime t2
    → IsTime t3
    → 41 ≤ length buf
    → length buf ≤ 1400
    → (mid : List ℕ) × (out : List ℕ) × (encode_reflector (reply_to request own_sequence t2 ttl) buf
        ≡ ok mid)
      × (stamp_reflector_tx mid t3 ≡ ok out)
      × (decode_reflector out
          ≡ ok (record {
            sequence = own_sequence;
            timestamp = t3;
            error_estimate = record { synchronized = false; scale = 12; multiplier = 1 };
            receive_timestamp = t2;
            sender_sequence = request.sequence;
            sender_timestamp = request.timestamp;
            sender_error_estimate = request.error_estimate;
            sender_ttl = ttl;
          }))
      × (drop 41 out ≡ drop 41 buf)
      × (length out ≡ length buf)
unfolding encode_reflector decode_reflector stamp_reflector_tx reply_to
decode-reply_to request own_sequence t2 t3 ttl buf (sequence, timestamp, error_estimate) own h2 h3
      long short =
    let p = reply_to request own_sequence t2 ttl in
    let mid = write_reflector p buf in
    let out = answered p t3 buf in
    let (reads, padding) = read-answered p t3 buf long in
    let same = length-answered p t3 buf in
    let same_mid = length-write_reflector p t3 buf in
    (
      mid,
      out,
      rw (long_enough (length buf) 41 long) refl,
      rw (long_enough (length mid) 41 (omega (arith, same_mid, long))) refl,
      rw (long_enough (length out) 41 (omega (arith, same, long))) (
          rw (long_enough 1400 (length out) (omega (arith, same, short))) (
            ap ok (
              reads ∙ (λ i. record {
                sequence = from_be_bytes-to_be_bytes 4 own_sequence own i;
                timestamp = time_lem t3 h3 i;
                error_estimate = estimate_lem unsynchronized (omega arith, omega arith) i;
                receive_timestamp = time_lem t2 h2 i;
                sender_sequence = from_be_bytes-to_be_bytes 4 request.sequence sequence i;
                sender_timestamp = time_lem request.timestamp timestamp i;
                sender_error_estimate = estimate_lem request.error_estimate error_estimate i;
                sender_ttl = ttl;
              })))),
      padding,
      same,
    )
