-- ===== src/Probe/Twamp/Answers.antt =====
-- Whom the responder answers, and with what.
use mikrotik_quality_agent.Base.{
  ℕ, ◌^◌, ◌≤◌, ◌<◌, max, Bool, true, false, Option, none, some, List, ltb, if◌then◌else◌, take,
  drop, drop_all, replicate, length, length-take, length-write, take-write, write, written_out, ok,
  Result-cases, Bool-cases, le_or_lt, inl, inr, ◌≡◌, refl, sym, ap, ◌∙◌, arith,
}
use mathlib.Core.Option.{get_or as unwrap_or, none-ne-some}
use mikrotik_quality_agent.Probe.Net.{SocketAddr, RecvMeta}
use mikrotik_quality_agent.Probe.Reflector.{Sent}
use mikrotik_quality_agent.Probe.Twamp.Responder.{
  TwampReflector, permits, refuse, reject, sent_off, out_len, advanced, build_reply, send_reply,
  reflect, decoded, handle_twamp,
}
use mikrotik_quality_agent.Twamp.Time.{NtpTimestamp}
use mikrotik_quality_agent.Twamp.Packet.{SenderPacket, decode_sender, decode_reflector, reply_to}
use mikrotik_quality_agent.Twamp.RoundTrip.{IsSenderPacket, IsTime, decode-reply_to}

-- The region of the header is cleared and the rest is kept.
abbrev front : List ℕ → ℕ → List ℕ
front buf n = take (out_len n) (write 0 (replicate 41 0) buf)

drop-cleared :
    (buf : List ℕ) → 41 ≤ length buf → drop 41 (write 0 (replicate 41 0) buf) ≡ drop 41 buf
drop-cleared =
    written_out 41 (λ buf. drop 41 (write 0 (replicate 41 0) buf) ≡ drop 41 buf)
      (λ b0 b1 b2 b3 b4 b5 b6 b7 b8 b9 b10 b11 b12 b13 b14 b15 b16 b17 b18 b19 b20 b21 b22 b23 b24
          b25 b26 b27 b28 b29 b30 b31 b32 b33 b34 b35 b36 b37 b38 b39 b40 rest.
        refl)

-- What is echoed behind the header is the request's own padding, whatever stood in the buffer.
padding-front :
    (buf : List ℕ) (n : ℕ)
    → n ≤ 1400
    → out_len n ≤ length buf
    → drop 41 (front buf n) ≡ drop 41 (take n buf)
padding-front buf n short fits =
    let head = take (out_len n) buf in
    let size : length head ≡ out_len n = omega (arith, length-take (out_len n) buf, fits) in
    ap (drop 41) (take-write (out_len n) 0 (replicate 41 0) buf (omega arith))
    ∙ drop-cleared head (omega (arith, size))
    ∙ (elim (le_or_lt 41 n) [
      | inl long ↦ let e : out_len n ≡ n = omega arith in ap (λ m. drop 41 (take m buf)) e
      | inr brief ↦
          drop_all 41 head (omega (arith, size))
          ∙ sym (drop_all 41 (take n buf) (omega (arith, length-take n buf)))
    ])

length-front : (buf : List ℕ) (n : ℕ) → out_len n ≤ length buf → length (front buf n) ≡ out_len n
length-front buf n fits = omega (
  arith,
  length-take (out_len n) (write 0 (replicate 41 0) buf),
  length-write 0 (replicate 41 0) buf,
  fits,
)

module _ (r : TwampReflector) (buf : List ℕ) (n : ℕ) (peer : SocketAddr) (meta : RecvMeta)
    (t2 t3 : NtpTimestamp) (sends : Bool) where
  -- A permitted sender's request of at most 1400 bytes is answered, to the sender: the reply decodes
  -- to the responder's number and times, the estimate of a clock that is not synchronised, the number,
  -- time and estimate of the request and the TTL it came with; it is as long as the request or, for a
  -- request of less than 41 bytes, 41 bytes long, and behind its header it holds the request's own
  -- padding and nothing else. The responder's number goes up by one.
  pub handle_twamp-answers :
      (request : SenderPacket)
      → permits r.allow_list peer.ip ≡ true
      → decode_sender (take n buf) ≡ ok request
      → IsSenderPacket request
      → r.sequence < 256 ^ 4
      → IsTime t2
      → IsTime t3
      → n ≤ 1400
      → max n 41 ≤ length buf
      → (sent : Sent) × (handle_twamp r buf n peer meta t2 t3 sends
          ≡ (sent_off sends (advanced r), some sent))
        × (sent.to ≡ peer)
        × (decode_reflector sent.bytes
            ≡ ok (record {
              sequence = r.sequence;
              timestamp = t3;
              error_estimate = record { synchronized = false; scale = 12; multiplier = 1 };
              receive_timestamp = t2;
              sender_sequence = request.sequence;
              sender_timestamp = request.timestamp;
              sender_error_estimate = request.error_estimate;
              sender_ttl = unwrap_or meta.ttl 0;
            }))
        × (length sent.bytes ≡ max n 41)
        × (drop 41 sent.bytes ≡ drop 41 (take n buf))
  unfolding handle_twamp reflect build_reply
  handle_twamp-answers request allowed decodes p own h2 h3 short fits =
      let plain = reply_to request r.sequence t2 (unwrap_or meta.ttl 0) in
      let size : length (front buf n) ≡ max n 41 =
        length-front buf n (omega (arith, fits)) ∙ omega arith in
      let (mid, out, encodes, stamps, reads, padding, same) =
        decode-reply_to request r.sequence t2 t3 (unwrap_or meta.ttl 0) (front buf n) p own h2 h3
          (omega (arith, size)) (omega (arith, size)) in
      let builds : build_reply buf n plain t3 ≡ ok out = rw (encodes, build_reply) stamps in
      let room : ltb (length buf) (out_len n) ≡ false = ground (arith, fits) in
      (
        record { bytes = out; to = peer; dscp = unwrap_or meta.dscp 0 },
        ap
              (λ b.
                if b
                then decoded r buf n peer meta t2 t3 sends (decode_sender (take n buf))
                else (refuse r, none))
              allowed
            ∙ ap (decoded r buf n peer meta t2 t3 sends) decodes
            ∙ ap
                (λ b.
                  if b
                  then (reject (advanced r), none)
                  else send_reply (advanced r) peer meta sends (build_reply buf n plain t3))
                room
            ∙ ap (send_reply (advanced r) peer meta sends) builds,
        refl,
        reads,
        same ∙ size,
        padding ∙ padding-front buf n short (omega (arith, fits)),
      )

  silent_twamp :
      {out : TwampReflector × Option Sent} {q : TwampReflector} {sent : Sent} {B : Type 0}
      → out ≡ (q, none)
      → out.1 ≡ some sent
      → B
  silent_twamp {sent = sent} e f = absurd (none-ne-some sent (sym (ap (λ x. x.1) e) ∙ f))

  -- What is handed to the socket answers a datagram that comes from a permitted address and decodes as
  -- a request: everyone else meets silence.
  pub handle_twamp-permitted :
      {sent : Sent}
      → (handle_twamp r buf n peer meta t2 t3 sends).1 ≡ some sent
      → (permits r.allow_list peer.ip ≡ true)
        × ((request : SenderPacket) × (decode_sender (take n buf) ≡ ok request))
  unfolding handle_twamp
  handle_twamp-permitted e = elim (Bool-cases (permits r.allow_list peer.ip)) [
    | inr refused ↦
        silent_twamp
          (ap
            (λ b.
              if b
              then decoded r buf n peer meta t2 t3 sends (decode_sender (take n buf))
              else (refuse r, none))
            refused)
          e
    | inl allowed ↦
        let inside =
          ap
            (λ b.
              if b
              then decoded r buf n peer meta t2 t3 sends (decode_sender (take n buf))
              else (refuse r, none))
            allowed in
        elim (Result-cases (decode_sender (take n buf))) [
          | inl (why, bad) ↦
              silent_twamp (inside ∙ ap (decoded r buf n peer meta t2 t3 sends) bad) e
          | inr (request, good) ↦ (allowed, (request, good))
        ]
  ]
