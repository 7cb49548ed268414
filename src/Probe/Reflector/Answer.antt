-- ===== src/Probe/Reflector/Answer.antt =====
-- What the reflector answers to an authorised request.
use mikrotik_quality_agent.Base.{
  ℕ, ◌+◌, ◌%◌, ◌^◌, ◌≤◌, Bool, true, false, some, List, ◌≡◌, refl, ap, ◌∙◌, arith, take, drop,
  length, length-take, ok,
}
use mikrotik_quality_agent.Base.Dict.{lookup, insert, nat_key}
use mikrotik_quality_agent.Probe.Net.{SocketAddr, RecvMeta}
use mikrotik_quality_agent.Probe.Reflector.{
  Session, Registry, Reflector, Sent, accepts, admit, admit_found, admit_session, admitted, respond,
  by_type, handle, count_send, reply_ttl,
}
use mikrotik_quality_agent.Mqp.Header.{Header, request, no_reflect, has_flag, decode}
use mikrotik_quality_agent.Mqp.Decode.{decode_iff}
use mikrotik_quality_agent.Mqp.Reply.{
  ReplyFields, as_reply, replied, reply_steps, take-replied, decode-replied, FitReply,
}
use mathlib.Core.Option.{get_or as unwrap_or}

-- The session after one more packet.
abbrev pub used : Session → Session
used s = record s { reflector_seq = (s.reflector_seq + 1) % 2 ^ 32; packets = s.packets + 1 }

abbrev pub with_session : Registry → ℕ → Session → Registry
with_session reg id s = record { sessions = insert id s reg.sessions }

-- What the reflector adds to a reply.
abbrev pub answer : RecvMeta → ℕ → ℕ → ℕ → ReplyFields
answer meta t2 t3 seq = record {
  reflector_seq = seq;
  t2 = t2;
  t3 = t3;
  rx_dscp = unwrap_or meta.dscp 0;
  ttl_fwd = unwrap_or meta.ttl 0;
  ttl_rev = reply_ttl;
}

pub admit_known :
    (reg : Registry) (id : ℕ) (from : SocketAddr) (s : Session)
    → lookup id reg.sessions ≡ some s
    → accepts s from ≡ true
    → admit reg id from ≡ (with_session reg id (used s), some s.reflector_seq)
unfolding admit admit_found admit_session
admit_known reg id from s e h = ap (admit_found reg id from) e ∙ ap (admit_session reg id s) h

module _ (buf : List ℕ) (n : ℕ) (peer : SocketAddr) (meta : RecvMeta) (t2 t3 : ℕ)
    (sends : Bool) where
  pub respond_lem :
      (r : Reflector) (seq : ℕ)
      → 56 ≤ length buf
      → respond r buf n peer meta t2 t3 sends seq ≡ (
        count_send sends r,
        some (record {
          bytes = take n (replied (answer meta t2 t3 seq) buf);
          to = peer;
          dscp = unwrap_or meta.dscp 0;
        }),
      )
  unfolding respond
  respond_lem r seq long =
      let (made, stamped) = reply_steps (answer meta t2 t3 seq) buf long in
      rw (made, respond) (rw (stamped, respond))

  pub handle_decoded :
      (r : Reflector) (h : Header)
      → decode (take n buf) ≡ ok h
      → handle r buf n peer meta t2 t3 sends ≡ by_type r buf n peer meta t2 t3 sends h h.pkt_type
  unfolding handle
  handle_decoded r h e = rw (e, handle)

  pub handle_request :
      (r : Reflector) (h : Header)
      → h.pkt_type ≡ request
      → by_type r buf n peer meta t2 t3 sends h h.pkt_type
        ≡ admitted r buf n peer meta t2 t3 sends h (admit r.registry h.session_id peer)
  unfolding by_type
  handle_request r h e = ap (by_type r buf n peer meta t2 t3 sends h) e

  admitted_wanted :
      (r : Reflector) (h : Header) (reg : Registry) (seq : ℕ)
      → has_flag h no_reflect ≡ false
      → admitted r buf n peer meta t2 t3 sends h (reg, some seq)
        ≡ respond (record r { registry = reg }) buf n peer meta t2 t3 sends seq
  unfolding admitted
  admitted_wanted r h reg seq e = rw e

  -- An authorised request is answered: the reply goes to the sender, decodes to the request with the
  -- session's sequence number, both readings of the clock and what was observed of the datagram, and
  -- has the request's padding. The session's sequence number and packet count go up by one, and
  -- `reflected` or `send_errors` too.
  pub handle-answers :
      (r : Reflector) (h : Header) (s : Session)
      → n ≤ length buf
      → decode (take n buf) ≡ ok h
      → h.pkt_type ≡ request
      → lookup h.session_id r.registry.sessions ≡ some s
      → accepts s peer ≡ true
      → has_flag h no_reflect ≡ false
      → FitReply (answer meta t2 t3 s.reflector_seq)
      → (sent : Sent) × (handle r buf n peer meta t2 t3 sends ≡ (
        count_send sends (record r { registry = with_session r.registry h.session_id (used s) }),
        some sent,
      ))
        × (sent.to ≡ peer)
        × (decode sent.bytes ≡ ok (as_reply h (answer meta t2 t3 s.reflector_seq)))
        × (drop 56 sent.bytes ≡ drop 56 (take n buf))
  handle-answers r h s fits decodes is_request known accepted wanted ranges =
      let long = ((decode_iff (take n buf) h).0 decodes).0.long in
      let enough : 56 ≤ n = omega (arith, length-take n buf) in
      let a = answer meta t2 t3 s.reflector_seq in
      let (reads, padding) = decode-replied a (take n buf) h decodes ranges in
      let same = take-replied a n buf enough in
      (
        record { bytes = take n (replied a buf); to = peer; dscp = unwrap_or meta.dscp 0 },
        handle_decoded r h decodes
            ∙ handle_request r h is_request
            ∙ ap (admitted r buf n peer meta t2 t3 sends h)
                (admit_known r.registry h.session_id peer s known accepted)
            ∙ admitted_wanted r h _ s.reflector_seq wanted
            ∙ respond_lem (record r { registry = with_session r.registry h.session_id (used s) })
                s.reflector_seq (omega (arith, fits)),
        refl,
        rw same reads,
        rw same padding,
      )
