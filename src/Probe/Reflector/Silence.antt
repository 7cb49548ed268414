-- ===== src/Probe/Reflector/Silence.antt =====
-- When the reflector stays silent.
use mikrotik_quality_agent.Base.{
  false≢true, ℕ, Bool, true, false, Option, none, some, List, ◌≡◌, refl, sym, ap, ◌∙◌, take, ok,
  err, Bool-cases, Option-cases, inl, inr, Result-cases, ◌⊎◌,
}
use mikrotik_quality_agent.Base.Dict.{lookup, nat_key}
use mikrotik_quality_agent.Probe.Net.{SocketAddr, RecvMeta}
use mikrotik_quality_agent.Probe.Reflector.{
  Session, Registry, Reflector, Sent, accepts, admit, admit_found, admit_session, admitted, by_type,
  handle, count_malformed,
}
use mikrotik_quality_agent.Mqp.Header.{
  Header, PacketType, request, reply, no_reflect, has_flag, decode, DecodeError,
}
use mikrotik_quality_agent.Probe.Reflector.Answer.{admit_known, handle_decoded, handle_request}
use mikrotik_quality_agent.Probe.Reflector.{by_type}

abbrev is_some : Option Sent → Bool
is_some none = false
is_some (some x) = true

type-cases : (t : PacketType) → (t ≡ request) ⊎ (t ≡ reply)
type-cases request = inl refl
type-cases reply = inr refl

module _ (buf : List ℕ) (n : ℕ) (peer : SocketAddr) (meta : RecvMeta) (t2 t3 : ℕ)
    (sends : Bool) where
  -- The reasons for which a datagram is reflected.
  pub record Authorised (r : Reflector) (h : Header) : Type 0 where
    pub decodes : decode (take n buf) ≡ ok h
    pub is_request : h.pkt_type ≡ request
    pub session : Session
    pub known : lookup h.session_id r.registry.sessions ≡ some session
    pub accepted : accepts session peer ≡ true
    pub wanted : has_flag h no_reflect ≡ false

  -- The branches on which nothing is handed to the socket.
  admit_unknown :
      (reg : Registry) (id : ℕ) → lookup id reg.sessions ≡ none → admit reg id peer ≡ (reg, none)
  unfolding admit admit_found admit_session
  admit_unknown reg id e = ap (admit_found reg id peer) e

  admit_stranger :
      (reg : Registry) (id : ℕ) (s : Session)
      → lookup id reg.sessions ≡ some s
      → accepts s peer ≡ false
      → admit reg id peer ≡ (reg, none)
  unfolding admit admit_found admit_session
  admit_stranger reg id s e h = ap (admit_found reg id peer) e ∙ ap (admit_session reg id s) h

  handle_malformed :
      (r : Reflector) (e : DecodeError)
      → decode (take n buf) ≡ err e
      → handle r buf n peer meta t2 t3 sends ≡ (count_malformed r, none)
  unfolding handle
  handle_malformed r e h = rw (h, handle)

  handle_reply :
      (r : Reflector) (h : Header)
      → h.pkt_type ≡ reply
      → by_type r buf n peer meta t2 t3 sends h h.pkt_type ≡ (count_malformed r, none)
  unfolding by_type
  handle_reply r h e = ap (by_type r buf n peer meta t2 t3 sends h) e

  admitted_unwanted :
      (r : Reflector) (h : Header) (reg : Registry) (seq : ℕ)
      → has_flag h no_reflect ≡ true
      → admitted r buf n peer meta t2 t3 sends h (reg, some seq)
        ≡ (record r { registry = reg }, none)
  unfolding admitted
  admitted_unwanted r h reg seq e = rw e

  silent :
      {out : Reflector × Option Sent} {r : Reflector} {sent : Sent} {B : Type 0}
      → out ≡ (r, none)
      → out.1 ≡ some sent
      → B
  silent e f = absurd (false≢true (ap is_some (sym (ap (λ x. x.1) e) ∙ f)))

  -- The reflector stays silent on everything else: what it hands to the socket is a reply to a
  -- request that decodes, comes from the peer of a granted session and asks for a reply.
  pub handle-Authorised :
      (r : Reflector) {sent : Sent}
      → (handle r buf n peer meta t2 t3 sends).1 ≡ some sent
      → (h : Header) × Authorised r h
  unfolding admitted
  handle-Authorised r {sent} e = elim (Result-cases (decode (take n buf))) [
    | inl (why, bad) ↦ silent (handle_malformed r why bad) e
    | inr (h, good) ↦ elim (type-cases h.pkt_type) [
      | inr is_reply ↦
          silent (handle_decoded buf n peer meta t2 t3 sends r h good ∙ handle_reply r h is_reply) e
      | inl is_request ↦
          let to_admitted =
            handle_decoded buf n peer meta t2 t3 sends r h good
            ∙ handle_request buf n peer meta t2 t3 sends r h is_request in
          let registry_says = admitted r buf n peer meta t2 t3 sends h in
          elim (Option-cases (lookup h.session_id r.registry.sessions)) [
            | inl missing ↦
                silent
                  (to_admitted ∙ ap registry_says (admit_unknown r.registry h.session_id missing)) e
            | inr (s, known) ↦ elim (Bool-cases (accepts s peer)) [
              | inr stranger ↦
                  silent
                    (to_admitted
                      ∙ ap registry_says (admit_stranger r.registry h.session_id s known stranger))
                    e
              | inl accepted ↦
                  let to_flag =
                    to_admitted
                    ∙ ap registry_says
                        (admit_known r.registry h.session_id peer s known accepted) in
                  elim (Bool-cases (has_flag h no_reflect)) [
                    | inl unwanted ↦
                        silent (to_flag ∙ admitted_unwanted r h _ s.reflector_seq unwanted) e
                    | inr wanted ↦ (
                      h,
                      record {
                        decodes = good;
                        is_request = is_request;
                        session = s;
                        known = known;
                        accepted = accepted;
                        wanted = wanted;
                      },
                    )
                  ]
            ]
          ]
    ]
  ]
