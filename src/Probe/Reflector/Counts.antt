-- ===== src/Probe/Reflector/Counts.antt =====
-- What the reflector counts, and which sessions it touches.
use mikrotik_quality_agent.Base.{
  ◌==◌, ℕ, ◌+◌, ◌≤◌, Bool, true, false, Option, none, some, List, ◌≡◌, ◌≢◌, refl, ap, ◌∙◌, arith,
  take, length, length-take, ok, Bool-cases, inl, inr, Result-cases, ◌⊎◌,
}
use mikrotik_quality_agent.Base.Dict.{lookup, lookup-insert, nat_key}
use mikrotik_quality_agent.Probe.Net.{SocketAddr, RecvMeta}
use mikrotik_quality_agent.Probe.Reflector.{
  Registry, ReflectorStats, Reflector, accepts, admit, admit_found, admit_session, admitted,
  respond, by_type, handle, count_send,
}
use mikrotik_quality_agent.Mqp.Header.{
  Header, PacketType, request, reply, no_reflect, has_flag, decode,
}
use mikrotik_quality_agent.Mqp.Decode.{decode_iff}
use mikrotik_quality_agent.Probe.Reflector.Answer.{used, respond_lem, handle_decoded}
use mikrotik_quality_agent.Probe.Reflector.{by_type}

abbrev pub counted : ReflectorStats → ℕ
counted s = s.reflected + s.unknown_session + s.malformed + s.send_errors

other_key : (key id : ℕ) → key ≢ id → (key == id) ≡ false
other_key key id h = ground arith

module _ (buf : List ℕ) (n : ℕ) (peer : SocketAddr) (meta : RecvMeta) (t2 t3 : ℕ)
    (sends : Bool) where
  -- What a step may do to the counters: one of them goes up by one, but for a packet that wants no
  -- reply, and `wrong_peer` never changes.
  abbrev Counts : Reflector → Reflector → Type 0
  Counts r after =
      (after.stats.wrong_peer ≡ r.stats.wrong_peer)
      × ((counted after.stats ≡ counted r.stats + 1)
          ⊎ ((counted after.stats ≡ counted r.stats)
              × (h : Header) × (decode (take n buf) ≡ ok h)
              × (has_flag h no_reflect ≡ true)))

  count_send-Counts : (r : Reflector) → Counts r (count_send sends r)
  count_send-Counts r = elim sends as (λ b. Counts r (count_send b r)) [
    | true ↦ (refl, inl (omega arith))
    | false ↦ (refl, inl (omega arith))
  ]

  count_send-registry : (r : Reflector) → (count_send sends r).registry ≡ r.registry
  count_send-registry r = elim sends as (λ b. (count_send b r).registry ≡ r.registry) [
    | true ↦ refl
    | false ↦ refl
  ]

  respond-Counts :
      (r : Reflector) (seq : ℕ)
      → 56 ≤ length buf
      → Counts r (respond r buf n peer meta t2 t3 sends seq).0
  respond-Counts r seq long =
      rw (respond_lem buf n peer meta t2 t3 sends r seq long) (count_send-Counts r)

  decode-long : (h : Header) → decode (take n buf) ≡ ok h → 56 ≤ length buf
  decode-long h e =
      let long = ((decode_iff (take n buf) h).0 e).0.long in omega (arith, length-take n buf)

  admitted-Counts :
      (r : Reflector) (h : Header) (got : Registry × Option ℕ)
      → decode (take n buf) ≡ ok h
      → Counts r (admitted r buf n peer meta t2 t3 sends h got).0
  unfolding admitted
  admitted-Counts r h (reg, none) e = (refl, inl (omega arith))
  admitted-Counts r h (reg, some seq) e = elim (Bool-cases (has_flag h no_reflect)) [
    | inl unwanted ↦ rw unwanted (refl, inr (refl, h, e, unwanted))
    | inr wanted ↦ rw wanted (respond-Counts (record r { registry = reg }) seq (decode-long h e))
  ]

  by_type-Counts :
      (r : Reflector) (h : Header) (t : PacketType)
      → decode (take n buf) ≡ ok h
      → Counts r (by_type r buf n peer meta t2 t3 sends h t).0
  unfolding by_type
  by_type-Counts r h reply e = (refl, inl (omega arith))
  by_type-Counts r h request e = admitted-Counts r h (admit r.registry h.session_id peer) e

  -- Every datagram is counted once, but for a request that wants no reply, and none is ever counted
  -- as one from the wrong peer.
  pub handle-Counts :
      (r : Reflector)
      → ((handle r buf n peer meta t2 t3 sends).0.stats.wrong_peer ≡ r.stats.wrong_peer)
        × ((counted (handle r buf n peer meta t2 t3 sends).0.stats ≡ counted r.stats + 1)
            ⊎ ((counted (handle r buf n peer meta t2 t3 sends).0.stats ≡ counted r.stats)
                × (h : Header) × (decode (take n buf) ≡ ok h)
                × (has_flag h no_reflect ≡ true)))
  unfolding handle
  handle-Counts r = elim (Result-cases (decode (take n buf))) [
    | inl (why, bad) ↦ rw (bad, handle) (refl, inl (omega arith))
    | inr (h, good) ↦
        rw (handle_decoded buf n peer meta t2 t3 sends r h good)
          (by_type-Counts r h h.pkt_type good)
  ]

  admit-others :
      (reg : Registry) (key id : ℕ)
      → key ≢ id
      → lookup id (admit reg key peer).0.sessions ≡ lookup id reg.sessions
  unfolding admit admit_found admit_session
  admit-others reg key id other =
      elim (lookup key reg.sessions)
        as (λ found.
          lookup id (admit_found reg key peer found).0.sessions ≡ lookup id reg.sessions) [
            | none ↦ refl
            | some s ↦
                elim (accepts s peer)
                  as (λ b.
                    lookup id (admit_session reg key s b).0.sessions ≡ lookup id reg.sessions) [
                      | false ↦ refl
                      | true ↦
                          lookup-insert key id (used s) reg.sessions ∙ rw (other_key key id other)
                    ]
          ]

  admitted-registry :
      (r : Reflector) (h : Header) (got : Registry × Option ℕ)
      → decode (take n buf) ≡ ok h
      → (admitted r buf n peer meta t2 t3 sends h got).0.registry ≡ got.0
  unfolding admitted
  admitted-registry r h (reg, none) e = refl
  admitted-registry r h (reg, some seq) e = elim (Bool-cases (has_flag h no_reflect)) [
    | inl unwanted ↦ rw unwanted refl
    | inr wanted ↦ rw wanted (
        ap (λ x. x.0.registry)
          (respond_lem buf n peer meta t2 t3 sends (record r { registry = reg }) seq
            (decode-long h e))
        ∙ count_send-registry (record r { registry = reg }))
  ]

  by_type-others :
      (r : Reflector) (h : Header) (t : PacketType) (id : ℕ)
      → decode (take n buf) ≡ ok h
      → h.session_id ≢ id
      → lookup id (by_type r buf n peer meta t2 t3 sends h t).0.registry.sessions
        ≡ lookup id r.registry.sessions
  unfolding by_type
  by_type-others r h reply id e other = refl
  by_type-others r h request id e other =
      ap (λ reg. lookup id reg.sessions)
        (admitted-registry r h (admit r.registry h.session_id peer) e)
      ∙ admit-others r.registry h.session_id id other

  -- Whatever arrives, no session but the one that the packet names is touched.
  pub handle-others :
      (r : Reflector) (id : ℕ)
      → ((h : Header) → decode (take n buf) ≡ ok h → h.session_id ≢ id)
      → lookup id (handle r buf n peer meta t2 t3 sends).0.registry.sessions
        ≡ lookup id r.registry.sessions
  unfolding handle
  handle-others r id other = elim (Result-cases (decode (take n buf))) [
    | inl (why, bad) ↦ rw (bad, handle) refl
    | inr (h, good) ↦
        rw (handle_decoded buf n peer meta t2 t3 sends r h good)
          (by_type-others r h h.pkt_type id good (other h good))
  ]
