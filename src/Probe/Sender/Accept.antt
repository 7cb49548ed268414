-- ===== src/Probe/Sender/Accept.antt =====
-- Which replies become samples.
use mathlib.Core.Option.{some-injective, none-ne-some}
use mikrotik_quality_agent.Base.{
  ◌&&◌, ◌==◌, ==_iff, ltb, if◌then◌else◌, false≢true, ℕ, ◌≤◌, ◌%◌, ◌^◌, Bool, true, false, Option,
  none, some, List, ◌≡◌, refl, sym, ap, ◌∙◌, arith, ok, err, Result,
}
use mikrotik_quality_agent.Probe.Net.{SocketAddr, ip_eq, ip_eq_iff}
use mikrotik_quality_agent.Probe.Sender.{
  ProbeConfig, is_reply, sent_time, sample, rtt, accept_timed, accept_decoded, accept_reply,
}
use mikrotik_quality_agent.Mqp.Header.{Header, PacketType, request, reply, decode, DecodeError}
use mikrotik_quality_agent.Stats.Sample.{Sample}

-- Two tests that must fail, and one that must hold.
passed_both :
    {A : Type 0} (b c : Bool) {x y : A}
    → (if b then none else (if c then none else some x)) ≡ some y
    → (b ≡ false) × (c ≡ false) × (y ≡ x)
passed_both true c e = absurd (none-ne-some _ e)
passed_both false true e = absurd (none-ne-some _ e)
passed_both false false {x} e = (refl, refl, sym (some-injective _ _ e))

passed :
    {A : Type 0} (b : Bool) {o : Option A} {y : A}
    → (if b then o else none) ≡ some y
    → (b ≡ true) × (o ≡ some y)
passed true e = (refl, e)
passed false e = absurd (none-ne-some _ e)

ltb_le : (a b : ℕ) → ltb a b ≡ false → b ≤ a
ltb_le a b e = ground arith

le_ltb : (a b : ℕ) → b ≤ a → ltb a b ≡ false
le_ltb a b h = ground arith

and_true : (a b : Bool) → (a && b) ≡ true → (a ≡ true) × (b ≡ true)
and_true a b e = ground arith

is_reply_lem : (t : PacketType) → is_reply t ≡ true → t ≡ reply
is_reply_lem request e = absurd (false≢true e)
is_reply_lem reply e = refl

module _ (cfg : ProbeConfig) (t4 requested_dscp arrival_index : ℕ) where
  abbrev InTime : Header → List (Option ℕ) → Sample → Type 0
  InTime h sent_at s =
      (t1 : ℕ) × (sent_time sent_at h.seq ≡ some t1)
      × (t1 ≤ t4)
      × (rtt h t1 t4 ≤ cfg.timeout % 2 ^ 64)
      × (s ≡ sample h (rtt h t1 t4) requested_dscp arrival_index)

  timed_sound :
      (h : Header) (sent_at : List (Option ℕ)) (s : Sample) (o : Option ℕ)
      → sent_time sent_at h.seq ≡ o
      → accept_timed cfg t4 requested_dscp arrival_index h o ≡ some s
      → InTime h sent_at s
  unfolding accept_timed
  timed_sound h sent_at s none here e = absurd (none-ne-some s e)
  timed_sound h sent_at s (some t1) here e =
      let (early, slow, same) =
        passed_both (ltb t4 t1) (ltb (cfg.timeout % 2 ^ 64) (rtt h t1 t4)) e in
      (t1, here, ltb_le t4 t1 early, ltb_le (cfg.timeout % 2 ^ 64) (rtt h t1 t4) slow, same)

  decoded_sound :
      (sent_at : List (Option ℕ)) (got : Result DecodeError Header) (s : Sample)
      → accept_decoded cfg t4 sent_at requested_dscp arrival_index got ≡ some s
      → (h : Header) × (got ≡ ok h)
        × (h.pkt_type ≡ reply)
        × (h.session_id ≡ cfg.session_id)
        × InTime h sent_at s
  unfolding accept_decoded
  decoded_sound sent_at (err why) s e = absurd (none-ne-some s e)
  decoded_sound sent_at (ok h) s e =
      let (tests, timed) = passed (is_reply h.pkt_type && (h.session_id == cfg.session_id)) e in
      let (replies, session) =
        and_true (is_reply h.pkt_type) (h.session_id == cfg.session_id) tests in
      (
        h,
        refl,
        is_reply_lem h.pkt_type replies,
        (==_iff h.session_id cfg.session_id).0 session,
        timed_sound h sent_at s (sent_time sent_at h.seq) refl timed,
      )

  -- A datagram becomes a sample only if it comes from the peer's address, decodes, is a reply of this
  -- session to a packet that was sent, and not before it, and is not too late; the sample then has
  -- the round trip less the reflector's delay.
  pub accept_reply_sound :
      (buf : List ℕ) (peer : SocketAddr) (sent_at : List (Option ℕ)) (s : Sample)
      → accept_reply buf peer t4 cfg sent_at requested_dscp arrival_index ≡ some s
      → (peer.ip ≡ cfg.peer.ip)
        × ((h : Header) × (decode buf ≡ ok h)
            × (h.pkt_type ≡ reply)
            × (h.session_id ≡ cfg.session_id)
            × ((t1 : ℕ) × (sent_time sent_at h.seq ≡ some t1)
                × (t1 ≤ t4)
                × (rtt h t1 t4 ≤ cfg.timeout % 2 ^ 64)
                × (s ≡ sample h (rtt h t1 t4) requested_dscp arrival_index)))
  unfolding accept_reply
  accept_reply_sound buf peer sent_at s e =
      let (here, decoded) = passed (ip_eq peer.ip cfg.peer.ip) e in
      ((ip_eq_iff peer.ip cfg.peer.ip).0 here, decoded_sound sent_at (decode buf) s decoded)

  timed_complete :
      (h : Header) (sent_at : List (Option ℕ)) (t1 : ℕ)
      → sent_time sent_at h.seq ≡ some t1
      → t1 ≤ t4
      → rtt h t1 t4 ≤ cfg.timeout % 2 ^ 64
      → accept_timed cfg t4 requested_dscp arrival_index h (sent_time sent_at h.seq)
        ≡ some (sample h (rtt h t1 t4) requested_dscp arrival_index)
  unfolding accept_timed
  timed_complete h sent_at t1 sent late quick =
      let outcome = some (sample h (rtt h t1 t4) requested_dscp arrival_index) in
      ap (accept_timed cfg t4 requested_dscp arrival_index h) sent
      ∙ ap
          (λ b.
            if b
            then none
            else (if ltb (cfg.timeout % 2 ^ 64) (rtt h t1 t4) then none else outcome))
          (le_ltb t4 t1 late)
      ∙ ap (λ b. if b then none else outcome) (le_ltb (cfg.timeout % 2 ^ 64) (rtt h t1 t4) quick)

  -- Under the same conditions it does become that sample.
  pub accept_reply_complete :
      (buf : List ℕ) (peer : SocketAddr) (sent_at : List (Option ℕ)) (h : Header) (t1 : ℕ)
      → peer.ip ≡ cfg.peer.ip
      → decode buf ≡ ok h
      → h.pkt_type ≡ reply
      → h.session_id ≡ cfg.session_id
      → sent_time sent_at h.seq ≡ some t1
      → t1 ≤ t4
      → rtt h t1 t4 ≤ cfg.timeout % 2 ^ 64
      → accept_reply buf peer t4 cfg sent_at requested_dscp arrival_index
        ≡ some (sample h (rtt h t1 t4) requested_dscp arrival_index)
  unfolding accept_reply accept_decoded
  accept_reply_complete buf peer sent_at h t1 from decodes replies session sent late quick =
      let decoded = accept_decoded cfg t4 sent_at requested_dscp arrival_index in
      let timed = accept_timed cfg t4 requested_dscp arrival_index h (sent_time sent_at h.seq) in
      ap (λ b. if b then decoded (decode buf) else none) ((ip_eq_iff peer.ip cfg.peer.ip).1 from)
      ∙ ap decoded decodes
      ∙ ap (λ t. if is_reply t && (h.session_id == cfg.session_id) then timed else none) replies
      ∙ ap (λ b. if b then timed else none) ((==_iff h.session_id cfg.session_id).1 session)
      ∙ timed_complete h sent_at t1 sent late quick
