-- ===== src/Probe/Twamp/Runs.antt =====
-- What a TWAMP-Light session keeps, and which replies become samples.
use mikrotik_quality_agent.Base.{
  ℕ, ◌≤◌, Bool, true, false, Option, none, some, List, [], ◌∷◌, ltb, if◌then◌else◌, length,
  length-append, Result, ok, err, ◌≡◌, refl, sym, ap, ◌∙◌, arith,
}
use mathlib.Core.Option.{some-injective, none-ne-some}
use mikrotik_quality_agent.Probe.Net.{SocketAddr, ip_eq, ip_eq_iff}
use mikrotik_quality_agent.Probe.Sender.{sent_time}
use mikrotik_quality_agent.Probe.Sender.Samples.{Samples, Samples-append}
use mikrotik_quality_agent.Probe.Twamp.Sender.{
  TwampConfig, TwampProgress, TwampArrival, twamp_sample, judge, judge_sent, accept_twamp_decoded,
  accept_twamp, push_sample, take_arrival,
}
use mikrotik_quality_agent.Stats.Sample.{Sample}
use mikrotik_quality_agent.Twamp.Time.{NtpTimestamp, round_trip}
use mikrotik_quality_agent.Twamp.Packet.{ReflectorPacket, TwampError, decode_reflector}

passes :
    {A : Type 0} (b : Bool) {x y : A}
    → (if b then none else some x) ≡ some y
    → (b ≡ false) × (y ≡ x)
passes true e = absurd (none-ne-some _ e)
passes false e = (refl, sym (some-injective _ _ e))

ltb_le : (a b : ℕ) → ltb a b ≡ false → b ≤ a
ltb_le a b e = ground arith

module _ (t4 : NtpTimestamp) (cfg : TwampConfig) (sent_at : List (Option NtpTimestamp))
    (arrival_index : ℕ) where
  -- The reasons for which a reply becomes the sample `s`.
  abbrev pub Measured : ReflectorPacket → Sample → Type 0
  Measured r s =
      (t1 : NtpTimestamp) × (sent_time sent_at r.sender_sequence ≡ some t1)
      × ((rtt : ℕ) × (round_trip t1 r.receive_timestamp r.timestamp t4 ≡ some rtt)
          × (rtt ≤ cfg.timeout)
          × (s ≡ twamp_sample cfg r rtt arrival_index))

  judge_sound :
      (r : ReflectorPacket) (s : Sample) (o : Option ℕ)
      → judge cfg r arrival_index o ≡ some s
      → (rtt : ℕ) × (o ≡ some rtt)
        × (rtt ≤ cfg.timeout)
        × (s ≡ twamp_sample cfg r rtt arrival_index)
  judge_sound r s none e = absurd (none-ne-some s e)
  judge_sound r s (some rtt) e =
      let (quick, same) = passes (ltb cfg.timeout rtt) e in
      (rtt, refl, ltb_le cfg.timeout rtt quick, same)

  judge_sent_sound :
      (r : ReflectorPacket) (s : Sample) (o : Option NtpTimestamp)
      → sent_time sent_at r.sender_sequence ≡ o
      → judge_sent cfg t4 r arrival_index o ≡ some s
      → Measured r s
  judge_sent_sound r s none here e = absurd (none-ne-some s e)
  judge_sent_sound r s (some t1) here e = (t1, here, judge_sound r s _ e)

  decoded_sound :
      (claims : Bool) (got : Result TwampError ReflectorPacket) (s : Sample)
      → (accept_twamp_decoded t4 cfg sent_at arrival_index claims got).1 ≡ some s
      → (r : ReflectorPacket) × (got ≡ ok r) × Measured r s
  decoded_sound claims (err why) s e = absurd (none-ne-some s e)
  decoded_sound claims (ok r) s e = (r, refl, judge_sent_sound r s _ refl e)

  -- A datagram becomes a sample only if it comes from the peer's address, decodes, and answers a
  -- packet that was sent, within the timeout; the sample then has the round trip of the four times.
  pub accept_twamp_sound :
      (buf : List ℕ) (peer : SocketAddr) (claims : Bool) (s : Sample)
      → (accept_twamp buf peer t4 cfg sent_at arrival_index claims).1 ≡ some s
      → (peer.ip ≡ cfg.peer.ip)
        × ((r : ReflectorPacket) × (decode_reflector buf ≡ ok r) × Measured r s)
  unfolding accept_twamp
  accept_twamp_sound buf peer claims s e = by_ip (ip_eq peer.ip cfg.peer.ip) refl e
    where
      by_ip :
          (b : Bool)
          → ip_eq peer.ip cfg.peer.ip ≡ b
          → (if b
              then accept_twamp_decoded t4 cfg sent_at arrival_index claims (decode_reflector buf)
              else (claims, none)).1
            ≡ some s
          → (peer.ip ≡ cfg.peer.ip)
            × ((r : ReflectorPacket) × (decode_reflector buf ≡ ok r) × Measured r s)
      by_ip true same e =
          ((ip_eq_iff peer.ip cfg.peer.ip).0 same, decoded_sound claims (decode_reflector buf) s e)
      by_ip false same e = absurd (none-ne-some s e)

-- A session on its way.
pub record IsProgress (cfg : TwampConfig) (p : TwampProgress) : Type 0 where
  pub tx : length p.tx ≡ cfg.payload_bytes
  pub sent_at : length p.sent_at ≡ cfg.count
  pub seq : p.seq ≤ cfg.count
  pub arrival_index : p.arrival_index ≡ length p.samples
  pub samples : Samples p.sent_at cfg.timeout 0 p.samples

push_sample-IsProgress :
    (cfg : TwampConfig) (p : TwampProgress) (a : TwampArrival) (got : Bool × Option Sample)
    → accept_twamp a.datagram a.peer a.t4 cfg p.sent_at p.arrival_index p.peer_claims_sync ≡ got
    → IsProgress cfg p
    → IsProgress cfg (push_sample p got)
push_sample-IsProgress cfg p a (claims, none) e h = record {
  tx = h.tx;
  sent_at = h.sent_at;
  seq = h.seq;
  arrival_index = h.arrival_index;
  samples = h.samples;
}
push_sample-IsProgress cfg p a (claims, some s) e h =
    let (from, (r, decodes, (t1, sent, (rtt, trip, quick, same)))) =
      accept_twamp_sound a.t4 cfg p.sent_at p.arrival_index a.datagram a.peer p.peer_claims_sync s
        (ap (λ x. x.1) e) in
    record {
      tx = h.tx;
      sent_at = h.sent_at;
      seq = h.seq;
      arrival_index = omega (arith, h.arrival_index, length-append p.samples (s ∷ []));
      samples =
          Samples-append p.sent_at cfg.timeout 0 p.samples s h.samples
            (omega (arith, ap (λ x. x.arrival_index) same, h.arrival_index))
            (λ gone. none-ne-some t1 (sym gone ∙ ap (λ x. sent_time p.sent_at x.seq) same ∙ sent))
            (omega (arith, ap (λ x. x.rtt_ns) same, quick));
    }

pub take_arrival-IsProgress :
    (cfg : TwampConfig) (p : TwampProgress) (a : TwampArrival)
    → IsProgress cfg p
    → IsProgress cfg (take_arrival cfg p a)
unfolding take_arrival
take_arrival-IsProgress cfg p a h = push_sample-IsProgress cfg p a _ refl h
