-- ===== src/Probe/Sender/Runs.antt =====
-- What a probe run keeps: its packets are well formed, and its samples are numbered in the order of
-- their arrival, belong to packets that were sent, and are in time.
use mikrotik_quality_agent.Base.{
  leb, Bool-cases, ◌>>=◌, length-replicate, length-append, ℕ, ◌+◌, ◌-◌, ◌%◌, ◌^◌, ◌≤◌, ◌<◌, Bool,
  true, false, Option, none, some, List, [], ◌∷◌, ◌≡◌, refl, sym, ap, ◌∙◌, arith, length, ok, err,
  ltb, if◌then◌else◌, inl, inr,
}
use mikrotik_quality_agent.Probe.Net.{SocketAddr}
use mikrotik_quality_agent.Probe.Sender.{
  ProbeConfig, io, fails, Run, Arrival, start, fresh, sent_packet, record_sample, build_packet,
  accept_reply, sent_time, tick, receive, step, send_all, linger_all, finish, Event, received,
  receive_failed, ticked,
}
use mikrotik_quality_agent.Probe.Sender.Accept.{accept_reply_sound}
use mikrotik_quality_agent.Stats.Sample.{Sample}
use mikrotik_quality_agent.Mqp.Header.{Header, decode, request_header, header_len, wire_len}
use mikrotik_quality_agent.Mqp.RoundTrip.{IsHeader, decode-encode}
use mikrotik_quality_agent.Mqp.Decode.{decode_iff}
use mikrotik_quality_agent.Mqp.Reply.{decode-stamp_t1}
use mikrotik_quality_agent.Probe.Sender.Samples.{
  Samples, Samples-append, Samples-mark_sent, length-mark_sent, count_sent-le,
}
use mathlib.Core.Option.{get_or as unwrap_or, none-ne-some}

abbrev pub probe : ProbeConfig → ℕ → ℕ → Header
probe cfg seq t1 =
    record (request_header cfg.session_id seq (unwrap_or cfg.dscp 0)
      ((cfg.payload_bytes - header_len) % 2 ^ 16)) { t1 = t1 }

-- A configuration that `run` takes, within the ranges of its fields.
pub record IsConfig (cfg : ProbeConfig) : Type 0 where
  pub session_id : cfg.session_id < 256 ^ 8
  pub count : cfg.count < 256 ^ 4
  pub dscp : unwrap_or cfg.dscp 0 < 256
  pub long : 56 ≤ cfg.payload_bytes
  pub short : cfg.payload_bytes ≤ 1400

length-packet : (buf : List ℕ) (h : Header) → decode buf ≡ ok h → length buf ≡ 56 + h.payload_len
length-packet buf h e =
    let (p, same) = (decode_iff buf h).0 e in p.size ∙ ap (λ x. 56 + x.payload_len) (sym same)

pub record IsRun (cfg : ProbeConfig) (r : Run) : Type 0 where
  pub tx_buf : length r.tx_buf ≡ cfg.payload_bytes
  pub sent_at : length r.sent_at ≡ cfg.count
  pub seq : r.seq ≤ cfg.count
  pub arrival_index : r.arrival_index ≡ length r.samples
  pub samples : Samples r.sent_at (cfg.timeout % 2 ^ 64) 0 r.samples

record_sample-IsRun :
    (cfg : ProbeConfig) (r : Run) (peer : SocketAddr) (buf : List ℕ) (t4 dscp : ℕ)
    (o : Option Sample)
    → accept_reply buf peer t4 cfg r.sent_at dscp r.arrival_index ≡ o
    → IsRun cfg r
    → IsRun cfg (record_sample r o)
record_sample-IsRun cfg r peer buf t4 dscp none e p = p
record_sample-IsRun cfg r peer buf t4 dscp (some s) e p =
    let (from, (h, decodes, replies, session, (t1, sent, late, quick, same))) =
      accept_reply_sound cfg t4 dscp r.arrival_index buf peer r.sent_at s e in
    record {
      tx_buf = p.tx_buf;
      sent_at = p.sent_at;
      seq = p.seq;
      arrival_index = omega (arith, p.arrival_index, length-append r.samples (s ∷ []));
      samples =
          Samples-append r.sent_at (cfg.timeout % 2 ^ 64) 0 r.samples s p.samples
            (omega (arith, ap (λ x. x.arrival_index) same, p.arrival_index))
            (λ gone. none-ne-some t1 (sym gone ∙ ap (λ x. sent_time r.sent_at x.seq) same ∙ sent))
            (rw same quick);
    }

-- An arrival keeps the run well formed.
pub receive-IsRun :
    (cfg : ProbeConfig) (r : Run) (a : Arrival) → IsRun cfg r → IsRun cfg (receive cfg r a)
unfolding receive
receive-IsRun cfg r a p =
    record_sample-IsRun cfg r a.peer a.datagram a.t4 (unwrap_or cfg.dscp 0) _ refl p

ltb_lt : (a b : ℕ) → ltb a b ≡ true → a < b
ltb_lt a b e = ground arith

lt_ltb : (a b : ℕ) → a < b → ltb a b ≡ true
lt_ltb a b h = ground arith

le_leb : (a b : ℕ) → a ≤ b → leb a b ≡ true
le_leb a b h = ground arith

start_ok :
    (cfg : ProbeConfig)
    → 1 ≤ cfg.count
    → 56 ≤ cfg.payload_bytes
    → cfg.payload_bytes ≤ 1400
    → 0 < cfg.interval
    → (start cfg true ≡ ok (fresh cfg)) × (start cfg false ≡ err (fails io))
unfolding start
start_ok cfg a b d e =
    rw
      (
        le_leb 1 cfg.count a,
        le_leb 56 cfg.payload_bytes b,
        le_leb cfg.payload_bytes 1400 d,
        lt_ltb 0 cfg.interval e,
      )
      (refl, refl)

module _ (cfg : ProbeConfig) (c : IsConfig cfg) where
  request-IsHeader :
      (seq : ℕ)
      → seq < 256 ^ 4
      → IsHeader (
          request_header cfg.session_id seq
            (unwrap_or cfg.dscp 0)
            ((cfg.payload_bytes - header_len) % 2 ^ 16))
  unfolding request_header
  request-IsHeader seq h = record {
    version = omega arith;
    flags = omega arith;
    session_id = c.session_id;
    seq = h;
    reflector_seq = omega arith;
    t1 = omega arith;
    t2 = omega arith;
    t3 = omega arith;
    tx_dscp = c.dscp;
    rx_dscp = omega arith;
    ttl_fwd = omega arith;
    ttl_rev = omega arith;
    payload_len = omega (arith, c.long, c.short);
  }

  -- The packet of a tick decodes to the request with this sequence number and this T1, and fills the
  -- buffer.
  pub build_packet-decode :
      (r : Run) (t1 : ℕ)
      → r.seq < 256 ^ 4
      → t1 < 256 ^ 8
      → length r.tx_buf ≡ cfg.payload_bytes
      → (out : List ℕ) × (build_packet cfg r t1 ≡ ok out)
        × (decode out ≡ ok (probe cfg r.seq t1))
        × (length out ≡ cfg.payload_bytes)
  unfolding build_packet request_header wire_len
  build_packet-decode r t1 hs ht size =
      let h =
        request_header cfg.session_id r.seq (unwrap_or cfg.dscp 0)
          ((cfg.payload_bytes - header_len) % 2 ^ 16) in
      let (plain, encodes, reads, padding) =
        decode-encode h r.tx_buf (request-IsHeader r.seq hs) refl refl
          (omega (arith, size, c.long, c.short)) in
      let (out, stamps, reads_too, padding_too) = decode-stamp_t1 plain h t1 reads ht in
      (
        out,
        rw (encodes, build_packet) stamps,
        reads_too,
        length-packet out (probe cfg r.seq t1) reads_too ∙ omega (arith, c.long, c.short),
      )

  -- A tick always succeeds: the buffer was checked before the run.
  pub tick-IsRun :
      (run_start : ℕ) (r : Run) (now t1 : ℕ) (sends : Bool)
      → IsRun cfg r
      → r.seq < cfg.count
      → t1 < 256 ^ 8
      → (next : Run) × (tick cfg run_start r now t1 sends ≡ ok next)
        × IsRun cfg next
        × (next.seq ≡ r.seq + 1)
  unfolding tick
  tick-IsRun run_start r now t1 sends p more ht =
      let (out, builds, reads, size) =
        build_packet-decode r t1 (omega (arith, c.count)) ht p.tx_buf in
      (
        sent_packet cfg run_start r now t1 sends out,
        rw (builds, tick) refl,
        record {
          tx_buf = size;
          sent_at = length-mark_sent r.sent_at r.seq t1 sends ∙ p.sent_at;
          seq = omega arith;
          arrival_index = p.arrival_index;
          samples =
              Samples-mark_sent r.sent_at r.seq t1 (cfg.timeout % 2 ^ 64) r.samples sends p.samples;
        },
        refl,
      )

  -- Ticks take the time from a clock of 64 bits.
  abbrev pub ClockedEvent : Event → Type 0
  ClockedEvent (ticked now t1 sends) = t1 < 256 ^ 8
  ClockedEvent (received a) = Unit {0}
  ClockedEvent receive_failed = Unit {0}

  abbrev pub Clocked : List Event → Type 0
  Clocked [] = Unit {0}
  Clocked (e ∷ events) = ClockedEvent e × Clocked events

  step-IsRun :
      (run_start : ℕ) (r : Run) (e : Event)
      → IsRun cfg r
      → r.seq < cfg.count
      → ClockedEvent e
      → (next : Run) × (step cfg run_start r e ≡ ok next) × IsRun cfg next
  unfolding step
  step-IsRun run_start r (received a) p more h = (receive cfg r a, refl, receive-IsRun cfg r a p)
  step-IsRun run_start r receive_failed p more h = (r, refl, p)
  step-IsRun run_start r (ticked now t1 sends) p more h =
      let (next, ticks, q, counts) = tick-IsRun run_start r now t1 sends p more h in
      (next, ticks, q)

  send_all_stops :
      (run_start : ℕ) (r : Run) (e : Event) (events : List Event)
      → ltb r.seq cfg.count ≡ false
      → send_all cfg run_start r (e ∷ events) ≡ ok r
  unfolding send_all
  send_all_stops run_start r e events h =
      ap
        (λ b.
          if b
          then (do next ← step cfg run_start r e; send_all cfg run_start next events)
          else ok r)
        h

  send_all_goes :
      (run_start : ℕ) (r next : Run) (e : Event) (events : List Event)
      → ltb r.seq cfg.count ≡ true
      → step cfg run_start r e ≡ ok next
      → send_all cfg run_start r (e ∷ events) ≡ send_all cfg run_start next events
  unfolding send_all
  send_all_goes run_start r next e events h steps =
      ap
        (λ b.
          if b
          then (do next ← step cfg run_start r e; send_all cfg run_start next events)
          else ok r)
        h
      ∙ ap (λ s. s >>= (λ next. send_all cfg run_start next events)) steps

  -- The loop never fails once it has started, whatever arrives and whenever, and keeps the run well
  -- formed.
  pub send_all-IsRun :
      (run_start : ℕ) (events : List Event) (r : Run)
      → IsRun cfg r
      → Clocked events
      → (end : Run) × (send_all cfg run_start r events ≡ ok end) × IsRun cfg end
  unfolding send_all
  send_all-IsRun run_start [] r p h = (r, refl, p)
  send_all-IsRun run_start (e ∷ events) r p (now, later) = elim (Bool-cases (ltb r.seq cfg.count)) [
    | inr done ↦ (r, send_all_stops run_start r e events done, p)
    | inl more ↦
        let (next, steps, q) = step-IsRun run_start r e p (ltb_lt r.seq cfg.count more) now in
        let (end, runs, q') = send_all-IsRun run_start events next q later in
        (end, send_all_goes run_start r next e events more steps ∙ runs, q')
  ]

  -- The linger phase keeps it well formed too.
  pub linger_all-IsRun :
      (arrivals : List (Option Arrival)) (r : Run)
      → IsRun cfg r
      → IsRun cfg (linger_all cfg r arrivals)
  unfolding linger_all
  linger_all-IsRun [] r p = p
  linger_all-IsRun (none ∷ arrivals) r p = p
  linger_all-IsRun (some a ∷ arrivals) r p =
      linger_all-IsRun arrivals (receive cfg r a) (receive-IsRun cfg r a p)

  fresh-IsRun : IsRun cfg (fresh cfg)
  fresh-IsRun = record {
    tx_buf = length-replicate cfg.payload_bytes 0;
    sent_at = length-replicate cfg.count none;
    seq = omega arith;
    arrival_index = refl;
    samples = tt;
  }

  -- A whole run, from a valid configuration with an interval that is not zero: if the socket cannot be
  -- bound it fails with the error of I/O; if it can, then, whatever arrives and whichever packets
  -- cannot be sent, it ends without an error, reports at most `count` packets as sent, numbers its
  -- samples by arrival, and each of them is of a packet that was sent and was not later than the
  -- timeout.
  pub run_lem :
      (run_start : ℕ) (events : List Event) (arrivals : List (Option Arrival))
      → 1 ≤ cfg.count
      → 0 < cfg.interval
      → Clocked events
      → (start cfg false ≡ err (fails io))
        × ((first : Run) × (last : Run) × (start cfg true ≡ ok first)
            × (send_all cfg run_start first events ≡ ok last)
            × ((finish (linger_all cfg last arrivals)).sent ≤ cfg.count)
            × Samples
                (linger_all cfg last arrivals).sent_at
                (cfg.timeout % 2 ^ 64)
                0
                (finish (linger_all cfg last arrivals)).samples)
  run_lem run_start events arrivals some_packets paced h =
      let (starts, unbound) = start_ok cfg some_packets c.long c.short paced in
      let (last, runs, q) = send_all-IsRun run_start events (fresh cfg) fresh-IsRun h in
      let w = linger_all-IsRun arrivals last q in
      (
        unbound,
        (
          fresh cfg,
          last,
          starts,
          runs,
          omega (arith, count_sent-le (linger_all cfg last arrivals).sent_at, w.sent_at),
          w.samples,
        ),
      )
