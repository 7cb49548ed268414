-- ===== src/Probe/Twamp/Session.antt =====
-- A whole TWAMP-Light session, of agent/src/probe/twamp.rs.
use mikrotik_quality_agent.Base.{
  err, false, ℕ, ◌+◌, ◌^◌, ◌≤◌, ◌<◌, Bool, true, Option, none, some, List, [], ◌∷◌, ltb, leb,
  if◌then◌else◌, length, length-replicate, Result, ok, ◌>>=◌, Bool-cases, inl, inr, ◌≡◌, refl, ap,
  ◌∙◌, arith,
}
use mikrotik_quality_agent.Probe.Sender.Samples.{
  Samples, Samples-mark_sent, length-mark_sent, count_sent-le,
}
use mikrotik_quality_agent.Probe.Sender.{fails}
use mikrotik_quality_agent.Probe.Twamp.Sender.{
  TwampConfig, TwampSenderError, io_error, TwampProgress, TwampArrival, TwampEvent, heard, deaf,
  due, begin, start_twamp, take_arrival, unsent, sent_one, tick_twamp, step_twamp, send_session,
  linger_session, finish_session,
}
use mikrotik_quality_agent.Probe.Twamp.Runs.{IsProgress, take_arrival-IsProgress}
use mikrotik_quality_agent.Twamp.Time.{NtpTimestamp}
use mikrotik_quality_agent.Twamp.Packet.{decode_sender}
use mikrotik_quality_agent.Twamp.RoundTrip.{IsTime, decode_sender-stamp_sender_tx}

-- A configuration that `run` takes, within the ranges of its fields.
pub record IsTwampConfig (cfg : TwampConfig) : Type 0 where
  pub count : cfg.count < 256 ^ 4
  pub long : 14 ≤ cfg.payload_bytes
  pub short : cfg.payload_bytes ≤ 1400

le_leb : (a b : ℕ) → a ≤ b → leb a b ≡ true
le_leb a b h = ground arith

lt_ltb : (a b : ℕ) → a < b → ltb a b ≡ true
lt_ltb a b h = ground arith

ltb_lt : (a b : ℕ) → ltb a b ≡ true → a < b
ltb_lt a b e = ground arith

module _ (cfg : TwampConfig) (c : IsTwampConfig cfg) where
  -- A tick always succeeds: the buffer was checked before the session. The datagram it sends decodes
  -- to this sequence number and the clock's last reading.
  pub tick_twamp-IsProgress :
      (start : ℕ) (p : TwampProgress) (now : ℕ) (t1 : NtpTimestamp) (sends : Bool)
      → IsProgress cfg p
      → p.seq < cfg.count
      → IsTime t1
      → (next : TwampProgress) × (tick_twamp cfg start p now t1 sends ≡ ok next)
        × IsProgress cfg next
        × (next.seq ≡ p.seq + 1)
        × (decode_sender next.tx ≡ ok (record (unsent p.seq) { timestamp = t1 }))
  unfolding tick_twamp
  tick_twamp-IsProgress start p now t1 sends h more ht =
      let (mid, out, encodes, stamps, reads, same) =
        decode_sender-stamp_sender_tx (unsent p.seq) t1 p.tx
          (omega (arith, c.count), (omega arith, omega arith), (omega arith, omega arith)) ht
          (omega (arith, h.tx, c.long)) (omega (arith, h.tx, c.short)) in
      let keeps : (sent_one cfg start p now t1 sends mid).tx ≡ out = rw stamps refl in
      (
        sent_one cfg start p now t1 sends mid,
        rw (encodes, tick_twamp) refl,
        record {
          tx = ap length keeps ∙ same ∙ h.tx;
          sent_at = length-mark_sent p.sent_at p.seq t1 sends ∙ h.sent_at;
          seq = omega arith;
          arrival_index = h.arrival_index;
          samples = Samples-mark_sent p.sent_at p.seq t1 cfg.timeout p.samples sends h.samples;
        },
        refl,
        ap decode_sender keeps ∙ reads,
      )

  -- The clock of a tick gives seconds and fractions of 32 bits.
  abbrev pub TimelyEvent : TwampEvent → Type 0
  TimelyEvent (heard a) = Unit {0}
  TimelyEvent deaf = Unit {0}
  TimelyEvent (due now t1 sends) = IsTime t1

  abbrev pub Timely : List TwampEvent → Type 0
  Timely [] = Unit {0}
  Timely (e ∷ events) = TimelyEvent e × Timely events

  step_twamp-IsProgress :
      (start : ℕ) (p : TwampProgress) (e : TwampEvent)
      → IsProgress cfg p
      → p.seq < cfg.count
      → TimelyEvent e
      → (next : TwampProgress) × (step_twamp cfg start p e ≡ ok next) × IsProgress cfg next
  unfolding step_twamp
  step_twamp-IsProgress start p (heard a) h more w =
      (take_arrival cfg p a, refl, take_arrival-IsProgress cfg p a h)
  step_twamp-IsProgress start p deaf h more w = (p, refl, h)
  step_twamp-IsProgress start p (due now t1 sends) h more w =
      let (next, ticks, q, counts, reads) = tick_twamp-IsProgress start p now t1 sends h more w in
      (next, ticks, q)

  abbrev going :
      ℕ
      → TwampProgress
      → TwampEvent
      → List TwampEvent
      → Bool
      → Result TwampSenderError TwampProgress
  going start p e events b =
      if b then (do next ← step_twamp cfg start p e; send_session cfg start next events) else ok p

  send_session-IsProgress :
      (start : ℕ) (events : List TwampEvent) (p : TwampProgress)
      → IsProgress cfg p
      → Timely events
      → (end : TwampProgress) × (send_session cfg start p events ≡ ok end) × IsProgress cfg end
  unfolding send_session
  send_session-IsProgress start [] p h w = (p, refl, h)
  send_session-IsProgress start (e ∷ events) p h (now, later) =
      elim (Bool-cases (ltb p.seq cfg.count)) [
        | inr done ↦ (p, ap (going start p e events) done, h)
        | inl more ↦
            let (next, steps, q) =
              step_twamp-IsProgress start p e h (ltb_lt p.seq cfg.count more) now in
            let (end, runs, q') = send_session-IsProgress start events next q later in
            (
              end,
              ap (going start p e events) more
                  ∙ ap (λ s. s >>= (λ next. send_session cfg start next events)) steps
                  ∙ runs,
              q',
            )
      ]

  linger_session-IsProgress :
      (arrivals : List (Option TwampArrival)) (p : TwampProgress)
      → IsProgress cfg p
      → IsProgress cfg (linger_session cfg p arrivals)
  unfolding linger_session
  linger_session-IsProgress [] p h = h
  linger_session-IsProgress (none ∷ arrivals) p h = h
  linger_session-IsProgress (some a ∷ arrivals) p h =
      linger_session-IsProgress arrivals (take_arrival cfg p a) (take_arrival-IsProgress cfg p a h)

  start_twamp-IsProgress :
      1 ≤ cfg.count
      → 0 < cfg.interval
      → (start_twamp cfg false ≡ err (fails io_error))
        × (start_twamp cfg true ≡ ok (begin cfg))
        × IsProgress cfg (begin cfg)
  unfolding start_twamp
  start_twamp-IsProgress some_packets paced = (
    rw
        (
          le_leb 1 cfg.count some_packets,
          le_leb 14 cfg.payload_bytes c.long,
          le_leb cfg.payload_bytes 1400 c.short,
        )
        refl,
    rw
        (
          le_leb 1 cfg.count some_packets,
          le_leb 14 cfg.payload_bytes c.long,
          le_leb cfg.payload_bytes 1400 c.short,
          lt_ltb 0 cfg.interval paced,
        )
        refl,
    record {
      tx = length-replicate cfg.payload_bytes 0;
      sent_at = length-replicate cfg.count none;
      seq = omega arith;
      arrival_index = refl;
      samples = tt;
    },
  )

  -- A whole session, from a valid configuration with an interval that is not zero: if the socket
  -- cannot be bound it fails with the error of I/O; if it can, then, whatever arrives and whichever
  -- packets cannot be sent, it ends without an error, reports at most `count` packets as sent, numbers
  -- its samples by arrival, and each of them is of a packet that was sent and was not later than the
  -- timeout.
  pub session_lem :
      (start : ℕ) (events : List TwampEvent) (arrivals : List (Option TwampArrival))
      → 1 ≤ cfg.count
      → 0 < cfg.interval
      → Timely events
      → (start_twamp cfg false ≡ err (fails io_error))
        × ((first : TwampProgress) × (last : TwampProgress) × (start_twamp cfg true ≡ ok first)
            × (send_session cfg start first events ≡ ok last)
            × ((finish_session (linger_session cfg last arrivals)).sent ≤ cfg.count)
            × Samples
                (linger_session cfg last arrivals).sent_at
                cfg.timeout
                0
                (finish_session (linger_session cfg last arrivals)).samples)
  session_lem start events arrivals some_packets paced w =
      let (unbound, starts, h) = start_twamp-IsProgress some_packets paced in
      let (last, runs, q) = send_session-IsProgress start events (begin cfg) h w in
      let end = linger_session-IsProgress arrivals last q in
      (
        unbound,
        (
          begin cfg,
          last,
          starts,
          runs,
          omega (arith, count_sent-le (linger_session cfg last arrivals).sent_at, end.sent_at),
          end.samples,
        ),
      )
