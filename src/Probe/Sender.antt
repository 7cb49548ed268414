-- ===== src/Probe/Sender.antt =====
-- agent/src/probe/sender.rs: one probe run. Its select loop is a step on `Run` for each event; the
-- clock's readings and the outcome of `send_to` are part of the event. Durations are nanoseconds, and
-- arithmetic on `u64` wraps, as in the release build. The counters of 32 bits stay below the numbers of
-- arrivals and ticks and are written without the wrap.
pub mod Accept
pub mod Samples
pub mod Runs
use mikrotik_quality_agent.Base.{
  ℕ, zero, suc, ◌+◌, ◌-◌, ◌*◌, ◌%◌, ◌^◌, Bool, true, false, ◌&&◌, ◌||◌, Option, none, some, List,
  [], ◌∷◌, ltb, leb, ◌==◌, if◌then◌else◌, ◌++◌, set, replicate, get_elem?, Result, ok, err, ◌>>=◌,
  ◌>>◌, guard,
}
use mikrotik_quality_agent.Probe.Net.{SocketAddr, RecvMeta, ip_eq}
use mikrotik_quality_agent.Mqp.Header.{
  Header, PacketType, request, reply, decode, DecodeError, request_header, encode, stamp_t1,
  header_len, max_packet_len,
}
use mikrotik_quality_agent.Stats.Sample.{Sample}
use mathlib.Core.Option.{get_or as unwrap_or}

pub record ProbeConfig : Type 0 where
  pub session_id : ℕ
  pub peer : SocketAddr
  pub count : ℕ
  pub interval : ℕ
  pub payload_bytes : ℕ
  pub dscp : Option ℕ
  pub timeout : ℕ
  pub linger : ℕ

pub data ProbeError : Type 0 where
  io : ProbeError
  bad_packet_size : (requested : ℕ) → ProbeError
  empty_run : ProbeError

pub record ProbeRun : Type 0 where
  pub sent : ℕ
  pub samples : List Sample
  pub late_ticks : ℕ

abbrev pub is_reply : PacketType → Bool
is_reply request = false
is_reply reply = true

-- `*sent_at.get(seq)?` and then `t1?`.
abbrev pub sent_time : {T : Type 0} → List (Option T) → ℕ → Option T
sent_time [] seq = none
sent_time (t ∷ sent_at) zero = t
sent_time (t ∷ sent_at) (suc seq) = sent_time sent_at seq

abbrev pub sample : Header → ℕ → ℕ → ℕ → Sample
sample h rtt_ns requested_dscp arrival_index = record {
  seq = h.seq;
  reflector_seq = some h.reflector_seq;
  rtt_ns = rtt_ns;
  tx_dscp = requested_dscp;
  rx_dscp = if ltb 0 h.ttl_fwd then some h.rx_dscp else none;
  arrival_index = arrival_index;
}

-- `(t4 - t1) - (t3 - t2)`, where the brackets and the difference stop at 0.
abbrev pub rtt : Header → ℕ → ℕ → ℕ
rtt h t1 t4 = (t4 - t1) - (h.t3 - h.t2)

-- `accept_reply`, from the time at which the packet was sent on.
unfoldable pub accept_timed : ProbeConfig → ℕ → ℕ → ℕ → Header → Option ℕ → Option Sample
accept_timed cfg t4 requested_dscp arrival_index h none = none
accept_timed cfg t4 requested_dscp arrival_index h (some t1) =
    if ltb t4 t1
    then none
    else (if ltb (cfg.timeout % 2 ^ 64) (rtt h t1 t4)
        then none
        else some (sample h (rtt h t1 t4) requested_dscp arrival_index))

unfoldable pub accept_decoded :
    ProbeConfig → ℕ → List (Option ℕ) → ℕ → ℕ → Result DecodeError Header → Option Sample
accept_decoded cfg t4 sent_at requested_dscp arrival_index (err e) = none
accept_decoded cfg t4 sent_at requested_dscp arrival_index (ok h) =
    if is_reply h.pkt_type && (h.session_id == cfg.session_id)
    then accept_timed cfg t4 requested_dscp arrival_index h (sent_time sent_at h.seq)
    else none

unfoldable pub accept_reply :
    List ℕ → SocketAddr → ℕ → ProbeConfig → List (Option ℕ) → ℕ → ℕ → Option Sample
accept_reply buf peer t4 cfg sent_at requested_dscp arrival_index =
    if ip_eq peer.ip cfg.peer.ip
    then accept_decoded cfg t4 sent_at requested_dscp arrival_index (decode buf)
    else none

-- The variables of `run`.
pub record Run : Type 0 where
  pub sent_at : List (Option ℕ)
  pub samples : List Sample
  pub arrival_index : ℕ
  pub late_ticks : ℕ
  pub tx_buf : List ℕ
  pub seq : ℕ

abbrev pub fresh : ProbeConfig → Run
fresh cfg = record {
  sent_at = replicate cfg.count none;
  samples = [];
  arrival_index = 0;
  late_ticks = 0;
  tx_buf = replicate cfg.payload_bytes 0;
  seq = 0;
}

-- How a run ends that does not reach its loop.
pub data Ending (E : Type 0) : Type 0 where
  fails : E → Ending E
  panics : Ending E

-- What `run` does before its loop, and its variables there. `binds` is the outcome of `socket::bind`;
-- `tokio::time::interval` panics on a period of zero.
unfoldable pub start : ProbeConfig → Bool → Result (Ending ProbeError) Run
start cfg binds = do
  guard (leb 1 cfg.count) (fails empty_run)
  guard (leb header_len cfg.payload_bytes && leb cfg.payload_bytes max_packet_len)
      (fails (bad_packet_size cfg.payload_bytes))
  guard binds (fails io)
  guard (ltb 0 cfg.interval) panics
  ok (fresh cfg)

abbrev pub record_sample : Run → Option Sample → Run
record_sample r none = r
record_sample r (some s) = record r {
  samples = r.samples ++ s ∷ [];
  arrival_index = r.arrival_index + 1;
}

-- A datagram and the time of its arrival.
pub record Arrival : Type 0 where
  pub datagram : List ℕ
  pub peer : SocketAddr
  pub t4 : ℕ

-- An arrival, in the loop and in the linger phase.
unfoldable pub receive : ProbeConfig → Run → Arrival → Run
receive cfg r a =
    record_sample r
      (accept_reply a.datagram a.peer a.t4 cfg r.sent_at (unwrap_or cfg.dscp 0) r.arrival_index)

-- The packet of a tick: the buffer after `encode` and `stamp_t1`.
unfoldable pub build_packet : ProbeConfig → Run → ℕ → Result DecodeError (List ℕ)
build_packet cfg r t1 = do
  tx_buf ←
      encode
        (request_header cfg.session_id r.seq (unwrap_or cfg.dscp 0)
          ((cfg.payload_bytes - header_len) % 2 ^ 16))
        r.tx_buf
  stamp_t1 tx_buf t1

-- A tick at which the clock shows `now`, then `t1`, and `send_to` succeeds or not.
abbrev pub mark_sent : {T : Type 0} → List (Option T) → ℕ → T → Bool → List (Option T)
mark_sent sent_at seq t1 true = set sent_at seq (some t1)
mark_sent sent_at seq t1 false = sent_at

-- `expected + interval`: the next tick after that of `seq`. `as_nanos() as u64` drops the upper bits.
abbrev pub next_expected : ℕ → ℕ → ℕ → ℕ
next_expected run_start seq interval =
    let nanos = interval % 2 ^ 64 in
    let expected = (run_start + seq * nanos % 2 ^ 64) % 2 ^ 64 in (expected + nanos) % 2 ^ 64

abbrev pub sent_packet : ProbeConfig → ℕ → Run → ℕ → ℕ → Bool → List ℕ → Run
sent_packet cfg run_start r now t1 sends tx_buf = record r {
  late_ticks =
      if ltb (next_expected run_start r.seq cfg.interval) now
      then r.late_ticks + 1
      else r.late_ticks;
  tx_buf = tx_buf;
  sent_at = mark_sent r.sent_at r.seq t1 sends;
  seq = r.seq + 1;
}

unfoldable pub tick : ProbeConfig → ℕ → Run → ℕ → ℕ → Bool → Result ProbeError Run
tick cfg run_start r now t1 sends = elim (build_packet cfg r t1) [
  | err e ↦ err (bad_packet_size cfg.payload_bytes)
  | ok tx_buf ↦ ok (sent_packet cfg run_start r now t1 sends tx_buf)
]

-- What wakes the loop.
pub data Event : Type 0 where
  received : Arrival → Event
  receive_failed : Event
  ticked : (now t1 : ℕ) (sends : Bool) → Event

unfoldable pub step : ProbeConfig → ℕ → Run → Event → Result ProbeError Run
step cfg run_start r (received a) = ok (receive cfg r a)
step cfg run_start r receive_failed = ok r
step cfg run_start r (ticked now t1 sends) = tick cfg run_start r now t1 sends

-- The loop `while seq < count`, on the events that wake it.
unfoldable pub send_all : ProbeConfig → ℕ → Run → List Event → Result ProbeError Run
send_all cfg run_start r [] = ok r
send_all cfg run_start r (e ∷ events) =
    if ltb r.seq cfg.count
    then (do next ← step cfg run_start r e; send_all cfg run_start next events)
    else ok r

-- The linger phase: what arrives before the deadline, up to the first error (`none`). The deadline is
-- taken to lie in the range of the system's clock.
unfoldable pub linger_all : ProbeConfig → Run → List (Option Arrival) → Run
linger_all cfg r [] = r
linger_all cfg r (none ∷ arrivals) = r
linger_all cfg r (some a ∷ arrivals) = linger_all cfg (receive cfg r a) arrivals

unfoldable pub count_sent : {T : Type 0} → List (Option T) → ℕ
count_sent [] = 0
count_sent (none ∷ sent_at) = count_sent sent_at
count_sent (some t ∷ sent_at) = count_sent sent_at + 1

abbrev pub finish : Run → ProbeRun
finish r = record { sent = count_sent r.sent_at; samples = r.samples; late_ticks = r.late_ticks }
