-- ===== src/Probe/Tests.antt =====
-- Small runs of the probe plane.
use mikrotik_quality_agent.Base.{
  ℕ, true, false, none, some, List, [], ◌∷◌, ◌≡◌, refl, ok, arith, ◌≢◌, ◌≤◌, ◌⊎◌, Result, err, sym,
  ap, ◌∙◌, drop, take,
}
use mikrotik_quality_agent.Base.Dict.{lookup, insert, nat_key}
use mikrotik_quality_agent.Probe.Net.{v4, SocketAddr, RecvMeta}
use mikrotik_quality_agent.Probe.Reflector.{Reflector, Session, grant, handle}
use mikrotik_quality_agent.Probe.Sender.{
  accept_reply, sent_time, sample, rtt, start, fails, io, send_all, linger_all, finish, ProbeConfig,
  Run, receive_failed, ticked,
}
use mikrotik_quality_agent.Mqp.Crc.{crc16_ccitt, crc_bytes, crc_byte, crc_rounds, crc_shift}
use mikrotik_quality_agent.Probe.Reflector.{Sent, accepts, count_send}
use mikrotik_quality_agent.Probe.Reflector.Answer.{used, with_session, answer, handle-answers}
use mikrotik_quality_agent.Probe.Reflector.Silence.{Authorised, handle-Authorised}
use mikrotik_quality_agent.Probe.Reflector.Counts.{counted, handle-Counts}
use mikrotik_quality_agent.Probe.Sender.Samples.{Samples}
use mikrotik_quality_agent.Probe.EndToEnd.{accept_reply-handle}
use mikrotik_quality_agent.Probe.Sender.Accept.{accept_reply_sound}
use mikrotik_quality_agent.Probe.Sender.Runs.{probe, IsConfig, run_lem}
use mikrotik_quality_agent.Stats.Sample.{Sample}
use mikrotik_quality_agent.Mqp.Reply.{as_reply}
use mikrotik_quality_agent.Mqp.Header.{
  Header, DecodeError, reply, has_flag, no_reflect, request_header, decode,
}

abbrev sender_at : SocketAddr
sender_at = record { ip = v4 7; port = 40000 }

abbrev config : ProbeConfig
config = record {
  session_id = 5;
  peer = record { ip = v4 9; port = 5301 };
  count = 2;
  interval = 20;
  payload_bytes = 60;
  dscp = some 46;
  timeout = 1000;
  linger = 100;
}

abbrev granted : Reflector
granted = record {
  registry = grant (record { sessions = [] }) 5 sender_at;
  stats = record {
    reflected = 0;
    unknown_session = 0;
    wrong_peer = 0;
    malformed = 0;
    send_errors = 0;
  };
}

-- The packet of the first tick, at T1 = 100.
abbrev packet : List ℕ
packet =
    77 ∷ 81 ∷ 1 ∷ 1 ∷ 0 ∷ 8 ∷ 0 ∷ 0 ∷ 0 ∷ 0 ∷ 0 ∷ 0 ∷ 0 ∷ 0 ∷ 0 ∷ 5 ∷ 0 ∷ 0 ∷ 0 ∷ 0 ∷ 0 ∷ 0 ∷ 0 ∷ 0
    ∷ 0 ∷ 0 ∷ 0 ∷ 0 ∷ 0 ∷ 0 ∷ 0 ∷ 100 ∷ 0 ∷ 0 ∷ 0 ∷ 0 ∷ 0 ∷ 0 ∷ 0 ∷ 0 ∷ 0 ∷ 0 ∷ 0 ∷ 0 ∷ 0 ∷ 0 ∷ 0
    ∷ 0 ∷ 46 ∷ 0 ∷ 0 ∷ 0 ∷ 0 ∷ 4 ∷ 183 ∷ 144 ∷ 0 ∷ 0 ∷ 0 ∷ 0 ∷ []

abbrev session_or : Result DecodeError Header → ℕ
session_or (ok h) = h.session_id
session_or (err e) = 0

packet_decodes : decode packet ≡ ok (probe config 0 100)
unfolding decode crc16_ccitt crc_bytes crc_byte crc_rounds crc_shift request_header
packet_decodes = refl

abbrev arrived : RecvMeta
arrived = record { dscp = some 46; ttl = some 60 }

abbrev session : Session
session = record { reflector_seq = 0; peer = sender_at; packets = 0 }

session_known : lookup 5 granted.registry.sessions ≡ some session
unfolding grant lookup insert
session_known = refl

session_accepts : accepts session sender_at ≡ true
unfolding accepts
session_accepts = refl

handle-answers_example :
    (sent : Sent) × (handle granted packet 60 sender_at arrived 300 310 true ≡ (
      count_send true
          (record granted { registry = with_session granted.registry 5 (used session) }),
      some sent,
    ))
    × (sent.to ≡ sender_at)
    × (decode sent.bytes ≡ ok (as_reply (probe config 0 100) (answer arrived 300 310 0)))
    × (drop 56 sent.bytes ≡ drop 56 (take 60 packet))
unfolding request_header has_flag
handle-answers_example =
    handle-answers packet 60 sender_at arrived 300 310 true granted (probe config 0 100) session
      (omega arith) packet_decodes refl session_known session_accepts refl
      (omega arith, omega arith, omega arith)

abbrev result : Sample
result = record {
  seq = 0;
  reflector_seq = some 0;
  rtt_ns = 70;
  tx_dscp = 46;
  rx_dscp = some 46;
  arrival_index = 0;
}

config-IsConfig : IsConfig config
config-IsConfig = record {
  session_id = omega arith;
  count = omega arith;
  dscp = omega arith;
  long = omega arith;
  short = omega arith;
}

five_not_six : (h : Header) → decode packet ≡ ok h → h.session_id ≢ 6
unfolding request_header
five_not_six h e same =
    let five = ap session_or (sym packet_decodes ∙ e) in omega (arith, five, same)

back :
    (sent : Sent) × ((handle granted packet 60 sender_at arrived 300 310 true).1 ≡ some sent)
    × (accept_reply sent.bytes config.peer 180 config (some 100 ∷ none ∷ []) 46 0 ≡ some result)
back =
    accept_reply-handle config (some 100 ∷ none ∷ []) 0 100 300 310 180 0 packet 60 sender_at
      config.peer arrived true granted session packet_decodes (omega arith) session_known
      session_accepts (omega arith) (omega arith) (omega arith) refl refl (omega arith)
      (omega arith)

accept_reply_sound_example :
    (config.peer.ip ≡ v4 9)
    × ((h : Header) × (decode back.0.bytes ≡ ok h)
        × (h.pkt_type ≡ reply)
        × (h.session_id ≡ 5)
        × ((t1 : ℕ) × (sent_time (some 100 ∷ none ∷ []) h.seq ≡ some t1)
            × (t1 ≤ 180)
            × (rtt h t1 180 ≤ 1000)
            × (result ≡ sample h (rtt h t1 180) 46 0)))
accept_reply_sound_example =
    accept_reply_sound config 180 46 0 back.0.bytes config.peer (some 100 ∷ none ∷ []) result back.2

run_lem_example :
    (start config false ≡ err (fails io))
    × ((first : Run) × (last : Run) × (start config true ≡ ok first)
        × (send_all config 0 first (ticked 0 5 true ∷ receive_failed ∷ ticked 20 25 false ∷ [])
            ≡ ok last)
        × ((finish (linger_all config last [])).sent ≤ 2)
        × Samples
            (linger_all config last []).sent_at
            1000
            0
            (finish (linger_all config last [])).samples)
run_lem_example =
    run_lem config config-IsConfig 0 (ticked 0 5 true ∷ receive_failed ∷ ticked 20 25 false ∷ []) []
      (omega arith) (omega arith) (omega arith, (tt, (omega arith, tt)))

accept_reply-handle_example :
    (sent : Sent) × ((handle granted packet 60 sender_at arrived 300 310 true).1 ≡ some sent)
    × (accept_reply sent.bytes config.peer 180 config (some 100 ∷ none ∷ []) 46 0 ≡ some result)
accept_reply-handle_example =
    accept_reply-handle config (some 100 ∷ none ∷ []) 0 100 300 310 180 0 packet 60 sender_at
      config.peer arrived true granted session packet_decodes (omega arith) session_known
      session_accepts (omega arith) (omega arith) (omega arith) refl refl (omega arith)
      (omega arith)

handle-Authorised_example :
    (h : Header) × Authorised packet 60 sender_at arrived 300 310 true granted h
unfolding request_header has_flag
handle-Authorised_example =
    handle-Authorised packet 60 sender_at arrived 300 310 true granted back.1

handle-Counts_example :
    ((handle granted packet 60 sender_at arrived 300 310 true).0.stats.wrong_peer ≡ 0)
    × ((counted (handle granted packet 60 sender_at arrived 300 310 true).0.stats ≡ 1)
        ⊎ ((counted (handle granted packet 60 sender_at arrived 300 310 true).0.stats ≡ 0)
            × (h : Header) × (decode packet ≡ ok h)
            × (has_flag h no_reflect ≡ true)))
handle-Counts_example = handle-Counts packet 60 sender_at arrived 300 310 true granted
