-- ===== src/Probe/Reflector.antt =====
-- agent/src/probe/reflector.rs: the session registry and what the reflector does with a datagram.
-- The clock's readings and the outcome of `send_to` are arguments; a reply that is handed to the
-- socket is returned, with the DSCP that the socket is asked to mark it with.
pub mod Answer
pub mod Silence
pub mod Counts
use mikrotik_quality_agent.Base.{
  ℕ, ◌+◌, ◌%◌, ◌^◌, Bool, true, false, ◌||◌, Option, none, some, List, [], ◌∷◌, ◌==◌, if◌then◌else◌,
  take, length, Result, ok, err,
}
use mikrotik_quality_agent.Base.Dict.{lookup, insert, remove, nat_key}
use mikrotik_quality_agent.Probe.Net.{IpAddr, SocketAddr, RecvMeta, ip_eq, is_unspecified}
use mikrotik_quality_agent.Mqp.Header.{
  Header, PacketType, request, reply, no_reflect, has_flag, decode, make_reply_in_place, stamp_t3,
}
use mathlib.Core.Option.{get_or as unwrap_or}
use mathlib.Core.Option

abbrev pub reply_ttl : ℕ
reply_ttl = 64

pub record Session : Type 0 where
  pub reflector_seq : ℕ
  pub peer : SocketAddr
  pub packets : ℕ

-- `Session::accepts`.
unfoldable pub accepts : Session → SocketAddr → Bool
accepts s from = is_unspecified s.peer.ip || ip_eq s.peer.ip from.ip

pub record Registry : Type 0 where
  pub sessions : List (ℕ × Session)

unfoldable pub grant : Registry → ℕ → SocketAddr → Registry
grant reg session_id peer = record reg {
  sessions =
      insert session_id (record { reflector_seq = 0; peer = peer; packets = 0 }) reg.sessions;
}

unfoldable pub revoke : Registry → ℕ → Registry × Option ℕ
revoke reg session_id = (
  record { sessions = remove session_id reg.sessions },
  Option.map (λ (s : Session). s.packets) (lookup session_id reg.sessions),
)

pub active_count : Registry → ℕ
active_count reg = length reg.sessions

pub record ReflectorStats : Type 0 where
  pub reflected : ℕ
  pub unknown_session : ℕ
  pub wrong_peer : ℕ
  pub malformed : ℕ
  pub send_errors : ℕ

pub record Reflector : Type 0 where
  pub registry : Registry
  pub stats : ReflectorStats

-- A datagram handed to the socket.
pub record Sent : Type 0 where
  pub bytes : List ℕ
  pub to : SocketAddr
  pub dscp : ℕ

abbrev pub count_malformed : Reflector → Reflector
count_malformed r = record r { stats = record (r.stats) { malformed = r.stats.malformed + 1 } }

abbrev pub count_unknown : Reflector → Reflector
count_unknown r = record r {
  stats = record (r.stats) { unknown_session = r.stats.unknown_session + 1 };
}

-- The outcome of `send_to`.
abbrev pub count_send : Bool → Reflector → Reflector
count_send true r = record r { stats = record (r.stats) { reflected = r.stats.reflected + 1 } }
count_send false r = record r { stats = record (r.stats) { send_errors = r.stats.send_errors + 1 } }

-- The block that holds the registry's lock: the sequence number, if the packet is authorised.
unfoldable pub admit_session : Registry → ℕ → Session → Bool → Registry × Option ℕ
admit_session reg session_id s false = (reg, none)
admit_session reg session_id s true = (
  record {
    sessions =
        insert session_id
          (record s { reflector_seq = (s.reflector_seq + 1) % 2 ^ 32; packets = s.packets + 1 })
          reg.sessions;
  },
  some s.reflector_seq,
)

unfoldable pub admit_found : Registry → ℕ → SocketAddr → Option Session → Registry × Option ℕ
admit_found reg session_id from none = (reg, none)
admit_found reg session_id from (some s) = admit_session reg session_id s (accepts s from)

unfoldable pub admit : Registry → ℕ → SocketAddr → Registry × Option ℕ
admit reg session_id from = admit_found reg session_id from (lookup session_id reg.sessions)

-- The part of `handle` behind the admission: build the reply, stamp it, send it.
unfoldable pub respond :
    Reflector → List ℕ → ℕ → SocketAddr → RecvMeta → ℕ → ℕ → Bool → ℕ → Reflector × Option Sent
respond r buf n peer meta t2 t3 sends reflector_seq =
    let rx_dscp = unwrap_or meta.dscp 0 in
    elim (make_reply_in_place buf t2 reflector_seq rx_dscp (unwrap_or meta.ttl 0) reply_ttl) [
      | err e ↦ (count_malformed r, none)
      | ok mid ↦ elim (stamp_t3 mid t3) [
        | err e ↦ (count_malformed r, none)
        | ok out ↦
            (count_send sends r, some (record { bytes = take n out; to = peer; dscp = rx_dscp }))
      ]
    ]

-- What follows the admission: silence, no reply where none is wanted, or a reply.
unfoldable pub admitted :
    Reflector
    → List ℕ
    → ℕ
    → SocketAddr
    → RecvMeta
    → ℕ
    → ℕ
    → Bool
    → Header
    → Registry × Option ℕ
    → Reflector × Option Sent
admitted r buf n peer meta t2 t3 sends h (reg, none) =
    (count_unknown (record r { registry = reg }), none)
admitted r buf n peer meta t2 t3 sends h (reg, some seq) =
    if has_flag h no_reflect
    then (record r { registry = reg }, none)
    else respond (record r { registry = reg }) buf n peer meta t2 t3 sends seq

-- A packet that decodes, by its type: only requests are reflected.
unfoldable pub by_type :
    Reflector
    → List ℕ
    → ℕ
    → SocketAddr
    → RecvMeta
    → ℕ
    → ℕ
    → Bool
    → Header
    → PacketType
    → Reflector × Option Sent
by_type r buf n peer meta t2 t3 sends h reply = (count_malformed r, none)
by_type r buf n peer meta t2 t3 sends h request =
    admitted r buf n peer meta t2 t3 sends h (admit r.registry h.session_id peer)

-- `Reflector::handle`, for a datagram of `n` bytes in front of `buf`.
unfoldable pub handle :
    Reflector → List ℕ → ℕ → SocketAddr → RecvMeta → ℕ → ℕ → Bool → Reflector × Option Sent
handle r buf n peer meta t2 t3 sends = elim (decode (take n buf)) [
  | err e ↦ (count_malformed r, none)
  | ok h ↦ by_type r buf n peer meta t2 t3 sends h h.pkt_type
]

-- A receive error in `run`.
abbrev pub count_receive_error : Reflector → Reflector
count_receive_error r = record r {
  stats = record (r.stats) { send_errors = r.stats.send_errors + 1 };
}
