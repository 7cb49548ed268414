-- ===== src/Probe/Twamp/Responder.antt =====
-- The responder: who it answers (`AllowList`), and what it does with a datagram. As in the reflector,
-- the clock's readings and the outcome of `send_to` are arguments, and what is sent is returned.
use mikrotik_quality_agent.Base.{
  ℕ, ◌+◌, ◌%◌, ◌^◌, min, max, Bool, true, false, not, ◌&&◌, ◌||◌, Option, none, some, List, [], ◌∷◌,
  ltb, ◌==◌, if◌then◌else◌, take, replicate, length, write, Result, ok, err,
}
use mikrotik_quality_agent.Probe.Net.{IpAddr, SocketAddr, RecvMeta, ip_eq}
use mikrotik_quality_agent.Probe.Reflector.{Sent}
use mikrotik_quality_agent.Twamp.Time.{NtpTimestamp}
use mikrotik_quality_agent.Twamp.Packet.{
  SenderPacket, ReflectorPacket, TwampError, decode_sender, reply_to, encode_reflector,
  stamp_reflector_tx, reflector_min_len, max_len,
}
use mathlib.Core.Option.{get_or as unwrap_or}

-- The set of peers as a list without repetition, in any order.
pub record AllowList : Type 0 where
  pub peers : List IpAddr
  pub is_open : Bool

abbrev pub contains : List IpAddr → IpAddr → Bool
contains [] ip = false
contains (p ∷ peers) ip = ip_eq p ip || contains peers ip

abbrev pub without : List IpAddr → IpAddr → List IpAddr
without [] ip = []
without (p ∷ peers) ip = let rest = without peers ip in if ip_eq p ip then rest else p ∷ rest

-- `AllowList::new` and `AllowList::open`.
abbrev pub new_allow_list : AllowList
new_allow_list = record { peers = []; is_open = false }

abbrev pub open_allow_list : AllowList
open_allow_list = record { peers = []; is_open = true }

abbrev pub allow : AllowList → IpAddr → AllowList
allow a ip = record a { peers = if contains a.peers ip then a.peers else ip ∷ a.peers }

abbrev pub revoke_peer : AllowList → IpAddr → AllowList × Bool
revoke_peer a ip = (record a { peers = without a.peers ip }, contains a.peers ip)

abbrev pub permits : AllowList → IpAddr → Bool
permits a ip = a.is_open || contains a.peers ip

abbrev pub is_empty_list : AllowList → Bool
is_empty_list a = (length a.peers == 0) && not a.is_open

pub record TwampStats : Type 0 where
  pub reflected : ℕ
  pub refused : ℕ
  pub malformed : ℕ
  pub send_errors : ℕ

pub record TwampReflector : Type 0 where
  pub allow_list : AllowList
  pub sequence : ℕ
  pub stats : TwampStats

abbrev pub refuse : TwampReflector → TwampReflector
refuse r = record r { stats = record (r.stats) { refused = r.stats.refused + 1 } }

abbrev pub reject : TwampReflector → TwampReflector
reject r = record r { stats = record (r.stats) { malformed = r.stats.malformed + 1 } }

-- The outcome of `send_to`.
abbrev pub sent_off : Bool → TwampReflector → TwampReflector
sent_off true r = record r { stats = record (r.stats) { reflected = r.stats.reflected + 1 } }
sent_off false r = record r { stats = record (r.stats) { send_errors = r.stats.send_errors + 1 } }

abbrev pub out_len : ℕ → ℕ
out_len n = min (max n reflector_min_len) max_len

-- `sequence` goes up before the reply is built.
abbrev pub advanced : TwampReflector → TwampReflector
advanced r = record r { sequence = (r.sequence + 1) % 2 ^ 32 }

-- The reply in front of the buffer: the header region is cleared, and what follows is echoed.
unfoldable pub build_reply :
    List ℕ → ℕ → ReflectorPacket → NtpTimestamp → Result TwampError (List ℕ)
build_reply buf n reply t3 =
    let cleared = write 0 (replicate reflector_min_len 0) buf in
    elim (encode_reflector reply (take (out_len n) cleared)) [
      | err e ↦ err e
      | ok out ↦ stamp_reflector_tx out t3
    ]

abbrev pub send_reply :
    TwampReflector
    → SocketAddr
    → RecvMeta
    → Bool
    → Result TwampError (List ℕ)
    → TwampReflector × Option Sent
send_reply r peer meta sends (err e) = (reject r, none)
send_reply r peer meta sends (ok out) =
    (sent_off sends r, some (record { bytes = out; to = peer; dscp = unwrap_or meta.dscp 0 }))

-- A request that decodes.
unfoldable pub reflect :
    TwampReflector
    → List ℕ
    → ℕ
    → SocketAddr
    → RecvMeta
    → NtpTimestamp
    → NtpTimestamp
    → Bool
    → SenderPacket
    → TwampReflector × Option Sent
reflect r buf n peer meta t2 t3 sends request =
    let reply = reply_to request r.sequence t2 (unwrap_or meta.ttl 0) in
    if ltb (length buf) (out_len n)
    then (reject (advanced r), none)
    else send_reply (advanced r) peer meta sends (build_reply buf n reply t3)

abbrev pub decoded :
    TwampReflector
    → List ℕ
    → ℕ
    → SocketAddr
    → RecvMeta
    → NtpTimestamp
    → NtpTimestamp
    → Bool
    → Result TwampError SenderPacket
    → TwampReflector × Option Sent
decoded r buf n peer meta t2 t3 sends (err e) = (reject r, none)
decoded r buf n peer meta t2 t3 sends (ok request) = reflect r buf n peer meta t2 t3 sends request

-- `TwampReflector::handle`, for a datagram of `n` bytes in front of `buf`.
unfoldable pub handle_twamp :
    TwampReflector
    → List ℕ
    → ℕ
    → SocketAddr
    → RecvMeta
    → NtpTimestamp
    → NtpTimestamp
    → Bool
    → TwampReflector × Option Sent
handle_twamp r buf n peer meta t2 t3 sends =
    if permits r.allow_list peer.ip
    then decoded r buf n peer meta t2 t3 sends (decode_sender (take n buf))
    else (refuse r, none)

-- A receive error in `run`.
abbrev pub count_deaf : TwampReflector → TwampReflector
count_deaf r = record r { stats = record (r.stats) { send_errors = r.stats.send_errors + 1 } }
