-- ===== src/Mqp/Header.antt =====
-- The header of an MQP packet: its fields, `encode`, `decode`, and the patches made in place.
-- Fields are numbers below the width of their Rust type (`IsHeader`); a `u16` complement `!m` is
-- `0xFFFF - m`.
use mikrotik_quality_agent.Base.{
  ℕ, ◌+◌, ◌-◌, bit_and, bit_or, Bool, not, Option, none, some, List, [], ◌∷◌, ltb, ◌==◌,
  if◌then◌else◌, length, get_or, to_be_bytes, from_be_bytes, slice, write, Result, ok, ◌>>=◌, ◌>>◌,
  guard, ok_or,
}
use mikrotik_quality_agent.Mqp.Crc.{crc16_ccitt}

abbrev pub magic : ℕ
magic = 0x4D51

abbrev pub version : ℕ
version = 1

abbrev pub header_len : ℕ
header_len = 56

abbrev pub default_packet_len : ℕ
default_packet_len = 172

abbrev pub max_packet_len : ℕ
max_packet_len = 1400

pub data PacketType : Type 0 where
  request reply : PacketType

-- `PacketType::from_u8`.
abbrev pub from_u8 : ℕ → Option PacketType
from_u8 v = if v == 1 then some request else if v == 2 then some reply else none

-- `pkt_type as u8`.
abbrev pub as_u8 : PacketType → ℕ
as_u8 request = 1
as_u8 reply = 2

-- `mod flags`.
abbrev pub echo_payload : ℕ
echo_payload = 1

abbrev pub last_packet : ℕ
last_packet = 2

abbrev pub no_reflect : ℕ
no_reflect = 4

abbrev pub request_dscp_echo : ℕ
request_dscp_echo = 8

abbrev pub known_flags : ℕ
known_flags = bit_or (bit_or (bit_or echo_payload last_packet) no_reflect) request_dscp_echo

-- `flags & !KNOWN`.
abbrev pub unknown_bits : ℕ → ℕ
unknown_bits flags = bit_and flags (0xFFFF - known_flags)

pub data DecodeError : Type 0 where
  too_short : (got : ℕ) → DecodeError
  bad_magic : (got : ℕ) → DecodeError
  unsupported_version : (got : ℕ) → DecodeError
  unknown_type : (got : ℕ) → DecodeError
  unknown_flags : (got : ℕ) → DecodeError
  length_mismatch : (declared actual : ℕ) → DecodeError
  bad_checksum : (expected got : ℕ) → DecodeError

pub record Header : Type 0 where
  pub version : ℕ
  pub pkt_type : PacketType
  pub flags : ℕ
  pub session_id : ℕ
  pub seq : ℕ
  pub reflector_seq : ℕ
  pub t1 : ℕ
  pub t2 : ℕ
  pub t3 : ℕ
  pub tx_dscp : ℕ
  pub rx_dscp : ℕ
  pub ttl_fwd : ℕ
  pub ttl_rev : ℕ
  pub payload_len : ℕ

-- `Header::request`.
unfoldable pub request_header : ℕ → ℕ → ℕ → ℕ → Header
request_header session_id seq tx_dscp payload_len = record {
  version = 1;
  pkt_type = request;
  flags = request_dscp_echo;
  session_id = session_id;
  seq = seq;
  reflector_seq = 0;
  t1 = 0;
  t2 = 0;
  t3 = 0;
  tx_dscp = tx_dscp;
  rx_dscp = 0;
  ttl_fwd = 0;
  ttl_rev = 0;
  payload_len = payload_len;
}

unfoldable pub has_flag : Header → ℕ → Bool
has_flag h flag = not (bit_and h.flags flag == 0)

unfoldable pub wire_len : Header → ℕ
wire_len h = header_len + h.payload_len

-- A test that the buffer holds a header.
abbrev pub fits_header : List ℕ → Bool
fits_header buf = not (ltb (length buf) header_len)

-- Zero the checksum field, compute the checksum of what precedes it, and write it.
unfoldable pub seal : List ℕ → List ℕ
seal buf =
    let zeroed = write 54 (to_be_bytes 2 0) buf in
    write 54 (to_be_bytes 2 (crc16_ccitt (slice 0 54 zeroed))) zeroed

-- The writes of `encode` before the checksum, in the source's order.
unfoldable pub write_fields : Header → List ℕ → List ℕ
write_fields h buf =
    let buf = write 0 (to_be_bytes 2 magic) buf in
    let buf = write 2 (h.version ∷ []) buf in
    let buf = write 3 (as_u8 h.pkt_type ∷ []) buf in
    let buf = write 4 (to_be_bytes 2 h.flags) buf in
    let buf = write 6 (to_be_bytes 2 0) buf in
    let buf = write 8 (to_be_bytes 8 h.session_id) buf in
    let buf = write 16 (to_be_bytes 4 h.seq) buf in
    let buf = write 20 (to_be_bytes 4 h.reflector_seq) buf in
    let buf = write 24 (to_be_bytes 8 h.t1) buf in
    let buf = write 32 (to_be_bytes 8 h.t2) buf in
    let buf = write 40 (to_be_bytes 8 h.t3) buf in
    let buf = write 48 (h.tx_dscp ∷ []) buf in
    let buf = write 49 (h.rx_dscp ∷ []) buf in
    let buf = write 50 (h.ttl_fwd ∷ []) buf in
    let buf = write 51 (h.ttl_rev ∷ []) buf in write 52 (to_be_bytes 2 h.payload_len) buf

-- `Header::encode`: the buffer after the call, or the error.
unfoldable pub encode : Header → List ℕ → Result DecodeError (List ℕ)
encode h buf = do guard (fits_header buf) (too_short (length buf)); ok (seal (write_fields h buf))

-- The fields of a header, as `decode` reads them.
abbrev pub read_header : PacketType → List ℕ → Header
read_header pkt_type buf = record {
  version = get_or buf 2 0;
  pkt_type = pkt_type;
  flags = from_be_bytes (slice 4 2 buf);
  session_id = from_be_bytes (slice 8 8 buf);
  seq = from_be_bytes (slice 16 4 buf);
  reflector_seq = from_be_bytes (slice 20 4 buf);
  t1 = from_be_bytes (slice 24 8 buf);
  t2 = from_be_bytes (slice 32 8 buf);
  t3 = from_be_bytes (slice 40 8 buf);
  tx_dscp = get_or buf 48 0;
  rx_dscp = get_or buf 49 0;
  ttl_fwd = get_or buf 50 0;
  ttl_rev = get_or buf 51 0;
  payload_len = from_be_bytes (slice 52 2 buf);
}

-- `Header::decode`, its tests in the source's order.
unfoldable pub decode : List ℕ → Result DecodeError Header
decode buf = do
  guard (fits_header buf) (too_short (length buf))
  let got_magic = from_be_bytes (slice 0 2 buf)
  guard (got_magic == magic) (bad_magic got_magic)
  let got_version = get_or buf 2 0
  guard (got_version == version) (unsupported_version got_version)
  pkt_type ← ok_or (from_u8 (get_or buf 3 0)) (unknown_type (get_or buf 3 0))
  let flags = from_be_bytes (slice 4 2 buf)
  guard (unknown_bits flags == 0) (unknown_flags (unknown_bits flags))
  let stated_crc = from_be_bytes (slice 54 2 buf)
  let computed = crc16_ccitt (slice 0 54 buf)
  guard (stated_crc == computed) (bad_checksum computed stated_crc)
  let payload_len = from_be_bytes (slice 52 2 buf)
  let actual_payload = length buf - header_len
  guard (payload_len == actual_payload) (length_mismatch payload_len actual_payload)
  ok (read_header pkt_type buf)

unfoldable pub stamp_t1 : List ℕ → ℕ → Result DecodeError (List ℕ)
stamp_t1 buf t1 = do
  guard (fits_header buf) (too_short (length buf))
  ok (seal (write 24 (to_be_bytes 8 t1) buf))

unfoldable pub make_reply_in_place : List ℕ → ℕ → ℕ → ℕ → ℕ → ℕ → Result DecodeError (List ℕ)
make_reply_in_place buf t2 reflector_seq rx_dscp ttl_fwd ttl_rev = do
  guard (fits_header buf) (too_short (length buf))
  let buf = write 3 (as_u8 reply ∷ []) buf
  let buf = write 20 (to_be_bytes 4 reflector_seq) buf
  let buf = write 32 (to_be_bytes 8 t2) buf
  let buf = write 49 (rx_dscp ∷ []) buf
  let buf = write 50 (ttl_fwd ∷ []) buf
  ok (write 51 (ttl_rev ∷ []) buf)

unfoldable pub stamp_t3 : List ℕ → ℕ → Result DecodeError (List ℕ)
stamp_t3 buf t3 = do
  guard (fits_header buf) (too_short (length buf))
  ok (seal (write 40 (to_be_bytes 8 t3) buf))
