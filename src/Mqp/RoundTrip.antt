-- ===== src/Mqp/RoundTrip.antt =====
-- `encode` and `decode` are inverse to one another.
use mikrotik_quality_agent.Base.{
  ℕ, ◌≤◌, ◌<◌, ◌^◌, List, ◌∷◌, ◌++◌, ◌≡◌, refl, sym, ◌∙◌, ap, arith, length, length-drop, drop,
  to_be_bytes, from_be_bytes-to_be_bytes, written_out, ok, some,
}
use mikrotik_quality_agent.Mqp.Crc.{crc16_ccitt}
use mikrotik_quality_agent.Mqp.Detect.{crc16_ccitt-lt}
use mikrotik_quality_agent.Mqp.Header.{
  PacketType, request, reply, Header, as_u8, from_u8, unknown_bits, read_header, seal, write_fields,
  encode, decode, wire_len,
}
use mikrotik_quality_agent.Mqp.Decode.{IsPacket, decode_iff, fits_header_iff}

-- Each field is a value of its Rust type.
pub record IsHeader (h : Header) : Type 0 where
  pub version : h.version < 256
  pub flags : h.flags < 256 ^ 2
  pub session_id : h.session_id < 256 ^ 8
  pub seq : h.seq < 256 ^ 4
  pub reflector_seq : h.reflector_seq < 256 ^ 4
  pub t1 : h.t1 < 256 ^ 8
  pub t2 : h.t2 < 256 ^ 8
  pub t3 : h.t3 < 256 ^ 8
  pub tx_dscp : h.tx_dscp < 256
  pub rx_dscp : h.rx_dscp < 256
  pub ttl_fwd : h.ttl_fwd < 256
  pub ttl_rev : h.ttl_rev < 256
  pub payload_len : h.payload_len < 256 ^ 2

-- The bytes that the checksum covers.
abbrev pub field_bytes : Header → List ℕ
field_bytes h =
    to_be_bytes 2 0x4D51
    ++ (h.version ∷ as_u8 h.pkt_type ∷ to_be_bytes 2 h.flags)
    ++ to_be_bytes 2 0
    ++ to_be_bytes 8 h.session_id
    ++ to_be_bytes 4 h.seq
    ++ to_be_bytes 4 h.reflector_seq
    ++ to_be_bytes 8 h.t1
    ++ to_be_bytes 8 h.t2
    ++ to_be_bytes 8 h.t3
    ++ (h.tx_dscp ∷ h.rx_dscp ∷ h.ttl_fwd ∷ h.ttl_rev ∷ to_be_bytes 2 h.payload_len)

abbrev pub wire : Header → List ℕ → List ℕ
wire h padding = field_bytes h ++ to_be_bytes 2 (crc16_ccitt (field_bytes h)) ++ padding

seal_fields :
    (h : Header) (buf : List ℕ) → 56 ≤ length buf → seal (write_fields h buf) ≡ wire h (drop 56 buf)
unfolding seal write_fields
seal_fields h =
    written_out 56 (λ buf. seal (write_fields h buf) ≡ wire h (drop 56 buf))
      (λ b0 b1 b2 b3 b4 b5 b6 b7 b8 b9 b10 b11 b12 b13 b14 b15 b16 b17 b18 b19 b20 b21 b22 b23 b24
          b25 b26 b27 b28 b29 b30 b31 b32 b33 b34 b35 b36 b37 b38 b39 b40 b41 b42 b43 b44 b45 b46
          b47 b48 b49 b50 b51 b52 b53 b54 b55 rest.
        refl)

-- `encode` writes the header's bytes and the checksum over the front of the buffer.
pub encode_lem :
    (h : Header) (buf : List ℕ) → 56 ≤ length buf → encode h buf ≡ ok (wire h (drop 56 buf))
unfolding encode
encode_lem h buf long = rw ((fits_header_iff buf).1 long) (ap ok (seal_fields h buf long))

from_u8-as_u8 : (t : PacketType) → from_u8 (as_u8 t) ≡ some t
from_u8-as_u8 request = refl
from_u8-as_u8 reply = refl

module _ (h : Header) (padding : List ℕ) (w : IsHeader h) where
  abbrev out : List ℕ
  out = wire h padding

  read-wire : read_header h.pkt_type out ≡ h
  read-wire = λ i. record {
    version = h.version;
    pkt_type = h.pkt_type;
    flags = from_be_bytes-to_be_bytes 2 h.flags w.flags i;
    session_id = from_be_bytes-to_be_bytes 8 h.session_id w.session_id i;
    seq = from_be_bytes-to_be_bytes 4 h.seq w.seq i;
    reflector_seq = from_be_bytes-to_be_bytes 4 h.reflector_seq w.reflector_seq i;
    t1 = from_be_bytes-to_be_bytes 8 h.t1 w.t1 i;
    t2 = from_be_bytes-to_be_bytes 8 h.t2 w.t2 i;
    t3 = from_be_bytes-to_be_bytes 8 h.t3 w.t3 i;
    tx_dscp = h.tx_dscp;
    rx_dscp = h.rx_dscp;
    ttl_fwd = h.ttl_fwd;
    ttl_rev = h.ttl_rev;
    payload_len = from_be_bytes-to_be_bytes 2 h.payload_len w.payload_len i;
  }

  wire-IsPacket :
      h.version ≡ 1
      → unknown_bits h.flags ≡ 0
      → h.payload_len ≡ length padding
      → IsPacket out h.pkt_type
  wire-IsPacket version flags size = record {
    long = omega arith;
    magic = refl;
    version = version;
    type = from_u8-as_u8 h.pkt_type;
    flags = ap unknown_bits (from_be_bytes-to_be_bytes 2 h.flags w.flags) ∙ flags;
    checksum =
        from_be_bytes-to_be_bytes 2 (crc16_ccitt (field_bytes h)) (crc16_ccitt-lt (field_bytes h));
    size = omega (arith, from_be_bytes-to_be_bytes 2 h.payload_len w.payload_len);
  }

-- A header of known version and flags, encoded into a buffer of its wire length, decodes to itself,
-- field for field; the padding behind it is left as it was.
pub decode-encode :
    (h : Header) (buf : List ℕ)
    → IsHeader h
    → h.version ≡ 1
    → unknown_bits h.flags ≡ 0
    → length buf ≡ wire_len h
    → (out : List ℕ) × (encode h buf ≡ ok out) × (decode out ≡ ok h) × (drop 56 out ≡ drop 56 buf)
unfolding wire_len
decode-encode h buf w version flags size =
    let padding = drop 56 buf in
    (
      wire h padding,
      encode_lem h buf (omega arith),
      (decode_iff (wire h padding) h).1 (
        wire-IsPacket h padding w version flags (omega (arith, length-drop 56 buf)),
        sym (read-wire h padding w),
      ),
      refl,
    )
