-- ===== src/Mqp/Layout.antt =====
-- `decode` against the protocol's layout of a packet.
use mikrotik_quality_agent.Base.{
  ℕ, ◌+◌, ◌≤◌, bit_and, some, List, ◌≡◌, refl, sym, ◌∙◌, ap, ◌↔◌, arith, length, get_or,
  from_be_bytes, slice, ok,
}
use mikrotik_quality_agent.Mqp.Crc.{crc16_ccitt}
use mikrotik_quality_agent.Mqp.Header.{
  PacketType, request, reply, Header, from_u8, read_header, decode,
}
use mikrotik_quality_agent.Mqp.Decode.{decode_iff}

-- The byte of a type of packet.
abbrev pub type_byte : PacketType → ℕ
type_byte request = 1
type_byte reply = 2

-- The number in `width` bytes of the buffer from byte `at` on, most significant byte first.
abbrev pub number_at : List ℕ → ℕ → ℕ → ℕ
number_at buf at width = from_be_bytes (slice at width buf)

-- The layout of docs/protocol.md: a buffer that is one valid packet with the fields of `h`.
pub record Carries (buf : List ℕ) (h : Header) : Type 0 where
  pub long : 56 ≤ length buf
  pub magic : number_at buf 0 2 ≡ 0x4D51
  pub version_one : h.version ≡ 1
  pub version : get_or buf 2 0 ≡ 1
  pub pkt_type : get_or buf 3 0 ≡ type_byte h.pkt_type
  pub flags : number_at buf 4 2 ≡ h.flags
  pub no_unknown : bit_and h.flags 0xFFF0 ≡ 0
  pub session_id : number_at buf 8 8 ≡ h.session_id
  pub seq : number_at buf 16 4 ≡ h.seq
  pub reflector_seq : number_at buf 20 4 ≡ h.reflector_seq
  pub t1 : number_at buf 24 8 ≡ h.t1
  pub t2 : number_at buf 32 8 ≡ h.t2
  pub t3 : number_at buf 40 8 ≡ h.t3
  pub tx_dscp : get_or buf 48 0 ≡ h.tx_dscp
  pub rx_dscp : get_or buf 49 0 ≡ h.rx_dscp
  pub ttl_fwd : get_or buf 50 0 ≡ h.ttl_fwd
  pub ttl_rev : get_or buf 51 0 ≡ h.ttl_rev
  pub payload_len : number_at buf 52 2 ≡ h.payload_len
  pub checksum : number_at buf 54 2 ≡ crc16_ccitt (slice 0 54 buf)
  pub size : length buf ≡ 56 + h.payload_len

module _ (buf : List ℕ) where
  from_u8_byte : (v : ℕ) (t : PacketType) → from_u8 v ≡ some t → v ≡ type_byte t
  from_u8_byte v request e = ground (arith, e)
  from_u8_byte v reply e = ground (arith, e)

  byte_from_u8 : (v : ℕ) (t : PacketType) → v ≡ type_byte t → from_u8 v ≡ some t
  byte_from_u8 v request e = rw e refl
  byte_from_u8 v reply e = rw e refl

  carried : (h : Header) → decode buf ≡ ok h → Carries buf h
  carried h e =
      let (p, r) = (decode_iff buf h).0 e in
      record {
        long = p.long;
        magic = p.magic;
        version_one = ap (λ x. x.version) r ∙ p.version;
        version = p.version;
        pkt_type = from_u8_byte (get_or buf 3 0) h.pkt_type p.type;
        flags = sym (ap (λ x. x.flags) r);
        no_unknown = ap (λ x. bit_and x.flags 0xFFF0) r ∙ p.flags;
        session_id = sym (ap (λ x. x.session_id) r);
        seq = sym (ap (λ x. x.seq) r);
        reflector_seq = sym (ap (λ x. x.reflector_seq) r);
        t1 = sym (ap (λ x. x.t1) r);
        t2 = sym (ap (λ x. x.t2) r);
        t3 = sym (ap (λ x. x.t3) r);
        tx_dscp = sym (ap (λ x. x.tx_dscp) r);
        rx_dscp = sym (ap (λ x. x.rx_dscp) r);
        ttl_fwd = sym (ap (λ x. x.ttl_fwd) r);
        ttl_rev = sym (ap (λ x. x.ttl_rev) r);
        payload_len = sym (ap (λ x. x.payload_len) r);
        checksum = p.checksum;
        size = p.size ∙ ap (λ x. 56 + x.payload_len) (sym r);
      }

  read-carried : (h : Header) → Carries buf h → h ≡ read_header h.pkt_type buf
  read-carried h c = λ i. record {
    version = (c.version_one ∙ sym c.version) i;
    pkt_type = h.pkt_type;
    flags = sym c.flags i;
    session_id = sym c.session_id i;
    seq = sym c.seq i;
    reflector_seq = sym c.reflector_seq i;
    t1 = sym c.t1 i;
    t2 = sym c.t2 i;
    t3 = sym c.t3 i;
    tx_dscp = sym c.tx_dscp i;
    rx_dscp = sym c.rx_dscp i;
    ttl_fwd = sym c.ttl_fwd i;
    ttl_rev = sym c.ttl_rev i;
    payload_len = sym c.payload_len i;
  }

  accepts_carried : (h : Header) → Carries buf h → decode buf ≡ ok h
  accepts_carried h c = (decode_iff buf h).1 (
    (record {
      long = c.long;
      magic = c.magic;
      version = c.version;
      type = byte_from_u8 (get_or buf 3 0) h.pkt_type c.pkt_type;
      flags = ap (λ f. bit_and f 0xFFF0) c.flags ∙ c.no_unknown;
      checksum = c.checksum;
      size = c.size ∙ ap (λ n. 56 + n) (sym c.payload_len);
    }),
    read-carried h c,
  )

  -- `decode` accepts a buffer with the fields `h` exactly if the buffer holds them at the places of
  -- the protocol's layout: behind the magic and version 1 the byte of the type, flags of which only the
  -- lowest four bits may be set, and the numbers and bytes of the other fields, with the CRC of the first
  -- 54 bytes at byte 54 and as many bytes after the 56 of the header as the payload's length says.
  pub decode-Carries : (h : Header) → (decode buf ≡ ok h) ↔ Carries buf h
  decode-Carries h = (carried h, accepts_carried h)
