-- ===== src/Mqp/Reply.antt =====
-- The patches that sender and reflector make in place keep the rest of the packet.
use mikrotik_quality_agent.Base.{
  ℕ, ◌≤◌, ◌<◌, ◌^◌, List, [], ◌∷◌, ◌≡◌, refl, sym, ◌∙◌, ap, length, length-write, take-write,
  take-take_le, arith, ◌+◌, take, drop, to_be_bytes, from_be_bytes, from_be_bytes-to_be_bytes,
  write, written_out, ok,
}
use mikrotik_quality_agent.Mqp.Crc.{crc16_ccitt}
use mikrotik_quality_agent.Mqp.Detect.{crc16_ccitt-lt}
use mikrotik_quality_agent.Mqp.Header.{
  PacketType, reply, Header, read_header, seal, decode, stamp_t1, stamp_t3, make_reply_in_place,
}
use mikrotik_quality_agent.Mqp.Decode.{IsPacket, decode_iff, fits_header_iff}

module _ (t : PacketType) (t1 : ℕ) where
  abbrev stamped : List ℕ → List ℕ
  stamped buf = seal (write 24 (to_be_bytes 8 t1) buf)

  stamped_lem :
      (buf : List ℕ)
      → 56 ≤ length buf
      → IsPacket buf t
      → IsPacket (stamped buf) t
        × (read_header t (stamped buf)
            ≡ record (read_header t buf) { t1 = from_be_bytes (to_be_bytes 8 t1) })
        × (drop 56 (stamped buf) ≡ drop 56 buf)
  unfolding seal
  stamped_lem =
      written_out 56
        (λ buf.
          IsPacket buf t
          → IsPacket (stamped buf) t
            × (read_header t (stamped buf)
                ≡ record (read_header t buf) { t1 = from_be_bytes (to_be_bytes 8 t1) })
            × (drop 56 (stamped buf) ≡ drop 56 buf))
        (λ b0 b1 b2 b3 b4 b5 b6 b7 b8 b9 b10 b11 b12 b13 b14 b15 b16 b17 b18 b19 b20 b21 b22 b23 b24
            b25 b26 b27 b28 b29 b30 b31 b32 b33 b34 b35 b36 b37 b38 b39 b40 b41 b42 b43 b44 b45 b46
            b47 b48 b49 b50 b51 b52 b53 b54 b55 rest p.
          (
            record {
              long = p.long;
              magic = p.magic;
              version = p.version;
              type = p.type;
              flags = p.flags;
              checksum = from_be_bytes-to_be_bytes 2 _ (crc16_ccitt-lt _);
              size = p.size;
            },
            refl,
            refl,
          ))

-- Stamping T1 into a valid packet gives a valid packet that decodes to the same header with that T1
-- and whose padding is unchanged: the checksum is put right.
pub decode-stamp_t1 :
    (buf : List ℕ) (h : Header) (t1 : ℕ)
    → decode buf ≡ ok h
    → t1 < 256 ^ 8
    → (out : List ℕ) × (stamp_t1 buf t1 ≡ ok out)
      × (decode out ≡ ok (record h { t1 = t1 }))
      × (drop 56 out ≡ drop 56 buf)
unfolding stamp_t1
decode-stamp_t1 buf h t1 e fits =
    let (p, same) = (decode_iff buf h).0 e in
    let (q, read, padding) = stamped_lem h.pkt_type t1 buf p.long p in
    (
      stamped h.pkt_type t1 buf,
      rw ((fits_header_iff buf).1 p.long),
      (decode_iff (stamped h.pkt_type t1 buf) (record h { t1 = t1 })).1 (
        q,
        ap {A = Header} (λ x. record x { t1 = t1 }) same
            ∙ ap (λ n. record (read_header h.pkt_type buf) { t1 = n })
                (sym (from_be_bytes-to_be_bytes 8 t1 fits))
            ∙ sym read,
      ),
      padding,
    )

-- What the reflector writes: the fields of a reply.
pub record ReplyFields : Type 0 where
  pub reflector_seq : ℕ
  pub t2 : ℕ
  pub t3 : ℕ
  pub rx_dscp : ℕ
  pub ttl_fwd : ℕ
  pub ttl_rev : ℕ

abbrev pub as_reply : Header → ReplyFields → Header
as_reply h r = record h {
  pkt_type = reply;
  reflector_seq = r.reflector_seq;
  t2 = r.t2;
  t3 = r.t3;
  rx_dscp = r.rx_dscp;
  ttl_fwd = r.ttl_fwd;
  ttl_rev = r.ttl_rev;
}

-- Cutting a buffer behind the header commutes with what is written into the header.
cut_write :
    (n from : ℕ) (bytes x y : List ℕ)
    → from + length bytes ≤ n
    → take n x ≡ y
    → take n (write from bytes x) ≡ write from bytes y
cut_write n from bytes x y h e = take-write n from bytes x h ∙ ap (write from bytes) e

cut_seal : (n : ℕ) (x y : List ℕ) → 56 ≤ n → take n x ≡ y → take n (seal x) ≡ seal y
unfolding seal
cut_seal n x y h e =
    let zeroed = write 54 (to_be_bytes 2 0) in
    let zeros : take n (zeroed x) ≡ zeroed y =
      cut_write n 54 (to_be_bytes 2 0) x y (omega arith) e in
    let same : take 54 (zeroed x) ≡ take 54 (zeroed y) =
      sym (take-take_le 54 n (zeroed x) (omega arith)) ∙ ap (take 54) zeros in
    cut_write n 54 (to_be_bytes 2 (crc16_ccitt (take 54 (zeroed x)))) (zeroed x) (zeroed y)
      (omega arith) zeros
    ∙ ap (λ c. write 54 (to_be_bytes 2 (crc16_ccitt c)) (zeroed y)) same

module _ (r : ReplyFields) where
  abbrev pub reply_fields : List ℕ → List ℕ
  reply_fields buf = write 51 (r.ttl_rev ∷ []) (
      write 50 (r.ttl_fwd ∷ []) (
        write 49 (r.rx_dscp ∷ []) (
          write 32 (to_be_bytes 8 r.t2)
            (write 20 (to_be_bytes 4 r.reflector_seq) (write 3 (2 ∷ []) buf)))))

  abbrev pub replied : List ℕ → List ℕ
  replied buf = seal (write 40 (to_be_bytes 8 r.t3) (reply_fields buf))

  -- The header as the writes leave it, before the widths are used.
  abbrev as_written : Header → Header
  as_written h = record h {
    pkt_type = reply;
    reflector_seq = from_be_bytes (to_be_bytes 4 r.reflector_seq);
    t2 = from_be_bytes (to_be_bytes 8 r.t2);
    t3 = from_be_bytes (to_be_bytes 8 r.t3);
    rx_dscp = r.rx_dscp;
    ttl_fwd = r.ttl_fwd;
    ttl_rev = r.ttl_rev;
  }

  replied_lem :
      (t : PacketType) (buf : List ℕ)
      → 56 ≤ length buf
      → IsPacket buf t
      → IsPacket (replied buf) reply
        × (read_header reply (replied buf) ≡ as_written (read_header t buf))
        × (drop 56 (replied buf) ≡ drop 56 buf)
  unfolding seal
  replied_lem t =
      written_out 56
        (λ buf.
          IsPacket buf t
          → IsPacket (replied buf) reply
            × (read_header reply (replied buf) ≡ as_written (read_header t buf))
            × (drop 56 (replied buf) ≡ drop 56 buf))
        (λ b0 b1 b2 b3 b4 b5 b6 b7 b8 b9 b10 b11 b12 b13 b14 b15 b16 b17 b18 b19 b20 b21 b22 b23 b24
            b25 b26 b27 b28 b29 b30 b31 b32 b33 b34 b35 b36 b37 b38 b39 b40 b41 b42 b43 b44 b45 b46
            b47 b48 b49 b50 b51 b52 b53 b54 b55 rest p.
          (
            record {
              long = p.long;
              magic = p.magic;
              version = p.version;
              type = refl;
              flags = p.flags;
              checksum = from_be_bytes-to_be_bytes 2 _ (crc16_ccitt-lt _);
              size = p.size;
            },
            refl,
            refl,
          ))

  abbrev pub FitReply : Type 0
  FitReply = (r.reflector_seq < 256 ^ 4) × (r.t2 < 256 ^ 8) × (r.t3 < 256 ^ 8)

  as_written_lem : FitReply → (h : Header) → as_written h ≡ as_reply h r
  as_written_lem (seq, t2, t3) h = λ i. record h {
    pkt_type = reply;
    reflector_seq = from_be_bytes-to_be_bytes 4 r.reflector_seq seq i;
    t2 = from_be_bytes-to_be_bytes 8 r.t2 t2 i;
    t3 = from_be_bytes-to_be_bytes 8 r.t3 t3 i;
    rx_dscp = r.rx_dscp;
    ttl_fwd = r.ttl_fwd;
    ttl_rev = r.ttl_rev;
  }

  length-reply_fields : (buf : List ℕ) → length (reply_fields buf) ≡ length buf
  length-reply_fields buf = simp length-write

  -- The two calls, on any buffer that holds a header.
  pub reply_steps :
      (buf : List ℕ)
      → 56 ≤ length buf
      → (make_reply_in_place buf r.t2 r.reflector_seq r.rx_dscp r.ttl_fwd r.ttl_rev
          ≡ ok (reply_fields buf))
        × (stamp_t3 (reply_fields buf) r.t3 ≡ ok (replied buf))
  unfolding make_reply_in_place stamp_t3
  reply_steps buf long = (
    rw ((fits_header_iff buf).1 long),
    rw ((fits_header_iff (reply_fields buf)).1 (rw (length-reply_fields buf) long)),
  )

  -- The reply to the packet in front of a buffer is in front of the buffer.
  pub take-replied : (n : ℕ) (buf : List ℕ) → 56 ≤ n → take n (replied buf) ≡ replied (take n buf)
  take-replied n buf h = cut_seal n _ _ (omega arith) (
      cut_write n 40 (to_be_bytes 8 r.t3) _ _ (omega arith) (
        cut_write n 51 (r.ttl_rev ∷ []) _ _ (omega arith) (
          cut_write n 50 (r.ttl_fwd ∷ []) _ _ (omega arith) (
            cut_write n 49 (r.rx_dscp ∷ []) _ _ (omega arith) (
              cut_write n 32 (to_be_bytes 8 r.t2) _ _ (omega arith) (
                cut_write n 20 (to_be_bytes 4 r.reflector_seq) _ _ (omega arith)
                  (cut_write n 3 (2 ∷ []) _ _ (omega arith) refl)))))))

  pub decode-replied :
      (buf : List ℕ) (h : Header)
      → decode buf ≡ ok h
      → FitReply
      → (decode (replied buf) ≡ ok (as_reply h r)) × (drop 56 (replied buf) ≡ drop 56 buf)
  decode-replied buf h e fits =
      let (p, same) = (decode_iff buf h).0 e in
      let (q, read, padding) = replied_lem h.pkt_type buf p.long p in
      (
        (decode_iff (replied buf) (as_reply h r)).1 (
          q,
          ap (λ x. as_reply x r) same
              ∙ sym (as_written_lem fits (read_header h.pkt_type buf))
              ∙ sym read,
        ),
        padding,
      )

  -- A valid packet turned into a reply in place and stamped decodes to the request's header with the
  -- reflector's fields in it and nothing else changed; so does its padding stay.
  pub decode-reply :
      (buf : List ℕ) (h : Header)
      → decode buf ≡ ok h
      → FitReply
      → (mid : List ℕ) × (out : List ℕ) × (make_reply_in_place buf r.t2 r.reflector_seq r.rx_dscp
            r.ttl_fwd r.ttl_rev
          ≡ ok mid)
        × (stamp_t3 mid r.t3 ≡ ok out)
        × (decode out ≡ ok (as_reply h r))
        × (drop 56 out ≡ drop 56 buf)
  decode-reply buf h e fits =
      let long = ((decode_iff buf h).0 e).0.long in
      let (made, stamps) = reply_steps buf long in
      let (decodes, padding) = decode-replied buf h e fits in
      (reply_fields buf, replied buf, made, stamps, decodes, padding)
