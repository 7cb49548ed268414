-- ===== src/Mqp/Decode.antt =====
-- `decode` as a specification: which buffers it accepts, and what it reads from them.
use mikrotik_quality_agent.Base.{
  ℕ, ◌+◌, ◌-◌, ◌≤◌, Option, none, some, List, ◌≡◌, refl, sym, ◌∙◌, ap, ◌↔◌, arith, length, get_or,
  from_be_bytes, slice, Result, ok, ok_or, guard, ◌>>=◌, ◌>>◌, Bool, true, false, ◌==◌, ==_iff,
}
use mikrotik_quality_agent.Mqp.Crc.{crc16_ccitt}
use mikrotik_quality_agent.Mqp.Header.{
  PacketType, Header, too_short, bad_magic, unsupported_version, unknown_type, unknown_flags,
  bad_checksum, length_mismatch, from_u8, unknown_bits, read_header, decode, fits_header,
}

-- A buffer that carries one valid MQP packet of type `t`, and nothing else.
pub record IsPacket (buf : List ℕ) (t : PacketType) : Type 0 where
  pub long : 56 ≤ length buf
  pub magic : from_be_bytes (slice 0 2 buf) ≡ 0x4D51
  pub version : get_or buf 2 0 ≡ 1
  pub type : from_u8 (get_or buf 3 0) ≡ some t
  pub flags : unknown_bits (from_be_bytes (slice 4 2 buf)) ≡ 0
  pub checksum : from_be_bytes (slice 54 2 buf) ≡ crc16_ccitt (slice 0 54 buf)
  pub size : length buf ≡ 56 + from_be_bytes (slice 52 2 buf)

-- The shape of `decode`: tests in a row, with one lookup among them.
module _ {E A B : Type 0} (f : A → B) (e₁ e₂ e₃ e₄ e₅ e₆ e₇ : E) where
  abbrev checks : Bool → Bool → Bool → Option A → Bool → Bool → Bool → Result E B
  checks b₁ b₂ b₃ o b₅ b₆ b₇ = do
    guard b₁ e₁
    guard b₂ e₂
    guard b₃ e₃
    a ← ok_or o e₄
    guard b₅ e₅
    guard b₆ e₆
    guard b₇ e₇
    ok (f a)

  checks_ok :
      (b₁ b₂ b₃ : Bool) (o : Option A) (b₅ b₆ b₇ : Bool) (r : B)
      → checks b₁ b₂ b₃ o b₅ b₆ b₇ ≡ ok r
      → (a : A) × (b₁ ≡ true)
        × (b₂ ≡ true)
        × (b₃ ≡ true)
        × (o ≡ some a)
        × (b₅ ≡ true)
        × (b₆ ≡ true)
        × (b₇ ≡ true)
        × (r ≡ f a)
  checks_ok false b₂ b₃ o b₅ b₆ b₇ r h = cc
  checks_ok true false b₃ o b₅ b₆ b₇ r h = cc
  checks_ok true true false o b₅ b₆ b₇ r h = cc
  checks_ok true true true none b₅ b₆ b₇ r h = cc
  checks_ok true true true (some a) false b₆ b₇ r h = cc
  checks_ok true true true (some a) true false b₇ r h = cc
  checks_ok true true true (some a) true true false r h = cc
  checks_ok true true true (some a) true true true r h =
      (a, refl, refl, refl, refl, refl, refl, refl, cc)

  checks_pass :
      (b₁ b₂ b₃ : Bool) (o : Option A) (b₅ b₆ b₇ : Bool) (a : A)
      → b₁ ≡ true
      → b₂ ≡ true
      → b₃ ≡ true
      → o ≡ some a
      → b₅ ≡ true
      → b₆ ≡ true
      → b₇ ≡ true
      → checks b₁ b₂ b₃ o b₅ b₆ b₇ ≡ ok (f a)
  checks_pass b₁ b₂ b₃ o b₅ b₆ b₇ a p q r s t u v = rw (p, q, r, s, t, u, v)

module _ (buf : List ℕ) where
  abbrev word : ℕ → ℕ
  word at = from_be_bytes (slice at 2 buf)

  abbrev crc : ℕ
  crc = crc16_ccitt (slice 0 54 buf)

  decode_lem :
      decode buf
      ≡ checks
          (λ t. read_header t buf)
          (too_short (length buf))
          (bad_magic (word 0))
          (unsupported_version (get_or buf 2 0))
          (unknown_type (get_or buf 3 0))
          (unknown_flags (unknown_bits (word 4)))
          (bad_checksum crc (word 54))
          (length_mismatch (word 52) (length buf - 56))
          (fits_header buf)
          (word 0 == 0x4D51)
          (get_or buf 2 0 == 1)
          (from_u8 (get_or buf 3 0))
          (unknown_bits (word 4) == 0)
          (word 54 == crc)
          (word 52 == length buf - 56)
  unfolding decode
  decode_lem = refl

  pub fits_header_iff : (fits_header buf ≡ true) ↔ (56 ≤ length buf)
  fits_header_iff = ground arith

  accepted :
      (h : Header) → decode buf ≡ ok h → IsPacket buf h.pkt_type × (h ≡ read_header h.pkt_type buf)
  accepted h e =
      let (t, long, magic, version, type, flags, checksum, size, r) =
        checks_ok (λ t. read_header t buf) (too_short (length buf)) (bad_magic (word 0))
          (unsupported_version (get_or buf 2 0)) (unknown_type (get_or buf 3 0))
          (unknown_flags (unknown_bits (word 4))) (bad_checksum crc (word 54))
          (length_mismatch (word 52) (length buf - 56)) (fits_header buf) (word 0 == 0x4D51)
          (get_or buf 2 0 == 1) (from_u8 (get_or buf 3 0)) (unknown_bits (word 4) == 0)
          (word 54 == crc) (word 52 == length buf - 56) h (sym decode_lem ∙ e) in
      let same : h.pkt_type ≡ t = ap (λ x. x.pkt_type) r in
      let enough = fits_header_iff.0 long in
      (
        record {
          long = enough;
          magic = (==_iff (word 0) 0x4D51).0 magic;
          version = (==_iff (get_or buf 2 0) 1).0 version;
          type = rw same type;
          flags = (==_iff (unknown_bits (word 4)) 0).0 flags;
          checksum = (==_iff (word 54) crc).0 checksum;
          size = omega (arith, (==_iff (word 52) (length buf - 56)).0 size);
        },
        r ∙ ap (λ x. read_header x buf) (sym same),
      )

  accepts :
      (h : Header) → IsPacket buf h.pkt_type → h ≡ read_header h.pkt_type buf → decode buf ≡ ok h
  accepts h p r =
      decode_lem
      ∙ checks_pass (λ t. read_header t buf) _ _ _ _ _ _ _ _ _ _ _ _ _ _ h.pkt_type
          (fits_header_iff.1 p.long) ((==_iff (word 0) 0x4D51).1 p.magic)
          ((==_iff (get_or buf 2 0) 1).1 p.version) p.type
          ((==_iff (unknown_bits (word 4)) 0).1 p.flags) ((==_iff (word 54) crc).1 p.checksum)
          ((==_iff (word 52) (length buf - 56)).1 (omega (arith, p.size)))
      ∙ ap ok (sym r)

  -- The same with the reading of the fields left to `read_header`.
  pub decode_iff :
      (h : Header)
      → (decode buf ≡ ok h) ↔ (IsPacket buf h.pkt_type × (h ≡ read_header h.pkt_type buf))
  decode_iff h = (accepted h, λ p. accepts h p.0 p.1)
