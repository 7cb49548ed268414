-- ===== src/Mqp/Tests.antt =====
-- The codec on concrete packets, after the unit tests of mqp.rs, and its theorems at them.
use mikrotik_quality_agent.Base.{
  ℕ, ◌≡◌, ◌≢◌, refl, arith, List, [], ◌∷◌, replicate, drop, set, ◌++◌, IsBytes, ok, err, ◌↔◌,
}
use mikrotik_quality_agent.Mqp.Crc.{crc16_ccitt, crc_bytes, crc_byte, crc_rounds, crc_shift}
use mikrotik_quality_agent.Mqp.Header.{
  Header, request, encode, decode, stamp_t3, make_reply_in_place, wire_len, seal, write_fields,
  bad_checksum,
}
use mikrotik_quality_agent.Mqp.Layout.{Carries, decode-Carries}
use mikrotik_quality_agent.Mqp.RoundTrip.{IsHeader, decode-encode}
use mikrotik_quality_agent.Mqp.Damage.{decode-set}
use mikrotik_quality_agent.Mqp.Reply.{ReplyFields, as_reply, decode-reply}

-- `sample_header` of the source's tests, with a payload of two bytes.
abbrev sample_header : Header
sample_header = record {
  version = 1;
  pkt_type = request;
  flags = 9;
  session_id = 0x7F3A_9C2B_1D4E_8A60;
  seq = 12345;
  reflector_seq = 0;
  t1 = 1_234_567_890_123;
  t2 = 0;
  t3 = 0;
  tx_dscp = 46;
  rx_dscp = 0;
  ttl_fwd = 0;
  ttl_rev = 0;
  payload_len = 2;
}

sample_IsHeader : IsHeader sample_header
sample_IsHeader = omega arith

abbrev head : ℕ → ℕ → List ℕ
head a b =
    77 ∷ 81 ∷ 1 ∷ 1 ∷ 0 ∷ 9 ∷ 0 ∷ 0 ∷ 0x7F ∷ 0x3A ∷ 0x9C ∷ 0x2B ∷ 0x1D ∷ 0x4E ∷ 0x8A ∷ 0x60 ∷ 0 ∷ 0
    ∷ 0x30 ∷ 0x39 ∷ 0 ∷ 0 ∷ 0 ∷ 0 ∷ 0 ∷ 0 ∷ 1 ∷ 0x1F ∷ 0x71 ∷ 0xFB ∷ 0x04 ∷ 0xCB ∷ 0 ∷ 0 ∷ 0 ∷ 0 ∷ 0
    ∷ 0 ∷ 0 ∷ 0 ∷ 0 ∷ 0 ∷ 0 ∷ 0 ∷ 0 ∷ 0 ∷ 0 ∷ 0 ∷ 46 ∷ 0 ∷ 0 ∷ 0 ∷ 0 ∷ 2 ∷ a ∷ b ∷ 0xAA ∷ 0xBB ∷ []

abbrev sample : List ℕ
sample = head 51 67

sample_decodes : decode sample ≡ ok sample_header
unfolding decode crc16_ccitt crc_bytes crc_byte crc_rounds crc_shift
sample_decodes = refl

sample_encodes : encode sample_header (replicate 56 7 ++ (0xAA ∷ 0xBB ∷ [])) ≡ ok sample
unfolding encode write_fields seal crc16_ccitt crc_bytes crc_byte crc_rounds crc_shift
sample_encodes = refl

wrong_checksum : decode (head 51 68) ≡ err (bad_checksum 0x3343 0x3344)
unfolding decode crc16_ccitt crc_bytes crc_byte crc_rounds crc_shift
wrong_checksum = refl

sample-IsBytes : IsBytes sample
sample-IsBytes = omega arith

decode-Carries_example : (decode sample ≡ ok sample_header) ↔ Carries sample sample_header
decode-Carries_example = decode-Carries sample sample_header

decode-encode_example :
    (out : List ℕ) × (encode sample_header (replicate 58 7) ≡ ok out)
    × (decode out ≡ ok sample_header)
    × (drop 56 out ≡ 7 ∷ 7 ∷ [])
decode-encode_example =
    decode-encode sample_header (replicate 58 7) sample_IsHeader refl refl
      (unfold wire_len in omega arith)

decode-set_example : decode (set sample 20 5) ≢ ok sample_header
decode-set_example =
    decode-set sample sample_header sample_header 20 5 sample-IsBytes sample_decodes (omega arith)
      (omega arith) (omega arith)

abbrev fields : ReplyFields
fields = record {
  reflector_seq = 3;
  t2 = 1000;
  t3 = 1500;
  rx_dscp = 46;
  ttl_fwd = 63;
  ttl_rev = 64;
}

decode-reply_example :
    (mid : List ℕ) × (out : List ℕ) × (make_reply_in_place sample 1000 3 46 63 64 ≡ ok mid)
    × (stamp_t3 mid 1500 ≡ ok out)
    × (decode out ≡ ok (as_reply sample_header fields))
    × (drop 56 out ≡ 0xAA ∷ 0xBB ∷ [])
decode-reply_example = decode-reply fields sample sample_header sample_decodes (omega arith)
