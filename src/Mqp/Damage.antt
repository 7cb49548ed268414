-- ===== src/Mqp/Damage.antt =====
-- What damage to a packet `decode` notices.
use mikrotik_quality_agent.Base.{
  ℕ, ◌+◌, ◌-◌, ◌≤◌, ◌<◌, List, ◌≡◌, ◌≢◌, sym, ◌∙◌, ap, ap₂, arith, length, length-set, length-take,
  length-drop, drop, take, set, get_or, from_be_bytes, slice, ok, IsBytes, IsBytes-byte,
  IsBytes-set, IsBytes-slice, le_or_lt, inl, inr, to_be_bytes-from_be_bytes, take-set_within,
  take-set_past, drop-set_within, get_or-take, get_or-drop, get_or-set_self, to_be_bytes,
}
use mikrotik_quality_agent.Mqp.Crc.{crc16_ccitt}
use mikrotik_quality_agent.Mqp.Detect.{crc16_ccitt-set}
use mikrotik_quality_agent.Mqp.Header.{Header, decode}
use mikrotik_quality_agent.Mqp.Decode.{decode_iff}

-- Two bytes are determined by the number that they make.
two_bytes :
    (xs ys : List ℕ)
    → IsBytes xs
    → IsBytes ys
    → length xs ≡ length ys
    → from_be_bytes xs ≡ from_be_bytes ys
    → xs ≡ ys
two_bytes xs ys hx hy len e =
    sym (to_be_bytes-from_be_bytes xs 0 hx)
    ∙ ap₂ to_be_bytes len e
    ∙ to_be_bytes-from_be_bytes ys 0 hy

length-slice : (buf : List ℕ) (from n : ℕ) → from + n ≤ length buf → length (slice from n buf) ≡ n
length-slice buf from n h = omega (arith, length-take n (drop from buf), length-drop from buf)

in_field :
    (buf : List ℕ) (i : ℕ) → 54 ≤ i → i < 56 → get_or (slice 54 2 buf) (i - 54) 0 ≡ get_or buf i 0
in_field buf i l h =
    get_or-take 2 (drop 54 buf) (i - 54) 0 (omega arith)
    ∙ get_or-drop 54 buf (i - 54) 0
    ∙ ap (λ k. get_or buf k 0) (omega arith)

module _ (buf : List ℕ) (i v : ℕ) (bytes : IsBytes buf) (new : v < 256) (long : 56 ≤ length buf)
    (other : v ≢ get_or buf i 0) where
  -- Damage in front of the checksum field.
  covered :
      i < 54
      → from_be_bytes (slice 54 2 buf) ≡ crc16_ccitt (slice 0 54 buf)
      → from_be_bytes (slice 54 2 (set buf i v)) ≡ crc16_ccitt (slice 0 54 (set buf i v))
      → ⊥
  covered h before after =
      crc16_ccitt-set (slice 0 54 buf) i v (omega (arith, length-take 54 buf))
        (IsBytes-byte (take 54 buf) i (IsBytes-slice 0 54 buf bytes)) new
        (λ e. other (e ∙ get_or-take 54 buf i 0 h))
        (ap crc16_ccitt (sym (take-set_within 54 buf i v h))
          ∙ sym after
          ∙ ap (λ rest. from_be_bytes (take 2 rest)) (drop-set_within 54 buf i v h)
          ∙ before)

  -- Damage in it.
  in_checksum :
      54 ≤ i
      → i < 56
      → from_be_bytes (slice 54 2 buf) ≡ crc16_ccitt (slice 0 54 buf)
      → from_be_bytes (slice 54 2 (set buf i v)) ≡ crc16_ccitt (slice 0 54 (set buf i v))
      → ⊥
  in_checksum l h before after =
      let damaged = set buf i v in
      let same_sum : crc16_ccitt (slice 0 54 damaged) ≡ crc16_ccitt (slice 0 54 buf) =
        ap crc16_ccitt (take-set_past 54 buf i v l) in
      let field =
        two_bytes (slice 54 2 damaged) (slice 54 2 buf)
          (IsBytes-slice 54 2 damaged (IsBytes-set buf i v bytes new))
          (IsBytes-slice 54 2 buf bytes)
          (length-slice damaged 54 2 (omega (arith, length-set buf i v))
            ∙ sym (length-slice buf 54 2 long))
          (after ∙ same_sum ∙ sym before) in
      other (
        sym (get_or-set_self buf i v 0 (omega arith))
        ∙ sym (in_field damaged i l h)
        ∙ ap (λ f. get_or f (i - 54) 0) field
        ∙ in_field buf i l h)

-- Replacing any one of the 56 header bytes of a valid packet by a different byte makes `decode`
-- refuse it: no corruption of a single byte is ever read as a header.
pub decode-set :
    (buf : List ℕ) (h h' : Header) (i v : ℕ)
    → IsBytes buf
    → decode buf ≡ ok h
    → i < 56
    → v < 256
    → v ≢ get_or buf i 0
    → decode (set buf i v) ≢ ok h'
decode-set buf h h' i v bytes e at new other e' =
    let p = ((decode_iff buf h).0 e).0 in
    let p' = ((decode_iff (set buf i v) h').0 e').0 in
    elim (le_or_lt 54 i) [
      | inl late ↦ in_checksum buf i v bytes new p.long other late at p.checksum p'.checksum
      | inr early ↦ covered buf i v bytes new p.long other early p.checksum p'.checksum
    ]
