-- ===== src/Mqp/Detect.antt =====
-- What the checksum detects: any change of a single byte.
use mikrotik_quality_agent.Base.{
  ℕ, zero, suc, ◌-◌, ◌*◌, ◌%◌, ◌^◌, ◌≤◌, ◌<◌, bit_xor, List, [], ◌∷◌, ◌≡◌, sym, ◌∙◌, ◌≢◌, arith,
  length, get_or, set, inl, inr, le_or_lt, bit_xor_low, bit_xor-lt, bit_and_pow,
  bit_xor-left_injective, bit_xor-right_injective,
}
use mikrotik_quality_agent.Mqp.Crc.{crc_shift, crc_rounds, crc_byte, crc_bytes, crc16_ccitt}

shift_low : (a : ℕ) → a < 2 ^ 15 → crc_shift a ≡ a * 2
unfolding crc_shift
shift_low a h = ground (arith, bit_and_pow 15 a)

shift_high : (a : ℕ) → 2 ^ 15 ≤ a → a < 2 ^ 16 → crc_shift a ≡ bit_xor (a * 2 - 2 ^ 16) 0x1021
unfolding crc_shift
shift_high a l h = ground (arith, bit_and_pow 15 a)

-- A round forgets nothing: its lowest bit tells the branch, and each branch can be undone.
high_odd : (a : ℕ) → 2 ^ 15 ≤ a → a < 2 ^ 16 → crc_shift a % 2 ≡ 1
high_odd a l h = omega (arith, shift_high a l h, bit_xor_low (a * 2 - 2 ^ 16) 0x1021)

shift_injective : (a b : ℕ) → a < 2 ^ 16 → b < 2 ^ 16 → crc_shift a ≡ crc_shift b → a ≡ b
shift_injective a b p q e = elim (le_or_lt (2 ^ 15) a) [
  | inl high_a ↦ elim (le_or_lt (2 ^ 15) b) [
    | inl high_b ↦ omega (
      arith,
      bit_xor-right_injective (a * 2 - 2 ^ 16) (b * 2 - 2 ^ 16) 0x1021
          (sym (shift_high a high_a p) ∙ e ∙ shift_high b high_b q),
    )
    | inr low_b ↦ absurd (omega (arith, high_odd a high_a p, e, shift_low b low_b))
  ]
  | inr low_a ↦ elim (le_or_lt (2 ^ 15) b) [
    | inl high_b ↦ absurd (omega (arith, high_odd b high_b q, e, shift_low a low_a))
    | inr low_b ↦ omega (arith, e, shift_low a low_a, shift_low b low_b)
  ]
]

shift_lt : (a : ℕ) → a < 2 ^ 16 → crc_shift a < 2 ^ 16
shift_lt a h = elim (le_or_lt (2 ^ 15) a) [
  | inl high ↦
      rw (shift_high a high h) (bit_xor-lt 16 (a * 2 - 2 ^ 16) 0x1021 (omega arith) (omega arith))
  | inr low ↦ omega (arith, shift_low a low)
]

rounds_lt : (n a : ℕ) → a < 2 ^ 16 → crc_rounds n a < 2 ^ 16
unfolding crc_rounds
rounds_lt zero a h = h
rounds_lt (suc n) a h = rounds_lt n (crc_shift a) (shift_lt a h)

rounds_injective : (n a b : ℕ) → a < 2 ^ 16 → b < 2 ^ 16 → crc_rounds n a ≡ crc_rounds n b → a ≡ b
unfolding crc_rounds
rounds_injective zero a b p q e = e
rounds_injective (suc n) a b p q e =
    shift_injective a b p q
      (rounds_injective n (crc_shift a) (crc_shift b) (shift_lt a p) (shift_lt b q) e)

abbrev mixed : ℕ → ℕ → ℕ
mixed crc byte = bit_xor crc (byte * 2 ^ 8 % 2 ^ 16)

mixed_lt : (crc byte : ℕ) → crc < 2 ^ 16 → mixed crc byte < 2 ^ 16
mixed_lt crc byte h = bit_xor-lt 16 crc (byte * 2 ^ 8 % 2 ^ 16) h (omega arith)

byte_lt : (crc byte : ℕ) → crc < 2 ^ 16 → crc_byte crc byte < 2 ^ 16
unfolding crc_byte
byte_lt crc byte h = rounds_lt 8 (mixed crc byte) (mixed_lt crc byte h)

-- One byte, with the register before it: either is determined by the other and the result.
same_register : (a b byte : ℕ) → a < 2 ^ 16 → b < 2 ^ 16 → crc_byte a byte ≡ crc_byte b byte → a ≡ b
unfolding crc_byte
same_register a b byte p q e =
    bit_xor-right_injective a b (byte * 2 ^ 8 % 2 ^ 16)
      (rounds_injective 8 (mixed a byte) (mixed b byte) (mixed_lt a byte p) (mixed_lt b byte q) e)

same_byte :
    (crc v w : ℕ) → crc < 2 ^ 16 → v < 256 → w < 256 → crc_byte crc v ≡ crc_byte crc w → v ≡ w
unfolding crc_byte
same_byte crc v w p hv hw e = omega (
  arith,
  bit_xor-left_injective (v * 2 ^ 8 % 2 ^ 16) (w * 2 ^ 8 % 2 ^ 16) crc
      (rounds_injective 8 (mixed crc v) (mixed crc w) (mixed_lt crc v p) (mixed_lt crc w p) e),
)

bytes_lt : (bytes : List ℕ) (crc : ℕ) → crc < 2 ^ 16 → crc_bytes crc bytes < 2 ^ 16
unfolding crc_bytes
bytes_lt [] crc h = h
bytes_lt (byte ∷ bytes) crc h = bytes_lt bytes (crc_byte crc byte) (byte_lt crc byte h)

bytes_injective :
    (bytes : List ℕ) (a b : ℕ)
    → a < 2 ^ 16
    → b < 2 ^ 16
    → crc_bytes a bytes ≡ crc_bytes b bytes
    → a ≡ b
unfolding crc_bytes
bytes_injective [] a b p q e = e
bytes_injective (byte ∷ bytes) a b p q e = same_register a b byte p q (
    bytes_injective bytes (crc_byte a byte) (crc_byte b byte) (byte_lt a byte p) (byte_lt b byte q)
      e)

change_seen :
    (bytes : List ℕ) (i v crc : ℕ)
    → crc < 2 ^ 16
    → i < length bytes
    → get_or bytes i 0 < 256
    → v < 256
    → crc_bytes crc (set bytes i v) ≡ crc_bytes crc bytes
    → v ≡ get_or bytes i 0
unfolding crc_bytes
change_seen [] i v crc p h old new e = absurd (omega arith)
change_seen (byte ∷ bytes) zero v crc p h old new e = same_byte crc v byte p new old (
    bytes_injective bytes (crc_byte crc v) (crc_byte crc byte) (byte_lt crc v p)
      (byte_lt crc byte p) e)
change_seen (byte ∷ bytes) (suc i) v crc p h old new e =
    change_seen bytes i v (crc_byte crc byte) (byte_lt crc byte p) (omega arith) old new e

-- The checksum is a `u16`.
pub crc16_ccitt-lt : (bytes : List ℕ) → crc16_ccitt bytes < 2 ^ 16
unfolding crc16_ccitt
crc16_ccitt-lt bytes = bytes_lt bytes 0xFFFF (omega arith)

-- Replacing any one byte of a message, at any position, by a different byte changes the checksum.
pub crc16_ccitt-set :
    (bytes : List ℕ) (i v : ℕ)
    → i < length bytes
    → get_or bytes i 0 < 256
    → v < 256
    → v ≢ get_or bytes i 0
    → crc16_ccitt (set bytes i v) ≢ crc16_ccitt bytes
unfolding crc16_ccitt
crc16_ccitt-set bytes i v h old new ne e =
    ne (change_seen bytes i v 0xFFFF (omega arith) h old new e)
