-- ===== src/Mqp/Crc.antt =====
-- `crc16_ccitt`: CRC-16/CCITT-FALSE, bit by bit as the source computes it.
use mikrotik_quality_agent.Base.{
  ℕ, zero, suc, ◌*◌, ◌%◌, ◌^◌, bit_and, bit_xor, List, [], ◌∷◌, ◌≡◌, refl, ◌==◌, if◌then◌else◌,
}

-- One round of the inner loop, on a `u16`.
unfoldable pub crc_shift : ℕ → ℕ
crc_shift crc =
    if bit_and crc 0x8000 == 0 then crc * 2 % 2 ^ 16 else bit_xor (crc * 2 % 2 ^ 16) 0x1021

-- `for _ in 0..rounds`.
unfoldable pub crc_rounds : ℕ → ℕ → ℕ
crc_rounds zero crc = crc
crc_rounds (suc rounds) crc = crc_rounds rounds (crc_shift crc)

unfoldable pub crc_byte : ℕ → ℕ → ℕ
crc_byte crc byte = crc_rounds 8 (bit_xor crc (byte * 2 ^ 8 % 2 ^ 16))

unfoldable pub crc_bytes : ℕ → List ℕ → ℕ
crc_bytes crc [] = crc
crc_bytes crc (byte ∷ bytes) = crc_bytes (crc_byte crc byte) bytes

unfoldable pub crc16_ccitt : List ℕ → ℕ
crc16_ccitt bytes = crc_bytes 0xFFFF bytes

-- The check value that catalogues list for CRC-16/CCITT-FALSE: the nine digits give 0x29B1.
check_value :
    crc16_ccitt (0x31 ∷ 0x32 ∷ 0x33 ∷ 0x34 ∷ 0x35 ∷ 0x36 ∷ 0x37 ∷ 0x38 ∷ 0x39 ∷ []) ≡ 0x29B1
unfolding crc16_ccitt crc_bytes crc_byte crc_rounds crc_shift
check_value = refl
