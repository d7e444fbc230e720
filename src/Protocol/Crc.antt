-- ===== src/Protocol/Crc.antt =====
-- `crc16_ccitt` of binary_protocol.cpp: polynomial 0x1021, initial value 0xFFFF, most significant
-- bit first. A byte is a number below 256, a `uint16_t` a number below 2 ^ 16.
pub mod Linear
pub mod Detect
use my_diffbot.Common.{
  ℕ, zero, suc, ◌^◌, ◌%◌, bit_and, bit_xor, List, [], ◌∷◌, not, u16, ◌<<<◌, ◌==◌, if◌then◌else◌,
  take,
}

-- One round of the inner loop.
unfoldable pub crc_bit : ℕ → ℕ
crc_bit crc =
    if not (bit_and crc 0x8000 == 0) then u16 (bit_xor (crc <<< 1) 0x1021) else u16 (crc <<< 1)

-- The inner loop, with the rounds that are left.
unfoldable pub crc_bits : ℕ → ℕ → ℕ
unfolding crc_bit
crc_bits zero crc = crc
crc_bits (suc j) crc = crc_bits j (crc_bit crc)

-- One round of the outer loop.
unfoldable pub crc_byte : ℕ → ℕ → ℕ
unfolding crc_bits
crc_byte crc byte = crc_bits 8 (u16 (bit_xor crc (byte <<< 8)))

-- The outer loop over the bytes that are left.
unfoldable pub crc_bytes : ℕ → List ℕ → ℕ
unfolding crc_byte
crc_bytes crc [] = crc
crc_bytes crc (byte ∷ rest) = crc_bytes (crc_byte crc byte) rest

-- The pointer and the length are the first `length` bytes of a sequence.
unfoldable pub crc16_ccitt : List ℕ → ℕ → ℕ
unfolding crc_bytes
crc16_ccitt bytes length = crc_bytes 0xFFFF (take length bytes)
