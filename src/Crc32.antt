-- ===== src/Crc32.antt =====
-- src/crc32.c: the reflected CRC-32 with polynomial 0xedb88320, one bit at a time.
pub mod Stream
pub mod Detect
mod Tests
use libromx.Prelude.{ℕ, zero, suc, ◌-◌, ◌/◌, ◌%◌, ◌^◌, bit_and, bit_xor, List, [], ◌∷◌}
use libromx.Bytes.{Bytes}

abbrev pub polynomial : ℕ
polynomial = 0xedb88320

-- One round of the inner loop. `(uint32_t)-(int32_t)(crc & 1)` is the remainder of 2^32 - (crc & 1).
pub crc_bit : ℕ → ℕ
crc_bit crc =
    let mask = (2 ^ 32 - bit_and crc 1) % 2 ^ 32 in bit_xor (crc / 2) (bit_and polynomial mask)

pub crc_bits : ℕ → ℕ → ℕ
crc_bits zero crc = crc
crc_bits (suc left) crc = crc_bits left (crc_bit crc)

unfoldable pub crc32_begin : ℕ
crc32_begin = 0xffffffff

unfoldable pub crc32_update : ℕ → Bytes → ℕ
unfolding crc_bits crc_bit
crc32_update crc [] = crc
crc32_update crc (b ∷ bytes) = crc32_update (crc_bits 8 (bit_xor crc b)) bytes

unfoldable pub crc32_finish : ℕ → ℕ
crc32_finish crc = bit_xor crc 0xffffffff

-- `crc = begin(); crc = update(crc, bytes, size); crc = finish(crc);`, as every caller writes it.
unfoldable pub crc32 : Bytes → ℕ
unfolding crc32_begin crc32_finish
crc32 bytes = crc32_finish (crc32_update crc32_begin bytes)
