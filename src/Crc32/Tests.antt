-- ===== src/Crc32/Tests.antt =====
-- Runs of the checksum.
use libromx.Prelude.{[], ◌∷◌, ◌≡◌, refl}
use libromx.Crc32.{crc32_update, crc32}

-- The check value of CRC-32: the digits 1 to 9.
crc32_check_value :
    crc32 (0x31 ∷ 0x32 ∷ 0x33 ∷ 0x34 ∷ 0x35 ∷ 0x36 ∷ 0x37 ∷ 0x38 ∷ 0x39 ∷ []) ≡ 0xcbf43926
unfolding crc32 crc32_update
crc32_check_value = refl
