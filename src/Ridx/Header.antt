-- ===== src/Ridx/Header.antt =====
-- src/ridx.c: the header of the index, its size and its checksum.
use libromx.Prelude.{ℕ, ◌+◌, ◌*◌, ◌/◌, Bool, not, ◌||◌, [], ◌∷◌, ltb, ◌==◌, take, replicate}
use libromx.Bytes.{Bytes, slice, copy_at, read_le16, read_le32, bytes_are_zero, bytes_equal}
use libromx.Crc32.{crc32}
use libromx.Outcome.{index_error, range, Outcome, ok, refuse_if, ◌>>=◌, ◌>>◌}
use libromx.Types.{Info, Reader, add64, sub64}
use libromx.Region.{read_exact}

-- ROMX_RIDX_HEADER_SIZE and ROMX_RIDX_ENTRY_SIZE.
abbrev pub header_size : ℕ
header_size = 64

abbrev pub entry_size : ℕ
entry_size = 512

-- The text "RIDX".
abbrev pub ridx_magic : Bytes
ridx_magic = 0x52 ∷ 0x49 ∷ 0x44 ∷ 0x58 ∷ []

unfoldable pub bad_header : Bytes → Bool
bad_header header =
    not (bytes_equal (take 4 header) ridx_magic)
    || not (read_le16 header 0x04 == 1)
    || not (read_le16 header 0x06 == header_size)
    || not (read_le32 header 0x0c == entry_size)
    || not (read_le32 header 0x10 == 0)
    || not (bytes_are_zero (slice 0x18 40 header))

-- The count and the size of the index, for a header that is in order.
unfoldable pub index_extent : Info → Bytes → Outcome (ℕ × ℕ)
index_extent info header =
    let start = info.payload.size in
    let entry_count = read_le32 header 0x08 in
    let available = sub64 info.immutable_size start in
    let index_size = header_size + entry_count * entry_size in
    do
      refuse_if (bad_header header) index_error start
      refuse_if (entry_count == 0) index_error (add64 start 0x08)
      refuse_if (ltb (sub64 available header_size / entry_size) entry_count) range
          (add64 start 0x08)
      ok (entry_count, index_size)

-- The bytes of the whole index. Its checksum is taken with its own field cleared.
pub record IndexBytes : Type 0 where
  pub entry_count : ℕ
  pub index_size : ℕ
  pub bytes : Bytes

pub check_index : ℕ → Bytes → Outcome (Unit {0})
check_index start bytes =
    refuse_if (not (crc32 (copy_at bytes 0x14 (replicate 4 0)) == read_le32 bytes 0x14)) index_error
      (add64 start 0x14)

unfoldable pub read_index : Reader → Outcome IndexBytes
unfolding check_index
read_index reader = do
  header ← read_exact reader.io reader.info.payload.size header_size
  (entry_count, index_size) ← index_extent reader.info header
  bytes ← read_exact reader.io reader.info.payload.size index_size
  check_index reader.info.payload.size bytes
  ok (record {
    entry_count = entry_count;
    index_size = index_size;
    bytes = copy_at bytes 0x14 (replicate 4 0);
  })
