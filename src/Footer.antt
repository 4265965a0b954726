-- ===== src/Footer.antt =====
-- src/footer.c: the 128-byte footer at the end of the container, and the part of
-- romx_writer_write_io_entries in src/writer.c that writes it. The checks stand in the order of the
-- source, each with its error code and byte offset. The null checks of the two pointers are left out.
pub mod Bounds
use libromx.Prelude.{
  ℕ, zero, suc, ◌+◌, ◌-◌, ◌*◌, ◌/◌, ◌%◌, ◌^◌, ◌≤◌, ◌<◌, min, bit_and, bit_or, bit_xor, ◌≡◌, refl,
  sym, ap, ◌∙◌, ◌≢◌, ◌↔◌, ◌⊎◌, inl, inr, Bool, true, false, not, ◌&&◌, ◌||◌, Option, none, some,
  List, [], ◌∷◌, ◌++◌, map, append_assoc, append-nil, arith, ltb, leb, ◌==◌, if◌then◌else◌, ltb→lt,
  lt→ltb, ==_iff, Bool-cases, Option-cases, length, get_or, set, take, drop, replicate, All,
  length-append, length-set, take-append-drop, length-take, length-drop, length-replicate, take-all,
  take-append, drop-append, drop-drop, take-append-take, All-append, All-take, All-drop, All-get_or,
}
use libromx.Bytes.{
  Bytes, slice, copy_at, read_le16, read_le32, read_le64, write_le16, write_le32, write_le64,
  bytes_are_zero, bytes_equal,
}
use libromx.Crc32.{crc32}
use libromx.Outcome.{
  Code, invalid_footer, truncated, range, Outcome, ok, fail, error_set, refuse_if, ◌>>=◌, ◌>>◌,
}
use libromx.Types.{RegionInfo, no_region, Info}

-- ROMX_FOOTER_SIZE, ROMX_FORMAT_VERSION and ROMX_RIDX_HEADER_SIZE.
abbrev pub footer_size : ℕ
footer_size = 128

abbrev pub format_version : ℕ
format_version = 2

abbrev pub ridx_header_size : ℕ
ridx_header_size = 64

-- The text "ROMX".
abbrev pub romx_magic : Bytes
romx_magic = 0x52 ∷ 0x4f ∷ 0x4d ∷ 0x58 ∷ []

-- The checksum of the footer with its own field cleared.
footer_crc : Bytes → ℕ
footer_crc footer = crc32 (copy_at footer 0x50 (replicate 4 0))

-- The checks of the magic, the version, the checksum and the reserved bytes.
pub check_seal : Bytes → ℕ → Outcome (Unit {0})
unfolding footer_crc
check_seal footer footer_offset = do
  refuse_if
      (not (bytes_equal (take 4 footer) romx_magic)
        || not (read_le32 footer 0x04 == format_version))
      invalid_footer footer_offset
  refuse_if
      (not (footer_crc footer == read_le32 footer 0x50)
        || not (bytes_are_zero (slice 0x54 44 footer)))
      invalid_footer (footer_offset + 0x50)

-- The assignments that fill `info` from the footer's fields.
pub footer_fields : Bytes → ℕ → Info
footer_fields footer file_size = record {
  version = format_version;
  file_size = file_size;
  payload = record { offset = 0; size = read_le64 footer 0x08 };
  metadata = record { offset = 0; size = read_le64 footer 0x10 };
  cover = record { offset = 0; size = read_le64 footer 0x18 };
  payload_index = no_region;
  immutable_padding = no_region;
  mutable_region = no_region;
  footer = record { offset = file_size - footer_size; size = footer_size };
  immutable_size = 0;
  immutable_hash_algorithm = read_le32 footer 0x2c;
  footer_crc32 = read_le32 footer 0x50;
  platform_id = read_le16 footer 0x28;
  launch_format_id = read_le16 footer 0x2a;
  entry_count = 0;
  entrypoint_index = 0;
  immutable_sha256 = slice 0x30 32 footer;
}

-- The mutable region stands right before the footer, and everything before it is immutable.
pub place_mutable : Info → ℕ → Outcome Info
place_mutable info mutable_capacity =
    let footer_offset = info.footer.offset in
    if mutable_capacity == 0 then ok (record info { immutable_size = footer_offset }) else do
      refuse_if
          (ltb mutable_capacity 12288
            || not (mutable_capacity % 4096 == 0)
            || ltb footer_offset mutable_capacity)
          range (footer_offset + 0x20)
      ok (record info {
        mutable_region = record {
          offset = footer_offset - mutable_capacity;
          size = mutable_capacity;
        };
        immutable_size = footer_offset - mutable_capacity;
      })

-- A disabled hash is all zeros, and no other algorithm than SHA-256 is known.
check_hash : Info → ℕ → Outcome (Unit {0})
check_hash info footer_offset =
    if info.immutable_hash_algorithm == 0
    then refuse_if (not (bytes_are_zero info.immutable_sha256)) invalid_footer
        (footer_offset + 0x30)
    else refuse_if (not (info.immutable_hash_algorithm == 1)) invalid_footer (footer_offset + 0x2c)

-- The last checks: room for the RIDX header, the registry values and the hash fields.
pub check_fields : Info → Outcome (Unit {0})
unfolding check_hash
check_fields info =
    let footer_offset = info.footer.offset in
    do
      refuse_if
          (ltb info.immutable_size info.payload.size
            || ltb (info.immutable_size - info.payload.size) ridx_header_size)
          range (footer_offset + 0x08)
      refuse_if (info.platform_id == 0xffff || info.launch_format_id == 0xffff) invalid_footer
          (footer_offset + 0x28)
      check_hash info footer_offset

unfoldable pub parse_footer : Bytes → ℕ → Outcome Info
unfolding check_seal footer_fields place_mutable check_fields
parse_footer footer file_size = do
  refuse_if (ltb file_size footer_size) truncated file_size
  let footer_offset = file_size - footer_size
  check_seal footer footer_offset
  let info = footer_fields footer file_size
  refuse_if
      (info.payload.size == 0
        || ltb footer_offset info.payload.size
        || ltb (footer_offset - info.payload.size) ridx_header_size)
      range (footer_offset + 0x08)
  placed ← place_mutable info (read_le64 footer 0x20)
  check_fields placed
  ok (record placed { payload_index = record { offset = placed.payload.size; size = 0 } })

-- What the writer stores in the footer.
pub record FooterFields : Type 0 where
  pub payload_size : ℕ
  pub metadata_size : ℕ
  pub cover_size : ℕ
  pub mutable_capacity : ℕ
  pub platform_id : ℕ
  pub launch_format_id : ℕ
  pub hashed : Bool
  pub immutable_hash : Bytes

-- The stores before the checksum; `hashed` is the flag ROMX_WRITER_IMMUTABLE_SHA256.
pub footer_body : FooterFields → Bytes
footer_body f =
    let b0 = copy_at (replicate 128 0) 0 romx_magic in
    let b1 = write_le32 b0 0x04 format_version in
    let b2 = write_le64 b1 0x08 f.payload_size in
    let b3 = write_le64 b2 0x10 f.metadata_size in
    let b4 = write_le64 b3 0x18 f.cover_size in
    let b5 = write_le64 b4 0x20 f.mutable_capacity in
    let b6 = write_le16 b5 0x28 f.platform_id in
    let b7 = write_le16 b6 0x2a f.launch_format_id in
    if f.hashed then copy_at (write_le32 b7 0x2c 1) 0x30 f.immutable_hash else b7

unfoldable pub build_footer : FooterFields → Bytes
unfolding footer_body
build_footer f = let body = footer_body f in write_le32 body 0x50 (crc32 body)
