-- ===== src/Mutable.antt =====
-- romx_parse_mutable of src/mutable.c: the mutable region's header and directory. It never fails: what
-- it cannot read or trust is left as a status. The children hold the entries, the search for entries
-- that clash, and the calls on the objects.
pub mod Slots
pub mod Clashes
pub mod Objects
pub mod Accepted
pub mod Apart
use libromx.Prelude.{
  ℕ, zero, suc, ◌+◌, ◌-◌, ◌*◌, ◌/◌, ◌%◌, ◌^◌, ◌≤◌, ◌<◌, min, bit_and, bit_or, bit_xor, ◌≡◌, refl,
  sym, ap, ◌∙◌, ◌≢◌, ◌↔◌, ◌⊎◌, inl, inr, Bool, true, false, not, ◌&&◌, ◌||◌, Option, none, some,
  List, [], ◌∷◌, ◌++◌, map, append_assoc, append-nil, arith, ltb, leb, ◌==◌, if◌then◌else◌, ltb→lt,
  lt→ltb, ==_iff, Bool-cases, Option-cases, length, get_or, get_elem?, set, take, drop, replicate,
  All, length-append, length-set, take-append-drop, length-take, length-drop, length-replicate,
  take-all, take-append, drop-append, drop-drop, take-append-take, All-append, All-take, All-drop,
  All-get_or, get_elem?-append, get_elem?-concat, All-map, All-get_elem?,
}
use libromx.Outcome.{
  Code, invalid_argument, truncated, range, mutable_absent, mutable_header, mutable_entry,
  mutable_data_crc, Outcome, ok, fail, error_set, refuse_if, offset_unknown, ◌>>=◌, ◌>>◌,
}
use libromx.Bytes.{
  Bytes, slice, copy_at, read_le16, read_le32, read_le64, bytes_are_zero, bytes_equal,
}
use libromx.Region.{read_exact}
use libromx.Types.{
  RegionInfo, Info, Io, Reader, MutableSlot, MutableStatus, absent, valid, degraded, invalid, add64,
}
use Slots.{crc32_with_zero_field, header_size, entry_size, Directory, slots_loop}
use Clashes.{settle}

-- The text "RMUT".
abbrev pub rmut_magic : Bytes
rmut_magic = 0x52 ∷ 0x4d ∷ 0x55 ∷ 0x54 ∷ []

unfoldable pub bad_mutable_header : ℕ → Bytes → Bool
bad_mutable_header region_size header =
    let entry_capacity = read_le32 header 0x0c in
    let directory_size = read_le64 header 0x18 in
    let data_area_offset = read_le64 header 0x20 in
    not (bytes_equal (take 4 header) rmut_magic)
    || not (read_le16 header 0x04 == 1)
    || not (read_le16 header 0x06 == 4096)
    || not (read_le32 header 0x08 == 512)
    || ltb entry_capacity 8
    || not (entry_capacity % 8 == 0)
    || not (read_le64 header 0x10 == header_size)
    || not (directory_size == entry_capacity * entry_size)
    || not (data_area_offset == (header_size + directory_size) % 2 ^ 64)
    || not (data_area_offset % 4096 == 0)
    || leb region_size data_area_offset
    || not (read_le64 header 0x28 == region_size - data_area_offset)
    || not (read_le32 header 0x30 == 0)
    || not (read_le32 header 0x34 == crc32_with_zero_field header 0x34)
    || not (bytes_are_zero (slice 0x38 4040 header))

abbrev pub mark_invalid : Reader → Reader
mark_invalid reader = record reader { mutable_slots = []; mutable_status = invalid }

-- The reader after the loops, when the directory could be read.
abbrev pub with_directory : Reader → Outcome Directory → Reader
with_directory reader (fail e) = mark_invalid reader
with_directory reader (ok directory) =
    let (slots, clashed) = settle directory.slots in
    record reader {
      mutable_slots = slots;
      mutable_status = (if directory.damaged || clashed then degraded else valid);
    }

unfoldable pub load_directory : Reader → Bytes → Outcome Directory
load_directory reader header =
    let region = reader.info.mutable_region in
    do
      refuse_if (bad_mutable_header region.size header) mutable_header region.offset
      slots_loop (read_le32 header 0x0c) 0 reader.io region (read_le64 header 0x20)

-- Each failure ends in mutable_mark_invalid.
unfoldable pub parse_mutable : Reader → Reader
parse_mutable reader =
    let region = reader.info.mutable_region in
    let directory =
      read_exact reader.io region.offset header_size >>= λ header. load_directory reader header in
    if region.size == 0
    then record reader { mutable_status = absent }
    else with_directory reader directory
