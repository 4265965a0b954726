-- ===== src/Ridx/Entries.antt =====
-- src/ridx.c: the loop over the stored entries, with the checks of each in the order of the source.
pub mod Accepted
use libromx.Prelude.{
  ℕ, zero, suc, ◌+◌, ◌-◌, ◌*◌, ◌/◌, ◌%◌, ◌^◌, ◌≤◌, ◌<◌, min, bit_and, bit_or, bit_xor, ◌≡◌, refl,
  sym, ap, ◌∙◌, ◌≢◌, ◌↔◌, ◌⊎◌, inl, inr, Bool, true, false, not, ◌&&◌, ◌||◌, Option, none, some,
  List, [], ◌∷◌, ◌++◌, map, append_assoc, append-nil, arith, ltb, leb, ◌==◌, if◌then◌else◌, ltb→lt,
  lt→ltb, ==_iff, Bool-cases, Option-cases, length, get_or, set, take, drop, replicate, All,
  length-append, length-set, take-append-drop, length-take, length-drop, length-replicate, take-all,
  take-append, drop-append, drop-drop, take-append-take, All-append, All-take, All-drop, All-get_or,
}
use libromx.Bytes.{Bytes, slice, read_le16, read_le32, read_le64, bytes_are_zero}
use libromx.Outcome.{
  Code, index_error, range, virtual_path, Outcome, ok, fail, error_set, refuse_if, ◌>>=◌, ◌>>◌,
}
use libromx.Path.{path_is_valid, ascii_fold_equal}
use libromx.Types.{EntryInfo, add64}
use libromx.Ridx.Header.{header_size, entry_size, IndexBytes}

-- ROMX_RIDX_PATH_CAPACITY; ROMX_RIDX_ENTRYPOINT and ROMX_RIDX_HAS_CRC32 are the bits 1 and 2 of the
-- flags, and the mask below is ~ROMX_RIDX_FLAGS_MASK.
abbrev pub path_capacity : ℕ
path_capacity = 480

abbrev pub unknown_flags : ℕ
unknown_flags = 0xfffffffc

abbrev pub is_entrypoint : EntryInfo → Bool
is_entrypoint entry = not (bit_and entry.flags 1 == 0)

abbrev pub has_crc32 : EntryInfo → Bool
has_crc32 entry = not (bit_and entry.flags 2 == 0)

-- The fields of an entry; `path` is what the source copies once the tests below have passed.
unfoldable pub entry_fields : ℕ → Bytes → EntryInfo
entry_fields position stored = record {
  index = position;
  flags = read_le32 stored 0x00;
  format_id = read_le16 stored 0x04;
  data_offset = read_le64 stored 0x08;
  data_size = read_le64 stored 0x10;
  crc32 = read_le32 stored 0x18;
  path = slice 0x20 (read_le16 stored 0x06) stored;
}

unfoldable pub bad_stored : Bytes → Bool
bad_stored stored =
    let path_size = read_le16 stored 0x06 in
    not (bit_and (read_le32 stored 0x00) unknown_flags == 0)
    || not (read_le32 stored 0x1c == 0)
    || path_size == 0
    || ltb path_capacity path_size
    || not (bytes_are_zero (slice (0x20 + path_size) (path_capacity - path_size) stored))
    || not (path_is_valid (slice 0x20 path_size stored))

-- The tests on the entrypoint, and on the format of any other entry.
unfoldable pub check_kind : ℕ → EntryInfo → Outcome (Unit {0})
check_kind base entry =
    if is_entrypoint entry
    then refuse_if
        (not (entry.data_offset == 0)
          || entry.data_size == 0
          || entry.format_id == 0
          || entry.format_id == 0xffff)
        index_error base
    else refuse_if (entry.format_id == 0xffff) index_error (add64 base 0x04)

-- All tests on one entry but the comparison with those before it; `base` is its place in the file.
unfoldable pub check_entry : ℕ → ℕ → Bytes → EntryInfo → Outcome (Unit {0})
check_entry payload_size base stored entry = do
  refuse_if (bad_stored stored) virtual_path base
  refuse_if (not (has_crc32 entry) && not (entry.crc32 == 0)) index_error (add64 base 0x18)
  refuse_if
      (ltb payload_size entry.data_offset || ltb (payload_size - entry.data_offset) entry.data_size)
      range (add64 base 0x08)
  check_kind base entry

-- `for (other = 0; other < position; ++other)`
unfoldable pub collides : Bytes → List EntryInfo → Bool
collides path [] = false
collides path (other ∷ entries) = ascii_fold_equal path other.path || collides path entries

-- romx_range_t
pub record Range : Type 0 where
  pub start : ℕ
  pub end : ℕ

abbrev pub range_of : EntryInfo → List Range
range_of entry =
    if not (entry.data_size == 0)
    then record { start = entry.data_offset; end = add64 entry.data_offset entry.data_size } ∷ []
    else []

-- What the loop has gathered: the entries and the ranges in their order, the entrypoints counted.
pub record Loaded : Type 0 where
  pub entries : List EntryInfo
  pub ranges : List Range
  pub entrypoint_count : ℕ
  pub entrypoint_index : ℕ
  pub index_size : ℕ

unfoldable pub add_entry : EntryInfo → Loaded → Loaded
add_entry entry loaded = record loaded {
  entries = loaded.entries ++ (entry ∷ []);
  ranges = loaded.ranges ++ range_of entry;
  entrypoint_count =
      (if is_entrypoint entry then loaded.entrypoint_count + 1 else loaded.entrypoint_count);
  entrypoint_index = (if is_entrypoint entry then entry.index else loaded.entrypoint_index);
}

-- One round, at the position after the entries that were loaded.
unfoldable pub load_entry : ℕ → ℕ → Bytes → Loaded → Outcome Loaded
load_entry payload_size position bytes loaded =
    let base = add64 payload_size (header_size + position * entry_size) in
    let stored = slice (header_size + position * entry_size) entry_size bytes in
    let entry = entry_fields position stored in
    do
      check_entry payload_size base stored entry
      refuse_if (collides entry.path loaded.entries) virtual_path (add64 base 0x20)
      ok (add_entry entry loaded)

pub entries_loop : ℕ → ℕ → ℕ → Bytes → Loaded → Outcome Loaded
entries_loop zero payload_size position bytes loaded = ok loaded
entries_loop (suc left) payload_size position bytes loaded =
    load_entry payload_size position bytes loaded >>= λ next.
    entries_loop left payload_size (position + 1) bytes next

-- A container with one file holds nothing else in its payload.
unfoldable pub check_single : ℕ → List EntryInfo → Outcome (Unit {0})
check_single payload_size (entry ∷ []) =
    refuse_if (not (entry.data_offset == 0) || not (entry.data_size == payload_size)) index_error
      payload_size
check_single payload_size _ = ok tt

-- The variables of the loop before its first round.
abbrev pub nothing_loaded : IndexBytes → Loaded
nothing_loaded index = record {
  entries = [];
  ranges = [];
  entrypoint_count = 0;
  entrypoint_index = 0;
  index_size = index.index_size;
}

unfoldable pub load_entries : ℕ → IndexBytes → Outcome Loaded
unfolding entries_loop
load_entries payload_size index = do
  loaded ← entries_loop index.entry_count payload_size 0 index.bytes (nothing_loaded index)
  refuse_if (not (loaded.entrypoint_count == 1)) index_error payload_size
  check_single payload_size loaded.entries
  ok loaded
