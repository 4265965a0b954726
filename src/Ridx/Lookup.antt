-- ===== src/Ridx/Lookup.antt =====
-- src/ridx.c: the look-up of entries and the reads of their data; romx_vfs_file_open and the others of
-- src/vfs_file.c and src/payload_file.c build on it. The caller's structures have their full size.
pub mod Unique
use libromx.Prelude.{
  ℕ, zero, suc, ◌+◌, ◌-◌, ◌*◌, ◌/◌, ◌%◌, ◌^◌, ◌≤◌, ◌<◌, min, bit_and, bit_or, bit_xor, ◌≡◌, refl,
  sym, ap, ◌∙◌, ◌≢◌, ◌↔◌, ◌⊎◌, inl, inr, Bool, true, false, not, ◌&&◌, ◌||◌, Option, none, some,
  List, [], ◌∷◌, ◌++◌, map, append_assoc, append-nil, arith, ltb, leb, ◌==◌, if◌then◌else◌, ltb→lt,
  lt→ltb, ==_iff, Bool-cases, Option-cases, length, get_or, get_elem?, set, take, drop, replicate,
  All, length-append, length-set, take-append-drop, length-take, length-drop, length-replicate,
  take-all, take-append, drop-append, drop-drop, take-append-take, All-append, All-take, All-drop,
  All-get_or, get_elem?-append, get_elem?-concat, All-map, All-get_elem?,
}
use libromx.Bytes.{Bytes, bytes_equal}
use libromx.Outcome.{
  Code, invalid_argument, entry_not_found, range, Outcome, ok, fail, error_set, refuse_if,
  offset_unknown, ◌>>=◌, ◌>>◌,
}
use libromx.Region.{read_window}
use libromx.Types.{EntryInfo, Info, Reader}

abbrev pub get_entry_count : Reader → ℕ
get_entry_count reader = reader.info.entry_count

-- The array's element; past its end, where the source's guard keeps it from going, the guard's error.
abbrev pub element_or : Code → Option EntryInfo → Outcome EntryInfo
element_or code (some entry) = ok entry
element_or code none = error_set code offset_unknown

unfoldable pub entry_at : Code → Reader → ℕ → Outcome EntryInfo
entry_at code reader index = do
  refuse_if (not (ltb index reader.info.entry_count)) code offset_unknown
  element_or code (get_elem? reader.entries index)

abbrev pub get_entry : Reader → ℕ → Outcome EntryInfo
get_entry reader index = entry_at range reader index

abbrev pub get_entrypoint : Reader → Outcome EntryInfo
get_entrypoint reader = get_entry reader reader.info.entrypoint_index

-- The loop over the first `left` entries from `index` on: the index at which the loop stops.
pub find_index : Bytes → List EntryInfo → ℕ → Option ℕ
find_index path [] index = none
find_index path (entry ∷ entries) index =
    let rest = find_index path entries (index + 1) in
    if bytes_equal entry.path path then some index else rest

abbrev pub found_entry : Reader → Option ℕ → Outcome EntryInfo
found_entry reader (some index) = get_entry reader index
found_entry reader none = error_set entry_not_found offset_unknown

-- `entry_count` entries are compared, by strcmp; neither path has a zero byte.
unfoldable pub find_entry : Reader → Bytes → Outcome EntryInfo
unfolding find_index
find_entry reader path =
    found_entry reader (find_index path (take reader.info.entry_count reader.entries) 0)

unfoldable pub read_entry : Reader → ℕ → ℕ → ℕ → Outcome Bytes
read_entry reader index entry_offset buffer_size = do
  entry ← entry_at invalid_argument reader index
  refuse_if (ltb entry.data_size entry_offset) range entry_offset
  read_window reader.io entry.data_offset entry.data_size entry_offset buffer_size
