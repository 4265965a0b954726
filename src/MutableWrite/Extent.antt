-- ===== src/MutableWrite/Extent.antt =====
-- src/mutable_write.c: the search for room for a new object, and the record of an object.
pub mod Free
pub mod Record
use libromx.Prelude.{
  ℕ, zero, suc, ◌+◌, ◌-◌, ◌*◌, ◌/◌, ◌%◌, ◌^◌, ◌≤◌, ◌<◌, min, bit_and, bit_or, bit_xor, ◌≡◌, refl,
  sym, ap, ◌∙◌, ◌≢◌, ◌↔◌, ◌⊎◌, inl, inr, Bool, true, false, not, ◌&&◌, ◌||◌, Option, none, some,
  List, [], ◌∷◌, ◌++◌, map, append_assoc, append-nil, arith, ltb, leb, ◌==◌, if◌then◌else◌, ltb→lt,
  lt→ltb, ==_iff, Bool-cases, Option-cases, length, get_or, get_elem?, set, take, drop, replicate,
  All, length-append, length-set, take-append-drop, length-take, length-drop, length-replicate,
  take-all, take-append, drop-append, drop-drop, take-append-take, All-append, All-take, All-drop,
  All-get_or, get_elem?-append, get_elem?-concat, All-map, All-get_elem?,
}
use libromx.Bytes.{Bytes, write_le16, write_le32, write_le64, copy_at}
use libromx.Crc32.{crc32}
use libromx.Mutable.Slots.{header_size, entry_size, ment_magic}
use libromx.Ridx.Entries.{Range}
use libromx.Types.{RegionInfo, Info, Reader, MutableObject, MutableSlot, add64, sub64}

-- `(value + 63) & ~63`, saturated.
unfoldable pub align64 : ℕ → ℕ
align64 value = if ltb (2 ^ 64 - 1 - 63) value then 2 ^ 64 - 1 else (value + 63) / 64 * 64

-- The ranges of the slots in use.
abbrev pub used_range : MutableSlot → List Range
used_range slot =
    if not slot.usable
    then []
    else record {
      start = slot.object.data_offset;
      end = add64 slot.object.data_offset slot.object.data_capacity;
    }
      ∷ []

abbrev pub used_ranges : List MutableSlot → List Range
used_ranges [] = []
used_ranges (slot ∷ slots) = used_range slot ++ used_ranges slots

-- `qsort` by range_compare, which here is an insertion sort by the starts.
unfoldable pub insert_range : Range → List Range → List Range
insert_range r [] = r ∷ []
insert_range r (s ∷ ranges) =
    if leb r.start s.start then r ∷ s ∷ ranges else s ∷ insert_range r ranges

unfoldable pub sort_ranges : List Range → List Range
sort_ranges [] = []
sort_ranges (r ∷ ranges) = insert_range r (sort_ranges ranges)

-- The loop over the sorted ranges: the cursor where it ends.
unfoldable pub first_fit : ℕ → ℕ → List Range → ℕ
first_fit capacity cursor [] = cursor
first_fit capacity cursor (r ∷ ranges) =
    let next = first_fit capacity (if ltb cursor r.end then align64 r.end else cursor) ranges in
    if leb cursor r.start && leb capacity (r.start - cursor) then cursor else next

unfoldable pub find_free_extent : Reader → ℕ → Option ℕ
find_free_extent reader capacity =
    let start = header_size + length reader.mutable_slots * entry_size in
    let cursor = first_fit capacity start (sort_ranges (used_ranges reader.mutable_slots)) in
    let size = reader.info.mutable_region.size in
    if ltb size cursor || ltb (size - cursor) capacity then none else some cursor

-- The fields of the record before its checksum; the object's `slot_index` is not stored.
unfoldable pub entry_body : ℕ → MutableObject → Bytes
entry_body state object =
    let key_size = length object.key in
    let e0 = copy_at (replicate 512 0) 0 ment_magic in
    let e1 = write_le16 e0 0x04 state in
    let e2 = write_le16 e1 0x06 object.object_namespace in
    let e3 = write_le32 e2 0x0c (key_size % 2 ^ 32) in
    let e4 = write_le64 e3 0x10 object.data_offset in
    let e5 = write_le64 e4 0x18 object.data_capacity in
    let e6 = write_le64 e5 0x20 object.data_size in
    let e7 = write_le64 e6 0x28 object.generation in
    let e8 = write_le64 e7 0x30 object.modified_unix_seconds in
    let e9 = write_le32 e8 0x38 object.data_crc32 in copy_at e9 0x40 object.key

unfoldable pub build_entry : ℕ → MutableObject → Bytes
build_entry state object =
    write_le32 (entry_body state object) 0x3c (crc32 (entry_body state object))
