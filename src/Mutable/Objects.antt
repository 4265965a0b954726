-- ===== src/Mutable/Objects.antt =====
-- src/mutable.c: the calls that count, list and find the objects of the mutable region. An object's data
-- is checked against its CRC-32 before it is given out. The caller's structures have their full size.
pub mod Checked
use libromx.Prelude.{
  ℕ, zero, suc, ◌+◌, ◌-◌, ◌*◌, ◌/◌, ◌%◌, ◌^◌, ◌≤◌, ◌<◌, min, bit_and, bit_or, bit_xor, ◌≡◌, refl,
  sym, ap, ◌∙◌, ◌≢◌, ◌↔◌, ◌⊎◌, inl, inr, Bool, true, false, not, ◌&&◌, ◌||◌, Option, none, some,
  List, [], ◌∷◌, ◌++◌, map, append_assoc, append-nil, arith, ltb, leb, ◌==◌, if◌then◌else◌, ltb→lt,
  lt→ltb, ==_iff, Bool-cases, Option-cases, length, get_or, get_elem?, set, take, drop, replicate,
  All, length-append, length-set, take-append-drop, length-take, length-drop, length-replicate,
  take-all, take-append, drop-append, drop-drop, take-append-take, All-append, All-take, All-drop,
  All-get_or, get_elem?-append, get_elem?-concat, All-map, All-get_elem?,
}
use libromx.Outcome.{
  Code, invalid_argument, truncated, range, mutable_absent, mutable_header, mutable_entry,
  mutable_data_crc, Outcome, ok, fail, error_set, refuse_if, offset_unknown, ◌>>=◌, ◌>>◌,
}
use libromx.Bytes.{Bytes}
use libromx.Crc32.{crc32_begin, crc32_update, crc32_finish}
use libromx.Mutable.Slots.{state_active}
use libromx.Path.{ascii_fold_equal}
use libromx.Region.{chunk_loop}
use libromx.Types.{
  RegionInfo, Info, Io, Reader, MutableObject, MutableSlot, MutableStatus, absent, valid, degraded,
  invalid, add64,
}

abbrev pub get_mutable_status : Reader → MutableStatus
get_mutable_status reader = reader.mutable_status

abbrev pub require_status : ℕ → MutableStatus → Outcome (Unit {0})
require_status offset absent = error_set mutable_absent offset_unknown
require_status offset invalid = error_set mutable_header offset
require_status offset valid = ok tt
require_status offset degraded = ok tt

unfoldable pub require_mutable : Reader → Outcome (Unit {0})
require_mutable reader = require_status reader.info.mutable_region.offset reader.mutable_status

unfoldable pub crc_step : ℕ → Bytes → ℕ × Outcome (Unit {0})
crc_step crc bytes = (crc32_update crc bytes, ok tt)

-- The test behind the loop.
unfoldable pub expect_crc : ℕ → ℕ → ℕ × Outcome (Unit {0}) → Outcome (Unit {0})
expect_crc expected offset (crc, ok _) =
    refuse_if (not (crc32_finish crc == expected)) mutable_data_crc offset
expect_crc expected offset (crc, fail e) = fail e

unfoldable pub validate_slot_data : Reader → MutableSlot → Outcome (Unit {0})
unfolding crc_step expect_crc
validate_slot_data reader slot =
    let start = add64 reader.info.mutable_region.offset slot.object.data_offset in
    let size = slot.object.data_size in
    expect_crc slot.object.data_crc32 start
      (chunk_loop crc_step reader.io reader.io_chunk_size start size size 0 crc32_begin)

abbrev pub is_active : MutableSlot → Bool
is_active slot = slot.usable && slot.state == state_active

unfoldable pub count_loop : Reader → List MutableSlot → ℕ → Outcome ℕ
count_loop reader [] count = ok count
count_loop reader (slot ∷ slots) count =
    let skipped = count_loop reader slots count in
    let counted = validate_slot_data reader slot >> count_loop reader slots (count + 1) in
    if not (is_active slot) then skipped else counted

abbrev pub unless_absent : MutableStatus → Outcome ℕ → Outcome ℕ
unless_absent absent counted = ok 0
unless_absent valid counted = counted
unless_absent degraded counted = counted
unless_absent invalid counted = counted

unfoldable pub get_mutable_object_count : Reader → Outcome ℕ
unfolding count_loop
get_mutable_object_count reader =
    unless_absent reader.mutable_status
      (require_mutable reader >> count_loop reader reader.mutable_slots 0)

-- `if (current++ == active_index) return copy_object(…)`
unfoldable pub get_loop : Reader → ℕ → List MutableSlot → ℕ → Outcome MutableObject
get_loop reader active_index [] current = error_set mutable_entry offset_unknown
get_loop reader active_index (slot ∷ slots) current =
    let skipped = get_loop reader active_index slots current in
    let later = get_loop reader active_index slots (current + 1) in
    let checked =
      validate_slot_data reader slot
      >> (if current == active_index then ok slot.object else later) in
    if not (is_active slot) then skipped else checked

unfoldable pub get_mutable_object : Reader → ℕ → Outcome MutableObject
unfolding get_loop
get_mutable_object reader active_index =
    require_mutable reader >> get_loop reader active_index reader.mutable_slots 0

abbrev pub is_named : ℕ → Bytes → MutableSlot → Bool
is_named object_namespace key slot =
    is_active slot
    && slot.object.object_namespace == object_namespace
    && ascii_fold_equal slot.object.key key

unfoldable pub find_loop : Reader → ℕ → Bytes → List MutableSlot → Outcome MutableObject
find_loop reader object_namespace key [] = error_set mutable_entry offset_unknown
find_loop reader object_namespace key (slot ∷ slots) =
    let rest = find_loop reader object_namespace key slots in
    if not (is_named object_namespace key slot)
    then rest
    else validate_slot_data reader slot >> ok slot.object

unfoldable pub find_mutable_object : Reader → ℕ → Bytes → Outcome MutableObject
unfolding find_loop
find_mutable_object reader object_namespace key = do
  refuse_if (length key == 0) invalid_argument offset_unknown
  require_mutable reader
  find_loop reader object_namespace key reader.mutable_slots
