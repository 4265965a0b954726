-- ===== src/MutableWrite.antt =====
-- romx_mutable_write_io_path and romx_mutable_delete_path of src/mutable_write.c. The disk under them is
-- the platform's: what its writes and syncs answer, given the effects before, is an argument, and a
-- call's result holds the effects that it asked for. `opened` is the answer of disk_open_locked and
-- romx_reader_open_io on the file. The caller's structures are in order and of their full size.
pub mod Extent
pub mod Effects
pub mod Frame
pub mod Commit
use libromx.Prelude.{
  ℕ, zero, suc, ◌+◌, ◌-◌, ◌*◌, ◌/◌, ◌%◌, ◌^◌, ◌≤◌, ◌<◌, min, bit_and, bit_or, bit_xor, ◌≡◌, refl,
  sym, ap, ◌∙◌, ◌≢◌, ◌↔◌, ◌⊎◌, inl, inr, Bool, true, false, not, ◌&&◌, ◌||◌, Option, none, some,
  List, [], ◌∷◌, ◌++◌, map, append_assoc, append-nil, arith, ltb, leb, ◌==◌, if◌then◌else◌, ltb→lt,
  lt→ltb, ==_iff, Bool-cases, Option-cases, length, get_or, get_elem?, set, take, drop, replicate,
  All, length-append, length-set, take-append-drop, length-take, length-drop, length-replicate,
  take-all, take-append, drop-append, drop-drop, take-append-take, All-append, All-take, All-drop,
  All-get_or, get_elem?-append, get_elem?-concat, All-map, All-get_elem?,
}
use libromx.Bytes.{Bytes}
use libromx.Mutable.Objects.{is_named, is_active}
use libromx.Mutable.Slots.{header_size, entry_size, state_active, state_writing, state_deleting}
use libromx.Outcome.{
  Code, invalid_argument, range, mutable_absent, mutable_header, mutable_entry, mutable_data_crc,
  mutable_no_space, Outcome, ok, fail, error_set, refuse_if, offset_unknown, ◌>>=◌, ◌>>◌,
}
use libromx.Path.{key_valid}
use libromx.Types.{
  RegionInfo, Info, Io, Reader, MutableObject, MutableSlot, MutableStatus, absent, valid, degraded,
  invalid, add64,
}
use Effects.{
  Effect, Disk, Session, pure, raise, andthen, disk_write, disk_sync, source_crc, source_write,
}
use Extent.{align64, find_free_extent, build_entry}

-- romx_mutable_write_options_t; a null pointer is the options that are all zero.
pub record WriteOptions : Type 0 where
  pub flags : ℕ
  pub data_capacity : ℕ
  pub modified_unix_seconds : ℕ
  pub io_chunk_size : ℕ
  pub reserved : ℕ

-- ROMX_DEFAULT_IO_CHUNK_SIZE is 65536.
abbrev pub chunk_size_of : WriteOptions → ℕ
chunk_size_of options = if not (options.io_chunk_size == 0) then options.io_chunk_size else 65536

-- A `return` of a code alone leaves the error record clear; it has no offset.
abbrev pub bare {ℓ} : {A : Type ℓ} → Code → Outcome A
bare code = error_set code offset_unknown

abbrev pub require_writable : MutableStatus → Outcome (Unit {0})
require_writable absent = bare mutable_absent
require_writable invalid = bare mutable_header
require_writable valid = ok tt
require_writable degraded = ok tt

abbrev pub is_degraded : MutableStatus → Bool
is_degraded degraded = true
is_degraded _ = false

-- The loop for the first slot that passes a test, with its index.
pub find_slot : (MutableSlot → Bool) → ℕ → List MutableSlot → Option (ℕ × MutableSlot)
find_slot test index [] = none
find_slot test index (slot ∷ slots) =
    let rest = find_slot test (index + 1) slots in if test slot then some (index, slot) else rest

-- Where the object goes: `existing`'s place with the next generation.
abbrev pub replace_existing : WriteOptions → ℕ → ℕ × MutableSlot → Outcome (ℕ × MutableObject)
replace_existing options source_size (slot_index, slot) =
    let object = slot.object in
    do
      refuse_if (object.generation == 2 ^ 64 - 1) range offset_unknown
      refuse_if
          (ltb object.data_capacity source_size
            || not (options.data_capacity == 0)
              && not (options.data_capacity == object.data_capacity))
          mutable_no_space offset_unknown
      ok (slot_index, record object { generation = object.generation + 1 })

abbrev pub in_extent : MutableObject → Option ℕ → Outcome MutableObject
in_extent object none = bare mutable_no_space
in_extent object (some offset) = ok (record object { data_offset = offset })

-- A slot that was never filled, and an extent that is free. The fields that are not placed yet are 0.
abbrev pub place_new :
    Reader → WriteOptions → ℕ → Option (ℕ × MutableSlot) → Outcome (ℕ × MutableObject)
place_new reader options source_size none = bare mutable_no_space
place_new reader options source_size (some (slot_index, slot)) =
    let capacity =
      if not (options.data_capacity == 0)
      then align64 options.data_capacity
      else align64 (if source_size == 0 then 1 else source_size) in
    do
      refuse_if (is_degraded reader.mutable_status) mutable_no_space offset_unknown
      refuse_if (ltb capacity source_size) mutable_no_space offset_unknown
      object ←
          in_extent (record slot.object { data_capacity = capacity; generation = 1 })
            (find_free_extent reader capacity)
      ok (slot_index, object)

abbrev pub place_object :
    Reader → WriteOptions → ℕ → Option (ℕ × MutableSlot) → Outcome (ℕ × MutableObject)
place_object reader options source_size (some found) = replace_existing options source_size found
place_object reader options source_size none =
    place_new reader options source_size
      (find_slot (λ slot. not slot.filled) 0 reader.mutable_slots)

-- The place and the record of the object to write.
unfoldable pub plan_write : Reader → ℕ → Bytes → WriteOptions → ℕ → ℕ → Outcome (ℕ × MutableObject)
unfolding find_slot
plan_write reader object_namespace key options source_size expected_crc = do
  require_writable reader.mutable_status
  (slot_index, object) ←
      place_object reader options source_size
        (find_slot (is_named object_namespace key) 0 reader.mutable_slots)
  ok (
    slot_index,
    record object {
      slot_index = slot_index;
      object_namespace = object_namespace;
      data_size = source_size;
      modified_unix_seconds = options.modified_unix_seconds;
      data_crc32 = expected_crc;
      key = key;
    },
  )

abbrev pub slot_offset : Reader → ℕ → ℕ
slot_offset reader slot_index =
    add64 (add64 reader.info.mutable_region.offset header_size) (slot_index * entry_size)

abbrev pub put_entry : Disk → Reader → ℕ → ℕ → MutableObject → Session (Unit {0})
put_entry disk reader slot_index state object =
    andthen (disk_write disk (slot_offset reader slot_index) (build_entry state object))
      (λ done. disk_sync disk)

abbrev pub expect_written : ℕ → ℕ → Session (Unit {0})
expect_written expected_crc written_crc =
    if not (written_crc == expected_crc) then raise mutable_data_crc else pure tt

-- The record in the state WRITING, the data, the record in the state ACTIVE, with a sync behind each.
unfoldable pub commit_write : Disk → Reader → Io → ℕ → ℕ → MutableObject → Session MutableObject
commit_write disk reader source chunk_size slot_index object =
    andthen (put_entry disk reader slot_index state_writing object) (λ announced.
      andthen
        (source_write disk (add64 reader.info.mutable_region.offset object.data_offset) source
          object.data_size chunk_size)
        (λ written_crc. andthen (expect_written object.data_crc32 written_crc) (λ checked.
          andthen (disk_sync disk) (λ stored.
            andthen (put_entry disk reader slot_index state_active object)
              (λ active. pure object)))))

abbrev pub commit_plan :
    Disk → Reader → Io → ℕ → Outcome (ℕ × MutableObject) → Session MutableObject
commit_plan disk reader source chunk_size (fail e) trace = (trace, fail e)
commit_plan disk reader source chunk_size (ok (slot_index, object)) trace =
    commit_write disk reader source chunk_size slot_index object trace

-- All that is done before the disk is written: the reader and the plan.
unfoldable pub prepare_write :
    Outcome Reader → ℕ → Bytes → Io → WriteOptions → Outcome (Reader × (ℕ × MutableObject))
prepare_write opened object_namespace key source options = do
  refuse_if
      (not (key_valid object_namespace key)
        || not (options.reserved == 0)
        || not (options.flags == 0))
      invalid_argument offset_unknown
  refuse_if (ltb (chunk_size_of options) 1024) invalid_argument offset_unknown
  source_size ← source.get_size
  expected_crc ← source_crc source source_size (chunk_size_of options)
  reader ← opened
  plan ← plan_write reader object_namespace key options source_size expected_crc
  ok (reader, plan)

abbrev pub run_write :
    Disk → Io → ℕ → Outcome (Reader × (ℕ × MutableObject)) → Session MutableObject
run_write disk source chunk_size (fail e) trace = (trace, fail e)
run_write disk source chunk_size (ok (reader, plan)) trace =
    commit_plan disk reader source chunk_size (ok plan) trace

unfoldable pub mutable_write :
    Disk → Outcome Reader → ℕ → Bytes → Io → WriteOptions → Session MutableObject
mutable_write disk opened object_namespace key source options =
    run_write disk source (chunk_size_of options)
      (prepare_write opened object_namespace key source options)

abbrev pub require_found : Option (ℕ × MutableSlot) → Outcome (ℕ × MutableSlot)
require_found none = bare mutable_entry
require_found (some found) = ok found

abbrev pub require_deletable : ℕ → MutableStatus → Outcome (Unit {0})
require_deletable offset absent = error_set mutable_absent offset_unknown
require_deletable offset invalid = error_set mutable_header offset
require_deletable offset valid = ok tt
require_deletable offset degraded = ok tt

-- The slot to clear, with the record that announces it.
unfoldable pub prepare_delete : Outcome Reader → ℕ → Bytes → Outcome (Reader × (ℕ × MutableObject))
prepare_delete opened object_namespace key = do
  refuse_if (not (key_valid object_namespace key)) invalid_argument offset_unknown
  reader ← opened
  require_deletable reader.info.mutable_region.offset reader.mutable_status
  (slot_index, slot) ←
      require_found (find_slot (is_named object_namespace key) 0 reader.mutable_slots)
  ok (
    reader,
    (
      slot_index,
      record slot.object {
        object_namespace = object_namespace;
        generation = add64 slot.object.generation 1;
        key = key;
      },
    ),
  )

unfoldable pub commit_delete : Disk → Reader → ℕ → MutableObject → Session (Unit {0})
commit_delete disk reader slot_index object =
    andthen (put_entry disk reader slot_index state_deleting object) (λ announced.
      andthen (disk_write disk (slot_offset reader slot_index) (replicate 512 0))
        (λ cleared. disk_sync disk))

abbrev pub run_delete : Disk → Outcome (Reader × (ℕ × MutableObject)) → Session (Unit {0})
run_delete disk (fail e) trace = (trace, fail e)
run_delete disk (ok (reader, (slot_index, object))) trace =
    commit_delete disk reader slot_index object trace

unfoldable pub mutable_delete : Disk → Outcome Reader → ℕ → Bytes → Session (Unit {0})
mutable_delete disk opened object_namespace key =
    run_delete disk (prepare_delete opened object_namespace key)
