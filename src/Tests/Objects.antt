-- ===== src/Tests/Objects.antt =====
-- A reader with a mutable region: its objects, the room for new ones, and a write to it.
use libromx.Prelude.{
  ◌+◌, ◌*◌, ◌≤◌, ◌<◌, ◌≡◌, ◌≢◌, Bool, refl, ◌⊎◌, true, false, some, List, [], ◌∷◌, arith, length,
  replicate, All,
}
use libromx.Bytes.{Bytes}
use libromx.Crc32.{crc32, crc32_begin, crc32_update, crc32_finish}
use libromx.Mutable.{parse_mutable}
use libromx.Mutable.Accepted.{IsParsed, IsObject, parse_mutable-IsParsed, IsDirectory, IsSlot}
use libromx.Mutable.Clashes.{out_of_use, clash, extents_overlap, settle}
use libromx.Mutable.Apart.{IsDirectory-disjoint}
use mathlib.Core.Path.{subst}
use libromx.Mutable.Clashes.Settled.{AllClear, settle-AllClear}
use libromx.Mutable.Clashes.Reasons.{Fate, settle-Fate}
use libromx.Mutable.Objects.{
  require_mutable, get_mutable_object_count, get_mutable_object, find_mutable_object,
  validate_slot_data,
}
use libromx.Mutable.Objects.Checked.{get_mutable_object-count}
use libromx.Mutable.Slots.{empty_slot}
use libromx.MutableWrite.{slot_offset, commit_write, commit_delete}
use libromx.MutableWrite.Commit.{write_order, concat, commit_write-write_order}
use libromx.MutableWrite.Effects.{
  Effect, Disk, disk_write, disk_sync, source_write, source_write_loop, read_source,
}
use libromx.MutableWrite.Extent.{
  align64, used_ranges, insert_range, sort_ranges, first_fit, find_free_extent,
}
use libromx.MutableWrite.Extent.Free.{Clears, find_free_extent-Clears}
use libromx.MutableWrite.Frame.{Adds, InPlace, commit_write-InPlace, commit_delete-InPlace}
use libromx.Outcome.{mutable_entry, write_error, Outcome, ok, error_set, offset_unknown}
use libromx.Path.{ascii_fold_equal, fold_byte, key_is_valid, bad_component}
use libromx.Region.{chunk_loop, read_exact}
use libromx.Types.{add64, Info, Io, Reader, MutableObject, MutableSlot, no_region, valid}
use libromx.Utf8.{utf8_validate, utf8_bad_offset, lead_of}

-- The key "a", with three zero bytes as its data.
abbrev first_object : MutableObject
first_object = record {
  slot_index = 0;
  object_namespace = 1;
  data_offset = 8192;
  data_capacity = 64;
  data_size = 3;
  generation = 1;
  modified_unix_seconds = 0;
  data_crc32 = 0xff41d912;
  key = 0x61 ∷ [];
}

abbrev second_object : MutableObject
second_object = record first_object { slot_index = 1; data_offset = 8320; key = 0x62 ∷ [] }

-- The key "A" elsewhere.
abbrev twin_object : MutableObject
twin_object = record first_object { slot_index = 2; data_offset = 8448; key = 0x41 ∷ [] }

abbrev first_slot : MutableSlot
first_slot = record { filled = true; object = first_object; state = 1; usable = true }

abbrev second_slot : MutableSlot
second_slot = record { filled = true; object = second_object; state = 1; usable = true }

abbrev eight_slots : List MutableSlot
eight_slots = first_slot ∷ second_slot ∷ replicate 6 empty_slot

abbrev slot_info : Info
slot_info = record {
  version = 2;
  file_size = 0;
  payload = no_region;
  metadata = no_region;
  cover = no_region;
  payload_index = no_region;
  immutable_padding = no_region;
  mutable_region = record { offset = 0; size = 12288 };
  footer = no_region;
  immutable_size = 0;
  immutable_hash_algorithm = 0;
  footer_crc32 = 0;
  platform_id = 0;
  launch_format_id = 0;
  entry_count = 0;
  entrypoint_index = 0;
  immutable_sha256 = [];
}

abbrev zeros_io : Io
zeros_io = record { get_size = ok 12416; read_at = λ offset size. ok (replicate size 0) }

abbrev slot_reader : Reader
slot_reader = record {
  info = slot_info;
  io = zeros_io;
  max_metadata_size = 1048576;
  max_cover_size = 33554432;
  max_cover_dimension = 8192;
  io_chunk_size = 1024;
  entries = [];
  mutable_slots = eight_slots;
  mutable_status = valid;
}

parse_mutable-IsParsed_example : IsParsed (parse_mutable slot_reader)
parse_mutable-IsParsed_example = parse_mutable-IsParsed slot_reader

-- Two slots of one name, and a third that clashes with neither.
abbrev three_slots : List MutableSlot
three_slots = first_slot ∷ record first_slot { object = twin_object } ∷ second_slot ∷ []

settle-Fate_example :
    AllClear (settle three_slots).0
    × (length (settle three_slots).0 ≡ 3)
    × Fate three_slots 2 second_slot (settle three_slots).0
settle-Fate_example = settle-Fate three_slots 2 refl

three_settled : settle three_slots ≡ (
  out_of_use first_slot
      ∷ out_of_use (record first_slot { object = twin_object })
      ∷ second_slot
      ∷ [],
  true,
)
unfolding settle clash ascii_fold_equal fold_byte extents_overlap
three_settled = refl

first_sound : IsObject 12288 8192 first_object
unfolding key_is_valid utf8_validate utf8_bad_offset lead_of bad_component
first_sound = record {
  in_data_area = omega arith;
  aligned = refl;
  has_room = omega arith;
  in_region = omega arith;
  in_capacity = omega arith;
  empty_crc = λ h. absurd (omega arith);
  written = omega arith;
  known_namespace = (omega arith, omega arith);
  keyed = refl;
}

second_sound : IsObject 12288 8192 second_object
unfolding key_is_valid utf8_validate utf8_bad_offset lead_of bad_component
second_sound = record {
  in_data_area = omega arith;
  aligned = refl;
  has_room = omega arith;
  in_region = omega arith;
  in_capacity = omega arith;
  empty_crc = λ h. absurd (omega arith);
  written = omega arith;
  known_namespace = (omega arith, omega arith);
  keyed = refl;
}

slots_settled : settle eight_slots ≡ (eight_slots, false)
unfolding settle clash ascii_fold_equal fold_byte extents_overlap
slots_settled = refl

unused : empty_slot.usable ≢ true
unused h = cc

eight_sound : All (IsSlot 12288 8192) eight_slots
eight_sound = (
  (λ used. (first_sound, omega arith, omega arith)),
  (
    (λ used. (second_sound, omega arith, omega arith)),
    (
      (λ used. absurd (unused used)),
      (
        (λ used. absurd (unused used)),
        (
          (λ used. absurd (unused used)),
          (
            (λ used. absurd (unused used)),
            ((λ used. absurd (unused used)), ((λ used. absurd (unused used)), tt)),
          ),
        ),
      ),
    ),
  ),
)

eight-IsDirectory : IsDirectory 12288 eight_slots
eight-IsDirectory = record {
  data_area_offset = 8192;
  behind_directory = refl;
  in_region = omega arith;
  enough = omega arith;
  slots_sound = eight_sound;
  slots_apart =
      subst (λ (r : List MutableSlot × Bool). AllClear r.0) slots_settled
        (settle-AllClear eight_slots).0;
}

IsDirectory-disjoint_example : (8192 + 64 ≤ 8320) ⊎ (8320 + 64 ≤ 8192)
IsDirectory-disjoint_example =
    IsDirectory-disjoint 12288 eight_slots 0 1 (omega arith) (omega arith) eight-IsDirectory refl
      refl refl refl

status_good : require_mutable slot_reader ≡ ok tt
unfolding require_mutable
status_good = refl

two_counted : get_mutable_object_count slot_reader ≡ ok 2
unfolding get_mutable_object_count require_mutable validate_slot_data chunk_loop read_exact
    crc32_begin crc32_update crc32_finish
two_counted = refl

get_mutable_object-count_example :
    ((1 < 2) × ((object : MutableObject) × (get_mutable_object slot_reader 1 ≡ ok object)))
    ⊎ ((2 ≤ 1) × (get_mutable_object slot_reader 1 ≡ error_set mutable_entry offset_unknown))
get_mutable_object-count_example = get_mutable_object-count slot_reader 2 1 status_good two_counted

-- The key "B" finds the object "b".
second_found : find_mutable_object slot_reader 1 (0x42 ∷ []) ≡ ok second_object
unfolding find_mutable_object require_mutable validate_slot_data chunk_loop read_exact crc32_begin
    crc32_update crc32_finish ascii_fold_equal fold_byte
second_found = refl

extent_found : find_free_extent slot_reader 128 ≡ some 8384
unfolding find_free_extent first_fit sort_ranges insert_range align64
extent_found = refl

find_free_extent-Clears_example :
    (4096 + 8 * 512 ≤ 8384) × (8384 + 128 ≤ 12288) × All (Clears 8384 128) (used_ranges eight_slots)
find_free_extent-Clears_example = find_free_extent-Clears slot_reader 128 extent_found

-- A disk whose first two calls succeed.
abbrev failing : List Effect → Outcome (Unit {0})
failing (a ∷ b ∷ trace) = error_set write_error offset_unknown
failing _ = ok tt

abbrev failing_disk : Disk
failing_disk = record { write = λ trace offset bytes. failing trace; sync = failing }

commit_write-InPlace_example :
    Adds
      (InPlace (slot_offset slot_reader 1) (0 + 8320) 3)
      []
      (commit_write failing_disk slot_reader zeros_io 1024 1 second_object []).0
commit_write-InPlace_example =
    commit_write-InPlace failing_disk slot_reader zeros_io 1024 1 second_object [] (omega arith)
      (omega arith)

commit_delete-InPlace_example :
    Adds
      (InPlace (slot_offset slot_reader 1) 0 0)
      []
      (commit_delete failing_disk slot_reader 1 second_object []).0
commit_delete-InPlace_example =
    commit_delete-InPlace failing_disk slot_reader 1 second_object [] (omega arith)

-- A disk that does all it is asked.
abbrev sound_disk : Disk
sound_disk = record { write = λ trace offset bytes. ok tt; sync = λ trace. ok tt }

abbrev written_effects : List Effect
written_effects = (commit_write sound_disk slot_reader zeros_io 1024 1 second_object []).0

second_written :
    commit_write sound_disk slot_reader zeros_io 1024 1 second_object []
    ≡ (written_effects, ok second_object)
unfolding commit_write disk_write disk_sync source_write source_write_loop read_source crc32_begin
    crc32_update crc32_finish
second_written = refl

commit_write-write_order_example :
    (chunks : List Bytes) × (written_effects
      ≡ write_order (slot_offset slot_reader 1) (add64 0 8320) second_object chunks)
    × (length (concat chunks) ≡ 3)
    × (crc32 (concat chunks) ≡ 0xff41d912)
commit_write-write_order_example =
    commit_write-write_order sound_disk slot_reader zeros_io 1024 1 second_object [] (omega arith)
      second_written
