-- ===== src/Mutable/Slots.antt =====
-- src/mutable.c: the loop that reads the directory of the mutable region, entry by entry.
use libromx.Prelude.{
  ℕ, zero, suc, ◌+◌, ◌-◌, ◌*◌, ◌%◌, Bool, true, false, not, ◌&&◌, ◌||◌, List, [], ◌∷◌, ltb, ◌==◌,
  if◌then◌else◌, take, replicate,
}
use libromx.Outcome.{Outcome, ok, ◌>>=◌}
use libromx.Bytes.{
  Bytes, slice, copy_at, read_le16, read_le32, read_le64, bytes_are_zero, bytes_equal,
}
use libromx.Crc32.{crc32}
use libromx.Path.{key_is_valid, key_capacity, namespace_save, namespace_private}
use libromx.Region.{read_exact}
use libromx.Types.{RegionInfo, Io, MutableObject, MutableSlot, add64}

-- ROMX_MUTABLE_HEADER_SIZE, ROMX_MUTABLE_ENTRY_SIZE and the states of an entry.
abbrev pub header_size : ℕ
header_size = 4096

abbrev pub entry_size : ℕ
entry_size = 512

abbrev pub state_active : ℕ
state_active = 1

abbrev pub state_writing : ℕ
state_writing = 2

abbrev pub state_deleting : ℕ
state_deleting = 3

unfoldable pub crc32_with_zero_field : Bytes → ℕ → ℕ
crc32_with_zero_field bytes field_offset = crc32 (copy_at bytes field_offset (replicate 4 0))

-- The text "MENT".
abbrev pub ment_magic : Bytes
ment_magic = 0x4d ∷ 0x45 ∷ 0x4e ∷ 0x54 ∷ []

unfoldable pub object_fields : ℕ → Bytes → MutableObject
object_fields slot_index stored = record {
  slot_index = slot_index;
  object_namespace = read_le16 stored 0x06;
  data_offset = read_le64 stored 0x10;
  data_capacity = read_le64 stored 0x18;
  data_size = read_le64 stored 0x20;
  generation = read_le64 stored 0x28;
  modified_unix_seconds = read_le64 stored 0x30;
  data_crc32 = read_le32 stored 0x38;
  key = slice 0x40 (read_le32 stored 0x0c) stored;
}

-- The tests on where an object's data lies.
unfoldable pub bad_extent : ℕ → ℕ → MutableObject → Bool
bad_extent region_size data_area_offset object =
    ltb object.data_offset data_area_offset
    || not (object.data_offset % 64 == 0)
    || object.data_capacity == 0
    || ltb region_size object.data_offset
    || ltb (region_size - object.data_offset) object.data_capacity
    || ltb object.data_capacity object.data_size
    || (object.data_size == 0 && not (object.data_crc32 == 0))
    || object.generation == 0

-- The tests on the state, the namespace and the key.
unfoldable pub bad_stored_slot : Bytes → MutableObject → Bool
bad_stored_slot stored object =
    let state = read_le16 stored 0x04 in
    let key_size = read_le32 stored 0x0c in
    not (bytes_equal (take 4 stored) ment_magic)
    || ltb state state_active
    || ltb state_deleting state
    || ltb object.object_namespace namespace_save
    || ltb namespace_private object.object_namespace
    || not (read_le32 stored 0x08 == 0)
    || key_size == 0
    || ltb key_capacity key_size
    || not (bytes_are_zero (slice (0x40 + key_size) (key_capacity - key_size) stored))
    || not (key_is_valid object.key object.object_namespace)
    || not (read_le32 stored 0x3c == crc32_with_zero_field stored 0x3c)

abbrev pub no_object : MutableObject
no_object = record {
  slot_index = 0;
  object_namespace = 0;
  data_offset = 0;
  data_capacity = 0;
  data_size = 0;
  generation = 0;
  modified_unix_seconds = 0;
  data_crc32 = 0;
  key = [];
}

-- A slot of the array as `calloc` leaves it.
abbrev pub empty_slot : MutableSlot
empty_slot = record { filled = false; object = no_object; state = 0; usable = false }

-- A slot whose entry fails a test keeps the fields, but no key.
unfoldable pub parse_slot : ℕ → ℕ → ℕ → Bytes → MutableSlot
parse_slot region_size data_area_offset slot_index stored =
    let object = object_fields slot_index stored in
    let state = read_le16 stored 0x04 in
    if bytes_are_zero stored
    then empty_slot
    else if bad_extent region_size data_area_offset object || bad_stored_slot stored object
    then record {
      filled = true;
      object = record object { key = [] };
      state = state;
      usable = false;
    }
    else record { filled = true; object = object; state = state; usable = true }

-- The slots in their order, and whether an entry was found damaged.
pub record Directory : Type 0 where
  pub slots : List MutableSlot
  pub damaged : Bool

abbrev pub with_slot : MutableSlot → Directory → Directory
with_slot slot rest = record {
  slots = slot ∷ rest.slots;
  damaged = slot.filled && not slot.usable || rest.damaged;
}

unfoldable pub slots_loop : ℕ → ℕ → Io → RegionInfo → ℕ → Outcome Directory
slots_loop zero slot_index io region data_area_offset = ok (record { slots = []; damaged = false })
slots_loop (suc left) slot_index io region data_area_offset =
    let offset = add64 (add64 region.offset header_size) (slot_index * entry_size) in
    read_exact io offset entry_size >>= λ stored.
    slots_loop left (slot_index + 1) io region data_area_offset >>= λ rest.
    ok (with_slot (parse_slot region.size data_area_offset slot_index stored) rest)
