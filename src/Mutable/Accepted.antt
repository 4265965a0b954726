-- ===== src/Mutable/Accepted.antt =====
-- What src/mutable.c leaves in a reader once the mutable region is parsed.
use libromx.Prelude.{
  ℕ, zero, suc, ◌+◌, ◌*◌, ◌%◌, ◌^◌, ◌≤◌, ◌<◌, ◌≡◌, refl, sym, ap, ◌∙◌, ◌⊎◌, inl, inr, Bool, true,
  false, ◌||◌, List, [], arith, ◌==◌, if◌then◌else◌, Bool-cases, length, All,
}
use mathlib.Core.Path.{subst}
use libromx.Bytes.{Bytes, read_le16, read_le32, read_le64, bytes_are_zero}
use libromx.Mutable.{bad_mutable_header, with_directory, load_directory, parse_mutable}
use libromx.Mutable.Clashes.{settle}
use libromx.Mutable.Clashes.Settled.{AllClear, settle-AllClear, settle-All}
use libromx.Mutable.Slots.{
  header_size, entry_size, state_active, state_deleting, object_fields, bad_extent, bad_stored_slot,
  parse_slot, Directory, slots_loop,
}
use libromx.Outcome.{
  mutable_header, Outcome, ok, fail, refuse_if, refuse_if-eq-ok, ok-injective, >>=-eq-ok, ◌>>=◌,
}
use libromx.Path.{key_is_valid, namespace_save, namespace_private}
use libromx.Region.{read_exact}
use libromx.Types.{
  RegionInfo, Io, Reader, MutableObject, MutableSlot, absent, valid, degraded, invalid, add64,
}

-- An object that can be used: its data lies in the data area, and its key is in order.
pub record IsObject (region_size data_area_offset : ℕ) (object : MutableObject) : Type 0 where
  pub in_data_area : data_area_offset ≤ object.data_offset
  pub aligned : object.data_offset % 64 ≡ 0
  pub has_room : 0 < object.data_capacity
  pub in_region : object.data_offset + object.data_capacity ≤ region_size
  pub in_capacity : object.data_size ≤ object.data_capacity
  pub empty_crc : object.data_size ≡ 0 → object.data_crc32 ≡ 0
  pub written : 0 < object.generation
  pub known_namespace :
      (namespace_save ≤ object.object_namespace) × (object.object_namespace ≤ namespace_private)
  pub keyed : key_is_valid object.key object.object_namespace ≡ true

abbrev pub IsSlot : ℕ → ℕ → MutableSlot → Type 0
IsSlot region_size data_area_offset slot =
    slot.usable ≡ true
    → IsObject region_size data_area_offset slot.object
      × (state_active ≤ slot.state)
      × (slot.state ≤ state_deleting)

extent-facts :
    (region_size data_area_offset : ℕ) (object : MutableObject)
    → bad_extent region_size data_area_offset object ≡ false
    → (data_area_offset ≤ object.data_offset)
      × (object.data_offset % 64 ≡ 0)
      × (0 < object.data_capacity)
      × (object.data_offset + object.data_capacity ≤ region_size)
      × (object.data_size ≤ object.data_capacity)
      × (object.data_size ≡ 0 → object.data_crc32 ≡ 0)
      × (0 < object.generation)
unfolding bad_extent
extent-facts region_size data_area_offset object h = ground arith

stored-facts :
    (stored : Bytes) (object : MutableObject)
    → bad_stored_slot stored object ≡ false
    → (state_active ≤ read_le16 stored 0x04)
      × (read_le16 stored 0x04 ≤ state_deleting)
      × (namespace_save ≤ object.object_namespace)
      × (object.object_namespace ≤ namespace_private)
      × (key_is_valid object.key object.object_namespace ≡ true)
unfolding bad_stored_slot
stored-facts stored object h = ground arith

usable_slot :
    (region_size data_area_offset slot_index : ℕ) (stored : Bytes)
    → (bad_extent region_size data_area_offset (object_fields slot_index stored)
        || bad_stored_slot stored (object_fields slot_index stored))
      ≡ false
    → IsObject region_size data_area_offset (object_fields slot_index stored)
      × (state_active ≤ read_le16 stored 0x04)
      × (read_le16 stored 0x04 ≤ state_deleting)
usable_slot region_size data_area_offset slot_index stored h =
    let object = object_fields slot_index stored in
    let (a, b, c, d, e, f, g) =
      extent-facts region_size data_area_offset object (ground (arith, h)) in
    let (low, high, save, private, keyed) = stored-facts stored object (ground (arith, h)) in
    (
      record {
        in_data_area = a;
        aligned = b;
        has_room = c;
        in_region = d;
        in_capacity = e;
        empty_crc = f;
        written = g;
        known_namespace = (save, private);
        keyed = keyed;
      },
      low,
      high,
    )

parse_slot-IsSlot :
    (region_size data_area_offset slot_index : ℕ) (stored : Bytes)
    → IsSlot region_size data_area_offset
        (parse_slot region_size data_area_offset slot_index stored)
unfolding parse_slot
parse_slot-IsSlot region_size data_area_offset slot_index stored =
    elim (Bool-cases (bytes_are_zero stored)) [
      | inl empty ↦ rw empty (λ used. cc)
      | inr filled ↦
          rw filled
            (elim (Bool-cases (
              bad_extent region_size data_area_offset (object_fields slot_index stored)
              || bad_stored_slot stored (object_fields slot_index stored))) [
                | inl bad ↦ rw bad (λ used. cc)
                | inr good ↦
                    rw good
                      (λ used. usable_slot region_size data_area_offset slot_index stored good)
              ])
    ]

slots_loop-IsSlot :
    (left slot_index : ℕ) (io : Io) (region : RegionInfo) (data_area_offset : ℕ)
    {directory : Directory}
    → slots_loop left slot_index io region data_area_offset ≡ ok directory
    → All (IsSlot region.size data_area_offset) directory.slots × (length directory.slots ≡ left)
unfolding slots_loop
slots_loop-IsSlot zero slot_index io region data_area_offset {directory} h =
    subst
      (λ (d : Directory). All (IsSlot region.size data_area_offset) d.slots × (length d.slots ≡ 0))
      (ok-injective h) (tt, refl)
slots_loop-IsSlot (suc left) slot_index io region data_area_offset {directory} h =
    let offset = add64 (add64 region.offset header_size) (slot_index * entry_size) in
    let (stored, _, h1) = >>=-eq-ok (read_exact io offset entry_size) _ h in
    let (rest, looped, last) =
      >>=-eq-ok (slots_loop left (slot_index + 1) io region data_area_offset) _ h1 in
    let (sound, count) =
      slots_loop-IsSlot left (slot_index + 1) io region data_area_offset looped in
    subst
      (λ (d : Directory).
        All (IsSlot region.size data_area_offset) d.slots × (length d.slots ≡ suc left))
      (ok-injective last)
      ((parse_slot-IsSlot region.size data_area_offset slot_index stored, sound), ap suc count)

header-facts :
    (region_size : ℕ) (header : Bytes)
    → bad_mutable_header region_size header ≡ false
    → (8 ≤ read_le32 header 0x0c)
      × (read_le64 header 0x20 ≡ (header_size + read_le32 header 0x0c * entry_size) % 2 ^ 64)
      × (read_le64 header 0x20 < region_size)
unfolding bad_mutable_header
header-facts region_size header h = ground arith

-- What holds of the slots of a region that is not marked invalid.
pub record IsDirectory (region_size : ℕ) (slots : List MutableSlot) : Type 0 where
  pub data_area_offset : ℕ
  pub behind_directory : data_area_offset ≡ (header_size + length slots * entry_size) % 2 ^ 64
  pub in_region : data_area_offset < region_size
  pub enough : 8 ≤ length slots
  pub slots_sound : All (IsSlot region_size data_area_offset) slots
  pub slots_apart : AllClear slots

-- The results of the parser: no region, a region marked invalid, or a directory that can be used.
abbrev pub IsParsed : Reader → Type 0
IsParsed reader =
    ((reader.info.mutable_region.size ≡ 0) × (reader.mutable_status ≡ absent))
    ⊎ (((reader.mutable_slots ≡ []) × (reader.mutable_status ≡ invalid))
        ⊎ (IsDirectory reader.info.mutable_region.size reader.mutable_slots
            × ((reader.mutable_status ≡ valid) ⊎ (reader.mutable_status ≡ degraded))))

load_directory-facts :
    (reader : Reader) (header : Bytes) {directory : Directory}
    → load_directory reader header ≡ ok directory
    → IsDirectory reader.info.mutable_region.size (settle directory.slots).0
unfolding load_directory
load_directory-facts reader header {directory} h =
    let region = reader.info.mutable_region in
    let (_, good, looped) =
      >>=-eq-ok (refuse_if (bad_mutable_header region.size header) mutable_header region.offset) _
        h in
    let (enough, behind, inside) =
      header-facts region.size header (
        refuse_if-eq-ok (bad_mutable_header region.size header) mutable_header region.offset
          good) in
    let (sound, count) =
      slots_loop-IsSlot (read_le32 header 0x0c) 0 reader.io region (read_le64 header 0x20) looped in
    let (clear, kept) = settle-AllClear directory.slots in
    record {
      data_area_offset = read_le64 header 0x20;
      behind_directory =
          behind ∙ ap (λ (n : ℕ). (header_size + n * entry_size) % 2 ^ 64) (sym (kept ∙ count));
      in_region = inside;
      enough = omega (arith, enough, kept, count);
      slots_sound =
          settle-All (IsSlot region.size (read_le64 header 0x20)) (λ s p used. cc) directory.slots
            sound;
      slots_apart = clear;
    }

with_directory-IsParsed :
    (reader : Reader) (r : Outcome Directory)
    → ((directory : Directory)
        → r ≡ ok directory
        → IsDirectory reader.info.mutable_region.size (settle directory.slots).0)
    → IsParsed (with_directory reader r)
with_directory-IsParsed reader (fail e) h = inr (inl (refl, refl))
with_directory-IsParsed reader (ok directory) h =
    inr (inr (h directory refl, status_of (directory.damaged || (settle directory.slots).1)))
  where
    status_of :
        (b : Bool)
        → ((if b then degraded else valid) ≡ valid) ⊎ ((if b then degraded else valid) ≡ degraded)
    status_of true = inr refl
    status_of false = inl refl

-- The parser ends in one of its three results, whatever the input answers. In the third, every slot in
-- use has its data in the data area, at a multiple of 64, holds a key in order, and shares neither its
-- name nor any of its data with another slot in use.
pub parse_mutable-IsParsed : (reader : Reader) → IsParsed (parse_mutable reader)
unfolding parse_mutable
parse_mutable-IsParsed reader =
    let region = reader.info.mutable_region in
    elim (Bool-cases (region.size == 0)) [
      | inl none_there ↦ rw none_there (inl (ground (arith, none_there), refl))
      | inr some_there ↦ rw some_there (
          with_directory-IsParsed reader
            (read_exact reader.io region.offset header_size >>= λ header.
              load_directory reader header)
            (λ directory h.
              let (header, _, loaded) =
                >>=-eq-ok (read_exact reader.io region.offset header_size) _ h in
              load_directory-facts reader header loaded))
    ]
