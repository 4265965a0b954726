-- ===== src/MutableStats/Stored.antt =====
-- romx_mutable_stats_read of src/mutable_stats.c, composed with the search of src/mutable.c: what it reads
-- is the data of the stored object.
use libromx.Prelude.{
  ℕ, ◌+◌, ◌-◌, ◌≤◌, ◌<◌, min, ◌≡◌, refl, sym, ◌∙◌, ◌⊎◌, inl, inr, Bool, true, false, not, ◌||◌,
  arith, ltb, leb, ◌==◌, length, All, All-get_elem?,
}
use mathlib.Core.Path.{subst}
use libromx.Bytes.{Bytes, slice}
use libromx.Crc32.{crc32}
use libromx.Outcome.{
  out_of_memory, truncated, mutable_stats, mutable_data_crc, ok, refuse_if, refuse_if-eq-ok,
  ok-injective, >>=-eq-ok, offset_unknown,
}
use libromx.Types.{Reader, MutableObject, MutableSlot, add64}
use libromx.Region.Streaming.{Serves}
use libromx.Region.Reads.{read_window-Serves}
use libromx.Mutable.Objects.{is_active, find_mutable_object}
use libromx.Mutable.Objects.Checked.{IsFound, find_mutable_object-IsFound, validate_slot_data-crc32}
use libromx.MutableFile.{mutable_file_open, mutable_file_read}
use libromx.MutableStats.Parse.{Stats, stats_parse_json}
use libromx.MutableStats.Serialize.{max_json_size, stats_values_valid}
use libromx.MutableStats.Sound.{stats_parse_json-Accepts}
use libromx.MutableStats.Access.{namespace_stats, parse_read, read_stats_file, mutable_stats_read}

abbrev pub data_start : Reader → MutableObject → ℕ
data_start reader object = reader.info.mutable_region.offset + object.data_offset

-- The data of an object, in the file that the reader's input serves.
abbrev pub data_in : Reader → Bytes → MutableObject → Bytes
data_in reader file object = slice (data_start reader object) object.data_size file

-- A slot without an active object, or with one whose data lies in the file.
abbrev pub DataInside : Reader → Bytes → MutableSlot → Type 0
DataInside reader file slot =
    (is_active slot ≡ false) ⊎ (data_start reader slot.object + slot.object.data_size ≤ length file)

-- A fresh cursor on data in the file reads all of it at once.
mutable_file_read-all :
    (reader : Reader) (base size : ℕ) (file : Bytes)
    → Serves reader.io file
    → 0 < size
    → base + size ≤ length file
    → (mutable_file_read
        (record { reader = reader; absolute_offset = base; size = size; position = 0 })
        size).1
      ≡ ok (slice base size file)
unfolding mutable_file_read
mutable_file_read-all reader base size file serves some inside =
    let left : (size == 0 || leb size 0) ≡ false = ground arith in
    let start : base + 0 ≡ base = omega arith in
    let all : min (size - 0) size ≡ size = omega arith in
    rw
      (
        left,
        read_window-Serves {io = reader.io} {file = file} base size 0 size serves inside
            (omega arith),
        start,
        all,
      )
      refl

-- An object that the search gives lies in the file, and its data has its checksum.
IsFound-crc32 :
    (reader : Reader) (object_namespace : ℕ) (key file : Bytes) {object : MutableObject}
    → Serves reader.io file
    → 0 < reader.io_chunk_size
    → All (DataInside reader file) reader.mutable_slots
    → IsFound reader object_namespace key reader.mutable_slots object
    → (data_start reader object + object.data_size ≤ length file)
      × (crc32 (data_in reader file object) ≡ object.data_crc32)
IsFound-crc32 reader object_namespace key file serves pos inside
      (i, slot, at, same, named, passed, _) =
    let within : data_start reader slot.object + slot.object.data_size ≤ length file =
      elim (All-get_elem? (DataInside reader file) reader.mutable_slots i inside at) [
        | inl idle ↦ absurd (ground (arith, named, idle))
        | inr lies ↦ lies
      ] in
    let equal : crc32 (data_in reader file slot.object) ≡ slot.object.data_crc32 = ground (
      arith,
      refuse_if-eq-ok _ mutable_data_crc _
          (sym (validate_slot_data-crc32 reader slot file serves pos within) ∙ passed),
    ) in
    subst
      (λ (o : MutableObject).
        (data_start reader o + o.data_size ≤ length file)
        × (crc32 (data_in reader file o) ≡ o.data_crc32))
      same (within, equal)

module _ (realloc malloc : ℕ → Bool) where
  read_stats_file-eq-ok :
      (had_buffer : ℕ → Bool) (reader : Reader) (object : MutableObject) (file : Bytes)
      {stats : Stats}
      → Serves reader.io file
      → data_start reader object + object.data_size ≤ length file
      → read_stats_file realloc malloc had_buffer (record {
        reader = reader;
        absolute_offset = add64 reader.info.mutable_region.offset object.data_offset;
        size = object.data_size;
        position = 0;
      })
        ≡ ok stats
      → stats_parse_json realloc malloc (data_in reader file object) ≡ ok stats
  unfolding read_stats_file parse_read
  read_stats_file-eq-ok had_buffer reader object file serves within h =
      let size = object.data_size in
      let bound = serves.sized in
      let start : add64 reader.info.mutable_region.offset object.data_offset
          ≡ data_start reader object =
        omega (arith, within, bound) in
      let (_, sized, h1) =
        >>=-eq-ok (refuse_if (size == 0 || ltb max_json_size size) mutable_stats offset_unknown) _
          h in
      let (_, _, h2) =
        >>=-eq-ok (refuse_if (not (had_buffer size)) out_of_memory offset_unknown) _ h1 in
      let some : 0 < size = ground (arith, refuse_if-eq-ok _ mutable_stats _ sized) in
      let (_, _, parsed) =
        >>=-eq-ok
          (refuse_if (not (length (data_in reader file object) == size)) truncated offset_unknown) _
          (rw
            (
              start,
              mutable_file_read-all reader (data_start reader object) size file serves some within,
            )
            at h2) in
      parsed

  -- Statistics that are read come from the first active object of the STATS namespace with the key: its data has the stored CRC-32, and is a text that the parser takes for these statistics, whose values are valid. The input serves the file, in which the data of every active object lies, and chunks are not empty.
  pub mutable_stats_read-Stored :
      (had_buffer : ℕ → Bool) (reader : Reader) (key file : Bytes) {stats : Stats}
      → Serves reader.io file
      → 0 < reader.io_chunk_size
      → All (DataInside reader file) reader.mutable_slots
      → mutable_stats_read realloc malloc had_buffer reader key ≡ ok stats
      → (object : MutableObject) × IsFound reader namespace_stats key reader.mutable_slots object
        × (crc32 (data_in reader file object) ≡ object.data_crc32)
        × (stats_parse_json realloc malloc (data_in reader file object) ≡ ok stats)
        × (stats_values_valid stats ≡ true)
  unfolding mutable_stats_read mutable_file_open
  mutable_stats_read-Stored had_buffer reader key file {stats} serves pos inside h =
      let (cursor, opened, rest) = >>=-eq-ok (mutable_file_open reader namespace_stats key) _ h in
      let (object, found, made) =
        >>=-eq-ok (find_mutable_object reader namespace_stats key) _ opened in
      let is_found = find_mutable_object-IsFound reader namespace_stats key found in
      let (within, equal) =
        IsFound-crc32 reader namespace_stats key file serves pos inside is_found in
      let text = read_stats_file-eq-ok had_buffer reader object file serves within (
        subst (λ c. read_stats_file realloc malloc had_buffer c ≡ ok stats)
          (sym (ok-injective made)) rest) in
      (object, is_found, equal, text, stats_parse_json-Accepts realloc malloc _ text)
