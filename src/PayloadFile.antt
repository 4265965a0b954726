-- ===== src/PayloadFile.antt =====
-- src/payload_file.c: a cursor on the entrypoint with a reader of its own. The reader that
-- `open_path` opens, and the answer of the validation that its flag asks for, are arguments here.
pub mod Agrees
use libromx.Prelude.{
  ℕ, zero, suc, ◌+◌, ◌-◌, ◌*◌, ◌/◌, ◌%◌, ◌^◌, ◌≤◌, ◌<◌, min, bit_and, bit_or, bit_xor, ◌≡◌, refl,
  sym, ap, ◌∙◌, ◌≢◌, ◌↔◌, ◌⊎◌, inl, inr, Bool, true, false, not, ◌&&◌, ◌||◌, Option, none, some,
  List, [], ◌∷◌, ◌++◌, map, append_assoc, append-nil, arith, ltb, leb, ◌==◌, if◌then◌else◌, ltb→lt,
  lt→ltb, ==_iff, Bool-cases, Option-cases, length, get_or, get_elem?, set, take, drop, replicate,
  All, length-append, length-set, take-append-drop, length-take, length-drop, length-replicate,
  take-all, take-append, drop-append, drop-drop, take-append-take, All-append, All-take, All-drop,
  All-get_or, get_elem?-append, get_elem?-concat, All-map, All-get_elem?,
}
use libromx.Outcome.{
  Code, invalid_argument, out_of_memory, truncated, unsupported, entry_not_found, range, Outcome,
  ok, fail, error_set, refuse_if, offset_unknown, ◌>>=◌, ◌>>◌,
}
use libromx.Bytes.{Bytes}
use libromx.Cursor.{ℤ, pos, negsuc, Origin, seek_start, seek_current, seek_end, seek_other}
use libromx.Ridx.Lookup.{get_entrypoint, read_entry}
use libromx.Types.{EntryInfo, Reader, add64}

pub record PayloadFile : Type 0 where
  pub reader : Reader
  pub entry_index : ℕ
  pub size : ℕ
  pub position : ℕ

-- `flags & ~ROMX_PAYLOAD_FILE_VALIDATE_IMMUTABLE_SHA256`, the flag being the bit 1.
pub record PayloadFileOptions : Type 0 where
  pub flags : ℕ
  pub reserved : ℕ

unfoldable pub payload_validate_options : Option PayloadFileOptions → Outcome (Unit {0})
payload_validate_options none = ok tt
payload_validate_options (some options) =
    refuse_if (not (bit_and options.flags 0xfffffffe == 0) || not (options.reserved == 0))
      invalid_argument offset_unknown

abbrev pub payload_validates : Option PayloadFileOptions → Bool
payload_validates none = false
payload_validates (some options) = not (bit_and options.flags 1 == 0)

abbrev pub payload_create : Reader → EntryInfo → PayloadFile
payload_create reader entry = record {
  reader = reader;
  entry_index = entry.index;
  size = entry.data_size;
  position = 0;
}

-- `opened` is the answer of romx_reader_open_path, and `validate` stands for romx_reader_validate.
unfoldable pub payload_open :
    Outcome Reader → (Reader → Outcome (Unit {0})) → Option PayloadFileOptions → Outcome PayloadFile
payload_open opened validate options = do
  payload_validate_options options
  reader ← opened
  (if payload_validates options then validate reader else ok tt)
  entry ← get_entrypoint reader
  ok (payload_create reader entry)

abbrev pub payload_get_size : PayloadFile → ℕ
payload_get_size file = file.size

abbrev pub payload_tell : PayloadFile → ℕ
payload_tell file = file.position

abbrev pub payload_moved : PayloadFile → Outcome ℕ → PayloadFile × Outcome ℕ
payload_moved file (ok target) = (record file { position = target }, ok target)
payload_moved file (fail e) = (file, fail e)

-- romx_payload_file_add_offset, which is this file's own; `(uint64_t)(-(offset + 1)) + 1` is n + 1 for
-- -(n + 1).
unfoldable pub payload_add_offset : ℕ → ℤ → Outcome ℕ
payload_add_offset base (pos magnitude) =
    if ltb (2 ^ 64 - 1 - magnitude) base
    then error_set range offset_unknown
    else ok (base + magnitude)
payload_add_offset base (negsuc n) =
    let magnitude = n + 1 in
    if ltb base magnitude then error_set range offset_unknown else ok (base - magnitude)

-- The `switch` of the seek.
unfoldable pub payload_seek_base : PayloadFile → Origin → Outcome ℕ
payload_seek_base file seek_start = ok 0
payload_seek_base file seek_current = ok file.position
payload_seek_base file seek_end = ok file.size
payload_seek_base file (seek_other n) = error_set invalid_argument offset_unknown

unfoldable pub payload_seek : PayloadFile → ℤ → Origin → PayloadFile × Outcome ℕ
payload_seek file offset position =
    payload_moved file (do base ← payload_seek_base file position; payload_add_offset base offset)

abbrev pub payload_advanced : PayloadFile → Outcome Bytes → PayloadFile × Outcome Bytes
payload_advanced file (ok bytes) =
    (record file { position = add64 file.position (length bytes) }, ok bytes)
payload_advanced file (fail e) = (file, fail e)

unfoldable pub payload_read : PayloadFile → ℕ → PayloadFile × Outcome Bytes
payload_read file size =
    let after =
      payload_advanced file (read_entry file.reader file.entry_index file.position size) in
    if size == 0 || leb file.size file.position then (file, ok []) else after
