-- ===== src/Metadata.antt =====
-- src/metadata.c: the schema of the metadata document, its loading from the region, and the fields that
-- are read from it. `realloc` and `malloc` answer whether the memory for the tokens and for decoded
-- strings was had; the other allocations, null pointers and the test against SIZE_MAX, which is
-- UINT64_MAX here, are left out.
pub mod Schema
pub mod Errors
use libromx.Prelude.{
  ℕ, zero, suc, ◌+◌, ◌-◌, ◌*◌, ◌/◌, ◌%◌, ◌^◌, ◌≤◌, ◌<◌, min, bit_and, bit_or, bit_xor, ◌≡◌, refl,
  sym, ap, ◌∙◌, ◌≢◌, ◌↔◌, ◌⊎◌, inl, inr, Bool, true, false, not, ◌&&◌, ◌||◌, Option, none, some,
  List, [], ◌∷◌, ◌++◌, map, append_assoc, append-nil, arith, ltb, leb, ◌==◌, if◌then◌else◌, ltb→lt,
  lt→ltb, ==_iff, Bool-cases, Option-cases, length, get_or, get_elem?, set, take, drop, replicate,
  All, length-append, length-set, take-append-drop, length-take, length-drop, length-replicate,
  take-all, take-append, drop-append, drop-drop, take-append-take, All-append, All-take, All-drop,
  All-get_or, get_elem?-append, get_elem?-concat, All-map, All-get_elem?,
}
use libromx.Bytes.{Bytes, byte_at, slice, c_string}
use libromx.Outcome.{
  Code, invalid_argument, metadata_absent, metadata_too_large, metadata_utf8, metadata_json,
  metadata_schema, buffer_too_small, Outcome, ok, fail, error_set, refuse_if, offset_unknown, ◌>>=◌,
  ◌>>◌,
}
use libromx.Types.{Reader, RegionInfo, Info, add64}
use libromx.Region.{read_exact}
use libromx.Utf8.{utf8_bad_offset}
use libromx.Json.Result.{Parse, parsed, rejected, out_of_fuel}
use libromx.Json.Tokens.{Token}
use libromx.Json.Parser.{json_parse}
use libromx.Json.Scan.{hex_value}
use libromx.Json.Strings.{
  Document, typed_token, is_string, Copied, copy_string, block, required_size,
}
use libromx.Json.Lookup.{object_value}
use libromx.Validate.{Status, not_checked, good, bad, missing}
use libromx.Metadata.Schema.{valid_schema}

-- `size >= 3U && bytes[0] == 0xef && bytes[1] == 0xbb && bytes[2] == 0xbf`
unfoldable pub has_bom : Bytes → Bool
has_bom bytes =
    leb 3 (length bytes)
    && byte_at bytes 0 == 0xef
    && byte_at bytes 1 == 0xbb
    && byte_at bytes 2 == 0xbf

-- `if (!romx_utf8_validate(…)) return romx_error_set(…, base + bad_offset, …);`
abbrev pub require_utf8 : ℕ → Option ℕ → Outcome (Unit {0})
require_utf8 base none = ok tt
require_utf8 base (some offset) = error_set metadata_utf8 (add64 base offset)

-- A parser without memory would be the model's own; json_parse never is.
abbrev pub require_json : ℕ → Parse (List Token) → Outcome (List Token)
require_json base (parsed tokens) = ok tokens
require_json base (rejected offset) = error_set metadata_json (add64 base offset)
require_json base out_of_fuel = error_set metadata_json base

-- ROMX_STATUS_ABSENT for ROMX_E_METADATA_ABSENT, ROMX_STATUS_INVALID for another failure
abbrev pub metadata_status : Code → Status
metadata_status metadata_absent = missing
metadata_status _ = bad

module _ (realloc malloc : ℕ → Bool) where
  -- The checks that romx_validate_metadata_bytes, with base 0, and romx_metadata_load_internal, with the
  -- offset of the region, both make.
  unfoldable pub check_document : ℕ → Bytes → Outcome Document
  unfolding has_bom utf8_bad_offset json_parse valid_schema
  check_document base bytes = do
    refuse_if (has_bom bytes) metadata_utf8 base
    require_utf8 base (utf8_bad_offset bytes)
    tokens ← require_json base (json_parse realloc bytes)
    refuse_if (not (valid_schema malloc (record { bytes = bytes; tokens = tokens })))
        metadata_schema base
    ok (record { bytes = bytes; tokens = tokens })

  unfoldable pub validate_metadata_bytes : Bytes → Outcome (Unit {0})
  unfolding check_document
  validate_metadata_bytes bytes = do
    refuse_if (length bytes == 0) invalid_argument offset_unknown
    document ← check_document 0 bytes
    ok tt

  -- romx_metadata_t is the document: its bytes are those of the JSON.
  unfoldable pub metadata_open : Reader → Outcome Document
  unfolding check_document read_exact
  metadata_open reader = do
    refuse_if (reader.info.metadata.size == 0) metadata_absent offset_unknown
    refuse_if (ltb reader.max_metadata_size reader.info.metadata.size) metadata_too_large
        reader.info.metadata.offset
    bytes ← read_exact reader.io reader.info.metadata.offset reader.info.metadata.size
    check_document reader.info.metadata.offset bytes

  -- The value of a member of the document, when it is a string.
  unfoldable pub string_field : Document → Bytes → Option ℕ
  unfolding object_value
  string_field metadata key = elim (object_value malloc metadata 0 key) [
    | none ↦ none
    | some token ↦ elim (typed_token is_string metadata (some token)) [
      | none ↦ none
      | some found ↦ some token
    ]
  ]

  -- The buffer after the call, `*required_size`, which a missing field leaves alone, and the result.
  unfoldable pub metadata_get_string : Document → Bytes → Bytes → Copied × Outcome (Unit {0})
  unfolding string_field copy_string
  metadata_get_string metadata key buffer = elim (string_field metadata key) [
    | none ↦ (
      record { required = none; buffer = buffer; done = false },
      error_set metadata_schema offset_unknown,
    )
    | some token ↦
        let copied = copy_string metadata (some token) buffer in
        (
          record {
            required = some (required_size copied);
            buffer = copied.buffer;
            done = copied.done;
          },
          (if copied.done then ok tt else error_set buffer_too_small offset_unknown),
        )
  ]

  -- `parsed = (parsed << 4U) | nibble`
  unfoldable pub crc32_digits : Bytes → ℕ → Option ℕ
  unfolding hex_value
  crc32_digits [] value = some value
  crc32_digits (byte ∷ bytes) value = elim (hex_value byte) [
    | none ↦ none
    | some nibble ↦ crc32_digits bytes (bit_or (value * 2 ^ 4 % 2 ^ 32) nibble)
  ]

  abbrev expect_digits : Option ℕ → Outcome ℕ
  expect_digits none = error_set metadata_schema offset_unknown
  expect_digits (some value) = ok value

  -- romx_metadata_get_crc32, with its buffer of nine bytes.
  unfoldable pub metadata_get_crc32 : Document → Outcome ℕ
  unfolding metadata_get_string crc32_digits
  metadata_get_crc32 metadata =
      let (copied, result) = metadata_get_string metadata (c_string "crc32") (block 9) in
      do
        result
        refuse_if (not (required_size copied == 9)) metadata_schema offset_unknown
        expect_digits (crc32_digits (take 8 copied.buffer) 0)

  -- romx_metadata_get_value_json: the size of the text of a value and the bytes stored in a buffer of
  -- `capacity` bytes.
  unfoldable pub metadata_get_value_json : Document → Bytes → ℕ → Outcome (ℕ × Outcome Bytes)
  unfolding object_value
  metadata_get_value_json metadata key capacity = elim (object_value malloc metadata 0 key) [
    | none ↦ error_set metadata_schema offset_unknown
    | some index ↦ elim (get_elem? metadata.tokens index) [
      | none ↦ error_set metadata_schema offset_unknown
      | some token ↦
          let size = token.end - token.start in
          ok (
            size,
            (if ltb capacity size
                then error_set buffer_too_small offset_unknown
                else ok (slice token.start size metadata.bytes)),
          )
    ]
  ]

  -- romx_validate_metadata_internal: `report->metadata` and the result.
  unfoldable pub validate_metadata : Reader → Status × Outcome (Unit {0})
  unfolding metadata_open
  validate_metadata reader = elim (metadata_open reader) [
    | ok metadata ↦ (good, ok tt)
    | fail failure ↦ (metadata_status failure.code, fail failure)
  ]

-- romx_metadata_copy_json: `*required_size`, and the bytes stored in a buffer of `capacity` bytes.
unfoldable pub metadata_copy_json : Document → ℕ → ℕ × Outcome Bytes
metadata_copy_json metadata capacity = (
  length metadata.bytes,
  (if ltb capacity (length metadata.bytes)
      then error_set buffer_too_small offset_unknown
      else ok metadata.bytes),
)
