-- ===== src/Png.antt =====
-- src/png.c: the walk over the chunks of the cover image, what the library tells of it, and the check of
-- the cover in a validation. Null pointers and failed allocation are left out.
pub mod Image
pub mod Rounds
pub mod Accepted
use libromx.Prelude.{
  ℕ, zero, suc, ◌+◌, ◌-◌, ◌*◌, ◌/◌, ◌%◌, ◌^◌, ◌≤◌, ◌<◌, min, bit_and, bit_or, bit_xor, ◌≡◌, refl,
  sym, ap, ◌∙◌, ◌≢◌, ◌↔◌, ◌⊎◌, inl, inr, Bool, true, false, not, ◌&&◌, ◌||◌, Option, none, some,
  List, [], ◌∷◌, ◌++◌, map, append_assoc, append-nil, arith, ltb, leb, ◌==◌, if◌then◌else◌, ltb→lt,
  lt→ltb, ==_iff, Bool-cases, Option-cases, length, get_or, get_elem?, set, take, drop, replicate,
  All, length-append, length-set, take-append-drop, length-take, length-drop, length-replicate,
  take-all, take-append, drop-append, drop-drop, take-append-take, All-append, All-take, All-drop,
  All-get_or, get_elem?-append, get_elem?-concat, All-map, All-get_elem?,
}
use libromx.Bytes.{Bytes, byte_at, bytes_equal, slice, c_string}
use libromx.Crc32.{crc32_begin, crc32_update, crc32_finish}
use libromx.Outcome.{
  Code, invalid_argument, cover_absent, cover_too_large, cover_png, Outcome, ok, fail, error_set,
  refuse_if, offset_unknown, ◌>>=◌, ◌>>◌,
}
use libromx.Types.{Io, Reader, RegionInfo, Info, add64}
use libromx.Region.{read_exact, chunk_loop, hash_region}
use libromx.Validate.{Status, not_checked, good, bad, missing}

unfoldable pub read_be32 : Bytes → ℕ → ℕ
read_be32 bytes p =
    bit_or
      (bit_or (bit_or (byte_at bytes p * 2 ^ 24) (byte_at bytes (p + 1) * 2 ^ 16))
        (byte_at bytes (p + 2) * 2 ^ 8))
      (byte_at bytes (p + 3))

unfoldable pub is_letter : ℕ → Bool
is_letter byte = leb 0x41 byte && leb byte 0x5a || leb 0x61 byte && leb byte 0x7a

-- The four bytes of a chunk's type; the third has no bit 0x20.
unfoldable pub valid_chunk_type : Bytes → Bool
unfolding is_letter
valid_chunk_type type =
    is_letter (byte_at type 0)
    && is_letter (byte_at type 1)
    && is_letter (byte_at type 2)
    && is_letter (byte_at type 3)
    && bit_and (byte_at type 2) 0x20 == 0

unfoldable pub valid_depth : ℕ → ℕ → Bool
valid_depth color depth =
    if color == 0
    then depth == 1 || depth == 2 || depth == 4 || depth == 8 || depth == 16
    else if color == 2
    then depth == 8 || depth == 16
    else if color == 3
    then depth == 1 || depth == 2 || depth == 4 || depth == 8
    else if color == 4 || color == 6
    then depth == 8 || depth == 16
    else false

unfoldable pub valid_ihdr : Bytes → ℕ → Bool
unfolding read_be32 valid_depth
valid_ihdr ihdr_data limit =
    let width = read_be32 ihdr_data 0 in
    let height = read_be32 ihdr_data 4 in
    not (
      width == 0
      || height == 0
      || ltb limit width
      || ltb limit height
      || not (byte_at ihdr_data 10 == 0)
      || not (byte_at ihdr_data 11 == 0)
      || ltb 1 (byte_at ihdr_data 12))
    && valid_depth (byte_at ihdr_data 9) (byte_at ihdr_data 8)

-- The local variables of validate_png that the loop changes.
pub record Walk : Type 0 where
  pub position : ℕ
  pub first : Bool
  pub saw_idat : Bool
  pub ended_idat : Bool
  pub saw_iend : Bool
  pub saw_plte : Bool
  pub color_type : ℕ
  pub width : ℕ
  pub height : ℕ

-- A chunk's eight bytes of header in the cover at `base`, and where it stands.
pub record Chunk : Type 0 where
  pub at : ℕ
  pub length : ℕ
  pub type : Bytes

abbrev pub is_type : Chunk → Bytes → Bool
is_type chunk name = bytes_equal chunk.type name

abbrev pub ihdr : Bytes
ihdr = 0x49 ∷ 0x48 ∷ 0x44 ∷ 0x52 ∷ []

abbrev pub plte : Bytes
plte = 0x50 ∷ 0x4c ∷ 0x54 ∷ 0x45 ∷ []

abbrev pub idat : Bytes
idat = 0x49 ∷ 0x44 ∷ 0x41 ∷ 0x54 ∷ []

abbrev pub iend : Bytes
iend = 0x49 ∷ 0x45 ∷ 0x4e ∷ 0x44 ∷ []

abbrev pub signature : Bytes
signature = 0x89 ∷ 0x50 ∷ 0x4e ∷ 0x47 ∷ 0x0d ∷ 0x0a ∷ 0x1a ∷ 0x0a ∷ []

abbrev pub parse_chunk : ℕ → Bytes → Chunk
parse_chunk position header = record {
  at = position;
  length = read_be32 header 0;
  type = take 4 (drop 4 header);
}

unfoldable pub bad_chunk : ℕ → Chunk → Bool
unfolding valid_chunk_type
bad_chunk size chunk =
    let remaining = size - chunk.at in
    ltb remaining 12
    || ltb 0x7fffffff chunk.length
    || ltb (remaining - 12) chunk.length
    || not (valid_chunk_type chunk.type)

unfoldable pub unknown_critical : Chunk → Bool
unfolding bytes_equal
unknown_critical chunk =
    bit_and (byte_at chunk.type 0) 0x20 == 0
    && not (is_type chunk plte)
    && not (is_type chunk idat)
    && not (is_type chunk iend)

feed_crc : ℕ → Bytes → ℕ × Outcome (Unit {0})
feed_crc crc bytes = (crc32_update crc bytes, ok tt)

abbrev finish_crc : ℕ × Outcome (Unit {0}) → Outcome ℕ
finish_crc (crc, ok _) = ok (crc32_finish crc)
finish_crc (crc, fail e) = fail e

-- The CRC of a chunk's type and data, which is read in pieces of `io_chunk_size` bytes.
unfoldable pub chunk_crc : Reader → Chunk → Outcome ℕ
unfolding chunk_loop feed_crc crc32_begin crc32_update crc32_finish
chunk_crc reader chunk = finish_crc (
    chunk_loop feed_crc reader.io reader.io_chunk_size
      (add64 reader.info.cover.offset (chunk.at + 8)) chunk.length chunk.length 0
      (crc32_update crc32_begin chunk.type))

-- `position += 12 + length` with the flags that the branch has set.
abbrev pub move_on : Chunk → Walk → Walk
move_on chunk walk = record walk { position = walk.position + (12 + chunk.length) }

unfoldable pub accept_ihdr : Reader → Chunk → Walk → Outcome Walk
unfolding read_exact valid_ihdr read_be32
accept_ihdr reader chunk walk = do
  bytes ← read_exact reader.io (add64 reader.info.cover.offset (chunk.at + 8)) 13
  refuse_if (not (valid_ihdr bytes reader.max_cover_dimension)) cover_png
      (add64 reader.info.cover.offset (chunk.at + 8))
  ok (record walk {
    first = false;
    width = read_be32 bytes 0;
    height = read_be32 bytes 4;
    color_type = byte_at bytes 9;
  })

unfoldable pub bad_plte : Chunk → Walk → Bool
bad_plte chunk walk =
    walk.saw_plte
    || walk.saw_idat
    || walk.color_type == 0
    || walk.color_type == 4
    || chunk.length == 0
    || not (chunk.length % 3 == 0)
    || ltb 768 chunk.length

unfoldable pub bad_iend : Chunk → Walk → Bool
bad_iend chunk walk =
    not (chunk.length == 0) || not walk.saw_idat || walk.color_type == 3 && not walk.saw_plte

-- What a chunk behind the first changes.
unfoldable pub accept_chunk : ℕ → Chunk → Walk → Outcome Walk
unfolding bytes_equal bad_plte bad_iend
accept_chunk base chunk walk =
    let here = add64 base chunk.at in
    if is_type chunk ihdr
    then error_set cover_png here
    else if is_type chunk plte
    then refuse_if (bad_plte chunk walk) cover_png here >> ok (record walk { saw_plte = true })
    else if is_type chunk idat
    then refuse_if walk.ended_idat cover_png here >> ok (record walk { saw_idat = true })
    else if is_type chunk iend
    then refuse_if (bad_iend chunk walk) cover_png here >> ok (record walk { saw_iend = true })
    else ok (record walk { ended_idat = walk.ended_idat || walk.saw_idat })

-- The checks of a round up to the branch on the chunk's kind: its header, its place and its CRC.
unfoldable pub sound_chunk : Reader → Chunk → Walk → Outcome (Unit {0})
unfolding bad_chunk bytes_equal chunk_crc read_exact read_be32 unknown_critical
sound_chunk reader chunk walk =
    let base = reader.info.cover.offset in
    let here = add64 base chunk.at in
    let behind = add64 (add64 base (chunk.at + 8)) chunk.length in
    do
      refuse_if (bad_chunk reader.info.cover.size chunk) cover_png here
      refuse_if (walk.first && (not (chunk.length == 13) || not (is_type chunk ihdr))) cover_png
          here
      crc ← chunk_crc reader chunk
      stored ← read_exact reader.io behind 4
      refuse_if (not (crc == read_be32 stored 0)) cover_png behind
      refuse_if (not walk.first && unknown_critical chunk) cover_png here

-- A round of the loop behind the read of the chunk's header.
unfoldable pub check_chunk : Reader → Chunk → Walk → Outcome Walk
unfolding sound_chunk bytes_equal accept_ihdr accept_chunk
check_chunk reader chunk walk = do
  sound_chunk reader chunk walk
  accepted ←
      if walk.first
      then accept_ihdr reader chunk walk
      else accept_chunk reader.info.cover.offset chunk walk
  ok (move_on chunk accepted)

unfoldable pub png_round : Reader → Walk → Outcome Walk
unfolding read_exact read_be32 check_chunk
png_round reader walk = do
  header ← read_exact reader.io (add64 reader.info.cover.offset walk.position) 8
  check_chunk reader (parse_chunk walk.position header) walk

-- `while (position < size)`, left behind IEND. A chunk has twelve bytes at least, so a round for each
-- byte is enough.
unfoldable pub png_loop : ℕ → Reader → Walk → Outcome Walk
unfolding png_round
png_loop zero reader walk = ok walk
png_loop (suc fuel) reader walk =
    let rest = png_round reader walk >>= λ next.
    (let more = png_loop fuel reader next in if next.saw_iend then ok next else more) in
    if ltb walk.position reader.info.cover.size then rest else ok walk

abbrev pub start : Walk
start = record {
  position = 8;
  first = true;
  saw_idat = false;
  ended_idat = false;
  saw_iend = false;
  saw_plte = false;
  color_type = 0;
  width = 0;
  height = 0;
}

-- The checks of validate_png in front of its loop.
unfoldable pub check_signature : Reader → Outcome (Unit {0})
unfolding read_exact bytes_equal
check_signature reader =
    let cover = reader.info.cover in
    do
      refuse_if (cover.size == 0) cover_absent offset_unknown
      refuse_if (ltb reader.max_cover_size cover.size) cover_too_large cover.offset
      refuse_if (ltb cover.size 8) cover_png cover.offset
      header ← read_exact reader.io cover.offset 8
      refuse_if (not (bytes_equal header signature)) cover_png cover.offset

-- The walk at its end, whose width and height are the image's.
unfoldable pub validate_png : Reader → Outcome Walk
unfolding check_signature png_loop
validate_png reader = do
  check_signature reader
  walk ← png_loop reader.info.cover.size reader start
  refuse_if (not walk.saw_iend || not (walk.position == reader.info.cover.size)) cover_png
      (add64 reader.info.cover.offset walk.position)
  ok walk

-- The IHDR's thirteen bytes, when validate_png comes to valid_ihdr, which stores the sizes first of all.
unfoldable pub first_fields : Reader → Outcome Bytes
unfolding check_signature sound_chunk read_exact
first_fields reader = do
  check_signature reader
  header ← read_exact reader.io (add64 reader.info.cover.offset 8) 8
  sound_chunk reader (parse_chunk 8 header) start
  read_exact reader.io (add64 reader.info.cover.offset 16) 13

abbrev pub stored_sizes : Outcome Bytes → ℕ × ℕ
stored_sizes (ok fields) = (read_be32 fields 0, read_be32 fields 4)
stored_sizes (fail failure) = (0, 0)

-- The parts of romx_validation_report_t about the cover.
pub record CoverReport : Type 0 where
  pub cover : Status
  pub cover_hashes : Status
  pub cover_width : ℕ
  pub cover_height : ℕ
  pub computed_cover_sha256 : Bytes

abbrev report_of : Status → Status → ℕ × ℕ → CoverReport
report_of cover hashes (width, height) = record {
  cover = cover;
  cover_hashes = hashes;
  cover_width = width;
  cover_height = height;
  computed_cover_sha256 = replicate 32 0;
}

-- The states of the report for a failure of validate_png, with the sizes that it has stored.
abbrev pub refused_cover : Code → ℕ × ℕ → CoverReport
refused_cover cover_absent sizes = report_of missing missing sizes
refused_cover cover_too_large sizes = report_of bad not_checked sizes
refused_cover cover_png sizes = report_of bad not_checked sizes
refused_cover _ sizes = report_of not_checked not_checked sizes

abbrev pub hash_cover : Walk → Outcome (Bytes × ℕ) → CoverReport × Outcome (Unit {0})
hash_cover walk (ok (sha, crc)) = (
  record {
    cover = good;
    cover_hashes = good;
    cover_width = walk.width;
    cover_height = walk.height;
    computed_cover_sha256 = sha;
  },
  ok tt,
)
hash_cover walk (fail failure) =
    (report_of good not_checked (walk.width, walk.height), fail failure)

-- The report and the result.
unfoldable pub validate_cover : Reader → CoverReport × Outcome (Unit {0})
unfolding validate_png hash_region first_fields
validate_cover reader = elim (validate_png reader) [
  | ok walk ↦ hash_cover walk (hash_region reader reader.info.cover)
  | fail failure ↦ (refused_cover failure.code (stored_sizes (first_fields reader)), fail failure)
]

-- romx_cover_info_t
pub record CoverInfo : Type 0 where
  pub width : ℕ
  pub height : ℕ
  pub size : ℕ
  pub sha256 : Bytes

unfoldable pub get_cover_info : Reader → Outcome CoverInfo
unfolding validate_cover
get_cover_info reader =
    let (report, result) = validate_cover reader in
    do
      result
      ok (record {
        width = report.cover_width;
        height = report.cover_height;
        size = reader.info.cover.size;
        sha256 = report.computed_cover_sha256;
      })

-- A reader for a cover image that stands alone, at the offset 0 of the input.
abbrev cover_reader : Io → ℕ → ℕ → ℕ → ℕ → Reader → Reader
cover_reader io size max_size max_dimension chunk_size empty = record empty {
  info = record empty.info { cover = record { offset = 0; size = size } };
  io = io;
  max_cover_size = max_size;
  max_cover_dimension = max_dimension;
  io_chunk_size = chunk_size;
}

-- romx_validate_cover_io, on `empty`, the reader that memset has cleared: width, height and SHA-256.
unfoldable pub validate_cover_io : Reader → Io → ℕ → ℕ → ℕ → ℕ → Outcome (ℕ × ℕ × Bytes)
unfolding validate_cover
validate_cover_io empty io size max_size max_dimension chunk_size =
    let (report, result) =
      validate_cover (cover_reader io size max_size max_dimension chunk_size empty) in
    do
      refuse_if (size == 0 || ltb chunk_size 1024) invalid_argument offset_unknown
      result
      ok (report.cover_width, report.cover_height, report.computed_cover_sha256)
