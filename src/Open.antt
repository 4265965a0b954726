-- ===== src/Open.antt =====
-- src/reader.c: opening a container on an input. The limits of metadata and cover, which only
-- src/metadata.c reads, the callback that closes the input, null pointers and failed allocation are
-- left out.
pub mod Layout
pub mod Opened
use libromx.Prelude.{
  ℕ, zero, suc, ◌+◌, ◌-◌, ◌*◌, ◌/◌, ◌%◌, ◌^◌, ◌≤◌, ◌<◌, min, bit_and, bit_or, bit_xor, ◌≡◌, refl,
  sym, ap, ◌∙◌, ◌≢◌, ◌↔◌, ◌⊎◌, inl, inr, Bool, true, false, not, ◌&&◌, ◌||◌, Option, none, some,
  List, [], ◌∷◌, ◌++◌, map, append_assoc, append-nil, arith, ltb, leb, ◌==◌, if◌then◌else◌, ltb→lt,
  lt→ltb, ==_iff, Bool-cases, Option-cases, length, get_or, get_elem?, set, take, drop, replicate,
  All, length-append, length-set, take-append-drop, length-take, length-drop, length-replicate,
  take-all, take-append, drop-append, drop-drop, take-append-take, All-append, All-take, All-drop,
  All-get_or, get_elem?-append, get_elem?-concat, All-map, All-get_elem?,
}
use libromx.Bytes.{Bytes}
use libromx.Footer.{footer_size, parse_footer}
use libromx.Mutable.{parse_mutable}
use libromx.Outcome.{
  Code, invalid_argument, truncated, Outcome, ok, fail, error_set, refuse_if, offset_unknown, ◌>>=◌,
  ◌>>◌,
}
use libromx.Region.{read_exact}
use libromx.Ridx.{parse_ridx}
use libromx.Types.{Info, Io, Reader, absent}

-- romx_reader_options_t; a null pointer is the options that are all zero.
pub record ReaderOptions : Type 0 where
  pub max_metadata_size : ℕ
  pub max_cover_size : ℕ
  pub max_cover_dimension : ℕ
  pub io_chunk_size : ℕ
  pub reserved : ℕ

unfoldable pub validate_options : ReaderOptions → Outcome (Unit {0})
validate_options options = do
  refuse_if (not (options.reserved == 0)) invalid_argument offset_unknown
  refuse_if (not (options.io_chunk_size == 0) && ltb options.io_chunk_size 1024) invalid_argument
      offset_unknown

-- ROMX_DEFAULT_IO_CHUNK_SIZE is 65536.
abbrev pub chunk_size_of : ReaderOptions → ℕ
chunk_size_of options = if not (options.io_chunk_size == 0) then options.io_chunk_size else 65536

-- `options->max_… != 0 ? options->max_… : ROMX_DEFAULT_MAX_…`
abbrev pub or_default : ℕ → ℕ → ℕ
or_default asked default = if not (asked == 0) then asked else default

-- The reader that romx_parse_ridx is given: `calloc` leaves the tables empty.
abbrev pub new_reader : Io → ReaderOptions → Info → Reader
new_reader io options info = record {
  info = info;
  io = io;
  max_metadata_size = or_default options.max_metadata_size 1048576;
  max_cover_size = or_default options.max_cover_size 33554432;
  max_cover_dimension = or_default options.max_cover_dimension 8192;
  io_chunk_size = chunk_size_of options;
  entries = [];
  mutable_slots = [];
  mutable_status = absent;
}

unfoldable pub reader_create : Io → ReaderOptions → Outcome Reader
reader_create io options = do
  validate_options options
  file_size ← io.get_size
  refuse_if (ltb file_size footer_size) truncated file_size
  footer ← read_exact io (file_size - footer_size) footer_size
  info ← parse_footer footer file_size
  reader ← parse_ridx (new_reader io options info)
  ok (parse_mutable reader)

abbrev pub get_info : Reader → Info
get_info reader = reader.info
