-- ===== src/Tests/Opening.antt =====
-- The opening of a container, run on the small container.
use libromx.Prelude.{ℕ, ◌+◌, ◌^◌, ◌≤◌, ◌<◌, ◌≡◌, refl, List, [], ◌∷◌, arith, replicate, All}
use libromx.Bytes.{slice, read_le16, read_le32, read_le64, bytes_are_zero, bytes_equal}
use libromx.Crc32.{crc32, crc32_update}
use libromx.Footer.{parse_footer}
use libromx.Footer.Bounds.{FooterLayout, parse_footer-FooterLayout}
use libromx.Outcome.{Outcome, ok, fail, ok-injective}
use libromx.Tests.Container.{footer_bytes, container, bytes_io}
use libromx.Types.{Info, Io, Reader, no_region}
use libromx.Mutable.{parse_mutable}
use libromx.Open.{ReaderOptions, validate_options, new_reader, reader_create}
use libromx.Open.Opened.{IsOpened, reader_create-IsOpened}
use libromx.Ridx.{parse_ridx}
use libromx.Ridx.Header.{bad_header, index_extent, IndexBytes, read_index, header_size}
use libromx.Ridx.Entries.{
  Range, Loaded, entry_fields, bad_stored, check_kind, check_entry, add_entry, load_entry, collides,
  check_single, load_entries,
}
use libromx.Ridx.Entries.Accepted.{IsLoaded, count_entrypoints, load_entries-IsLoaded}
use libromx.Ridx.Ranges.{sort, region_is_zero, check_gap, check_ranges}
use libromx.Ridx.Regions.Placement.{Contiguous, place_regions-Contiguous}
use libromx.Ridx.Ranges.Disjoint.{AllApart, IsForward, check_ranges-AllApart}
use libromx.Ridx.Regions.{place_metadata_cover, place_padding, place_tail, place_regions}
use libromx.Ridx.Sound.{IsReader, parse_ridx-IsReader}
use libromx.Path.{path_is_valid, bad_component, ascii_fold_equal}
use libromx.Utf8.{utf8_validate, utf8_bad_offset, lead_of}
use libromx.Region.{read_exact, chunk_loop}

abbrev info_or : Info → Outcome Info → Info
info_or info (ok found) = found
info_or info (fail e) = info

abbrev no_info : Info
no_info = record {
  version = 0;
  file_size = 0;
  payload = no_region;
  metadata = no_region;
  cover = no_region;
  payload_index = no_region;
  immutable_padding = no_region;
  mutable_region = no_region;
  footer = no_region;
  immutable_size = 0;
  immutable_hash_algorithm = 0;
  footer_crc32 = 0;
  platform_id = 0;
  launch_format_id = 0;
  entry_count = 0;
  entrypoint_index = 0;
  immutable_sha256 = [];
}

abbrev footer_info : Info
footer_info = info_or no_info (parse_footer footer_bytes 712)

footer_parsed : parse_footer footer_bytes 712 ≡ ok footer_info
unfolding parse_footer bytes_equal read_le16 read_le32 read_le64 bytes_are_zero crc32 crc32_update
footer_parsed = refl

parse_footer-FooterLayout_example : FooterLayout 712 footer_info
parse_footer-FooterLayout_example = parse_footer-FooterLayout footer_bytes 712 footer_parsed

abbrev default_options : ReaderOptions
default_options = record {
  max_metadata_size = 0;
  max_cover_size = 0;
  max_cover_dimension = 0;
  io_chunk_size = 0;
  reserved = 0;
}

abbrev footed_reader : Reader
footed_reader = new_reader (bytes_io container) default_options footer_info

abbrev reader_or : Reader → Outcome Reader → Reader
reader_or reader (ok found) = found
reader_or reader (fail e) = reader

abbrev indexed_reader : Reader
indexed_reader = reader_or footed_reader (parse_ridx footed_reader)

ridx_parsed : parse_ridx footed_reader ≡ ok indexed_reader
unfolding parse_ridx read_index read_exact bad_header index_extent bytes_equal read_le16 read_le32
    read_le64 bytes_are_zero crc32 crc32_update load_entries load_entry entry_fields bad_stored
    check_kind check_entry add_entry check_single path_is_valid check_ranges sort check_gap
    region_is_zero place_regions place_metadata_cover place_tail place_padding parse_footer collides
    utf8_validate utf8_bad_offset lead_of bad_component ascii_fold_equal
ridx_parsed = refl

abbrev container_reader : Reader
container_reader = parse_mutable indexed_reader

container_opened : reader_create (bytes_io container) default_options ≡ ok container_reader
unfolding reader_create validate_options read_exact
container_opened = rw (footer_read, ridx_parsed) refl
  where
    footer_read : parse_footer (slice 584 128 container) 712 ≡ ok footer_info
    footer_read = footer_parsed

small_file : (n : ℕ) → (bytes_io container).get_size ≡ ok n → n < 2 ^ 64
small_file n h = omega (arith, ok-injective h)

reader_create-IsOpened_example : IsOpened (bytes_io container) container_reader
reader_create-IsOpened_example =
    reader_create-IsOpened (bytes_io container) default_options small_file container_opened

header_fits : footed_reader.info.payload.size + header_size ≤ footed_reader.info.immutable_size
unfolding parse_footer bytes_equal read_le16 read_le32 read_le64 bytes_are_zero crc32 crc32_update
header_fits = omega arith

size_bounded : footed_reader.info.immutable_size < 2 ^ 64
unfolding parse_footer bytes_equal read_le16 read_le32 read_le64 bytes_are_zero crc32 crc32_update
size_bounded = omega arith

parse_ridx-IsReader_example :
    IsReader indexed_reader.info indexed_reader.entries
      (footed_reader.info.payload.size + indexed_reader.info.payload_index.size)
parse_ridx-IsReader_example = parse_ridx-IsReader footed_reader size_bounded header_fits ridx_parsed

abbrev index_or : Outcome IndexBytes → IndexBytes
index_or (ok index) = index
index_or (fail e) = record { entry_count = 0; index_size = 0; bytes = [] }

abbrev index_bytes : IndexBytes
index_bytes = index_or (read_index footed_reader)

abbrev loaded_or : Outcome Loaded → Loaded
loaded_or (ok loaded) = loaded
loaded_or (fail e) = record {
  entries = [];
  ranges = [];
  entrypoint_count = 0;
  entrypoint_index = 0;
  index_size = 0;
}

abbrev loaded_entries : Loaded
loaded_entries = loaded_or (load_entries 8 index_bytes)

entries_loaded : load_entries 8 index_bytes ≡ ok loaded_entries
unfolding read_index read_exact bad_header index_extent bytes_equal read_le16 read_le32 read_le64
    bytes_are_zero crc32 crc32_update load_entries load_entry entry_fields bad_stored check_kind
    check_entry add_entry check_single path_is_valid parse_footer collides utf8_validate
    utf8_bad_offset lead_of bad_component
entries_loaded = refl

load_entries-IsLoaded_example :
    IsLoaded 8 index_bytes.index_size index_bytes.entry_count loaded_entries
    × (count_entrypoints loaded_entries.entries ≡ 1)
load_entries-IsLoaded_example = load_entries-IsLoaded 8 index_bytes entries_loaded

abbrev two_ranges : List Range
two_ranges = record { start = 6; end = 8 } ∷ record { start = 0; end = 6 } ∷ []

two_ranges-IsForward : All IsForward two_ranges
two_ranges-IsForward = (omega arith, (omega arith, tt))

two_ranges_checked : check_ranges (bytes_io container) 8 two_ranges ≡ ok tt
unfolding check_ranges sort check_gap
two_ranges_checked = refl

check_ranges-AllApart_example : AllApart two_ranges
check_ranges-AllApart_example =
    check_ranges-AllApart (bytes_io container) 8 two_ranges two_ranges-IsForward two_ranges_checked

-- A layout with metadata, a cover and a mutable region, as the footer gives it.
abbrev tailed_info : Info
tailed_info = record no_info {
  payload = record { offset = 0; size = 8 };
  metadata = record { offset = 0; size = 3500 };
  cover = record { offset = 0; size = 5 };
  mutable_region = record { offset = 4096; size = 12288 };
  immutable_size = 4096;
  footer = record { offset = 16384; size = 128 };
}

abbrev zero_io : Io
zero_io = record { get_size = ok 16512; read_at = λ offset size. ok (replicate size 0) }

abbrev one_loaded : Loaded
one_loaded = record {
  entries = [];
  ranges = [];
  entrypoint_count = 1;
  entrypoint_index = 0;
  index_size = 576;
}

abbrev info_of : Outcome Info → Info
info_of = info_or no_info

abbrev placed_info : Info
placed_info = info_of (place_regions zero_io tailed_info one_loaded)

regions_placed : place_regions zero_io tailed_info one_loaded ≡ ok placed_info
unfolding place_regions place_metadata_cover place_tail place_padding region_is_zero chunk_loop
    read_exact bytes_are_zero
regions_placed = refl

place_regions-Contiguous_example :
    Contiguous placed_info 584
    × (placed_info.immutable_size ≡ 4096)
    × (placed_info.entry_count ≡ 0)
    × (placed_info.entrypoint_index ≡ 0)
    × (placed_info.payload_index.size ≡ 576)
    × (placed_info.payload ≡ tailed_info.payload)
place_regions-Contiguous_example =
    place_regions-Contiguous zero_io tailed_info one_loaded (omega arith) (omega arith)
      regions_placed
