-- ===== src/Tests/Images.antt =====
-- A cover image of two pixels with a palette, and the checks of it.
use libromx.Prelude.{ℕ, ◌≡◌, refl, Bool, true, false, [], ◌∷◌, ◌++◌}
use libromx.Bytes.{Bytes, c_string}
use libromx.Outcome.{Outcome, ok, fail}
use libromx.Utf8.{lead_of}
use libromx.Json.Strings.{Document}
use libromx.Metadata.{metadata_open, validate_metadata}
use libromx.Validate.{Report, new_report, good, reader_validate}
use libromx.Validate.Sections.{validate_reader, validate_reader-IsImage}
use libromx.Types.{Info, Reader, no_region, absent}
use libromx.Tests.Container.{bytes_io}
use libromx.Png.{Walk, validate_png, validate_cover}
use libromx.Png.Image.{IsImage}
use libromx.Png.Accepted.{validate_png-IsImage}

abbrev image : Bytes
image =
    0x89 ∷ 0x50 ∷ 0x4e ∷ 0x47 ∷ 0x0d ∷ 0x0a ∷ 0x1a ∷ 0x0a ∷ 0x00 ∷ 0x00 ∷ 0x00 ∷ 0x0d ∷ 0x49 ∷ 0x48
    ∷ 0x44 ∷ 0x52 ∷ 0x00 ∷ 0x00 ∷ 0x00 ∷ 0x02 ∷ 0x00 ∷ 0x00 ∷ 0x00 ∷ 0x01 ∷ 0x08 ∷ 0x03 ∷ 0x00
    ∷ 0x00 ∷ 0x00 ∷ 0xc3 ∷ 0xfc ∷ 0x8f ∷ 0xb8 ∷ 0x00 ∷ 0x00 ∷ 0x00 ∷ 0x03 ∷ 0x50 ∷ 0x4c ∷ 0x54
    ∷ 0x45 ∷ 0xff ∷ 0x00 ∷ 0x00 ∷ 0x19 ∷ 0xe2 ∷ 0x09 ∷ 0x37 ∷ 0x00 ∷ 0x00 ∷ 0x00 ∷ 0x02 ∷ 0x49
    ∷ 0x44 ∷ 0x41 ∷ 0x54 ∷ 0x01 ∷ 0x02 ∷ 0x8b ∷ 0xee ∷ 0xed ∷ 0xd7 ∷ 0x00 ∷ 0x00 ∷ 0x00 ∷ 0x00
    ∷ 0x49 ∷ 0x45 ∷ 0x4e ∷ 0x44 ∷ 0xae ∷ 0x42 ∷ 0x60 ∷ 0x82 ∷ []

abbrev image_info : Info
image_info = record {
  version = 0;
  file_size = 0;
  payload = no_region;
  metadata = no_region;
  cover = record { offset = 0; size = 74 };
  payload_index = no_region;
  immutable_padding = no_region;
  mutable_region = no_region;
  footer = no_region;
  immutable_size = 0;
  immutable_hash_algorithm = 0;
  footer_crc32 = 0;
  platform_id = 0;
  launch_format_id = 0;
  entry_count = 0;
  entrypoint_index = 0;
  immutable_sha256 = [];
}

abbrev image_reader : Reader
image_reader = record {
  info = image_info;
  io = bytes_io image;
  max_metadata_size = 1048576;
  max_cover_size = 33554432;
  max_cover_dimension = 8192;
  io_chunk_size = 1024;
  entries = [];
  mutable_slots = [];
  mutable_status = absent;
}

abbrev image_walk : Walk
image_walk = record {
  position = 74;
  first = false;
  saw_idat = true;
  ended_idat = false;
  saw_iend = true;
  saw_plte = true;
  color_type = 3;
  width = 2;
  height = 1;
}

image_accepted : validate_png image_reader ≡ ok image_walk
unfolding validate_png
image_accepted = refl

validate_png-IsImage_example : IsImage image_reader image_walk
validate_png-IsImage_example = validate_png-IsImage image_reader image_accepted

-- The image with a metadata document behind it.
abbrev album : Bytes
album = image ++ c_string "{\"schema_version\":\"0.2.0\",\"name\":\"Tetris\"}"

abbrev album_reader : Reader
album_reader = record image_reader {
  info = record image_info { metadata = record { offset = 74; size = 42 } };
  io = bytes_io album;
}

abbrev plenty : ℕ → Bool
plenty n = true

abbrev report_or_new : Outcome Report → Report
report_or_new (ok report) = report
report_or_new (fail failure) = new_report

abbrev album_report : Report
album_report = report_or_new (validate_reader plenty plenty album_reader 12)

album_checked : validate_reader plenty plenty album_reader 12 ≡ ok album_report
unfolding validate_reader reader_validate validate_metadata lead_of validate_cover
album_checked = refl

album_described : album_report.metadata ≡ good
unfolding validate_reader reader_validate validate_metadata lead_of validate_cover
album_described = refl

album_covered : album_report.cover ≡ good
unfolding validate_reader reader_validate validate_metadata lead_of validate_cover
album_covered = refl

validate_reader-IsImage_example :
    ((document : Document) × (metadata_open plenty plenty album_reader ≡ ok document))
    × ((walk : Walk) × (validate_png album_reader ≡ ok walk)
        × (album_report.cover_width ≡ walk.width)
        × (album_report.cover_height ≡ walk.height)
        × IsImage album_reader walk)
validate_reader-IsImage_example =
    validate_reader-IsImage plenty plenty album_reader 12 refl refl album_checked album_described
      album_covered
