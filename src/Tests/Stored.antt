-- ===== src/Tests/Stored.antt =====
-- A run of the calls that keep statistics in a mutable object.
use libromx.Prelude.{ℕ, ◌≡◌, refl, inr, Bool, true, [], ◌∷◌, arith}
use libromx.Bytes.{Bytes, c_string}
use libromx.Crc32.{crc32, crc32_begin, crc32_update, crc32_finish}
use libromx.Outcome.{ok}
use libromx.Types.{Info, Reader, MutableObject, MutableSlot, no_region, valid}
use libromx.Utf8.{lead_of}
use libromx.Region.{chunk_loop, read_exact, read_window}
use libromx.Path.{ascii_fold_equal, fold_byte}
use libromx.Mutable.Objects.{find_mutable_object, require_mutable, validate_slot_data}
use libromx.Mutable.Objects.Checked.{IsFound}
use libromx.MutableFile.{mutable_file_open, mutable_file_read}
use libromx.MutableStats.Parse.{Stats, new_stats, stats_parse_json}
use libromx.MutableStats.Serialize.{stats_values_valid}
use libromx.MutableStats.Access.{namespace_stats, mutable_stats_read}
use libromx.MutableStats.Stored.{data_in, mutable_stats_read-Stored}
use libromx.Tests.Container.{bytes_io, bytes_io-Serves}

abbrev plenty : ℕ → Bool
plenty n = true

-- Two other bytes, then the text.
abbrev stats_file : Bytes
stats_file = 0 ∷ 0 ∷ c_string "{\"schema\":\"romx.stats\",\"version\":1,\"launch_count\":7}"

abbrev stats_object : MutableObject
stats_object = record {
  slot_index = 0;
  object_namespace = 3;
  data_offset = 2;
  data_capacity = 64;
  data_size = 52;
  generation = 1;
  modified_unix_seconds = 0;
  data_crc32 = 0x6a0aef9d;
  key = 0x61 ∷ [];
}

abbrev stats_slot : MutableSlot
stats_slot = record { filled = true; object = stats_object; state = 1; usable = true }

abbrev stats_info : Info
stats_info = record {
  version = 2;
  file_size = 54;
  payload = no_region;
  metadata = no_region;
  cover = no_region;
  payload_index = no_region;
  immutable_padding = no_region;
  mutable_region = record { offset = 0; size = 54 };
  footer = no_region;
  immutable_size = 0;
  immutable_hash_algorithm = 0;
  footer_crc32 = 0;
  platform_id = 0;
  launch_format_id = 0;
  entry_count = 0;
  entrypoint_index = 0;
  immutable_sha256 = [];
}

abbrev stats_reader : Reader
stats_reader = record {
  info = stats_info;
  io = bytes_io stats_file;
  max_metadata_size = 1048576;
  max_cover_size = 33554432;
  max_cover_dimension = 8192;
  io_chunk_size = 1024;
  entries = [];
  mutable_slots = stats_slot ∷ [];
  mutable_status = valid;
}

abbrev seven_launches : Stats
seven_launches = record new_stats { flags = 2; launch_count = 7 }

stats_read : mutable_stats_read plenty plenty plenty stats_reader (0x41 ∷ []) ≡ ok seven_launches
unfolding mutable_stats_read find_mutable_object require_mutable validate_slot_data chunk_loop
    read_exact read_window crc32_begin crc32_update crc32_finish ascii_fold_equal fold_byte
    stats_parse_json lead_of mutable_file_open mutable_file_read
stats_read = refl

mutable_stats_read-Stored_example :
    (object : MutableObject) × IsFound stats_reader namespace_stats
      (0x41 ∷ [])
      (stats_slot ∷ [])
      object
    × (crc32 (data_in stats_reader stats_file object) ≡ object.data_crc32)
    × (stats_parse_json plenty plenty (data_in stats_reader stats_file object) ≡ ok seven_launches)
    × (stats_values_valid seven_launches ≡ true)
mutable_stats_read-Stored_example =
    mutable_stats_read-Stored plenty plenty plenty stats_reader (0x41 ∷ []) stats_file
      (bytes_io-Serves stats_file (omega arith)) (omega arith) (inr (omega arith), tt) stats_read
