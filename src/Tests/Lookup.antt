-- ===== src/Tests/Lookup.antt =====
-- A reader with two entries: the look-ups, the cursors and the views on it.
use libromx.Prelude.{
  ◌+◌, ◌-◌, ◌≤◌, min, ◌≡◌, refl, not, [], ◌∷◌, arith, ltb, if◌then◌else◌, length, take, replicate,
}
use libromx.Bytes.{slice, bytes_equal}
use libromx.Cursor.{negsuc, seek_end, add_offset, add_offset-signed_sum, signed_sum, sum_or_refused}
use libromx.Outcome.{immutable_hash, refuse_if, invalid_argument, range, Outcome, ok, error_set}
use libromx.Path.{ascii_fold_equal, fold_byte}
use libromx.PayloadFile.{PayloadFile, payload_seek, payload_read}
use libromx.PayloadFile.Agrees.{as_vfs_pair, as_vfs, payload_file-agrees}
use libromx.PayloadView.{entrypoint_region, get_payload_io}
use libromx.PayloadView.Serving.{get_payload_io-Serves}
use libromx.Region.{payload, get_region_info, read_region, hash_region}
use libromx.Region.Reads.{read_region-Serves}
use libromx.Region.Streaming.{Serves, hash_region-eq}
use libromx.Ridx.Entries.Accepted.{Distinct}
use libromx.Ridx.Lookup.{entry_at, get_entry, find_entry, read_entry}
use libromx.Ridx.Lookup.Unique.{Finds, find_entry-Finds, find_entry-get_entry, read_entry-Serves}
use libromx.Crc32.{crc32}
use libromx.Sha256.{sha256}
use libromx.Tests.Container.{container, bytes_io, bytes_io-Serves, rom_path}
use libromx.Types.{EntryInfo, Info, Reader, no_region, absent}
use libromx.Validate.{Report, validate_required_integrity}
use libromx.Validate.Checks.{validate_required_integrity-sha256}
use libromx.VfsFile.{VfsFile, vfs_seek, vfs_read}
use libromx.VfsFile.Stream.{IsCursor, joined, vfs_read-Serves, vfs_read-vfs_read}

-- The paths "game.rom" and "a".
abbrev rom_entry : EntryInfo
rom_entry = record {
  index = 0;
  flags = 1;
  format_id = 1;
  data_offset = 0;
  data_size = 5;
  crc32 = 0;
  path = rom_path;
}

abbrev side_entry : EntryInfo
side_entry = record {
  index = 1;
  flags = 0;
  format_id = 1;
  data_offset = 5;
  data_size = 3;
  crc32 = 0;
  path = 0x61 ∷ [];
}

abbrev two_info : Info
two_info = record {
  version = 2;
  file_size = 712;
  payload = record { offset = 0; size = 8 };
  metadata = no_region;
  cover = no_region;
  payload_index = no_region;
  immutable_padding = no_region;
  mutable_region = no_region;
  footer = record { offset = 584; size = 128 };
  immutable_size = 584;
  immutable_hash_algorithm = 1;
  footer_crc32 = 0;
  platform_id = 0;
  launch_format_id = 0;
  entry_count = 2;
  entrypoint_index = 0;
  immutable_sha256 = replicate 32 0;
}

abbrev two_reader : Reader
two_reader = record {
  info = two_info;
  io = bytes_io container;
  max_metadata_size = 1048576;
  max_cover_size = 33554432;
  max_cover_dimension = 8192;
  io_chunk_size = 1024;
  entries = rom_entry ∷ side_entry ∷ [];
  mutable_slots = [];
  mutable_status = absent;
}

serving : Serves (bytes_io container) container
serving = bytes_io-Serves container (omega arith)

find_entry-Finds_example : Finds two_reader rom_path (find_entry two_reader rom_path)
find_entry-Finds_example = find_entry-Finds two_reader rom_path refl

two-Distinct : Distinct two_reader.entries
unfolding ascii_fold_equal fold_byte
two-Distinct = ((refl, tt), (tt, tt))

side_found : get_entry two_reader 1 ≡ ok side_entry
unfolding entry_at
side_found = refl

find_entry-get_entry_example : find_entry two_reader side_entry.path ≡ ok side_entry
find_entry-get_entry_example = find_entry-get_entry two_reader 1 refl two-Distinct side_found

side_read : entry_at invalid_argument two_reader 1 ≡ ok side_entry
unfolding entry_at
side_read = refl

read_entry-Serves_example :
    read_entry two_reader 1 1 10
    ≡ (if ltb 3 1 then error_set range 1 else ok (slice (5 + 1) (min (3 - 1) 10) container))
read_entry-Serves_example =
    read_entry-Serves two_reader 1 1 10 container side_read serving (omega arith)

abbrev side_file : VfsFile
side_file = record { reader = two_reader; entry_index = 1; size = 3; position = 1 }

side-IsCursor : IsCursor side_file container 5
side-IsCursor = record {
  serves = serving;
  entry = side_entry;
  found = side_read;
  starts = refl;
  sized = refl;
  inside = omega arith;
}

vfs_read-Serves_example : vfs_read side_file 9 ≡ (
  record side_file { position = 1 + min (3 - 1) 9 },
  ok (slice (5 + 1) (min (3 - 1) 9) container),
)
vfs_read-Serves_example = vfs_read-Serves side_file container 5 9 side-IsCursor

vfs_read-vfs_read_example :
    ((vfs_read (vfs_read side_file 1).0 7).0 ≡ (vfs_read side_file (1 + 7)).0)
    × (joined (vfs_read side_file 1).1 (vfs_read (vfs_read side_file 1).0 7).1
        ≡ (vfs_read side_file (1 + 7)).1)
vfs_read-vfs_read_example = vfs_read-vfs_read side_file container 5 1 7 side-IsCursor

abbrev rom_file : PayloadFile
rom_file = record { reader = two_reader; entry_index = 0; size = 5; position = 2 }

payload_file-agrees_example :
    (as_vfs_pair (payload_seek rom_file (negsuc 0) seek_end)
      ≡ vfs_seek (as_vfs rom_file) (negsuc 0) seek_end)
    × (as_vfs_pair (payload_read rom_file 4) ≡ vfs_read (as_vfs rom_file) 4)
payload_file-agrees_example = payload_file-agrees rom_file (negsuc 0) seek_end 4

region_inside :
    (entrypoint_region two_reader).offset + (entrypoint_region two_reader).size ≤ length container
unfolding entrypoint_region
region_inside = omega arith

get_payload_io-Serves_example :
    Serves
      (get_payload_io two_reader)
      (slice (entrypoint_region two_reader).offset (entrypoint_region two_reader).size container)
get_payload_io-Serves_example = get_payload_io-Serves two_reader container serving region_inside

add_offset-signed_sum_example : add_offset 5 (negsuc 6) ≡ sum_or_refused (signed_sum 5 (negsuc 6))
add_offset-signed_sum_example = add_offset-signed_sum 5 (negsuc 6) (omega arith) (omega arith)

payload_there : get_region_info two_reader payload ≡ ok two_info.payload
unfolding get_region_info
payload_there = refl

read_region-Serves_example :
    read_region two_reader payload 3 4
    ≡ (if ltb 8 3 then error_set range 3 else ok (slice (0 + 3) (min (8 - 3) 4) container))
read_region-Serves_example =
    read_region-Serves two_reader payload 3 4 container payload_there serving (omega arith)

part_read : read_region two_reader payload 3 4 ≡ ok (slice 3 4 container)
part_read = read_region-Serves two_reader payload 3 4 container payload_there serving (omega arith)

hash_region-eq_example :
    hash_region two_reader two_info.payload
    ≡ ok (sha256 (slice 0 8 container), crc32 (slice 0 8 container))
hash_region-eq_example =
    hash_region-eq two_reader two_info.payload container serving (omega arith) (omega arith)

abbrev kept : Reader → Report → Outcome Report
kept reader report = ok report

validate_required_integrity-sha256_example :
    validate_required_integrity kept kept two_reader
    ≡ refuse_if (not (bytes_equal (sha256 (take 584 container)) (replicate 32 0))) immutable_hash 0
validate_required_integrity-sha256_example =
    validate_required_integrity-sha256 kept kept two_reader container serving (omega arith)
      (omega arith) (omega arith)
