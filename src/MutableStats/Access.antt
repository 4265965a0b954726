-- ===== src/MutableStats/Access.antt =====
-- src/mutable_stats.c: romx_mutable_stats_read and romx_mutable_stats_write_path, which keep statistics
-- in an object of the STATS namespace. `had_buffer` answers whether the text's buffer was allocated.
use libromx.Prelude.{ℕ, ◌-◌, min, Bool, not, ◌||◌, ltb, ◌==◌, if◌then◌else◌, length}
use libromx.Bytes.{Bytes, slice}
use libromx.Outcome.{
  out_of_memory, range, truncated, mutable_stats, Outcome, ok, fail, refuse_if, offset_unknown,
  ◌>>=◌, ◌>>◌,
}
use libromx.Types.{Io, Reader, MutableObject}
use libromx.MutableFile.{MutableFile, mutable_file_open, mutable_file_get_size, mutable_file_read}
use libromx.MutableWrite.{WriteOptions, bare, mutable_write}
use libromx.MutableWrite.Effects.{Disk, Session}
use libromx.MutableStats.Parse.{Stats, stats_parse_json}
use libromx.MutableStats.Serialize.{max_json_size, stats_serialize_json}

-- ROMX_MUTABLE_NAMESPACE_STATS
abbrev pub namespace_stats : ℕ
namespace_stats = 3

module _ (realloc malloc : ℕ → Bool) where
  -- What is done with the text that the cursor has read.
  unfoldable pub parse_read : ℕ → Outcome Bytes → Outcome Stats
  parse_read size (fail e) = fail e
  parse_read size (ok json) =
      refuse_if (not (length json == size)) truncated offset_unknown
      >> stats_parse_json realloc malloc json

  unfoldable pub read_stats_file : (ℕ → Bool) → MutableFile → Outcome Stats
  unfolding parse_read
  read_stats_file had_buffer file =
      let size = mutable_file_get_size file in
      do
        refuse_if (size == 0 || ltb max_json_size size) mutable_stats offset_unknown
        refuse_if (not (had_buffer size)) out_of_memory offset_unknown
        parse_read size (mutable_file_read file size).1

  unfoldable pub mutable_stats_read : (ℕ → Bool) → Reader → Bytes → Outcome Stats
  unfolding read_stats_file
  mutable_stats_read had_buffer reader key =
      mutable_file_open reader namespace_stats key >>= λ file. read_stats_file had_buffer file

-- stats_memory_size and stats_memory_read, the input over the text.
unfoldable pub stats_memory_read : Bytes → ℕ → ℕ → Outcome Bytes
stats_memory_read bytes offset size =
    if ltb (length bytes) offset
    then bare range
    else ok (slice offset (min (length bytes - offset) size) bytes)

unfoldable pub stats_source : Bytes → Io
unfolding stats_memory_read
stats_source bytes = record { get_size = ok (length bytes); read_at = stats_memory_read bytes }

abbrev pub write_text :
    Disk
    → Outcome Reader
    → Bytes
    → WriteOptions
    → Outcome (ℕ × Outcome Bytes)
    → Session MutableObject
write_text disk opened key options (fail e) trace = (trace, fail e)
write_text disk opened key options (ok (size, fail e)) trace = (trace, fail e)
write_text disk opened key options (ok (size, ok json)) trace =
    mutable_write disk opened namespace_stats key (stats_source json) options trace

unfoldable pub mutable_stats_write :
    Disk → Outcome Reader → Bytes → Stats → WriteOptions → Session MutableObject
mutable_stats_write disk opened key stats options =
    write_text disk opened key options (stats_serialize_json stats max_json_size)
