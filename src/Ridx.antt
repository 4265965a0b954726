-- ===== src/Ridx.antt =====
-- romx_parse_ridx of src/ridx.c: the payload index. The children hold the parts of the function in
-- its order: the header and the checksum, the entries, the ranges of the payload, the regions behind
-- the index. Null pointers and failed allocation are left out.
pub mod Header
pub mod Entries
pub mod Ranges
pub mod Regions
pub mod Lookup
pub mod Sound
use libromx.Prelude.{
  ℕ, zero, suc, ◌+◌, ◌-◌, ◌*◌, ◌/◌, ◌%◌, ◌^◌, ◌≤◌, ◌<◌, min, bit_and, bit_or, bit_xor, ◌≡◌, refl,
  sym, ap, ◌∙◌, ◌≢◌, ◌↔◌, ◌⊎◌, inl, inr, Bool, true, false, not, ◌&&◌, ◌||◌, Option, none, some,
  List, [], ◌∷◌, ◌++◌, map, append_assoc, append-nil, arith, ltb, leb, ◌==◌, if◌then◌else◌, ltb→lt,
  lt→ltb, ==_iff, Bool-cases, Option-cases, length, get_or, set, take, drop, replicate, All,
  length-append, length-set, take-append-drop, length-take, length-drop, length-replicate, take-all,
  take-append, drop-append, drop-drop, take-append-take, All-append, All-take, All-drop, All-get_or,
}
use libromx.Outcome.{Outcome, ok, fail, ◌>>=◌, ◌>>◌}
use libromx.Types.{Info, Reader}
use Header.{read_index}
use Entries.{Loaded, load_entries}
use Ranges.{check_ranges}
use Regions.{place_regions}

-- The reader as `romx_reader_create` holds it after the footer, with the entries and the regions.
unfoldable pub parse_ridx : Reader → Outcome Reader
parse_ridx reader = do
  index ← read_index reader
  loaded ← load_entries reader.info.payload.size index
  check_ranges reader.io reader.info.payload.size loaded.ranges
  info ← place_regions reader.io reader.info loaded
  ok (record reader { info = info; entries = loaded.entries })
