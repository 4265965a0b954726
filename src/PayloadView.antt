-- ===== src/PayloadView.antt =====
-- src/payload_view.c: the entrypoint's data as an input of its own, with the end-of-file behaviour of a
-- regular file, and the hand-over to the mapping callback. Null pointers are left out.
pub mod Serving
use libromx.Prelude.{
  ℕ, zero, suc, ◌+◌, ◌-◌, ◌*◌, ◌/◌, ◌%◌, ◌^◌, ◌≤◌, ◌<◌, min, bit_and, bit_or, bit_xor, ◌≡◌, refl,
  sym, ap, ◌∙◌, ◌≢◌, ◌↔◌, ◌⊎◌, inl, inr, Bool, true, false, not, ◌&&◌, ◌||◌, Option, none, some,
  List, [], ◌∷◌, ◌++◌, map, append_assoc, append-nil, arith, ltb, leb, ◌==◌, if◌then◌else◌, ltb→lt,
  lt→ltb, ==_iff, Bool-cases, Option-cases, length, get_or, get_elem?, set, take, drop, replicate,
  All, length-append, length-set, take-append-drop, length-take, length-drop, length-replicate,
  take-all, take-append, drop-append, drop-drop, take-append-take, All-append, All-take, All-drop,
  All-get_or, get_elem?-append, get_elem?-concat, All-map, All-get_elem?,
}
use libromx.Outcome.{
  Code, invalid_argument, out_of_memory, truncated, unsupported, entry_not_found, range, Outcome,
  ok, fail, error_set, refuse_if, offset_unknown, ◌>>=◌, ◌>>◌,
}
use libromx.Bytes.{Bytes}
use libromx.Region.{read_window}
use libromx.Types.{RegionInfo, EntryInfo, Info, Io, Reader, add64}

abbrev pub region_or : RegionInfo → Option EntryInfo → RegionInfo
region_or region (some entry) = record { offset = entry.data_offset; size = entry.data_size }
region_or region none = region

-- `reader->entries != NULL` fails only when there are no entries.
unfoldable pub entrypoint_region : Reader → RegionInfo
entrypoint_region reader =
    if ltb reader.info.entrypoint_index reader.info.entry_count
    then region_or reader.info.payload (get_elem? reader.entries reader.info.entrypoint_index)
    else reader.info.payload

abbrev pub payload_get_size : Reader → Outcome ℕ
payload_get_size reader = ok (entrypoint_region reader).size

unfoldable pub payload_read_at : Reader → ℕ → ℕ → Outcome Bytes
payload_read_at reader offset size =
    let region = entrypoint_region reader in
    let bytes = read_window reader.io region.offset region.size offset size in
    if size == 0 || leb region.size offset then ok [] else bytes

unfoldable pub get_payload_io : Reader → Io
get_payload_io reader = record {
  get_size = payload_get_size reader;
  read_at = payload_read_at reader;
}

-- `mapper` is the reader's `map_payload` callback; its mapping is of a type of the platform's.
unfoldable pub map_payload {ℓ} :
    {Mapping : Type ℓ} → Option (RegionInfo → Outcome Mapping) → Reader → Outcome Mapping
map_payload none reader = error_set unsupported offset_unknown
map_payload (some mapper) reader = mapper (entrypoint_region reader)
