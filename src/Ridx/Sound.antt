-- ===== src/Ridx/Sound.antt =====
-- A container whose payload index is accepted: what romx_parse_ridx of src/ridx.c leaves in the reader.
use libromx.Prelude.{
  ℕ, ◌+◌, ◌*◌, ◌/◌, ◌^◌, ◌≤◌, ◌<◌, ◌≡◌, sym, ap, ◌⊎◌, inl, inr, true, false, some, List, [], ◌∷◌,
  arith, ltb, ◌==◌, Bool-cases, length, get_elem?, All, All-append,
}
use mathlib.Core.Path.{subst}
use libromx.Bytes.{Bytes, read_le32}
use libromx.Outcome.{range, index_error, ok, refuse_if, refuse_if-eq-ok, ok-injective, >>=-eq-ok}
use libromx.Region.{read_exact}
use libromx.Ridx.{parse_ridx}
use libromx.Ridx.Entries.{is_entrypoint, range_of, load_entries}
use libromx.Ridx.Entries.Accepted.{
  IsEntry, Distinct, ranges_of, count_entrypoints, load_entries-IsLoaded,
}
use libromx.Ridx.Header.{
  header_size, entry_size, bad_header, index_extent, IndexBytes, check_index, read_index,
}
use libromx.Ridx.Ranges.{check_ranges}
use libromx.Ridx.Ranges.Disjoint.{AllApart, IsForward, check_ranges-AllApart}
use libromx.Ridx.Regions.{place_regions}
use libromx.Ridx.Regions.Placement.{Contiguous, place_regions-Contiguous}
use libromx.Types.{RegionInfo, Info, EntryInfo, Reader, add64, sub64}

index_extent-fits :
    (info : Info) (header : Bytes) {entry_count index_size : ℕ}
    → info.immutable_size < 2 ^ 64
    → info.payload.size + header_size ≤ info.immutable_size
    → index_extent info header ≡ ok (entry_count, index_size)
    → info.payload.size + index_size ≤ info.immutable_size
unfolding index_extent
index_extent-fits info header {entry_count} {index_size} b fits h =
    let start = info.payload.size in
    let stored = read_le32 header 0x08 in
    let available = sub64 info.immutable_size start in
    let (_, _, h1) = >>=-eq-ok (refuse_if (bad_header header) index_error start) _ h in
    let (_, _, h2) = >>=-eq-ok (refuse_if (stored == 0) index_error (add64 start 0x08)) _ h1 in
    let (_, counted, last) =
      >>=-eq-ok
        (refuse_if (ltb (sub64 available header_size / entry_size) stored) range (add64 start 0x08))
        _ h2 in
    let e : header_size + stored * entry_size ≡ index_size =
      ap (λ (p : ℕ × ℕ). p.1) (ok-injective last) in
    let bound =
      refuse_if-eq-ok (ltb (sub64 available header_size / entry_size) stored) range
        (add64 start 0x08) counted in
    let some_room = not_ltb-≤ (sub64 available header_size / entry_size) stored bound in
    omega (arith, e, some_room, b, fits)
  where
    not_ltb-≤ : (a c : ℕ) → ltb a c ≡ false → c ≤ a
    not_ltb-≤ a c k = ground arith

pub read_index-fits :
    (reader : Reader) {index : IndexBytes}
    → reader.info.immutable_size < 2 ^ 64
    → reader.info.payload.size + header_size ≤ reader.info.immutable_size
    → read_index reader ≡ ok index
    → reader.info.payload.size + index.index_size ≤ reader.info.immutable_size
unfolding read_index
read_index-fits reader {index} b fits h =
    let (header, _, h1) =
      >>=-eq-ok (read_exact reader.io reader.info.payload.size header_size) _ h in
    let ((count, size), extent, h2) = >>=-eq-ok (index_extent reader.info header) _ h1 in
    let (bytes, _, h3) = >>=-eq-ok (read_exact reader.io reader.info.payload.size size) _ h2 in
    let (_, _, last) = >>=-eq-ok (check_index reader.info.payload.size bytes) _ h3 in
    subst (λ (n : ℕ). reader.info.payload.size + n ≤ reader.info.immutable_size)
      (ap (λ (i : IndexBytes). i.index_size) (ok-injective last))
      (index_extent-fits reader.info header b fits extent)

ranges_of-IsForward :
    (payload_size : ℕ) (entries : List EntryInfo)
    → payload_size < 2 ^ 64
    → All (IsEntry payload_size) entries
    → All IsForward (ranges_of entries)
ranges_of-IsForward payload_size [] b h = tt
ranges_of-IsForward payload_size (e ∷ entries) b (good, rest) =
    All-append IsForward (range_of e) (ranges_of entries) (one (Bool-cases (e.data_size == 0)))
      (ranges_of-IsForward payload_size entries b rest)
  where
    one : ((e.data_size == 0) ≡ true) ⊎ ((e.data_size == 0) ≡ false) → All IsForward (range_of e)
    one (inl none_there) = rw none_there tt
    one (inr some_there) =
        let inside = good.in_payload in rw some_there (omega (arith, b, inside), tt)

-- What a reader promises once it is open.
pub record IsReader (info : Info) (entries : List EntryInfo) (index_end : ℕ) : Type 0 where
  pub entries_sound : All (IsEntry info.payload.size) entries
  pub entries_counted : info.entry_count ≡ length entries
  pub paths_distinct : Distinct entries
  pub data_apart : AllApart (ranges_of entries)
  pub one_entrypoint : count_entrypoints entries ≡ 1
  pub entrypoint_found :
      (e : EntryInfo) × (get_elem? entries info.entrypoint_index ≡ some e)
      × (is_entrypoint e ≡ true)
  pub regions_contiguous : Contiguous info index_end

-- A payload index that is accepted leaves a reader with sound entries: each is inside the payload, has a
-- valid path and a format other than the prohibited 0xffff; no two have one path up to the case of letters, or a common byte of data;
-- exactly one is the entrypoint, and entrypoint_index leads to it; and the regions behind the index
-- follow one another up to the mutable region or the footer. The payload and the index header fit the
-- immutable part, whose size is a uint64_t value.
pub parse_ridx-IsReader :
    (reader : Reader) {opened : Reader}
    → reader.info.immutable_size < 2 ^ 64
    → reader.info.payload.size + header_size ≤ reader.info.immutable_size
    → parse_ridx reader ≡ ok opened
    → IsReader opened.info opened.entries
        (reader.info.payload.size + opened.info.payload_index.size)
unfolding parse_ridx
parse_ridx-IsReader reader {opened} b fits h =
    let payload_size = reader.info.payload.size in
    let (index, at, h1) = >>=-eq-ok (read_index reader) _ h in
    let (loaded, gathered, h2) = >>=-eq-ok (load_entries payload_size index) _ h1 in
    let (_, ranged, h3) = >>=-eq-ok (check_ranges reader.io payload_size loaded.ranges) _ h2 in
    let (info, placed, last) = >>=-eq-ok (place_regions reader.io reader.info loaded) _ h3 in
    let (inv, one) = load_entries-IsLoaded payload_size index gathered in
    let indexed : payload_size + loaded.index_size ≤ reader.info.immutable_size =
      subst (λ (n : ℕ). payload_size + n ≤ reader.info.immutable_size) (sym inv.size_kept)
        (read_index-fits reader b fits at) in
    let (layout, _, counted, pointed, size', payload') =
      place_regions-Contiguous reader.io reader.info loaded b indexed placed in
    let forward =
      ranges_of-IsForward payload_size loaded.entries (omega (arith, b, fits)) inv.entries_ok in
    let apart = subst AllApart inv.ranges_gathered (
      check_ranges-AllApart reader.io payload_size loaded.ranges
        (subst (All IsForward) (sym inv.ranges_gathered) forward) ranged) in
    let marked = inv.pointed (omega (arith, inv.counted, one)) in
    subst (λ (r : Reader). IsReader r.info r.entries (payload_size + r.info.payload_index.size))
      (ok-injective last)
      (record {
        entries_sound =
            subst (λ (r : RegionInfo). All (IsEntry r.size) loaded.entries) (sym payload')
              inv.entries_ok;
        entries_counted = counted;
        paths_distinct = inv.distinct;
        data_apart = apart;
        one_entrypoint = one;
        entrypoint_found =
            subst
              (λ (n : ℕ).
                (e : EntryInfo) × (get_elem? loaded.entries n ≡ some e) × (is_entrypoint e ≡ true))
              (sym pointed) marked;
        regions_contiguous =
            subst (λ (n : ℕ). Contiguous info (payload_size + n)) (sym size') layout;
      })
