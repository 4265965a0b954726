-- ===== src/Open/Layout.antt =====
-- The payload index and the mutable region leave alone what the footer says of the layout: src/ridx.c and
-- src/mutable.c fill in the rest of the reader's information.
use libromx.Prelude.{ℕ, ◌≡◌, refl, ap, ◌∙◌, inl, inr, ◌==◌, not, ltb, length, ◌-◌, ◌^◌}
use mathlib.Core.Path.{subst}
use libromx.Footer.Bounds.{FooterLayout}
use libromx.Outcome.{range, ok, refuse_if, if-eq-ok, fail-≢-ok, ok-injective, >>=-eq-ok}
use libromx.Ridx.{parse_ridx}
use libromx.Ridx.Entries.{Loaded, load_entries}
use libromx.Ridx.Header.{read_index}
use libromx.Ridx.Ranges.{check_ranges, region_is_zero}
use libromx.Ridx.Regions.{
  align_page, region_at, place_metadata_cover, place_padding, place_tail, place_regions,
}
use libromx.Types.{RegionInfo, Info, Io, Reader, add64, sub64}

-- The information with those fields filled in that the payload index settles.
abbrev filled : Info → ℕ → ℕ → ℕ → RegionInfo → RegionInfo → RegionInfo → Info
filled info entry_count entrypoint_index index_size metadata cover padding = record info {
  entry_count = entry_count;
  entrypoint_index = entrypoint_index;
  payload_index = record { offset = info.payload_index.offset; size = index_size };
  metadata = metadata;
  cover = cover;
  immutable_padding = padding;
}

abbrev pub Filled : Info → Info → Type 0
Filled info final =
    (entry_count : ℕ) × (entrypoint_index : ℕ) × (index_size : ℕ) × (metadata : RegionInfo)
    × (cover : RegionInfo) × (padding : RegionInfo) × (filled info entry_count entrypoint_index
          index_size metadata cover padding
        ≡ final)

place_tail-padding :
    (io : Io) (info : Info) (content_end : ℕ) {final : Info}
    → place_tail io info content_end ≡ ok final
    → (padding : RegionInfo) × (record info { immutable_padding = padding } ≡ final)
unfolding place_tail place_padding
place_tail-padding io info content_end h =
    elim (if-eq-ok (not (info.mutable_region.size == 0)) _ _ h) [
      | inl (_, padded) ↦
          let aligned = align_page content_end in
          let (_, _, a) =
            >>=-eq-ok (refuse_if (ltb (2 ^ 64 - 1 - 4095) content_end) range content_end) _
              padded in
          let (_, _, b) =
            >>=-eq-ok (refuse_if (not (aligned == info.mutable_region.offset)) range content_end) _
              a in
          let (_, _, last) =
            >>=-eq-ok (region_is_zero io content_end (aligned - content_end)) _ b in
          (record { offset = content_end; size = aligned - content_end }, ok-injective last)
      | inr (_, bare) ↦ elim (if-eq-ok (not (content_end == info.footer.offset)) _ _ bare) [
        | inl (_, refused) ↦ elim (fail-≢-ok refused) [ ]
        | inr (_, last) ↦ (info.immutable_padding, ok-injective last)
      ]
    ]

place_metadata_cover-regions :
    (info : Info) (content_end : ℕ) {result : Info × ℕ}
    → place_metadata_cover info content_end ≡ ok result
    → (metadata : RegionInfo) × (cover : RegionInfo) × (record info {
      metadata = metadata;
      cover = cover;
    }
        ≡ result.0)
unfolding place_metadata_cover
place_metadata_cover-regions info content_end {result} h =
    let cover_start = add64 content_end info.metadata.size in
    let (_, _, a) =
      >>=-eq-ok
        (refuse_if (ltb (sub64 info.immutable_size content_end) info.metadata.size) range
          content_end)
        _ h in
    let (_, _, last) =
      >>=-eq-ok
        (refuse_if (ltb (sub64 info.immutable_size cover_start) info.cover.size) range cover_start)
        _ a in
    (
      region_at content_end info.metadata,
      region_at cover_start info.cover,
      ap (λ (r : Info × ℕ). r.0) (ok-injective last),
    )

place_regions-Filled :
    (io : Io) (info : Info) (loaded : Loaded) {final : Info}
    → place_regions io info loaded ≡ ok final
    → Filled info final
unfolding place_regions place_metadata_cover
place_regions-Filled io info loaded {final} h =
    let indexed =
      filled info (length loaded.entries) loaded.entrypoint_index loaded.index_size info.metadata
        info.cover info.immutable_padding in
    let (pair, regions, tail) =
      >>=-eq-ok (place_metadata_cover indexed (add64 info.payload.size loaded.index_size)) _ h in
    let (metadata, cover, placed) =
      place_metadata_cover-regions indexed (add64 info.payload.size loaded.index_size) regions in
    let (padding, last) = place_tail-padding io pair.0 pair.1 tail in
    (
      length loaded.entries,
      loaded.entrypoint_index,
      loaded.index_size,
      metadata,
      cover,
      padding,
      ap (λ (i : Info). record i { immutable_padding = padding }) placed ∙ last,
    )

pub parse_ridx-Filled :
    (reader : Reader) {opened : Reader}
    → parse_ridx reader ≡ ok opened
    → Filled reader.info opened.info
unfolding parse_ridx
parse_ridx-Filled reader {opened} h =
    let (index, _, h1) = >>=-eq-ok (read_index reader) _ h in
    let (loaded, _, h2) = >>=-eq-ok (load_entries reader.info.payload.size index) _ h1 in
    let (_, _, h3) =
      >>=-eq-ok (check_ranges reader.io reader.info.payload.size loaded.ranges) _ h2 in
    let (info, placed, last) = >>=-eq-ok (place_regions reader.io reader.info loaded) _ h3 in
    subst (λ (r : Reader). Filled reader.info r.info) (ok-injective last)
      (place_regions-Filled reader.io reader.info loaded placed)

pub Filled-FooterLayout :
    (file_size : ℕ) (info final : Info)
    → Filled info final
    → FooterLayout file_size info
    → FooterLayout file_size final × (final.payload.size ≡ info.payload.size)
Filled-FooterLayout file_size info final (count, point, size, metadata, cover, padding, same) l =
    subst (λ (i : Info). FooterLayout file_size i × (i.payload.size ≡ info.payload.size)) same
      (
        record {
          footer_ends_file = l.footer_ends_file;
          payload_start = l.payload_start;
          payload_nonempty = l.payload_nonempty;
          index_follows = l.index_follows;
          header_fits = l.header_fits;
          mutable_fills = l.mutable_fills;
          mutable_placed = l.mutable_placed;
          mutable_pages = l.mutable_pages;
          no_prohibited_ids = l.no_prohibited_ids;
          known_hash = l.known_hash;
        },
        refl,
      )
