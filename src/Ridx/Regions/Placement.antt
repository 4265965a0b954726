-- ===== src/Ridx/Regions/Placement.antt =====
-- The regions behind the index follow one another without a gap and end where the file's layout says.
use libromx.Prelude.{
  ℕ, ◌+◌, ◌-◌, ◌^◌, ◌≤◌, ◌<◌, ◌≡◌, refl, sym, ap, ◌∙◌, ◌⊎◌, inl, inr, false, not, arith, ltb, ◌==◌,
  if◌then◌else◌, length,
}
use mathlib.Core.Path.{subst}
use libromx.Outcome.{
  range, ok, error_set, refuse_if, refuse_if-eq-ok, ok-injective, >>=-eq-ok, if-eq-ok, fail-≢-ok,
}
use libromx.Ridx.Entries.{Loaded}
use libromx.Ridx.Ranges.{region_is_zero}
use libromx.Ridx.Regions.{
  region_at, place_metadata_cover, align_page, place_padding, place_tail, place_regions,
}
use libromx.Types.{RegionInfo, Info, Io, add64, sub64}

-- An empty region stands nowhere; any other begins at `start`.
abbrev pub BeginsAt : RegionInfo → ℕ → Type 0
BeginsAt region start = (region.size ≡ 0) ⊎ (region.offset ≡ start)

-- What stands between the end of the content and the footer.
abbrev pub TailFits : Info → ℕ → Type 0
TailFits info content_end =
    ((info.mutable_region.size ≡ 0) × (content_end ≡ info.footer.offset))
    ⊎ ((0 < info.mutable_region.size)
        × (info.mutable_region.offset ≡ align_page content_end)
        × (info.immutable_padding.offset ≡ content_end)
        × (info.immutable_padding.offset + info.immutable_padding.size
            ≡ info.mutable_region.offset))

pub record Contiguous (info : Info) (index_end : ℕ) : Type 0 where
  pub metadata_follows : BeginsAt info.metadata index_end
  pub cover_follows : BeginsAt info.cover (index_end + info.metadata.size)
  pub content_fits : index_end + info.metadata.size + info.cover.size ≤ info.immutable_size
  pub tail_fits : TailFits info (index_end + info.metadata.size + info.cover.size)

region_at-BeginsAt : (start : ℕ) (region : RegionInfo) → BeginsAt (region_at start region) start
region_at-BeginsAt start region = ground arith

region_at-size : (start : ℕ) (region : RegionInfo) → (region_at start region).size ≡ region.size
region_at-size start region = ground arith

place_metadata_cover-facts :
    (info placed : Info) (index_end content_end : ℕ)
    → info.immutable_size < 2 ^ 64
    → index_end ≤ info.immutable_size
    → place_metadata_cover info index_end ≡ ok (placed, content_end)
    → (content_end ≡ index_end + info.metadata.size + info.cover.size)
      × (content_end ≤ info.immutable_size)
      × (placed ≡ record info {
        metadata = region_at index_end info.metadata;
        cover = region_at (index_end + info.metadata.size) info.cover;
      })
unfolding place_metadata_cover
place_metadata_cover-facts info placed index_end content_end b le h =
    let cover_start = add64 index_end info.metadata.size in
    let (_, meta, h1) =
      >>=-eq-ok
        (refuse_if (ltb (sub64 info.immutable_size index_end) info.metadata.size) range index_end) _
        h in
    let (_, cover, last) =
      >>=-eq-ok
        (refuse_if (ltb (sub64 info.immutable_size cover_start) info.cover.size) range cover_start)
        _ h1 in
    let meta_fits =
      refuse_if-eq-ok (ltb (sub64 info.immutable_size index_end) info.metadata.size) range index_end
        meta in
    let cover_fits =
      refuse_if-eq-ok (ltb (sub64 info.immutable_size cover_start) info.cover.size) range
        cover_start cover in
    let meta_le = not_ltb-le (sub64 info.immutable_size index_end) info.metadata.size meta_fits in
    let cover_le = not_ltb-le (sub64 info.immutable_size cover_start) info.cover.size cover_fits in
    let start : cover_start ≡ index_end + info.metadata.size = omega (arith, b, meta_le) in
    let pair = ok-injective last in
    let end' : add64 cover_start info.cover.size ≡ content_end = ap (λ (p : Info × ℕ). p.1) pair in
    let placed' = ap (λ (p : Info × ℕ). p.0) pair in
    (
      omega (arith, b, start, cover_le, end'),
      omega (arith, b, start, cover_le, end'),
      sym placed'
          ∙ ap
              (λ (n : ℕ). record info {
                metadata = region_at index_end info.metadata;
                cover = region_at n info.cover;
              })
              start,
    )
  where
    not_ltb-le : (a c : ℕ) → ltb a c ≡ false → c ≤ a
    not_ltb-le a c h = ground arith

place_padding-TailFits :
    (io : Io) (info : Info) (content_end : ℕ) {final : Info}
    → 0 < info.mutable_region.size
    → place_padding io info content_end ≡ ok final
    → TailFits final content_end
      × (final ≡ record info {
        immutable_padding = record {
          offset = content_end;
          size = align_page content_end - content_end;
        };
      })
unfolding place_padding
place_padding-TailFits io info content_end {final} pos h =
    let aligned = align_page content_end in
    let (_, _, h1) =
      >>=-eq-ok (refuse_if (ltb (2 ^ 64 - 1 - 4095) content_end) range content_end) _ h in
    let (_, at, h2) =
      >>=-eq-ok (refuse_if (not (aligned == info.mutable_region.offset)) range content_end) _ h1 in
    let (_, _, last) = >>=-eq-ok (region_is_zero io content_end (aligned - content_end)) _ h2 in
    let placed : aligned ≡ info.mutable_region.offset =
      ground (
        arith,
        refuse_if-eq-ok (not (aligned == info.mutable_region.offset)) range content_end at,
      ) in
    let e = ok-injective last in
    (
      subst (λ (i : Info). TailFits i content_end) e
          (inr (pos, sym placed, refl, omega (arith, placed))),
      sym e,
    )

place_padding-record :
    (io : Io) (info : Info) (content_end : ℕ) {final : Info}
    → 0 < info.mutable_region.size
    → place_padding io info content_end ≡ ok final
    → TailFits final content_end
      × ((r : RegionInfo) × (final ≡ record info { immutable_padding = r }))
place_padding-record io info content_end pos h =
    let (fits, e) = place_padding-TailFits io info content_end pos h in (fits, (_, e))

at_footer-TailFits :
    (info : Info) (content_end : ℕ) {final : Info}
    → (not (info.mutable_region.size == 0)) ≡ false
    → (if not (content_end == info.footer.offset) then error_set range content_end else ok info)
      ≡ ok final
    → TailFits final content_end
      × ((r : RegionInfo) × (final ≡ record info { immutable_padding = r }))
at_footer-TailFits info content_end none_left h =
    elim (if-eq-ok (not (content_end == info.footer.offset)) (error_set range content_end) (ok info)
      h) [
        | inl (_, bad) ↦ elim (fail-≢-ok bad) [ ]
        | inr (at_footer, good) ↦
            let e = ok-injective good in
            (
              subst (λ (i : Info). TailFits i content_end) e
                  (inl (ground (arith, none_left), ground (arith, at_footer))),
              (info.immutable_padding, sym e),
            )
      ]

place_tail-TailFits :
    (io : Io) (info : Info) (content_end : ℕ) {final : Info}
    → place_tail io info content_end ≡ ok final
    → TailFits final content_end
      × ((r : RegionInfo) × (final ≡ record info { immutable_padding = r }))
unfolding place_tail
place_tail-TailFits io info content_end {final} h =
    elim (if-eq-ok (not (info.mutable_region.size == 0)) (place_padding io info content_end) _ h) [
      | inl (some_left, padded) ↦
          let (fits, e) =
            place_padding-TailFits io info content_end (ground (arith, some_left)) padded in
          (fits, (_, e))
      | inr (none_left, rest) ↦ at_footer-TailFits info content_end none_left rest
    ]

-- Once the offsets of the regions are set, they stand one behind the other from the end of the index,
-- and fill the file up to the mutable region or to the footer; the immutable size and the payload are
-- kept, and the count, the entrypoint and the index size are those of the loaded entries. The index ends
-- inside the immutable part, whose size is a uint64_t value.
pub place_regions-Contiguous :
    (io : Io) (info : Info) (loaded : Loaded) {final : Info}
    → info.immutable_size < 2 ^ 64
    → info.payload.size + loaded.index_size ≤ info.immutable_size
    → place_regions io info loaded ≡ ok final
    → Contiguous final (info.payload.size + loaded.index_size)
      × (final.immutable_size ≡ info.immutable_size)
      × (final.entry_count ≡ length loaded.entries)
      × (final.entrypoint_index ≡ loaded.entrypoint_index)
      × (final.payload_index.size ≡ loaded.index_size)
      × (final.payload ≡ info.payload)
unfolding place_regions
place_regions-Contiguous io info loaded {final} b le h =
    let indexed : Info = record info {
      entry_count = length loaded.entries;
      entrypoint_index = loaded.entrypoint_index;
      payload_index = record { offset = info.payload_index.offset; size = loaded.index_size };
    } in
    let index_end = info.payload.size + loaded.index_size in
    let start : add64 info.payload.size loaded.index_size ≡ index_end = omega (arith, b, le) in
    let ((placed, content_end), at, h1) =
      >>=-eq-ok (place_metadata_cover indexed (add64 info.payload.size loaded.index_size)) _ h in
    let (end', fits, placed') =
      place_metadata_cover-facts indexed placed index_end content_end b le
        (sym (ap (place_metadata_cover indexed) start) ∙ at) in
    let (tail, (r, final')) = place_tail-TailFits io placed content_end h1 in
    let shape = final' ∙ ap (λ (i : Info). record i { immutable_padding = r }) placed' in
    let metadata' : final.metadata ≡ region_at index_end info.metadata =
      ap (λ (i : Info). i.metadata) shape in
    let cover' : final.cover ≡ region_at (index_end + info.metadata.size) info.cover =
      ap (λ (i : Info). i.cover) shape in
    let immutable' : final.immutable_size ≡ info.immutable_size =
      ap (λ (i : Info). i.immutable_size) shape in
    let metadata_size : final.metadata.size ≡ info.metadata.size =
      ap (λ (x : RegionInfo). x.size) metadata' ∙ region_at-size index_end info.metadata in
    let cover_size : final.cover.size ≡ info.cover.size =
      ap (λ (x : RegionInfo). x.size) cover'
      ∙ region_at-size (index_end + info.metadata.size) info.cover in
    let content : content_end ≡ index_end + final.metadata.size + final.cover.size =
      omega (arith, end', metadata_size, cover_size) in
    (
      record {
        metadata_follows =
            subst (λ (x : RegionInfo). BeginsAt x index_end) (sym metadata')
              (region_at-BeginsAt index_end info.metadata);
        cover_follows =
            subst (λ (n : ℕ). BeginsAt final.cover (index_end + n)) (sym metadata_size)
              (subst (λ (x : RegionInfo). BeginsAt x (index_end + info.metadata.size)) (sym cover')
                (region_at-BeginsAt (index_end + info.metadata.size) info.cover));
        content_fits = omega (arith, content, fits, immutable');
        tail_fits = subst (TailFits final) content tail;
      },
      immutable',
      ap (λ (i : Info). i.entry_count) shape,
      ap (λ (i : Info). i.entrypoint_index) shape,
      ap (λ (i : Info). i.payload_index.size) shape,
      ap (λ (i : Info). i.payload) shape,
    )
