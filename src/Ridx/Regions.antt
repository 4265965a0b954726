-- ===== src/Ridx/Regions.antt =====
-- src/ridx.c: the regions behind the index. Metadata and cover follow it, and then the mutable region
-- at the next multiple of 4096, behind zero bytes, or else the footer.
pub mod Placement
use libromx.Prelude.{
  ℕ, zero, suc, ◌+◌, ◌-◌, ◌*◌, ◌/◌, ◌%◌, ◌^◌, ◌≤◌, ◌<◌, min, bit_and, bit_or, bit_xor, ◌≡◌, refl,
  sym, ap, ◌∙◌, ◌≢◌, ◌↔◌, ◌⊎◌, inl, inr, Bool, true, false, not, ◌&&◌, ◌||◌, Option, none, some,
  List, [], ◌∷◌, ◌++◌, map, append_assoc, append-nil, arith, ltb, leb, ◌==◌, if◌then◌else◌, ltb→lt,
  lt→ltb, ==_iff, Bool-cases, Option-cases, length, get_or, set, take, drop, replicate, All,
  length-append, length-set, take-append-drop, length-take, length-drop, length-replicate, take-all,
  take-append, drop-append, drop-drop, take-append-take, All-append, All-take, All-drop, All-get_or,
}
use libromx.Outcome.{Code, range, Outcome, ok, fail, error_set, refuse_if, ◌>>=◌, ◌>>◌}
use libromx.Ridx.Entries.{Loaded}
use libromx.Ridx.Ranges.{region_is_zero}
use libromx.Types.{RegionInfo, Info, Io, add64, sub64}

-- A region of `size` bytes at `content_end`; an empty one keeps the offset 0.
abbrev pub region_at : ℕ → RegionInfo → RegionInfo
region_at content_end region =
    if not (region.size == 0) then record region { offset = content_end } else region

-- The tests and stores for the metadata and the cover: the regions and the end of the cover.
unfoldable pub place_metadata_cover : Info → ℕ → Outcome (Info × ℕ)
place_metadata_cover info content_end =
    let cover_start = add64 content_end info.metadata.size in
    let cover_end = add64 cover_start info.cover.size in
    do
      refuse_if (ltb (sub64 info.immutable_size content_end) info.metadata.size) range content_end
      refuse_if (ltb (sub64 info.immutable_size cover_start) info.cover.size) range cover_start
      ok (
        record info {
          metadata = region_at content_end info.metadata;
          cover = region_at cover_start info.cover;
        },
        cover_end,
      )

-- `(content_end + 4095) & ~4095`
abbrev pub align_page : ℕ → ℕ
align_page content_end = (content_end + 4095) / 4096 * 4096

-- The zero bytes between the content and the mutable region.
unfoldable pub place_padding : Io → Info → ℕ → Outcome Info
place_padding io info content_end = do
  let aligned = align_page content_end
  refuse_if (ltb (2 ^ 64 - 1 - 4095) content_end) range content_end
  refuse_if (not (aligned == info.mutable_region.offset)) range content_end
  region_is_zero io content_end (aligned - content_end)
  ok (record info {
    immutable_padding = record { offset = content_end; size = aligned - content_end };
  })

unfoldable pub place_tail : Io → Info → ℕ → Outcome Info
place_tail io info content_end =
    if not (info.mutable_region.size == 0)
    then place_padding io info content_end
    else if not (content_end == info.footer.offset)
    then error_set range content_end
    else ok info

unfoldable pub place_regions : Io → Info → Loaded → Outcome Info
place_regions io info loaded = do
  let indexed = record info {
    entry_count = length loaded.entries;
    entrypoint_index = loaded.entrypoint_index;
    payload_index = record { offset = info.payload_index.offset; size = loaded.index_size };
  }
  (placed, content_end) ← place_metadata_cover indexed (add64 info.payload.size loaded.index_size)
  place_tail io placed content_end
