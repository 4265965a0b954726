-- ===== src/Footer/Bounds.antt =====
-- What a footer that is accepted says of the file's layout.
use libromx.Prelude.{
  ℕ, ◌+◌, ◌-◌, ◌%◌, ◌≤◌, ◌<◌, ◌≡◌, refl, sym, ap, ◌∙◌, ◌≢◌, ◌⊎◌, Bool, false, ◌||◌, arith, ltb,
  ◌==◌,
}
use mathlib.Core.Path.{subst}
use libromx.Bytes.{Bytes, read_le64}
use libromx.Outcome.{truncated, range, ok, ok-injective, >>=-eq-ok, refuse_if, refuse_if-eq-ok}
use libromx.Types.{RegionInfo, no_region, Info}
use libromx.Footer.{
  footer_size, ridx_header_size, check_seal, footer_fields, place_mutable, check_fields,
  parse_footer,
}

-- The regions that the footer alone fixes lie in the file, in order, and the RIDX header has room.
pub record FooterLayout (file_size : ℕ) (info : Info) : Type 0 where
  pub footer_ends_file : info.footer.offset + footer_size ≡ file_size
  pub payload_start : info.payload.offset ≡ 0
  pub payload_nonempty : 0 < info.payload.size
  pub index_follows : info.payload_index.offset ≡ info.payload.size
  pub header_fits : info.payload.size + ridx_header_size ≤ info.immutable_size
  pub mutable_fills : info.immutable_size + info.mutable_region.size ≡ info.footer.offset
  pub mutable_placed :
      (info.mutable_region.size ≡ 0) ⊎ (info.mutable_region.offset ≡ info.immutable_size)
  pub mutable_pages : info.mutable_region.size % 4096 ≡ 0
  pub no_prohibited_ids : (info.platform_id ≢ 0xffff) × (info.launch_format_id ≢ 0xffff)
  pub known_hash : info.immutable_hash_algorithm ≤ 1

-- What `place_mutable` settles, and what it leaves alone.
record Placed (info placed : Info) : Type 0 where
  footer_kept : placed.footer ≡ info.footer
  payload_kept : placed.payload ≡ info.payload
  fills : placed.immutable_size + placed.mutable_region.size ≡ info.footer.offset
  placed_at :
      (placed.mutable_region.size ≡ 0) ⊎ (placed.mutable_region.offset ≡ placed.immutable_size)
  pages : placed.mutable_region.size % 4096 ≡ 0

place_mutable-Placed :
    (info placed : Info) (capacity : ℕ)
    → info.mutable_region ≡ no_region
    → place_mutable info capacity ≡ ok placed
    → Placed info placed
unfolding place_mutable
place_mutable-Placed info placed capacity clear h = ground arith

-- The facts that `check_fields` establishes.
check_fields-facts :
    (info : Info)
    → check_fields info ≡ ok tt
    → (info.payload.size + ridx_header_size ≤ info.immutable_size)
      × (info.platform_id ≢ 0xffff)
      × (info.launch_format_id ≢ 0xffff)
      × (info.immutable_hash_algorithm ≤ 1)
unfolding check_fields
check_fields-facts info h = ground arith

-- The size checks before the mutable region is placed.
abbrev payload_unfit : Info → Bool
payload_unfit fields =
    fields.payload.size == 0
    || ltb fields.footer.offset fields.payload.size
    || ltb (fields.footer.offset - fields.payload.size) ridx_header_size

layout :
    (file_size : ℕ) (fields placed : Info)
    → fields.footer.offset + footer_size ≡ file_size
    → fields.payload.offset ≡ 0
    → payload_unfit fields ≡ false
    → Placed fields placed
    → check_fields placed ≡ ok tt
    → FooterLayout file_size
        (record placed { payload_index = record { offset = placed.payload.size; size = 0 } })
layout file_size fields placed ends start fit q checked =
    let facts = check_fields-facts placed checked in
    let footer_kept = ap (λ (r : RegionInfo). r.offset) q.footer_kept in
    let start_kept = ap (λ (r : RegionInfo). r.offset) q.payload_kept in
    let size_kept = ap (λ (r : RegionInfo). r.size) q.payload_kept in
    let nonempty : 0 < fields.payload.size = ground arith in
    record {
      footer_ends_file = omega arith;
      payload_start = start_kept ∙ start;
      payload_nonempty = omega arith;
      index_follows = refl;
      header_fits = facts.0;
      mutable_fills = q.fills ∙ sym footer_kept;
      mutable_placed = q.placed_at;
      mutable_pages = q.pages;
      no_prohibited_ids = (facts.1, facts.2);
      known_hash = facts.3;
    }

-- An accepted footer describes a layout that fits the file: the footer ends the file, the payload
-- starts it and is not empty, the RIDX header fits behind it, the mutable region fills whole pages
-- up to the footer, neither identifier is the prohibited 0xffff, and the hash algorithm is 0 or 1.
pub parse_footer-FooterLayout :
    (footer : Bytes) (file_size : ℕ) {info : Info}
    → parse_footer footer file_size ≡ ok info
    → FooterLayout file_size info
unfolding parse_footer
parse_footer-FooterLayout footer file_size {info} h =
    let fields = footer_fields footer file_size in
    let (_, big, h1) = >>=-eq-ok (refuse_if (ltb file_size footer_size) truncated file_size) _ h in
    let (_, sealed, h2) = >>=-eq-ok (check_seal footer (file_size - footer_size)) _ h1 in
    let (_, sized, h3) =
      >>=-eq-ok (refuse_if (payload_unfit fields) range (fields.footer.offset + 0x08)) _ h2 in
    let (placed, p, h4) = >>=-eq-ok (place_mutable fields (read_le64 footer 0x20)) _ h3 in
    let (_, checked, last) = >>=-eq-ok (check_fields placed) _ h4 in
    let fits = refuse_if-eq-ok (ltb file_size footer_size) truncated file_size big in
    subst (FooterLayout file_size) (ok-injective last) (
      layout file_size fields placed (ground arith) refl
        (refuse_if-eq-ok (payload_unfit fields) range _ sized)
        (place_mutable-Placed fields placed (read_le64 footer 0x20) refl p) checked)
