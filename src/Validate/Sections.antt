-- ===== src/Validate/Sections.antt =====
-- src/validate.c: the checks of metadata and cover, which src/metadata.c and src/png.c make, and the whole
-- romx_reader_validate.
use libromx.Prelude.{
  ℕ, ◌≡◌, ◌≢◌, not, ◌==◌, bit_and, refl, sym, ◌∙◌, ap, inl, inr, Bool, true, false, if◌then◌else◌,
  Bool-cases,
}
use mathlib.Core.Path.{subst}
use libromx.Bytes.{Bytes}
use libromx.Region.{hash_region}
use libromx.Outcome.{
  Code, metadata_absent, metadata_too_large, metadata_utf8, metadata_json, metadata_schema,
  cover_absent, cover_too_large, cover_png, invalid_argument, immutable_hash, Outcome, ok, fail,
  refuse_if, Outcome-cases, ok-injective, >>=-eq-ok, offset_unknown,
}
use libromx.Types.{Reader}
use libromx.Json.Strings.{Document}
use libromx.Metadata.{metadata_open, metadata_status, validate_metadata}
use libromx.Png.{
  CoverReport, Walk, refused_cover, stored_sizes, first_fields, hash_cover, validate_png,
  validate_cover,
}
use libromx.Png.Image.{IsImage}
use libromx.Png.Accepted.{validate_png-IsImage}
use libromx.Validate.{
  Status, good, Report, new_report, asked, when, is_bad, validate_payload, validate_immutable,
  validate_entries, reader_validate,
}

-- The results that do not end the call but are reported.
abbrev is_metadata_code : Code → Bool
is_metadata_code metadata_absent = true
is_metadata_code metadata_too_large = true
is_metadata_code metadata_utf8 = true
is_metadata_code metadata_json = true
is_metadata_code metadata_schema = true
is_metadata_code _ = false

abbrev is_cover_code : Code → Bool
is_cover_code cover_absent = true
is_cover_code cover_too_large = true
is_cover_code cover_png = true
is_cover_code _ = false

abbrev stop_unless : (Code → Bool) → Outcome (Unit {0}) → Report → Outcome Report
stop_unless listed (ok _) report = ok report
stop_unless listed (fail failure) report = if listed failure.code then ok report else fail failure

-- What romx_validate_cover_internal and the caller store in the report.
abbrev tell_cover : Report → CoverReport → Outcome (Unit {0}) → Report
tell_cover report section result = record report {
  cover = section.cover;
  cover_hashes = section.cover_hashes;
  cover_result = result;
  computed_cover_sha256 = section.computed_cover_sha256;
  cover_width = section.cover_width;
  cover_height = section.cover_height;
}

abbrev tell_metadata : Report → Status → Outcome (Unit {0}) → Report
tell_metadata report status result = record report { metadata = status; metadata_result = result }

unfoldable pub check_cover : Reader → Report → Outcome Report
check_cover reader report =
    let (section, result) = validate_cover reader in
    stop_unless is_cover_code result (tell_cover report section result)

module _ (realloc malloc : ℕ → Bool) where
  unfoldable pub check_metadata : Reader → Report → Outcome Report
  check_metadata reader report =
      let (status, result) = validate_metadata realloc malloc reader in
      stop_unless is_metadata_code result (tell_metadata report status result)

  unfoldable pub validate_reader : Reader → ℕ → Outcome Report
  unfolding check_metadata check_cover
  validate_reader = reader_validate check_metadata check_cover

stop_unless-eq-ok :
    (listed : Code → Bool) (result : Outcome (Unit {0})) (report : Report) {told : Report}
    → stop_unless listed result report ≡ ok told
    → report ≡ told
stop_unless-eq-ok listed (ok _) report h = ok-injective h
stop_unless-eq-ok listed (fail failure) report h = elim (Bool-cases (listed failure.code)) [
  | inl reported ↦ ok-injective (rw reported at h)
  | inr unlisted ↦ cc
]

metadata_status-≢-good : (code : Code) → metadata_status code ≢ good
metadata_status-≢-good metadata_absent h = cc
metadata_status-≢-good _ h = cc

refused_cover-≢-good :
    (code : Code) (sizes : ℕ × ℕ) → CoverReport.cover (refused_cover code sizes) ≢ good
refused_cover-≢-good cover_absent sizes h = cc
refused_cover-≢-good cover_too_large sizes h = cc
refused_cover-≢-good cover_png sizes h = cc
refused_cover-≢-good _ sizes h = cc

hash_cover-sizes :
    (walk : Walk) (hashed : Outcome (Bytes × ℕ))
    → (CoverReport.cover_width (hash_cover walk hashed).0 ≡ walk.width)
      × (CoverReport.cover_height (hash_cover walk hashed).0 ≡ walk.height)
hash_cover-sizes walk (ok (sha, crc)) = (refl, refl)
hash_cover-sizes walk (fail failure) = (refl, refl)

check_cover-validate_png :
    (reader : Reader) (described : Report) {covered : Report}
    → check_cover reader described ≡ ok covered
    → covered.cover ≡ good
    → (covered.metadata ≡ described.metadata)
      × ((walk : Walk) × (validate_png reader ≡ ok walk)
          × (covered.cover_width ≡ walk.width)
          × (covered.cover_height ≡ walk.height))
unfolding check_cover validate_cover
check_cover-validate_png reader described h shown = elim (Outcome-cases (validate_png reader)) [
  | inl (walk, accepted) ↦
      let told =
        stop_unless-eq-ok is_cover_code (hash_cover walk (hash_region reader reader.info.cover)).1
          (tell_cover described (hash_cover walk (hash_region reader reader.info.cover)).0
            (hash_cover walk (hash_region reader reader.info.cover)).1)
          (rw (check_cover, validate_cover, accepted) at h) in
      let (wide, high) = hash_cover-sizes walk (hash_region reader reader.info.cover) in
      (
        sym (ap (λ (r : Report). r.metadata) told),
        (
          walk,
          accepted,
          sym (ap (λ (r : Report). r.cover_width) told) ∙ wide,
          sym (ap (λ (r : Report). r.cover_height) told) ∙ high,
        ),
      )
  | inr (failure, refused) ↦
      let told =
        stop_unless-eq-ok is_cover_code (fail failure)
          (tell_cover described (refused_cover failure.code (stored_sizes (first_fields reader)))
            (fail failure))
          (rw (check_cover, validate_cover, refused) at h) in
      absurd (
        refused_cover-≢-good failure.code (stored_sizes (first_fields reader))
          (ap (λ (r : Report). r.cover) told ∙ shown))
]

module _ (realloc malloc : ℕ → Bool) where
  check_metadata-document :
      (reader : Reader) (report : Report) {described : Report}
      → check_metadata realloc malloc reader report ≡ ok described
      → described.metadata ≡ good
      → (document : Document) × (metadata_open realloc malloc reader ≡ ok document)
  unfolding check_metadata validate_metadata
  check_metadata-document reader report h opened =
      elim (Outcome-cases (metadata_open realloc malloc reader)) [
        | inl (document, accepted) ↦ (document, accepted)
        | inr (failure, refused) ↦
            let told =
              stop_unless-eq-ok is_metadata_code (fail failure)
                (tell_metadata report (metadata_status failure.code) (fail failure))
                (rw (check_metadata, validate_metadata, refused) at h) in
            absurd
              (metadata_status-≢-good failure.code (ap (λ (r : Report). r.metadata) told ∙ opened))
      ]

  -- The two sections of the call, behind those that hash.
  validate_reader-eq-ok :
      (reader : Reader) (flags : ℕ) {report : Report}
      → validate_reader realloc malloc reader flags ≡ ok report
      → (entries : Report) × (described : Report) × (when
            (asked flags 4)
            (check_metadata realloc malloc reader)
            entries
          ≡ ok described)
        × (when (asked flags 8) (check_cover reader) described ≡ ok report)
  unfolding validate_reader reader_validate
  validate_reader-eq-ok reader flags h =
      let (_, _, a) =
        >>=-eq-ok (refuse_if (not (bit_and flags 0xffffffe0 == 0)) invalid_argument offset_unknown)
          _ h in
      let (hashed, _, b) =
        >>=-eq-ok (when (asked flags 1) (validate_payload reader) new_report) _ a in
      let (sealed, _, c) =
        >>=-eq-ok (when (asked flags 2) (validate_immutable reader) hashed) _ b in
      let (entries, _, d) =
        >>=-eq-ok (when (asked flags 16) (validate_entries reader) sealed) _ c in
      let (described, metadata_told, e) =
        >>=-eq-ok (when (asked flags 4) (check_metadata realloc malloc reader) entries) _ d in
      let (covered, cover_told, f) =
        >>=-eq-ok (when (asked flags 8) (check_cover reader) described) _ e in
      let (_, _, last) =
        >>=-eq-ok (refuse_if (is_bad covered.immutable_sha256) immutable_hash 0) _ f in
      (entries, described, metadata_told, cover_told ∙ ap ok (ok-injective last))

  -- When a check of metadata and cover succeeds and the report calls both valid, the metadata opens as a document, and the cover region holds a PNG image, in the sense of IsImage: its chunks follow one another from the signature to the end of the region, with an IHDR first, which gives the reported sizes, and the IDAT, the IEND and, for the colour type 3, the PLTE that it needs.
  pub validate_reader-IsImage :
      (reader : Reader) (flags : ℕ) {report : Report}
      → asked flags 4 ≡ true
      → asked flags 8 ≡ true
      → validate_reader realloc malloc reader flags ≡ ok report
      → report.metadata ≡ good
      → report.cover ≡ good
      → ((document : Document) × (metadata_open realloc malloc reader ≡ ok document))
        × ((walk : Walk) × (validate_png reader ≡ ok walk)
            × (report.cover_width ≡ walk.width)
            × (report.cover_height ≡ walk.height)
            × IsImage reader walk)
  validate_reader-IsImage reader flags {report} with_metadata with_cover h opened shown =
      let (entries, described, metadata_told, cover_told) = validate_reader-eq-ok reader flags h in
      let (kept, (walk, accepted, wide, high)) =
        check_cover-validate_png reader described
          (subst (λ b. when b (check_cover reader) described ≡ ok report) with_cover cover_told)
          shown in
      (
        check_metadata-document reader entries
            (subst (λ b. when b (check_metadata realloc malloc reader) entries ≡ ok described)
              with_metadata metadata_told)
            (sym kept ∙ opened),
        (walk, accepted, wide, high, validate_png-IsImage reader accepted),
      )
