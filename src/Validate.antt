-- ===== src/Validate.antt =====
-- src/validate.c: the checks on request. Those of metadata and cover, which stand on this file's report,
-- are arguments here and filled in by Validate/Sections. Null pointers, failed allocation and report
-- structures that are too small are left out.
pub mod Checks
pub mod Sections
use libromx.Prelude.{
  ℕ, zero, suc, ◌+◌, ◌-◌, ◌*◌, ◌/◌, ◌%◌, ◌^◌, ◌≤◌, ◌<◌, min, bit_and, bit_or, bit_xor, ◌≡◌, refl,
  sym, ap, ◌∙◌, ◌≢◌, ◌↔◌, ◌⊎◌, inl, inr, Bool, true, false, not, ◌&&◌, ◌||◌, Option, none, some,
  List, [], ◌∷◌, ◌++◌, map, append_assoc, append-nil, arith, ltb, leb, ◌==◌, if◌then◌else◌, ltb→lt,
  lt→ltb, ==_iff, Bool-cases, Option-cases, length, get_or, get_elem?, set, take, drop, replicate,
  All, length-append, length-set, take-append-drop, length-take, length-drop, length-replicate,
  take-all, take-append, drop-append, drop-drop, take-append-take, All-append, All-take, All-drop,
  All-get_or, get_elem?-append, get_elem?-concat, All-map, All-get_elem?,
}
use libromx.Bytes.{Bytes, bytes_equal}
use libromx.Crc32.{crc32_begin, crc32_update, crc32_finish}
use libromx.Outcome.{
  Code, invalid_argument, immutable_hash, entry_crc, Outcome, ok, fail, error_set, refuse_if,
  offset_unknown, ◌>>=◌, ◌>>◌,
}
use libromx.Region.{hash_region}
use libromx.Ridx.Entries.{has_crc32}
use libromx.Ridx.Lookup.{read_entry}
use libromx.Types.{EntryInfo, Info, Io, Reader, RegionInfo}

-- romx_validation_status_t
pub data Status : Type 0 where
  not_checked good bad missing : Status

-- romx_validation_report_t
pub record Report : Type 0 where
  pub payload_hashes : Status
  pub computed_payload_sha256 : Bytes
  pub computed_payload_crc32 : ℕ
  pub immutable_sha256 : Status
  pub computed_immutable_sha256 : Bytes
  pub entry_crc32 : Status
  pub metadata : Status
  pub metadata_result : Outcome (Unit {0})
  pub cover : Status
  pub cover_hashes : Status
  pub cover_result : Outcome (Unit {0})
  pub computed_cover_sha256 : Bytes
  pub cover_width : ℕ
  pub cover_height : ℕ

abbrev pub new_report : Report
new_report = record {
  payload_hashes = not_checked;
  computed_payload_sha256 = replicate 32 0;
  computed_payload_crc32 = 0;
  immutable_sha256 = not_checked;
  computed_immutable_sha256 = replicate 32 0;
  entry_crc32 = not_checked;
  metadata = not_checked;
  metadata_result = ok tt;
  cover = not_checked;
  cover_hashes = not_checked;
  cover_result = ok tt;
  computed_cover_sha256 = replicate 32 0;
  cover_width = 0;
  cover_height = 0;
}

-- ROMX_VALIDATE_PAYLOAD_HASHES, ROMX_VALIDATE_IMMUTABLE_SHA256, ROMX_VALIDATE_METADATA,
-- ROMX_VALIDATE_COVER and ROMX_VALIDATE_ENTRY_CRC32 are the bits 1, 2, 4, 8 and 16.
abbrev pub asked : ℕ → ℕ → Bool
asked flags bit = not (bit_and flags bit == 0)

unfoldable pub validate_payload : Reader → Report → Outcome Report
validate_payload reader report = hash_region reader reader.info.payload >>= λ (sha, crc).
    ok (record report {
      payload_hashes = good;
      computed_payload_sha256 = sha;
      computed_payload_crc32 = crc;
    })

abbrev pub compare_immutable : Info → Report → Bytes → Report
compare_immutable info report sha = record report {
  computed_immutable_sha256 = sha;
  immutable_sha256 = (if bytes_equal sha info.immutable_sha256 then good else bad);
}

-- ROMX_IMMUTABLE_HASH_NONE is 0.
unfoldable pub validate_immutable : Reader → Report → Outcome Report
validate_immutable reader report =
    let hashed =
      hash_region reader (record { offset = 0; size = reader.info.immutable_size })
      >>= λ (sha, crc). ok (compare_immutable reader.info report sha) in
    if reader.info.immutable_hash_algorithm == 0
    then ok (record report { immutable_sha256 = missing })
    else hashed

-- The inner loop over an entry's data. A chunk has a byte at least, so `data_size` rounds are enough.
unfoldable pub entry_crc_loop : ℕ → Reader → ℕ → ℕ → ℕ → ℕ → Outcome ℕ
entry_crc_loop zero reader index size position crc = ok crc
entry_crc_loop (suc fuel) reader index size position crc =
    let count = min (size - position) reader.io_chunk_size in
    let rest = read_entry reader index position count >>= λ bytes.
    entry_crc_loop fuel reader index size (position + length bytes) (crc32_update crc bytes) in
    if ltb position size then rest else ok crc

unfoldable pub check_entry_crc : Reader → ℕ → EntryInfo → Outcome (Unit {0})
check_entry_crc reader index entry = do
  crc ← entry_crc_loop entry.data_size reader index entry.data_size 0 crc32_begin
  refuse_if (not (crc32_finish crc == entry.crc32)) entry_crc entry.data_offset

-- The outer loop, over the entries from `index` on; the answer is `checked`.
unfoldable pub entries_crc_loop : Reader → ℕ → List EntryInfo → Bool → Outcome Bool
entries_crc_loop reader index [] checked = ok checked
entries_crc_loop reader index (entry ∷ entries) checked =
    let skipped = entries_crc_loop reader (index + 1) entries checked in
    let passed =
      check_entry_crc reader index entry >> entries_crc_loop reader (index + 1) entries true in
    if not (has_crc32 entry) then skipped else passed

-- A failing call leaves a report behind, which is not modelled.
unfoldable pub validate_entries : Reader → Report → Outcome Report
validate_entries reader report = do
  checked ← entries_crc_loop reader 0 (take reader.info.entry_count reader.entries) false
  ok (record report { entry_crc32 = (if checked then good else missing) })

abbrev pub when : Bool → (Report → Outcome Report) → Report → Outcome Report
when true check report = check report
when false check report = ok report

abbrev pub is_bad : Status → Bool
is_bad bad = true
is_bad _ = false

-- `check_metadata` and `check_cover` are the parts for those two flags, which Validate/Sections fills in.
unfoldable pub reader_validate :
    (Reader → Report → Outcome Report)
    → (Reader → Report → Outcome Report)
    → Reader
    → ℕ
    → Outcome Report
reader_validate check_metadata check_cover reader flags = do
  refuse_if (not (bit_and flags 0xffffffe0 == 0)) invalid_argument offset_unknown
  hashed ← when (asked flags 1) (validate_payload reader) new_report
  sealed ← when (asked flags 2) (validate_immutable reader) hashed
  entries ← when (asked flags 16) (validate_entries reader) sealed
  described ← when (asked flags 4) (check_metadata reader) entries
  covered ← when (asked flags 8) (check_cover reader) described
  refuse_if (is_bad covered.immutable_sha256) immutable_hash 0
  ok covered

abbrev pub forget_report : Outcome Report → Outcome (Unit {0})
forget_report (ok report) = ok tt
forget_report (fail e) = fail e

unfoldable pub validate_required_integrity :
    (Reader → Report → Outcome Report)
    → (Reader → Report → Outcome Report)
    → Reader
    → Outcome (Unit {0})
validate_required_integrity check_metadata check_cover reader =
    forget_report (reader_validate check_metadata check_cover reader 2)
