-- ===== src/Ridx/Entries/Accepted.antt =====
-- What the entry loop guarantees of the entries that it accepts.
use libromx.Prelude.{
  ℕ, zero, suc, ◌+◌, ◌-◌, ◌*◌, ◌≤◌, ◌<◌, ◌≡◌, refl, sym, ap, ◌∙◌, ◌≢◌, inl, inr, Bool, true, false,
  not, ◌&&◌, ◌||◌, some, List, [], ◌∷◌, ◌++◌, append_assoc, append-nil, arith, ltb, ◌==◌,
  if◌then◌else◌, Bool-cases, length, get_elem?, All, length-append, All-append, get_elem?-append,
  get_elem?-concat,
}
use mathlib.Core.Path.{subst}
use libromx.Bytes.{Bytes, slice}
use libromx.Outcome.{
  index_error, range, virtual_path, ok, refuse_if, refuse_if-eq-ok, ok-injective, >>=-eq-ok,
}
use libromx.Path.{path_is_valid, ascii_fold_equal}
use libromx.Types.{EntryInfo, add64}
use libromx.Ridx.Header.{header_size, entry_size, IndexBytes}
use libromx.Ridx.Entries.{
  is_entrypoint, has_crc32, entry_fields, bad_stored, check_kind, check_entry, collides, Range,
  range_of, Loaded, add_entry, load_entry, entries_loop, check_single, nothing_loaded, load_entries,
}

-- An entry that a frontend can rely on.
pub record IsEntry (payload_size : ℕ) (entry : EntryInfo) : Type 0 where
  pub in_payload : entry.data_offset + entry.data_size ≤ payload_size
  pub named : path_is_valid entry.path ≡ true
  pub checksum_flagged : has_crc32 entry ≡ false → entry.crc32 ≡ 0
  pub typed : entry.format_id ≢ 0xffff
  pub leads :
      is_entrypoint entry ≡ true
      → (entry.data_offset ≡ 0) × (0 < entry.data_size) × (entry.format_id ≢ 0)

-- Each entry's path differs from the paths of the entries behind it, also by case.
abbrev pub Distinct : List EntryInfo → Type 0
Distinct [] = Unit
Distinct (e ∷ entries) =
    All (λ (o : EntryInfo). ascii_fold_equal o.path e.path ≡ false) entries × Distinct entries

abbrev pub ranges_of : List EntryInfo → List Range
ranges_of [] = []
ranges_of (e ∷ entries) = range_of e ++ ranges_of entries

abbrev pub count_entrypoints : List EntryInfo → ℕ
count_entrypoints [] = 0
count_entrypoints (e ∷ entries) = (if is_entrypoint e then 1 else 0) + count_entrypoints entries

check_kind-facts :
    (base : ℕ) (entry : EntryInfo)
    → check_kind base entry ≡ ok tt
    → (entry.format_id ≢ 0xffff)
      × (is_entrypoint entry ≡ true
          → (entry.data_offset ≡ 0) × (0 < entry.data_size) × (entry.format_id ≢ 0))
unfolding check_kind
check_kind-facts base entry h = ground arith

bad_stored-path :
    (position : ℕ) (stored : Bytes)
    → bad_stored stored ≡ false
    → path_is_valid (entry_fields position stored).path ≡ true
unfolding bad_stored entry_fields
bad_stored-path position stored h = ground arith

check_entry-IsEntry :
    (payload_size base position : ℕ) (stored : Bytes)
    → check_entry payload_size base stored (entry_fields position stored) ≡ ok tt
    → IsEntry payload_size (entry_fields position stored)
unfolding check_entry
check_entry-IsEntry payload_size base position stored h =
    let entry = entry_fields position stored in
    let (_, stored_ok, h1) = >>=-eq-ok (refuse_if (bad_stored stored) virtual_path base) _ h in
    let (_, crc_ok, h2) =
      >>=-eq-ok
        (refuse_if (not (has_crc32 entry) && not (entry.crc32 == 0)) index_error (add64 base 0x18))
        _ h1 in
    let (_, range_ok, kind_ok) =
      >>=-eq-ok
        (refuse_if
          (ltb payload_size entry.data_offset
            || ltb (payload_size - entry.data_offset) entry.data_size)
          range (add64 base 0x08))
        _ h2 in
    let crc =
      refuse_if-eq-ok (not (has_crc32 entry) && not (entry.crc32 == 0)) index_error
        (add64 base 0x18) crc_ok in
    let inside =
      refuse_if-eq-ok
        (ltb payload_size entry.data_offset
          || ltb (payload_size - entry.data_offset) entry.data_size)
        range (add64 base 0x08) range_ok in
    let (typed, leads) = check_kind-facts base entry kind_ok in
    record {
      in_payload = in_payload_of payload_size entry.data_offset entry.data_size inside;
      named =
          bad_stored-path position stored
            (refuse_if-eq-ok (bad_stored stored) virtual_path base stored_ok);
      checksum_flagged = flagged_of (has_crc32 entry) entry.crc32 crc;
      typed = typed;
      leads = leads;
    }
  where
    in_payload_of :
        (payload_size offset size : ℕ)
        → (ltb payload_size offset || ltb (payload_size - offset) size) ≡ false
        → offset + size ≤ payload_size
    in_payload_of payload_size offset size h = ground arith

    flagged_of :
        (has : Bool) (crc : ℕ) → (not has && not (crc == 0)) ≡ false → has ≡ false → crc ≡ 0
    flagged_of has crc h k = ground arith

ranges_of-concat :
    (es : List EntryInfo) (e : EntryInfo) → ranges_of (es ++ (e ∷ [])) ≡ ranges_of es ++ range_of e
ranges_of-concat [] e = append-nil (range_of e)
ranges_of-concat (x ∷ es) e =
    ap (λ (t : List Range). range_of x ++ t) (ranges_of-concat es e)
    ∙ sym (append_assoc (range_of x) (ranges_of es) (range_of e))

count_entrypoints-concat :
    (es : List EntryInfo) (e : EntryInfo)
    → count_entrypoints (es ++ (e ∷ [])) ≡ count_entrypoints es + (if is_entrypoint e then 1 else 0)
count_entrypoints-concat [] e = omega arith
count_entrypoints-concat (x ∷ es) e = omega (arith, count_entrypoints-concat es e)

Distinct-concat :
    (es : List EntryInfo) (e : EntryInfo)
    → Distinct es
    → collides e.path es ≡ false
    → Distinct (es ++ (e ∷ []))
unfolding collides
Distinct-concat [] e d h = (tt, tt)
Distinct-concat (x ∷ es) e (dx, d) h = (
  All-append (λ (o : EntryInfo). ascii_fold_equal o.path x.path ≡ false) es (e ∷ []) dx
      (ground arith, tt),
  Distinct-concat es e d (ground arith),
)

-- What holds of the gathered entries after `position` rounds.
pub record IsLoaded (payload_size index_size position : ℕ) (loaded : Loaded) : Type 0 where
  pub count : length loaded.entries ≡ position
  pub entries_ok : All (IsEntry payload_size) loaded.entries
  pub distinct : Distinct loaded.entries
  pub ranges_gathered : loaded.ranges ≡ ranges_of loaded.entries
  pub counted : loaded.entrypoint_count ≡ count_entrypoints loaded.entries
  pub size_kept : loaded.index_size ≡ index_size
  pub pointed :
      0 < loaded.entrypoint_count
      → (e : EntryInfo) × (get_elem? loaded.entries loaded.entrypoint_index ≡ some e)
        × (is_entrypoint e ≡ true)

pointed-add :
    (position : ℕ) (loaded : Loaded) (entry : EntryInfo)
    → length loaded.entries ≡ position
    → entry.index ≡ position
    → (0 < loaded.entrypoint_count
        → (e : EntryInfo) × (get_elem? loaded.entries loaded.entrypoint_index ≡ some e)
          × (is_entrypoint e ≡ true))
    → 0 < (add_entry entry loaded).entrypoint_count
    → (e : EntryInfo) × (get_elem?
          (loaded.entries ++ (entry ∷ []))
          (add_entry entry loaded).entrypoint_index
        ≡ some e)
      × (is_entrypoint e ≡ true)
unfolding add_entry
pointed-add position loaded entry n i old h = elim (Bool-cases (is_entrypoint entry)) [
  | inl marked ↦ rw marked (
    entry,
    subst (λ k. get_elem? (loaded.entries ++ (entry ∷ [])) k ≡ some entry) (n ∙ sym i)
        (get_elem?-concat loaded.entries entry),
    marked,
  )
  | inr plain ↦
      let (e, at, m) = old (rw plain at h) in
      rw plain (e, get_elem?-append loaded.entries (entry ∷ []) loaded.entrypoint_index at, m)
]

add_entry-IsLoaded :
    (payload_size index_size position : ℕ) (loaded : Loaded) (entry : EntryInfo)
    → IsLoaded payload_size index_size position loaded
    → IsEntry payload_size entry
    → entry.index ≡ position
    → collides entry.path loaded.entries ≡ false
    → IsLoaded payload_size index_size (position + 1) (add_entry entry loaded)
add_entry-IsLoaded payload_size index_size position loaded entry inv good i apart =
    unfold add_entry in
    record {
      count = length-append loaded.entries (entry ∷ []) ∙ omega (arith, inv.count);
      entries_ok =
          All-append (IsEntry payload_size) loaded.entries (entry ∷ []) inv.entries_ok (good, tt);
      distinct = Distinct-concat loaded.entries entry inv.distinct apart;
      ranges_gathered =
          ap (λ (t : List Range). t ++ range_of entry) inv.ranges_gathered
          ∙ sym (ranges_of-concat loaded.entries entry);
      counted = ground (arith, inv.counted, count_entrypoints-concat loaded.entries entry);
      size_kept = inv.size_kept;
      pointed = λ h. pointed-add position loaded entry inv.count i inv.pointed h;
    }

load_entry-IsLoaded :
    (payload_size index_size position : ℕ) (bytes : Bytes) (loaded : Loaded) {next : Loaded}
    → IsLoaded payload_size index_size position loaded
    → load_entry payload_size position bytes loaded ≡ ok next
    → IsLoaded payload_size index_size (position + 1) next
unfolding load_entry
load_entry-IsLoaded payload_size index_size position bytes loaded {next} inv h =
    let base = add64 payload_size (header_size + position * entry_size) in
    let stored = slice (header_size + position * entry_size) entry_size bytes in
    let entry = entry_fields position stored in
    let (_, checked, h1) = >>=-eq-ok (check_entry payload_size base stored entry) _ h in
    let (_, apart, last) =
      >>=-eq-ok (refuse_if (collides entry.path loaded.entries) virtual_path (add64 base 0x20)) _
        h1 in
    subst (IsLoaded payload_size index_size (position + 1)) (ok-injective last) (
      add_entry-IsLoaded payload_size index_size position loaded entry inv
        (check_entry-IsEntry payload_size base position stored checked)
        (unfold entry_fields in refl)
        (refuse_if-eq-ok (collides entry.path loaded.entries) virtual_path (add64 base 0x20) apart))

entries_loop-IsLoaded :
    (left payload_size index_size position : ℕ) (bytes : Bytes) (loaded : Loaded) {final : Loaded}
    → IsLoaded payload_size index_size position loaded
    → entries_loop left payload_size position bytes loaded ≡ ok final
    → IsLoaded payload_size index_size (position + left) final
unfolding entries_loop
entries_loop-IsLoaded zero payload_size index_size position bytes loaded {final} inv h =
    let e : position ≡ position + 0 = omega arith in
    subst (IsLoaded payload_size index_size (position + 0)) (ok-injective h)
      (subst (λ n. IsLoaded payload_size index_size n loaded) e inv)
entries_loop-IsLoaded (suc left) payload_size index_size position bytes loaded {final} inv h =
    let (next, one, rest) = >>=-eq-ok (load_entry payload_size position bytes loaded) _ h in
    let e : position + 1 + left ≡ position + suc left = omega arith in
    subst (λ n. IsLoaded payload_size index_size n final) e
      (entries_loop-IsLoaded left payload_size index_size (position + 1) bytes next
        (load_entry-IsLoaded payload_size index_size position bytes loaded inv one) rest)

nothing-IsLoaded :
    (payload_size : ℕ) (index : IndexBytes)
    → IsLoaded payload_size index.index_size 0 (nothing_loaded index)
nothing-IsLoaded payload_size index = record {
  count = refl;
  entries_ok = tt;
  distinct = tt;
  ranges_gathered = refl;
  counted = refl;
  size_kept = refl;
  pointed = λ h. absurd (omega arith);
}

-- The entries that the loader returns are as many as the header says, each is sound, their names
-- differ, exactly one of them is the entrypoint, and the reader's index leads to it.
pub load_entries-IsLoaded :
    (payload_size : ℕ) (index : IndexBytes) {loaded : Loaded}
    → load_entries payload_size index ≡ ok loaded
    → IsLoaded payload_size index.index_size index.entry_count loaded
      × (count_entrypoints loaded.entries ≡ 1)
unfolding load_entries
load_entries-IsLoaded payload_size index {loaded} h =
    let (gathered, looped, h1) =
      >>=-eq-ok (entries_loop index.entry_count payload_size 0 index.bytes (nothing_loaded index)) _
        h in
    let (_, one, h2) =
      >>=-eq-ok (refuse_if (not (gathered.entrypoint_count == 1)) index_error payload_size) _ h1 in
    let (_, _, last) = >>=-eq-ok (check_single payload_size gathered.entries) _ h2 in
    let e : 0 + index.entry_count ≡ index.entry_count = omega arith in
    let inv =
      subst (λ n. IsLoaded payload_size index.index_size n gathered) e
        (entries_loop-IsLoaded index.entry_count payload_size index.index_size 0 index.bytes
          (nothing_loaded index) (nothing-IsLoaded payload_size index) looped) in
    let single =
      refuse_if-eq-ok (not (gathered.entrypoint_count == 1)) index_error payload_size one in
    let counted : gathered.entrypoint_count ≡ 1 = ground arith in
    subst
      (λ (l : Loaded).
        IsLoaded payload_size index.index_size index.entry_count l
        × (count_entrypoints l.entries ≡ 1))
      (ok-injective last) (inv, sym inv.counted ∙ counted)
