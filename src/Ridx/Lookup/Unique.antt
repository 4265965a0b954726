-- ===== src/Ridx/Lookup/Unique.antt =====
-- What a look-up by path gives on a reader that is open, and what a read of an entry gives.
use libromx.Prelude.{
  ℕ, zero, suc, ◌+◌, ◌-◌, ◌≤◌, ◌<◌, min, ◌≡◌, refl, ap, ◌∙◌, inl, inr, true, false, not, Option,
  none, some, List, [], ◌∷◌, arith, ltb, if◌then◌else◌, Bool-cases, length, get_elem?, take, All,
  take-all, All-get_elem?,
}
use mathlib.Core.Path.{subst}
use libromx.Bytes.{Bytes, slice, bytes_equal}
use libromx.Outcome.{
  Code, invalid_argument, entry_not_found, range, Outcome, ok, fail, error_set, refuse_if,
  offset_unknown, >>=-eq-ok, ok-injective,
}
use libromx.Region.Streaming.{Serves}
use libromx.Region.Reads.{read_window-Serves}
use libromx.Ridx.Lookup.{
  entry_at, element_or, get_entry, find_index, found_entry, find_entry, read_entry,
}
use libromx.Path.{ascii_fold_equal}
use libromx.Ridx.Entries.Accepted.{Distinct}
use libromx.Types.{EntryInfo, Reader}

-- Where an entry with the path stands, or that there is none.
abbrev pub IsFirst : Bytes → List EntryInfo → ℕ → Option ℕ → Type 0
IsFirst path entries index (some i) =
    (index ≤ i)
    × ((e : EntryInfo) × (get_elem? entries (i - index) ≡ some e)
        × (bytes_equal e.path path ≡ true))
    × All (λ (o : EntryInfo). bytes_equal o.path path ≡ false) (take (i - index) entries)
IsFirst path entries index none = All (λ (o : EntryInfo). bytes_equal o.path path ≡ false) entries

IsFirst-suc :
    (path : Bytes) (entry : EntryInfo) (entries : List EntryInfo) (index : ℕ) (r : Option ℕ)
    → bytes_equal entry.path path ≡ false
    → IsFirst path entries (index + 1) r
    → IsFirst path (entry ∷ entries) index r
IsFirst-suc path entry entries index none differs h = (differs, h)
IsFirst-suc path entry entries index (some i) differs (le, (e, at, eq), before) =
    let step : i - index ≡ suc (i - (index + 1)) = omega (arith, le) in
    (omega (arith, le), rw step (e, at, eq), rw step (differs, before))

find_index-IsFirst :
    (path : Bytes) (entries : List EntryInfo) (index : ℕ)
    → IsFirst path entries index (find_index path entries index)
unfolding find_index
find_index-IsFirst path [] index = tt
find_index-IsFirst path (entry ∷ entries) index = elim (Bool-cases (bytes_equal entry.path path)) [
  | inl same ↦
      let e : index - index ≡ 0 = omega arith in rw (same, e) (omega arith, (entry, refl, same), tt)
  | inr differs ↦ rw differs (
      IsFirst-suc path entry entries index (find_index path entries (index + 1)) differs
        (find_index-IsFirst path entries (index + 1)))
]

-- What a look-up answers: the first entry with the path, or that no entry has it.
abbrev pub Finds : Reader → Bytes → Outcome EntryInfo → Type 0
Finds reader path (ok e) =
    (i : ℕ) × (get_elem? reader.entries i ≡ some e)
    × (bytes_equal e.path path ≡ true)
    × All (λ (o : EntryInfo). bytes_equal o.path path ≡ false) (take i reader.entries)
Finds reader path (fail e) =
    (e ≡ record { code = entry_not_found; byte_offset = offset_unknown })
    × All (λ (o : EntryInfo). bytes_equal o.path path ≡ false) reader.entries

get_elem?-lt :
    (entries : List EntryInfo) (i : ℕ) {e : EntryInfo}
    → get_elem? entries i ≡ some e
    → i < length entries
get_elem?-lt [] i h = cc
get_elem?-lt (x ∷ entries) zero h = omega arith
get_elem?-lt (x ∷ entries) (suc i) h = omega (arith, get_elem?-lt entries i h)

pub get_entry-get_elem? :
    (code : Code) (reader : Reader) (i : ℕ) {e : EntryInfo}
    → reader.info.entry_count ≡ length reader.entries
    → get_elem? reader.entries i ≡ some e
    → entry_at code reader i ≡ ok e
unfolding entry_at
get_entry-get_elem? code reader i {e} count at =
    let inside : ltb i reader.info.entry_count ≡ true =
      ground (arith, count, get_elem?-lt reader.entries i at) in
    rw (inside, at) refl

found_entry-Finds :
    (reader : Reader) (path : Bytes) (r : Option ℕ)
    → reader.info.entry_count ≡ length reader.entries
    → IsFirst path reader.entries 0 r
    → Finds reader path (found_entry reader r)
found_entry-Finds reader path none count h = (refl, h)
found_entry-Finds reader path (some i) count (le, (e, at, same), before) =
    let zero_off : i - 0 ≡ i = omega arith in
    let at' = subst (λ (n : ℕ). get_elem? reader.entries n ≡ some e) zero_off at in
    rw (get_entry-get_elem? range reader i count at') (
      i,
      at',
      same,
      subst
          (λ (n : ℕ).
            All (λ (o : EntryInfo). bytes_equal o.path path ≡ false) (take n reader.entries))
          zero_off before,
    )

-- A look-up by path gives the first entry that has exactly that path, and fails with entry_not_found
-- exactly when there is none. The entry count is the number of entries.
pub find_entry-Finds :
    (reader : Reader) (path : Bytes)
    → reader.info.entry_count ≡ length reader.entries
    → Finds reader path (find_entry reader path)
unfolding find_entry
find_entry-Finds reader path count =
    let all : take reader.info.entry_count reader.entries ≡ reader.entries =
      take-all reader.info.entry_count reader.entries (omega (arith, count)) in
    rw all (
      found_entry-Finds reader path (find_index path reader.entries 0) count
        (find_index-IsFirst path reader.entries 0))

bytes_equal_refl : (xs : Bytes) → bytes_equal xs xs ≡ true
unfolding bytes_equal
bytes_equal_refl [] = refl
bytes_equal_refl (x ∷ xs) = ground (arith, bytes_equal_refl xs)

bytes_equal-ascii_fold_equal :
    (xs ys : Bytes) → bytes_equal xs ys ≡ true → ascii_fold_equal ys xs ≡ true
unfolding bytes_equal ascii_fold_equal
bytes_equal-ascii_fold_equal [] [] h = refl
bytes_equal-ascii_fold_equal [] (y ∷ ys) h = cc
bytes_equal-ascii_fold_equal (x ∷ xs) [] h = cc
bytes_equal-ascii_fold_equal (x ∷ xs) (y ∷ ys) h =
    let same : x ≡ y = ground (arith, h) in
    let rest = bytes_equal-ascii_fold_equal xs ys (ground (arith, h)) in ground (arith, same, rest)

find_index-Distinct :
    (entries : List EntryInfo) (i index : ℕ) {e : EntryInfo}
    → Distinct entries
    → get_elem? entries i ≡ some e
    → find_index e.path entries index ≡ some (index + i)
unfolding find_index
find_index-Distinct [] i index d h = cc
find_index-Distinct (x ∷ entries) zero index {e} d h =
    let p : x ≡ e = cc in
    let same : bytes_equal x.path e.path ≡ true =
      subst (λ (o : EntryInfo). bytes_equal x.path o.path ≡ true) p (bytes_equal_refl x.path) in
    let n : index ≡ index + 0 = omega arith in rw same (ap some n)
find_index-Distinct (x ∷ entries) (suc i) index {e} (dx, d) h =
    let n : index + 1 + i ≡ index + suc i = omega arith in
    let apart : ascii_fold_equal e.path x.path ≡ false =
      All-get_elem? (λ (o : EntryInfo). ascii_fold_equal o.path x.path ≡ false) entries i dx h in
    let differs : bytes_equal x.path e.path ≡ false =
      elim (Bool-cases (bytes_equal x.path e.path)) [
        | inl same ↦ (let equal = bytes_equal-ascii_fold_equal x.path e.path same in cc)
        | inr other ↦ other
      ] in
    rw differs (find_index-Distinct entries i (index + 1) d h ∙ ap some n)

element_or-ok :
    (code : Code) (o : Option EntryInfo) {e : EntryInfo} → element_or code o ≡ ok e → o ≡ some e
element_or-ok code (some x) h = ap some (ok-injective h)
element_or-ok code none h = cc

pub entry_at-get_elem? :
    (code : Code) (reader : Reader) (i : ℕ) {e : EntryInfo}
    → entry_at code reader i ≡ ok e
    → get_elem? reader.entries i ≡ some e
unfolding entry_at
entry_at-get_elem? code reader i h =
    let (_, _, last) =
      >>=-eq-ok (refuse_if (not (ltb i reader.info.entry_count)) code offset_unknown) _ h in
    element_or-ok code (get_elem? reader.entries i) last

-- On a reader whose paths are distinct and whose entry count is the number of entries, the path of the
-- entry at an index finds that entry.
pub find_entry-get_entry :
    (reader : Reader) (i : ℕ) {e : EntryInfo}
    → reader.info.entry_count ≡ length reader.entries
    → Distinct reader.entries
    → get_entry reader i ≡ ok e
    → find_entry reader e.path ≡ ok e
unfolding find_entry
find_entry-get_entry reader i {e} count distinct h =
    let at = entry_at-get_elem? range reader i h in
    let all : take reader.info.entry_count reader.entries ≡ reader.entries =
      take-all reader.info.entry_count reader.entries (omega (arith, count)) in
    let n : 0 + i ≡ i = omega arith in
    rw (all, find_index-Distinct reader.entries i 0 distinct at, n) h

-- A read of an entry whose data lies in the served file gives the bytes of the file, from the entry's
-- start and never past its end; a start behind the end is a range error.
pub read_entry-Serves :
    (reader : Reader) (index offset size : ℕ) (file : Bytes) {e : EntryInfo}
    → entry_at invalid_argument reader index ≡ ok e
    → Serves reader.io file
    → e.data_offset + e.data_size ≤ length file
    → read_entry reader index offset size ≡ (
        if ltb e.data_size offset
        then error_set range offset
        else ok (slice (e.data_offset + offset) (min (e.data_size - offset) size) file))
unfolding read_entry
read_entry-Serves reader index offset size file {e} found serves inside =
    rw found (elim (Bool-cases (ltb e.data_size offset)) [
      | inl past ↦ rw past refl
      | inr within ↦ rw within (
          read_window-Serves {io = reader.io} {file = file} e.data_offset e.data_size offset size
            serves inside (ground arith))
    ])
