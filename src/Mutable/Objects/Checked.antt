-- ===== src/Mutable/Objects/Checked.antt =====
-- The objects that the calls of src/mutable.c give out have the data that their checksum stands for.
use libromx.Prelude.{
  ℕ, suc, ◌+◌, ◌-◌, ◌≤◌, ◌<◌, ◌≡◌, refl, sym, ◌⊎◌, inl, inr, true, false, not, some, List, [], ◌∷◌,
  arith, ltb, ◌==◌, Bool-cases, length, get_elem?, take, All,
}
use libromx.Outcome.{
  invalid_argument, mutable_entry, mutable_data_crc, Outcome, ok, error_set, refuse_if,
  ok-injective, >>=-eq-ok, fail-≢-ok, offset_unknown,
}
use libromx.Bytes.{Bytes, slice}
use libromx.Crc32.{crc32, crc32_begin, crc32_update}
use libromx.Crc32.Stream.{crc32_update-append}
use libromx.Mutable.Objects.{
  crc_step, expect_crc, validate_slot_data, is_active, count_loop, get_loop, is_named, find_loop,
  require_mutable, find_mutable_object, get_mutable_object_count, get_mutable_object, unless_absent,
  require_status,
}
use libromx.Region.Streaming.{Serves, chunk_loop-whole}
use libromx.Types.{
  Reader, MutableObject, MutableSlot, MutableStatus, absent, valid, degraded, invalid, add64,
}

-- On an input that serves the file, the data of a slot inside it passes exactly when its CRC-32 is the
-- stored one, for every positive size of the chunks; otherwise the result is mutable_data_crc.
pub validate_slot_data-crc32 :
    (reader : Reader) (slot : MutableSlot) (file : Bytes)
    → Serves reader.io file
    → 0 < reader.io_chunk_size
    → reader.info.mutable_region.offset + slot.object.data_offset + slot.object.data_size
      ≤ length file
    → validate_slot_data reader slot
      ≡ refuse_if
          (not (
            crc32 (
              slice
                (reader.info.mutable_region.offset + slot.object.data_offset)
                slot.object.data_size
                file)
            == slot.object.data_crc32))
          mutable_data_crc
          (reader.info.mutable_region.offset + slot.object.data_offset)
unfolding validate_slot_data
validate_slot_data-crc32 reader slot file serves pos inside =
    let base = reader.info.mutable_region.offset + slot.object.data_offset in
    let size = slot.object.data_size in
    let bound = serves.sized in
    let start : add64 reader.info.mutable_region.offset slot.object.data_offset ≡ base =
      omega (arith, inside, bound) in
    let e : base + 0 ≡ base = omega arith in
    let k : size - 0 ≡ size = omega arith in
    let whole =
      chunk_loop-whole (λ (c : ℕ). Unit {0}) (λ (c : ℕ) bytes. crc32_update c bytes) crc_step
        (λ s bytes. unfold crc_step in refl) (λ s bytes p. tt)
        (λ s xs ys p. sym (crc32_update-append xs ys s)) (λ s p. unfold crc32_update in refl)
        reader.io_chunk_size base size size 0 crc32_begin serves pos inside (omega arith)
        (omega arith) tt in
    rw (start, whole, e, k) (unfold crc32 expect_crc in refl)

count_loop-get_loop :
    (reader : Reader) (slots : List MutableSlot) (count n i : ℕ)
    → count_loop reader slots count ≡ ok n
    → count ≤ i
    → (count ≤ n)
      × (i < n → (object : MutableObject) × (get_loop reader i slots count ≡ ok object))
      × (n ≤ i → get_loop reader i slots count ≡ error_set mutable_entry offset_unknown)
unfolding count_loop get_loop
count_loop-get_loop reader [] count n i h le =
    let e = ok-injective h in (omega (arith, e), (λ k. absurd (omega (arith, e))), (λ k. refl))
count_loop-get_loop reader (slot ∷ slots) count n i h le = elim (Bool-cases (is_active slot)) [
  | inr idle ↦ rw idle (count_loop-get_loop reader slots count n i (rw idle at h) le)
  | inl active ↦
      let (_, passed, rest) = >>=-eq-ok (validate_slot_data reader slot) _ (rw active at h) in
      rw (active, passed)
        (elim (Bool-cases (count == i)) [
          | inl here ↦
              let (le', _, _) =
                count_loop-get_loop reader slots (count + 1) n (count + 1) rest (omega arith) in
              (
                omega (arith, le'),
                (λ k. (slot.object, rw here refl)),
                (λ k. absurd (ground (arith, here, le', k))),
              )
          | inr other ↦
              let (le', below, above) =
                count_loop-get_loop reader slots (count + 1) n i rest (ground (arith, other, le)) in
              (omega (arith, le'), (λ k. rw other (below k)), (λ k. rw other (above k)))
        ])
]

counted_of :
    (offset : ℕ) (status : MutableStatus) (counted : Outcome ℕ) (n : ℕ)
    → require_status offset status ≡ ok tt
    → unless_absent status counted ≡ ok n
    → counted ≡ ok n
counted_of offset absent counted n there h = elim (fail-≢-ok there) [ ]
counted_of offset invalid counted n there h = elim (fail-≢-ok there) [ ]
counted_of offset valid counted n there h = h
counted_of offset degraded counted n there h = h

count_of :
    (reader : Reader) (n : ℕ)
    → require_mutable reader ≡ ok tt
    → get_mutable_object_count reader ≡ ok n
    → count_loop reader reader.mutable_slots 0 ≡ ok n
unfolding get_mutable_object_count require_mutable
count_of reader n there h =
    let counted = counted_of reader.info.mutable_region.offset reader.mutable_status _ n there h in
    let (_, _, last) = >>=-eq-ok (require_mutable reader) _ counted in last

-- Counting and listing agree: when the objects of a region that is there are counted as `n`, each index
-- below `n` leads to an object, and each from `n` on to the error mutable_entry.
pub get_mutable_object-count :
    (reader : Reader) (n i : ℕ)
    → require_mutable reader ≡ ok tt
    → get_mutable_object_count reader ≡ ok n
    → ((i < n) × ((object : MutableObject) × (get_mutable_object reader i ≡ ok object)))
      ⊎ ((n ≤ i) × (get_mutable_object reader i ≡ error_set mutable_entry offset_unknown))
unfolding get_mutable_object_count get_mutable_object
get_mutable_object-count reader n i there h =
    let counted = count_of reader n there h in
    let (_, below, above) =
      count_loop-get_loop reader reader.mutable_slots 0 n i counted (omega arith) in
    rw there (elim (Bool-cases (ltb i n)) [
      | inl lt ↦ (let k : i < n = ground (arith, lt) in inl (k, below k))
      | inr ge ↦ (let k : n ≤ i = ground (arith, ge) in inr (k, above k))
    ])

-- What a search gives: the first active slot of that namespace whose key folds to the given one, with
-- data that passes its check.
abbrev pub IsFound : Reader → ℕ → Bytes → List MutableSlot → MutableObject → Type 0
IsFound reader object_namespace key slots object =
    (i : ℕ) × (slot : MutableSlot) × (get_elem? slots i ≡ some slot)
    × (slot.object ≡ object)
    × (is_named object_namespace key slot ≡ true)
    × (validate_slot_data reader slot ≡ ok tt)
    × All (λ (s : MutableSlot). is_named object_namespace key s ≡ false) (take i slots)

find_loop-IsFound :
    (reader : Reader) (object_namespace : ℕ) (key : Bytes) (slots : List MutableSlot)
    {object : MutableObject}
    → find_loop reader object_namespace key slots ≡ ok object
    → IsFound reader object_namespace key slots object
unfolding find_loop
find_loop-IsFound reader object_namespace key [] h = cc
find_loop-IsFound reader object_namespace key (slot ∷ slots) h =
    elim (Bool-cases (is_named object_namespace key slot)) [
      | inr other ↦
          let (i, s, at, same, named, passed, before) =
            find_loop-IsFound reader object_namespace key slots (rw other at h) in
          (suc i, s, at, same, named, passed, (other, before))
      | inl named ↦
          let (_, passed, last) = >>=-eq-ok (validate_slot_data reader slot) _ (rw named at h) in
          (0, slot, refl, ok-injective last, named, passed, tt)
    ]

-- A search that succeeds gives the first active object with the namespace and the key, up to the case
-- of its letters, and only after its data has passed the check.
pub find_mutable_object-IsFound :
    (reader : Reader) (object_namespace : ℕ) (key : Bytes) {object : MutableObject}
    → find_mutable_object reader object_namespace key ≡ ok object
    → IsFound reader object_namespace key reader.mutable_slots object
unfolding find_mutable_object
find_mutable_object-IsFound reader object_namespace key h =
    let (_, _, h1) = >>=-eq-ok (refuse_if (length key == 0) invalid_argument offset_unknown) _ h in
    let (_, _, last) = >>=-eq-ok (require_mutable reader) _ h1 in
    find_loop-IsFound reader object_namespace key reader.mutable_slots last
