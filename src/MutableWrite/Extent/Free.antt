-- ===== src/MutableWrite/Extent/Free.antt =====
-- The room that the search finds is free.
use libromx.Prelude.{
  ℕ, ◌+◌, ◌-◌, ◌*◌, ◌^◌, ◌≤◌, ◌<◌, ◌≡◌, refl, sym, ◌⊎◌, inl, inr, Bool, true, false, not, ◌&&◌,
  ◌||◌, some, List, [], ◌∷◌, arith, ltb, leb, if◌then◌else◌, Bool-cases, length, All, All-append,
  All-map,
}
use mathlib.Core.Path.{subst}
use libromx.Mutable.Slots.{header_size, entry_size}
use libromx.MutableWrite.Extent.{
  align64, used_range, used_ranges, insert_range, sort_ranges, first_fit, find_free_extent,
}
use libromx.Ridx.Entries.{Range}
use libromx.Types.{Reader, MutableSlot, add64}

-- The range from `cursor` with `capacity` bytes does not meet the other.
abbrev pub Clears : ℕ → ℕ → Range → Type 0
Clears cursor capacity r = (r.end ≤ cursor) ⊎ (cursor + capacity ≤ r.start)

abbrev Sorted : List Range → Type 0
Sorted [] = Unit
Sorted (r ∷ ranges) = All (λ (s : Range). r.start ≤ s.start) ranges × Sorted ranges

module _ (P : Range → Type 0) where
  insert_range-All :
      (r : Range) (ranges : List Range) → P r → All P ranges → All P (insert_range r ranges)
  unfolding insert_range
  insert_range-All r [] h hs = (h, tt)
  insert_range-All r (s ∷ ranges) h (k, ks) = elim (Bool-cases (leb r.start s.start)) [
    | inl before ↦ rw before (h, (k, ks))
    | inr behind ↦ rw behind (k, insert_range-All r ranges h ks)
  ]

  All-insert_range :
      (r : Range) (ranges : List Range) → All P (insert_range r ranges) → P r × All P ranges
  unfolding insert_range
  All-insert_range r [] h = h
  All-insert_range r (s ∷ ranges) h = elim (Bool-cases (leb r.start s.start)) [
    | inl before ↦ rw before at h
    | inr behind ↦
        let (k, rest) = rw behind at h in
        let (hr, hs) = All-insert_range r ranges rest in (hr, (k, hs))
  ]

  sort_ranges-All : (ranges : List Range) → All P ranges → All P (sort_ranges ranges)
  unfolding sort_ranges
  sort_ranges-All [] h = tt
  sort_ranges-All (r ∷ ranges) (h, hs) =
      insert_range-All r (sort_ranges ranges) h (sort_ranges-All ranges hs)

  All-sort_ranges : (ranges : List Range) → All P (sort_ranges ranges) → All P ranges
  unfolding sort_ranges
  All-sort_ranges [] h = tt
  All-sort_ranges (r ∷ ranges) h =
      let (hr, hs) = All-insert_range r (sort_ranges ranges) h in (hr, All-sort_ranges ranges hs)

insert_range-Sorted :
    (r : Range) (ranges : List Range) → Sorted ranges → Sorted (insert_range r ranges)
unfolding insert_range
insert_range-Sorted r [] h = (tt, tt)
insert_range-Sorted r (s ∷ ranges) (k, ks) = elim (Bool-cases (leb r.start s.start)) [
  | inl before ↦
      let le : r.start ≤ s.start = ground (arith, before) in
      rw before (
        (
          le,
          All-map (λ (t : Range). s.start ≤ t.start) (λ (t : Range). r.start ≤ t.start)
              (λ t q. omega (arith, le, q)) ranges k,
        ),
        (k, ks),
      )
  | inr behind ↦ rw behind (
    insert_range-All (λ (t : Range). s.start ≤ t.start) r ranges (ground (arith, behind)) k,
    insert_range-Sorted r ranges ks,
  )
]

sort_ranges-Sorted : (ranges : List Range) → Sorted (sort_ranges ranges)
unfolding sort_ranges
sort_ranges-Sorted [] = tt
sort_ranges-Sorted (r ∷ ranges) =
    insert_range-Sorted r (sort_ranges ranges) (sort_ranges-Sorted ranges)

align64-ge : (value : ℕ) → value < 2 ^ 64 → value ≤ align64 value
unfolding align64
align64-ge value h = ground arith

first_fit-ge :
    (capacity cursor : ℕ) (ranges : List Range)
    → All (λ (r : Range). r.end < 2 ^ 64) ranges
    → cursor ≤ first_fit capacity cursor ranges
unfolding first_fit
first_fit-ge capacity cursor [] b = omega arith
first_fit-ge capacity cursor (r ∷ ranges) (b, bs) =
    let moved = if ltb cursor r.end then align64 r.end else cursor in
    let rest = first_fit-ge capacity moved ranges bs in
    let up = align64-ge r.end b in
    let le : cursor ≤ moved = ground (arith, up) in
    elim (Bool-cases (leb cursor r.start && leb capacity (r.start - cursor))) [
      | inl fits ↦ rw fits (omega arith)
      | inr full ↦ rw full (omega (arith, rest, le))
    ]

first_fit-stops :
    (capacity cursor : ℕ) (r : Range) (ranges : List Range)
    → (leb cursor r.start && leb capacity (r.start - cursor)) ≡ true
    → first_fit capacity cursor (r ∷ ranges) ≡ cursor
unfolding first_fit
first_fit-stops capacity cursor r ranges h = rw h refl

first_fit-moves :
    (capacity cursor : ℕ) (r : Range) (ranges : List Range)
    → (leb cursor r.start && leb capacity (r.start - cursor)) ≡ false
    → first_fit capacity cursor (r ∷ ranges)
      ≡ first_fit capacity (if ltb cursor r.end then align64 r.end else cursor) ranges
unfolding first_fit
first_fit-moves capacity cursor r ranges h = rw h refl

first_fit-Clears :
    (capacity cursor : ℕ) (ranges : List Range)
    → All (λ (r : Range). r.end < 2 ^ 64) ranges
    → Sorted ranges
    → All (Clears (first_fit capacity cursor ranges) capacity) ranges
first_fit-Clears capacity cursor [] b s = tt
first_fit-Clears capacity cursor (r ∷ ranges) (b, bs) (s, ss) =
    let moved = if ltb cursor r.end then align64 r.end else cursor in
    let up = align64-ge r.end b in
    let past : r.end ≤ moved = ground (arith, up) in
    let on = first_fit-ge capacity moved ranges bs in
    elim (Bool-cases (leb cursor r.start && leb capacity (r.start - cursor))) [
      | inl fits ↦
          let room : cursor + capacity ≤ r.start = ground (arith, fits) in
          subst (λ (c : ℕ). All (Clears c capacity) (r ∷ ranges))
            (sym (first_fit-stops capacity cursor r ranges fits))
            (
              inr room,
              All-map (λ (t : Range). r.start ≤ t.start) (Clears cursor capacity)
                  (λ t q. inr (omega (arith, room, q))) ranges s,
            )
      | inr full ↦
          subst (λ (c : ℕ). All (Clears c capacity) (r ∷ ranges))
            (sym (first_fit-moves capacity cursor r ranges full))
            (inl (omega (arith, past, on)), first_fit-Clears capacity moved ranges bs ss)
    ]

used_ranges-bounded :
    (slots : List MutableSlot) → All (λ (r : Range). r.end < 2 ^ 64) (used_ranges slots)
used_ranges-bounded [] = tt
used_ranges-bounded (slot ∷ slots) =
    All-append (λ (r : Range). r.end < 2 ^ 64) (used_range slot) (used_ranges slots)
      (one slot.usable) (used_ranges-bounded slots)
  where
    one :
        (b : Bool)
        → All
            (λ (r : Range). r.end < 2 ^ 64)
            (if not b
              then []
              else (record {
                start = slot.object.data_offset;
                end = add64 slot.object.data_offset slot.object.data_capacity;
              }
                  ∷ []))
    one true = (omega arith, tt)
    one false = tt

-- The extent that the search finds lies behind the directory, ends in the region, and does not meet the
-- data of any slot in use.
pub find_free_extent-Clears :
    (reader : Reader) (capacity : ℕ) {offset : ℕ}
    → find_free_extent reader capacity ≡ some offset
    → (header_size + length reader.mutable_slots * entry_size ≤ offset)
      × (offset + capacity ≤ reader.info.mutable_region.size)
      × All (Clears offset capacity) (used_ranges reader.mutable_slots)
unfolding find_free_extent
find_free_extent-Clears reader capacity {offset} h =
    let start = header_size + length reader.mutable_slots * entry_size in
    let ranges = used_ranges reader.mutable_slots in
    let cursor = first_fit capacity start (sort_ranges ranges) in
    let size = reader.info.mutable_region.size in
    let bounded =
      sort_ranges-All (λ (r : Range). r.end < 2 ^ 64) ranges
        (used_ranges-bounded reader.mutable_slots) in
    let clear =
      All-sort_ranges (Clears cursor capacity) ranges (
        first_fit-Clears capacity start (sort_ranges ranges) bounded (sort_ranges-Sorted ranges)) in
    let ge = first_fit-ge capacity start (sort_ranges ranges) bounded in
    elim (Bool-cases (ltb size cursor || ltb (size - cursor) capacity)) [
      | inl full ↦ (let e = rw full at h in cc)
      | inr fits ↦
          let e : cursor ≡ offset = some-injective (rw fits at h) in
          subst (λ (c : ℕ). (start ≤ c) × (c + capacity ≤ size) × All (Clears c capacity) ranges) e
            (ge, ground (arith, fits), clear)
    ]
  where
    some-injective : {a b : ℕ} → some a ≡ some b → a ≡ b
    some-injective q = cc
