-- ===== src/Ridx/Ranges/Disjoint.antt =====
-- Ranges that pass the scan do not overlap, in whatever order the entries name them.
use libromx.Prelude.{
  ℕ, ◌≤◌, ◌≡◌, ◌⊎◌, inl, inr, List, [], ◌∷◌, arith, ltb, Bool-cases, All, All-map,
}
use libromx.Outcome.{overlap, ok, refuse_if, refuse_if-eq-ok, >>=-eq-ok}
use libromx.Ridx.Entries.{Range}
use libromx.Ridx.Ranges.{range_le, insert, sort, check_gap, scan_ranges, check_ranges}
use libromx.Types.{Io}

abbrev pub Apart : Range → Range → Type 0
Apart r s = (r.end ≤ s.start) ⊎ (s.end ≤ r.start)

-- No two of the ranges overlap.
abbrev pub AllApart : List Range → Type 0
AllApart [] = Unit
AllApart (r ∷ ranges) = All (Apart r) ranges × AllApart ranges

abbrev pub IsForward : Range → Type 0
IsForward r = r.start ≤ r.end

Apart-symm : (r s : Range) → Apart r s → Apart s r
Apart-symm r s (inl h) = inr h
Apart-symm r s (inr h) = inl h

module _ (P : Range → Type 0) where
  All-insert : (r : Range) (ranges : List Range) → All P (insert r ranges) → P r × All P ranges
  unfolding insert
  All-insert r [] h = h
  All-insert r (s ∷ ranges) h = elim (Bool-cases (range_le r s)) [
    | inl before ↦ rw before at h
    | inr behind ↦
        let (hs, rest) = rw behind at h in
        let (hr, hrs) = All-insert r ranges rest in (hr, (hs, hrs))
  ]

  insert-All : (r : Range) (ranges : List Range) → P r → All P ranges → All P (insert r ranges)
  unfolding insert
  insert-All r [] h hs = (h, tt)
  insert-All r (s ∷ ranges) h (hs, hrs) = elim (Bool-cases (range_le r s)) [
    | inl before ↦ rw before (h, (hs, hrs))
    | inr behind ↦ rw behind (hs, insert-All r ranges h hrs)
  ]

  sort-All : (ranges : List Range) → All P ranges → All P (sort ranges)
  unfolding sort
  sort-All [] h = tt
  sort-All (r ∷ ranges) (h, hs) = insert-All r (sort ranges) h (sort-All ranges hs)

  All-sort : (ranges : List Range) → All P (sort ranges) → All P ranges
  unfolding sort
  All-sort [] h = tt
  All-sort (r ∷ ranges) h = let (hr, hs) = All-insert r (sort ranges) h in (hr, All-sort ranges hs)

AllApart-insert :
    (r : Range) (ranges : List Range)
    → AllApart (insert r ranges)
    → All (Apart r) ranges × AllApart ranges
unfolding insert
AllApart-insert r [] h = (tt, tt)
AllApart-insert r (s ∷ ranges) h = elim (Bool-cases (range_le r s)) [
  | inl before ↦ rw before at h
  | inr behind ↦
      let (hs, rest) = rw behind at h in
      let (hr, hrs) = AllApart-insert r ranges rest in
      let (sr, srs) = All-insert (Apart s) r ranges hs in ((Apart-symm s r sr, hr), (srs, hrs))
]

-- The order of the entries is no matter.
pub AllApart-sort : (ranges : List Range) → AllApart (sort ranges) → AllApart ranges
unfolding sort
AllApart-sort [] h = tt
AllApart-sort (r ∷ ranges) h =
    let (hr, hrs) = AllApart-insert r (sort ranges) h in
    (All-sort (Apart r) ranges hr, AllApart-sort ranges hrs)

-- A scan that passes has met each range at or behind the end of the one before.
scan_ranges-AllApart :
    (io : Io) (content_end : ℕ) (ranges : List Range) {last : ℕ}
    → All IsForward ranges
    → scan_ranges io content_end ranges ≡ ok last
    → All (λ (r : Range). content_end ≤ r.start) ranges × AllApart ranges
unfolding scan_ranges
scan_ranges-AllApart io content_end [] f h = (tt, tt)
scan_ranges-AllApart io content_end (r ∷ ranges) (fr, f) h =
    let (_, first, h1) = >>=-eq-ok (refuse_if (ltb r.start content_end) overlap r.start) _ h in
    let (_, _, rest) = >>=-eq-ok (check_gap io content_end r.start) _ h1 in
    let (later, apart) = scan_ranges-AllApart io r.end ranges f rest in
    let here : content_end ≤ r.start =
      ground (arith, refuse_if-eq-ok (ltb r.start content_end) overlap r.start first) in
    (
      (here, All-map _ (λ (s : Range). content_end ≤ s.start) (λ s k. omega arith) ranges later),
      (All-map (λ (s : Range). r.end ≤ s.start) (Apart r) (λ s k. inl k) ranges later, apart),
    )

-- Ranges that pass the check do not overlap, in whatever order they are given. No range ends before it
-- starts.
pub check_ranges-AllApart :
    (io : Io) (payload_size : ℕ) (ranges : List Range)
    → All IsForward ranges
    → check_ranges io payload_size ranges ≡ ok tt
    → AllApart ranges
unfolding check_ranges
check_ranges-AllApart io payload_size ranges f h =
    let (last, scanned, _) = >>=-eq-ok (scan_ranges io 0 (sort ranges)) _ h in
    AllApart-sort ranges
      (scan_ranges-AllApart io 0 (sort ranges) (sort-All IsForward ranges f) scanned).1
