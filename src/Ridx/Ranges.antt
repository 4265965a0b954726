-- ===== src/Ridx/Ranges.antt =====
-- src/ridx.c: the ranges of the payload. They are sorted with `qsort`, which here is an insertion
-- sort by range_compare, must not overlap, and what no entry covers must be zero bytes.
pub mod Disjoint
use libromx.Prelude.{
  ℕ, zero, suc, ◌+◌, ◌-◌, ◌*◌, ◌/◌, ◌%◌, ◌^◌, ◌≤◌, ◌<◌, min, bit_and, bit_or, bit_xor, ◌≡◌, refl,
  sym, ap, ◌∙◌, ◌≢◌, ◌↔◌, ◌⊎◌, inl, inr, Bool, true, false, not, ◌&&◌, ◌||◌, Option, none, some,
  List, [], ◌∷◌, ◌++◌, map, append_assoc, append-nil, arith, ltb, leb, ◌==◌, if◌then◌else◌, ltb→lt,
  lt→ltb, ==_iff, Bool-cases, Option-cases, length, get_or, set, take, drop, replicate, All,
  length-append, length-set, take-append-drop, length-take, length-drop, length-replicate, take-all,
  take-append, drop-append, drop-drop, take-append-take, All-append, All-take, All-drop, All-get_or,
}
use libromx.Bytes.{Bytes, bytes_are_zero}
use libromx.Outcome.{
  Code, index_error, overlap, Outcome, ok, fail, error_set, refuse_if, ◌>>=◌, ◌>>◌,
}
use libromx.Region.{chunk_loop}
use libromx.Ridx.Entries.{Range}
use libromx.Types.{Io, add64}

-- `range_compare(a, b) <= 0`
abbrev pub range_le : Range → Range → Bool
range_le a b =
    if ltb a.start b.start then true else if ltb b.start a.start then false else leb a.end b.end

pub insert : Range → List Range → List Range
insert r [] = r ∷ []
insert r (s ∷ ranges) = if range_le r s then r ∷ s ∷ ranges else s ∷ insert r ranges

unfoldable pub sort : List Range → List Range
unfolding insert
sort [] = []
sort (r ∷ ranges) = insert r (sort ranges)

-- One chunk of region_is_zero; the state is `position`.
zero_step : ℕ → ℕ → Bytes → ℕ × Outcome (Unit {0})
zero_step offset position bytes = (
  position + length bytes,
  refuse_if (not (bytes_are_zero bytes)) index_error (add64 offset position),
)

abbrev outcome_of : ℕ × Outcome (Unit {0}) → Outcome (Unit {0})
outcome_of (_, result) = result

-- The buffer has 4096 bytes.
unfoldable pub region_is_zero : Io → ℕ → ℕ → Outcome (Unit {0})
unfolding zero_step
region_is_zero io offset size =
    outcome_of (chunk_loop (zero_step offset) io 4096 offset size size 0 0)

unfoldable pub check_gap : Io → ℕ → ℕ → Outcome (Unit {0})
check_gap io content_end start =
    if ltb content_end start then region_is_zero io content_end (start - content_end) else ok tt

pub scan_ranges : Io → ℕ → List Range → Outcome ℕ
scan_ranges io content_end [] = ok content_end
scan_ranges io content_end (r ∷ ranges) =
    refuse_if (ltb r.start content_end) overlap r.start
    >> (check_gap io content_end r.start >> scan_ranges io r.end ranges)

unfoldable pub check_ranges : Io → ℕ → List Range → Outcome (Unit {0})
unfolding scan_ranges
check_ranges io payload_size ranges = do
  content_end ← scan_ranges io 0 (sort ranges)
  check_gap io content_end payload_size
