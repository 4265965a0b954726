-- ===== src/Mutable/Clashes.antt =====
-- src/mutable.c: entries of one name or with overlapping data take each other out of use.
pub mod Settled
pub mod Reasons
use libromx.Prelude.{
  ℕ, zero, suc, ◌+◌, ◌-◌, ◌*◌, ◌/◌, ◌%◌, ◌^◌, ◌≤◌, ◌<◌, min, bit_and, bit_or, bit_xor, ◌≡◌, refl,
  sym, ap, ◌∙◌, ◌≢◌, ◌↔◌, ◌⊎◌, inl, inr, Bool, true, false, not, ◌&&◌, ◌||◌, Option, none, some,
  List, [], ◌∷◌, ◌++◌, map, append_assoc, append-nil, arith, ltb, leb, ◌==◌, if◌then◌else◌, ltb→lt,
  lt→ltb, ==_iff, Bool-cases, Option-cases, length, get_or, get_elem?, set, take, drop, replicate,
  All, length-append, length-set, take-append-drop, length-take, length-drop, length-replicate,
  take-all, take-append, drop-append, drop-drop, take-append-take, All-append, All-take, All-drop,
  All-get_or, get_elem?-append, get_elem?-concat, All-map, All-get_elem?,
}
use libromx.Path.{ascii_fold_equal}
use libromx.Types.{MutableObject, MutableSlot, add64}

unfoldable pub extents_overlap : MutableObject → MutableObject → Bool
extents_overlap first second =
    ltb first.data_offset (add64 second.data_offset second.data_capacity)
    && ltb second.data_offset (add64 first.data_offset first.data_capacity)

unfoldable pub clash : MutableSlot → MutableSlot → Bool
clash first second =
    (first.object.object_namespace == second.object.object_namespace
      && ascii_fold_equal first.object.key second.object.key)
    || extents_overlap first.object second.object

abbrev pub out_of_use : MutableSlot → MutableSlot
out_of_use slot = record slot { usable = false }

abbrev pub keep_or_drop : Bool → MutableSlot → MutableSlot
keep_or_drop true slot = out_of_use slot
keep_or_drop false slot = slot

-- The inner loop: the slots behind `first`, and whether one of them clashed with it.
pub against : MutableSlot → List MutableSlot → List MutableSlot × Bool
against first [] = ([], false)
against first (second ∷ rest) =
    let hit = second.usable && clash first second in
    (keep_or_drop hit second ∷ (against first rest).0, hit || (against first rest).1)

-- A round of the outer loop: a slot out of use is skipped.
abbrev pub round :
    Bool
    → Bool
    → MutableSlot
    → List MutableSlot × Bool
    → List MutableSlot × Bool
    → List MutableSlot × Bool
round true hit first skipped settled = (keep_or_drop hit first ∷ settled.0, hit || settled.1)
round false hit first skipped settled = (first ∷ skipped.0, skipped.1)

-- The outer loop, from `first` on. A round drops one slot from the list, so `length slots` are enough.
pub clash_loop : ℕ → List MutableSlot → List MutableSlot × Bool
clash_loop zero slots = (slots, false)
clash_loop (suc fuel) [] = ([], false)
clash_loop (suc fuel) (first ∷ rest) =
    let hit = (against first rest).1 in
    let skipped = clash_loop fuel rest in
    let settled = clash_loop fuel (against first rest).0 in
    round first.usable hit first skipped settled

unfoldable pub settle : List MutableSlot → List MutableSlot × Bool
unfolding against clash_loop
settle slots = clash_loop (length slots) slots
