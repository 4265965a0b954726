-- ===== src/Mutable/Apart.antt =====
-- The data of the slots in use that src/mutable.c leaves in a reader.
use libromx.Prelude.{
  ℕ, zero, suc, ◌+◌, ◌^◌, ◌≤◌, ◌<◌, ◌≡◌, ◌⊎◌, true, false, some, List, [], ◌∷◌, arith, get_elem?,
  All, All-get_elem?,
}
use mathlib.Core.Path.{subst}
use libromx.Mutable.Clashes.{clash, extents_overlap}
use libromx.Mutable.Clashes.Settled.{ClearOf, AllClear}
use libromx.Mutable.Accepted.{IsObject, IsSlot, IsDirectory}
use libromx.Types.{MutableSlot, add64}

clash-disjoint :
    (region_size data_area_offset : ℕ) (first second : MutableSlot)
    → region_size < 2 ^ 64
    → IsObject region_size data_area_offset first.object
    → IsObject region_size data_area_offset second.object
    → clash first second ≡ false
    → (first.object.data_offset + first.object.data_capacity ≤ second.object.data_offset)
      ⊎ (second.object.data_offset + second.object.data_capacity ≤ first.object.data_offset)
unfolding clash extents_overlap
clash-disjoint region_size data_area_offset first second b f s h =
    let fr = f.in_region in
    let sr = s.in_region in
    let wf : add64 first.object.data_offset first.object.data_capacity
        ≡ first.object.data_offset + first.object.data_capacity =
      omega (arith, fr, b) in
    let ws : add64 second.object.data_offset second.object.data_capacity
        ≡ second.object.data_offset + second.object.data_capacity =
      omega (arith, sr, b) in
    ground (arith, h, wf, ws)

AllClear-get_elem? :
    (slots : List MutableSlot) (i j : ℕ) {first second : MutableSlot}
    → i < j
    → AllClear slots
    → get_elem? slots i ≡ some first
    → get_elem? slots j ≡ some second
    → first.usable ≡ true
    → ClearOf first second
AllClear-get_elem? [] i j lt clear at later used = cc
AllClear-get_elem? (slot ∷ slots) i zero lt clear at later used = absurd (omega (arith, lt))
AllClear-get_elem? (slot ∷ slots) zero (suc j) {first} {second} lt (clear, _) at later used =
    let same : slot ≡ first = cc in
    All-get_elem? (ClearOf first) slots j
      (subst (λ (s : MutableSlot). s.usable ≡ true → All (ClearOf s) slots) same clear used) later
AllClear-get_elem? (slot ∷ slots) (suc i) (suc j) lt (_, clear) at later used =
    AllClear-get_elem? slots i j (omega (arith, lt)) clear at later used

-- In a sound directory, of a region of less than 2^64 bytes, no two slots in use share a byte of their capacities: the one ends at or in front of the start of the other.
pub IsDirectory-disjoint :
    (region_size : ℕ) (slots : List MutableSlot) (i j : ℕ) {first second : MutableSlot}
    → i < j
    → region_size < 2 ^ 64
    → IsDirectory region_size slots
    → get_elem? slots i ≡ some first
    → get_elem? slots j ≡ some second
    → first.usable ≡ true
    → second.usable ≡ true
    → (first.object.data_offset + first.object.data_capacity ≤ second.object.data_offset)
      ⊎ (second.object.data_offset + second.object.data_capacity ≤ first.object.data_offset)
IsDirectory-disjoint region_size slots i j {first} {second} lt b d at later used on =
    let sound = d.slots_sound in
    let clear = d.slots_apart in
    clash-disjoint region_size d.data_area_offset first second b
      (All-get_elem? (IsSlot region_size d.data_area_offset) slots i sound at used).0
      (All-get_elem? (IsSlot region_size d.data_area_offset) slots j sound later on).0
      (AllClear-get_elem? slots i j lt clear at later used on)
