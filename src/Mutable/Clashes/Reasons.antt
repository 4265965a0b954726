-- ===== src/Mutable/Clashes/Reasons.antt =====
-- romx_parse_mutable of src/mutable.c: a slot goes out of use only for a clash with another one.
use libromx.Prelude.{
  ℕ, zero, suc, ◌≡◌, refl, ap, ◌∙◌, sym, ◌≢◌, ◌⊎◌, inl, inr, Bool, true, false, ◌&&◌, some, List,
  [], ◌∷◌, arith, Bool-cases, length, get_elem?,
}
use mathlib.Core.Path.{subst}
use libromx.Mutable.Clashes.{clash, out_of_use, keep_or_drop, round, against, clash_loop, settle}
use libromx.Mutable.Clashes.Settled.{AllClear, settle-AllClear}
use libromx.Types.{MutableSlot}

-- Another slot in use that clashes with the one at `i`, on either side of the test.
abbrev pub Reason : List MutableSlot → ℕ → MutableSlot → Type 0
Reason slots i slot =
    (j : ℕ) × (other : MutableSlot) × (get_elem? slots j ≡ some other)
    × (j ≢ i)
    × (other.usable ≡ true)
    × ((clash slot other ≡ true) ⊎ (clash other slot ≡ true))

-- The slot at `i` is unchanged, or it was in use, is out of use and there is a reason.
abbrev pub Fate : List MutableSlot → ℕ → MutableSlot → List MutableSlot → Type 0
Fate slots i slot settled =
    (get_elem? settled i ≡ some slot)
    ⊎ ((get_elem? settled i ≡ some (out_of_use slot)) × (slot.usable ≡ true) × Reason slots i slot)

keep_or_drop-usable :
    (hit : Bool) (slot other : MutableSlot)
    → some (keep_or_drop hit slot) ≡ some other
    → other.usable ≡ true
    → some slot ≡ some other
keep_or_drop-usable true slot other h used =
    let e : out_of_use slot ≡ other = cc in
    let off : false ≡ true = ap (λ (s : MutableSlot). s.usable) e ∙ used in cc
keep_or_drop-usable false slot other h used = h

-- A slot in use behind the inner loop was there before it.
get_elem?-against :
    (first : MutableSlot) (rest : List MutableSlot) (j : ℕ) {other : MutableSlot}
    → get_elem? (against first rest).0 j ≡ some other
    → other.usable ≡ true
    → get_elem? rest j ≡ some other
unfolding against
get_elem?-against first [] j h used = h
get_elem?-against first (second ∷ rest) zero {other} h used =
    keep_or_drop-usable (second.usable && clash first second) second other h used
get_elem?-against first (second ∷ rest) (suc j) h used = get_elem?-against first rest j h used

-- The inner loop drops just the slots in use that clash with `first`.
against-hit :
    (first : MutableSlot) (rest : List MutableSlot) (k : ℕ) {slot : MutableSlot}
    → get_elem? rest k ≡ some slot
    → (get_elem? (against first rest).0 k ≡ some slot)
      ⊎ ((get_elem? (against first rest).0 k ≡ some (out_of_use slot))
          × (slot.usable ≡ true)
          × (clash first slot ≡ true))
unfolding against
against-hit first [] k h = cc
against-hit first (second ∷ rest) zero {slot} h =
    let same : second ≡ slot = cc in
    elim (Bool-cases (second.usable && clash first second)) [
      | inl hit ↦ inr (
        rw hit (ap (λ (s : MutableSlot). some (out_of_use s)) same),
        sym (ap (λ (s : MutableSlot). s.usable) same) ∙ ground arith,
        sym (ap (λ (s : MutableSlot). clash first s) same) ∙ ground arith,
      )
      | inr spared ↦ inl (rw spared h)
    ]
against-hit first (second ∷ rest) (suc k) h = against-hit first rest k h

-- The flag of the inner loop has a reason.
against-reason :
    (first : MutableSlot) (rest : List MutableSlot)
    → (against first rest).1 ≡ true
    → (j : ℕ) × (other : MutableSlot) × (get_elem? rest j ≡ some other)
      × (other.usable ≡ true)
      × (clash first other ≡ true)
unfolding against
against-reason first [] h = cc
against-reason first (second ∷ rest) h = elim (Bool-cases (second.usable && clash first second)) [
  | inl hit ↦ (0, second, refl, ground arith, ground arith)
  | inr spared ↦
      let later : (against first rest).1 ≡ true = ground arith in
      let (j, other, at, used, clashes) = against-reason first rest later in
      (suc j, other, at, used, clashes)
]

behind : (j k : ℕ) → j ≢ k → suc j ≢ suc k
behind j k apart same = apart (omega (arith, same))

first-Fate :
    (fuel : ℕ) (first : MutableSlot) (rest : List MutableSlot)
    → first.usable ≡ true
    → Fate
        (first ∷ rest)
        0
        first
        (keep_or_drop (against first rest).1 first ∷ (clash_loop fuel (against first rest).0).0)
first-Fate fuel first rest used = elim (Bool-cases (against first rest).1) [
  | inl hit ↦
      let (j, other, at, on, clashes) = against-reason first rest hit in
      rw hit (
        inr
          (refl, used, (suc j, other, at, (λ same. absurd (omega (arith, same))), on, inl clashes)))
  | inr spared ↦ rw spared (inl refl)
]

skipped-Fate :
    (first : MutableSlot) (rest : List MutableSlot) (k : ℕ) (head : MutableSlot)
    (settled : List MutableSlot) {slot : MutableSlot}
    → Fate rest k slot settled
    → Fate (first ∷ rest) (suc k) slot (head ∷ settled)
skipped-Fate first rest k head settled (inl kept) = inl kept
skipped-Fate first rest k head settled (inr (dropped, used, (j, other, at, apart, on, clashes))) =
    inr (dropped, used, (suc j, other, at, behind j k apart, on, clashes))

-- The fate of a slot among those that the inner loop has left is its fate among all.
settled-Fate :
    (first : MutableSlot) (rest : List MutableSlot) (k : ℕ) (head : MutableSlot)
    (settled : List MutableSlot) {slot : MutableSlot}
    → first.usable ≡ true
    → get_elem? rest k ≡ some slot
    → ((s : MutableSlot)
        → get_elem? (against first rest).0 k ≡ some s
        → Fate (against first rest).0 k s settled)
    → Fate (first ∷ rest) (suc k) slot (head ∷ settled)
settled-Fate first rest k head settled {slot} used at fate = elim (against-hit first rest k at) [
  | inl left ↦ elim (fate slot left) [
    | inl kept ↦ inl kept
    | inr (dropped, on, (j, other, there, apart, active, clashes)) ↦ inr (
      dropped,
      on,
      (
        suc j,
        other,
        get_elem?-against first rest j there active,
        behind j k apart,
        active,
        clashes,
      ),
    )
  ]
  | inr (hit, on, clashes) ↦ elim (fate (out_of_use slot) hit) [
    | inl kept ↦
        inr (kept, on, (0, first, refl, (λ same. absurd (omega (arith, same))), used, inr clashes))
    | inr (_, off, _) ↦ (let no : false ≡ true = off in cc)
  ]
]

round-either :
    (used hit : Bool) (first : MutableSlot) (skipped settled : List MutableSlot × Bool)
    (P : List MutableSlot → Type 0)
    → (used ≡ true → P (keep_or_drop hit first ∷ settled.0))
    → (used ≡ false → P (first ∷ skipped.0))
    → P (round used hit first skipped settled).0
round-either true hit first skipped settled P used idle = used refl
round-either false hit first skipped settled P used idle = idle refl

clash_loop-Fate :
    (fuel : ℕ) (slots : List MutableSlot) (i : ℕ) {slot : MutableSlot}
    → get_elem? slots i ≡ some slot
    → Fate slots i slot (clash_loop fuel slots).0
unfolding clash_loop
clash_loop-Fate zero slots i h = inl h
clash_loop-Fate (suc fuel) [] i h = inl h
clash_loop-Fate (suc fuel) (first ∷ rest) zero {slot} h =
    let same : first ≡ slot = cc in
    subst (λ s. Fate (first ∷ rest) 0 s (clash_loop (suc fuel) (first ∷ rest)).0) same
      (round-either first.usable (against first rest).1 first (clash_loop fuel rest)
        (clash_loop fuel (against first rest).0) (Fate (first ∷ rest) 0 first)
        (λ used. first-Fate fuel first rest used) (λ idle. inl refl))
clash_loop-Fate (suc fuel) (first ∷ rest) (suc k) {slot} h =
    round-either first.usable (against first rest).1 first (clash_loop fuel rest)
      (clash_loop fuel (against first rest).0) (Fate (first ∷ rest) (suc k) slot)
      (λ used.
        settled-Fate first rest k (keep_or_drop (against first rest).1 first)
          (clash_loop fuel (against first rest).0).0 used h
          λ s there. clash_loop-Fate fuel (against first rest).0 k there)
      (λ idle.
        skipped-Fate first rest k first (clash_loop fuel rest).0 (clash_loop-Fate fuel rest k h))

-- After the two loops no two slots in use clash, as the source tests it: by one namespace and one key up to the case of its letters, or by overlapping extents. There are as many slots as before, and each is as it was, unless it was in use and clashed with another slot in use: then it differs only in being out of use.
pub settle-Fate :
    (slots : List MutableSlot) (i : ℕ) {slot : MutableSlot}
    → get_elem? slots i ≡ some slot
    → AllClear (settle slots).0
      × (length (settle slots).0 ≡ length slots)
      × Fate slots i slot (settle slots).0
unfolding settle
settle-Fate slots i h =
    let (clear, sized) = settle-AllClear slots in
    (clear, sized, clash_loop-Fate (length slots) slots i h)
