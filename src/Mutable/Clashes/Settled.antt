-- ===== src/Mutable/Clashes/Settled.antt =====
-- The slots that stay in use do not clash.
use libromx.Prelude.{
  ℕ, zero, suc, ◌≤◌, ◌≡◌, refl, sym, ap, ◌∙◌, inl, inr, Bool, true, false, ◌&&◌, List, [], ◌∷◌,
  arith, Bool-cases, length, All,
}
use libromx.Mutable.Clashes.{clash, out_of_use, keep_or_drop, round, against, clash_loop, settle}
use libromx.Types.{MutableSlot}

-- `first` does not clash with the slot, or the slot is not in use.
abbrev pub ClearOf : MutableSlot → MutableSlot → Type 0
ClearOf first slot = slot.usable ≡ true → clash first slot ≡ false

-- Each slot in use is clear of the slots behind it.
abbrev pub AllClear : List MutableSlot → Type 0
AllClear [] = Unit
AllClear (first ∷ rest) = (first.usable ≡ true → All (ClearOf first) rest) × AllClear rest

module _ (P : MutableSlot → Type 0) (drops : (s : MutableSlot) → P s → P (out_of_use s)) where
  keep_or_drop-keeps : (hit : Bool) (s : MutableSlot) → P s → P (keep_or_drop hit s)
  keep_or_drop-keeps true s h = drops s h
  keep_or_drop-keeps false s h = h

  against-All :
      (first : MutableSlot) (rest : List MutableSlot) → All P rest → All P (against first rest).0
  unfolding against
  against-All first [] h = tt
  against-All first (second ∷ rest) (h, hs) =
      (keep_or_drop-keeps (second.usable && clash first second) second h, against-All first rest hs)

  -- A property that dropping a slot keeps is kept by the loops.
  pub clash_loop-All :
      (fuel : ℕ) (slots : List MutableSlot) → All P slots → All P (clash_loop fuel slots).0
  unfolding clash_loop
  clash_loop-All zero slots h = h
  clash_loop-All (suc fuel) [] h = tt
  clash_loop-All (suc fuel) (first ∷ rest) (h, hs) =
      go first.usable (against first rest).1 (clash_loop fuel rest)
        (clash_loop fuel (against first rest).0) (clash_loop-All fuel rest hs)
        (clash_loop-All fuel (against first rest).0 (against-All first rest hs))
    where
      go :
          (used hit : Bool) (skipped settled : List MutableSlot × Bool)
          → All P skipped.0
          → All P settled.0
          → All P (round used hit first skipped settled).0
      go true hit skipped settled a b = (keep_or_drop-keeps hit first h, b)
      go false hit skipped settled a b = (h, a)

length-against :
    (first : MutableSlot) (rest : List MutableSlot) → length (against first rest).0 ≡ length rest
unfolding against
length-against first [] = refl
length-against first (second ∷ rest) = omega (arith, length-against first rest)

against-ClearOf :
    (first : MutableSlot) (rest : List MutableSlot)
    → (against first rest).1 ≡ false
    → All (ClearOf first) (against first rest).0
unfolding against
against-ClearOf first [] h = tt
against-ClearOf first (second ∷ rest) h =
    let hit : (second.usable && clash first second) ≡ false = ground (arith, h) in
    let others : (against first rest).1 ≡ false = ground (arith, h) in
    (rw hit (λ used. ground (arith, hit, used)), against-ClearOf first rest others)

ClearOf-drops : (first s : MutableSlot) → ClearOf first s → ClearOf first (out_of_use s)
ClearOf-drops first s h used = cc

first-clear :
    (fuel : ℕ) (first : MutableSlot) (rest : List MutableSlot)
    → (keep_or_drop (against first rest).1 first).usable ≡ true
    → All
        (ClearOf (keep_or_drop (against first rest).1 first))
        (clash_loop fuel (against first rest).0).0
first-clear fuel first rest used = elim (Bool-cases (against first rest).1) [
  | inl hit ↦ (let dropped : false ≡ true = rw hit at used in cc)
  | inr none_hit ↦ rw none_hit (
      clash_loop-All (ClearOf first) (ClearOf-drops first) fuel (against first rest).0
        (against-ClearOf first rest none_hit))
]

round-AllClear :
    (used hit : Bool) (first : MutableSlot) (skipped settled : List MutableSlot × Bool)
    → first.usable ≡ used
    → ((keep_or_drop hit first).usable ≡ true → All (ClearOf (keep_or_drop hit first)) settled.0)
    → AllClear skipped.0
    → AllClear settled.0
    → AllClear (round used hit first skipped settled).0
round-AllClear true hit first skipped settled e c a b = (c, b)
round-AllClear false hit first skipped settled e c a b = ((λ used. (let f = sym e ∙ used in cc)), a)

clash_loop-AllClear :
    (fuel : ℕ) (slots : List MutableSlot) → length slots ≤ fuel → AllClear (clash_loop fuel slots).0
unfolding clash_loop
clash_loop-AllClear zero [] h = tt
clash_loop-AllClear zero (s ∷ slots) h = absurd (omega arith)
clash_loop-AllClear (suc fuel) [] h = tt
clash_loop-AllClear (suc fuel) (first ∷ rest) h =
    round-AllClear first.usable (against first rest).1 first (clash_loop fuel rest)
      (clash_loop fuel (against first rest).0) refl (first-clear fuel first rest)
      (clash_loop-AllClear fuel rest (omega (arith, h)))
      (clash_loop-AllClear fuel (against first rest).0
        (omega (arith, h, length-against first rest)))

length-round :
    (used hit : Bool) (first : MutableSlot) (skipped settled : List MutableSlot × Bool) {n : ℕ}
    → length skipped.0 ≡ n
    → length settled.0 ≡ n
    → length (round used hit first skipped settled).0 ≡ suc n
length-round true hit first skipped settled a b = ap suc b
length-round false hit first skipped settled a b = ap suc a

length-clash_loop :
    (fuel : ℕ) (slots : List MutableSlot) → length (clash_loop fuel slots).0 ≡ length slots
unfolding clash_loop
length-clash_loop zero slots = refl
length-clash_loop (suc fuel) [] = refl
length-clash_loop (suc fuel) (first ∷ rest) =
    length-round first.usable (against first rest).1 first (clash_loop fuel rest)
      (clash_loop fuel (against first rest).0) (length-clash_loop fuel rest)
      (length-clash_loop fuel (against first rest).0 ∙ length-against first rest)

-- After the two loops no two slots in use clash, and there are as many slots as before.
pub settle-AllClear :
    (slots : List MutableSlot)
    → AllClear (settle slots).0 × (length (settle slots).0 ≡ length slots)
unfolding settle
settle-AllClear slots =
    (clash_loop-AllClear (length slots) slots (omega arith), length-clash_loop (length slots) slots)

pub settle-All :
    (P : MutableSlot → Type 0)
    → ((s : MutableSlot) → P s → P (out_of_use s))
    → (slots : List MutableSlot) → All P slots
    → All P (settle slots).0
unfolding settle
settle-All P drops slots h = clash_loop-All P drops (length slots) slots h
