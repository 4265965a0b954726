-- ===== src/Bytes/Slices.antt =====
-- Laws of the sub-ranges of bytes.
use libromx.Prelude.{
  ℕ, zero, suc, ◌+◌, ◌≤◌, ◌≡◌, refl, ap, ◌∙◌, [], ◌∷◌, ◌++◌, arith, take, drop, drop-drop,
  take-append-take,
}
use libromx.Bytes.{Bytes, slice}

take-drop-take :
    (a b s : ℕ) (xs : Bytes) → a + b ≤ s → take b (drop a (take s xs)) ≡ take b (drop a xs)
take-drop-take zero zero s xs h = refl
take-drop-take zero (suc b) zero xs h = absurd (omega arith)
take-drop-take zero (suc b) (suc s) [] h = refl
take-drop-take zero (suc b) (suc s) (x ∷ xs) h = rw (take-drop-take zero b s xs (omega arith))
take-drop-take (suc a) b zero xs h = absurd (omega arith)
take-drop-take (suc a) b (suc s) [] h = refl
take-drop-take (suc a) b (suc s) (x ∷ xs) h = take-drop-take a b s xs (omega arith)

-- A part of a part is a part of the whole.
pub slice-slice :
    (a b o s : ℕ) (xs : Bytes) → a + b ≤ s → slice a b (slice o s xs) ≡ slice (o + a) b xs
slice-slice a b o s xs h = take-drop-take a b s (drop o xs) h ∙ ap (take b) (drop-drop a o xs)

-- Two parts that meet.
pub slice-append :
    (o a b : ℕ) (xs : Bytes) → slice o a xs ++ slice (o + a) b xs ≡ slice o (a + b) xs
slice-append o a b xs = rw (← drop-drop a o xs) (take-append-take a b (drop o xs))
