-- ===== src/Path/Folding.antt =====
-- ASCII case folding of names: `ascii_fold_equal` compares the folded texts.
use libromx.Prelude.{ℕ, ◌<◌, ◌≡◌, refl, ◌↔◌, true, [], ◌∷◌, map, arith, All}
use libromx.Bytes.{Bytes}
use libromx.Path.{fold_byte, ascii_fold_equal}

-- A C string holds no zero byte before its end, and its elements are bytes.
abbrev pub IsText : Bytes → Type 0
IsText = All (λ c. (0 < c) × (c < 256))

fold_byte-pos : (c : ℕ) → 0 < c → c < 256 → (0 < fold_byte c) × (fold_byte c < 256)
unfolding fold_byte
fold_byte-pos c h k = ground arith

-- Two names are equal for the container exactly when they fold to one text.
pub ascii_fold_equal_iff :
    (xs ys : Bytes)
    → IsText xs
    → IsText ys
    → (ascii_fold_equal xs ys ≡ true) ↔ (map fold_byte xs ≡ map fold_byte ys)
unfolding ascii_fold_equal
ascii_fold_equal_iff [] [] hx hy = (λ _. refl, λ _. refl)
ascii_fold_equal_iff [] (y ∷ ys) hx (hy, hys) = ground (arith, fold_byte-pos y)
ascii_fold_equal_iff (x ∷ xs) [] (hx, hxs) hy = ground (arith, fold_byte-pos x)
ascii_fold_equal_iff (x ∷ xs) (y ∷ ys) (hx, hxs) (hy, hys) =
    ground (arith, fold_byte-pos x, ascii_fold_equal_iff xs ys hxs hys)

-- The comparison does not look at the case of the letters A to Z.
fold_byte-fold_byte : (c : ℕ) → c < 256 → fold_byte (fold_byte c) ≡ fold_byte c
unfolding fold_byte
fold_byte-fold_byte c h = ground arith
