-- ===== src/Prelude/Masks.antt =====
-- `&` distributes over `|`, so a flag that `|` sets leaves the others as they were.
use Prim.Native.Nat.{bit_and-bitwise}
use Prim.Native.Nat.{ℕ, zero, suc, ◌+◌, ◌/◌, ◌≤◌, bit_or, bit_and}
use mathlib.Core.Path.{◌≡◌, refl, ap, ◌∙◌}
use native.Mathlib.Omega.{arith}
use libromx.Prelude.Bits.{bit_and_step, bit_or_step, bit_or-zero}

and_or_below :
    (n a b c : ℕ) → a ≤ n → b ≤ n → bit_and (bit_or a b) c ≡ bit_or (bit_and a c) (bit_and b c)
and_or_below zero zero zero c h k =
    let clear : bit_and 0 c ≡ 0 = bit_and-bitwise 0 c in rw clear refl
and_or_below zero (suc a) b c h k = absurd (omega arith)
and_or_below zero a (suc b) c h k = absurd (omega arith)
and_or_below (suc n) a b c h k =
    let either : bit_or a b / 2 ≡ bit_or (a / 2) (b / 2) = omega (arith, bit_or_step a b) in
    let left : bit_and a c / 2 ≡ bit_and (a / 2) (c / 2) = omega (arith, bit_and_step a c) in
    let right : bit_and b c / 2 ≡ bit_and (b / 2) (c / 2) = omega (arith, bit_and_step b c) in
    omega (
      arith,
      bit_and_step (bit_or a b) c,
      bit_or_step a b,
      bit_and_step a c,
      bit_and_step b c,
      bit_or_step (bit_and a c) (bit_and b c),
      ap (λ t. bit_and t (c / 2)) either,
      ap (λ t. bit_or t (bit_and b c / 2)) left,
      ap (λ t. bit_or (bit_and (a / 2) (c / 2)) t) right,
      and_or_below n (a / 2) (b / 2) (c / 2) (omega arith) (omega arith),
    )

pub bit_and-bit_or : (a b c : ℕ) → bit_and (bit_or a b) c ≡ bit_or (bit_and a c) (bit_and b c)
bit_and-bit_or a b c = and_or_below (a + b) a b c (omega arith) (omega arith)

-- Two numbers are clear in a mask when their `|` is.
pub bit_or_clear : (a b c : ℕ) → bit_and a c ≡ 0 → bit_and b c ≡ 0 → bit_and (bit_or a b) c ≡ 0
bit_or_clear a b c h k =
    bit_and-bit_or a b c ∙ ap (λ t. bit_or t (bit_and b c)) h ∙ ap (λ t. bit_or 0 t) k

-- A bit that `b` does not have stays as it was in `a`.
pub bit_or_other : (a b c : ℕ) → bit_and b c ≡ 0 → bit_and (bit_or a b) c ≡ bit_and a c
bit_or_other a b c h =
    bit_and-bit_or a b c ∙ ap (λ t. bit_or (bit_and a c) t) h ∙ bit_or-zero (bit_and a c)

bit_or_ge_below : (n a b : ℕ) → a ≤ n → b ≤ n → b ≤ bit_or a b
bit_or_ge_below zero zero zero h k = omega arith
bit_or_ge_below zero (suc a) b h k = absurd (omega arith)
bit_or_ge_below zero a (suc b) h k = absurd (omega arith)
bit_or_ge_below (suc n) a b h k =
    omega (arith, bit_or_step a b, bit_or_ge_below n (a / 2) (b / 2) (omega arith) (omega arith))

pub bit_or_ge : (a b : ℕ) → b ≤ bit_or a b
bit_or_ge a b = bit_or_ge_below (a + b) a b (omega arith) (omega arith)
