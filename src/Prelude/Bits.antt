-- ===== src/Prelude/Bits.antt =====
-- `^`, `|` and `&` on numbers of every width, from the recursion on binary digits that the native
-- operations stand for.
use Prim.Native.Nat.{
  digits, bitwise, differ, max, min, bit_xor-bitwise, bit_or-bitwise, bit_and-bitwise,
}
use Prim.Native.Nat.{ℕ, zero, suc, ◌+◌, ◌-◌, ◌*◌, ◌/◌, ◌%◌, ◌^◌, ◌≤◌, ◌<◌, bit_xor, bit_or, bit_and}
use mathlib.Core.Path.{◌≡◌, refl, ap, ◌∙◌, sym}
use native.Mathlib.Omega.{arith}
use native.Mathlib.Nat.{pow-suc, le_refl, one-le-pow}

-- More fuel than the number needs changes nothing.
spare_fuel :
    (rest : ℕ → ℕ) (op : ℕ → ℕ → ℕ) (fuel more x y : ℕ)
    → x ≤ fuel
    → fuel ≤ more
    → digits rest op more x y ≡ digits rest op fuel x y
spare_fuel rest op (suc fuel) (suc more) (suc x) y enough le =
    let half =
      spare_fuel rest op fuel more (suc x / 2) (y / 2) (omega (arith, enough))
        (omega (arith, le)) in
    rw half refl
spare_fuel rest op (suc fuel) (suc more) zero y enough le = refl
spare_fuel rest op (suc fuel) zero x y enough le = absurd (omega (arith, le))
spare_fuel rest op zero more (suc x) y enough le = absurd (omega (arith, enough))
spare_fuel rest op zero (suc more) zero y enough le = refl
spare_fuel rest op zero zero zero y enough le = refl

lowest_digit :
    (rest : ℕ → ℕ) (op : ℕ → ℕ → ℕ) (x y : ℕ)
    → bitwise rest op (suc x) y ≡ bitwise rest op (suc x / 2) (y / 2) * 2 + op (suc x % 2) (y % 2)
lowest_digit rest op x y =
    let half = spare_fuel rest op (suc x / 2) x (suc x / 2) (y / 2) (omega arith) (omega arith) in
    omega (arith, half)

pub bit_and_step : (x y : ℕ) → bit_and x y ≡ bit_and (x / 2) (y / 2) * 2 + min (x % 2) (y % 2)
bit_and_step zero y = omega (arith, bit_and-bitwise 0 y, bit_and-bitwise 0 (y / 2))
bit_and_step (suc x) y =
    let digit = lowest_digit (λ y'. 0) min x y in
    bit_and-bitwise (suc x) y
    ∙ digit
    ∙ ap (λ (t : ℕ). t * 2 + min (suc x % 2) (y % 2)) (sym (bit_and-bitwise (suc x / 2) (y / 2)))

pub bit_or_step : (x y : ℕ) → bit_or x y ≡ bit_or (x / 2) (y / 2) * 2 + max (x % 2) (y % 2)
bit_or_step zero y = omega (arith, bit_or-bitwise 0 y, bit_or-bitwise 0 (y / 2))
bit_or_step (suc x) y =
    let digit = lowest_digit (λ y'. y') max x y in
    bit_or-bitwise (suc x) y
    ∙ digit
    ∙ ap (λ (t : ℕ). t * 2 + max (suc x % 2) (y % 2)) (sym (bit_or-bitwise (suc x / 2) (y / 2)))

-- The digit of `a ^ b` for the digits `x` and `y`.
abbrev xor_digit : ℕ → ℕ → ℕ
xor_digit x y = (x + y) % 2

differ-eq : (x y : ℕ) → x < 2 → y < 2 → differ x y ≡ xor_digit x y
differ-eq zero y h k = omega arith
differ-eq (suc zero) zero h k = omega arith
differ-eq (suc zero) (suc zero) h k = omega arith
differ-eq (suc zero) (suc (suc y)) h k = absurd (omega arith)
differ-eq (suc (suc x)) y h k = absurd (omega arith)

pub bit_xor_step : (a b : ℕ) → bit_xor a b ≡ bit_xor (a / 2) (b / 2) * 2 + xor_digit (a % 2) (b % 2)
bit_xor_step zero b = simp bit_xor-bitwise (omega arith)
bit_xor_step (suc a) b = simp bit_xor-bitwise (
    lowest_digit (λ y. y) differ a b
    ∙ ap (λ t. bitwise (λ y. y) differ (suc a / 2) (b / 2) * 2 + t)
        (differ-eq (suc a % 2) (b % 2) (omega arith) (omega arith)))

bit_and-zero_below : (n a : ℕ) → a ≤ n → bit_and a 0 ≡ 0
bit_and-zero_below n zero h = refl
bit_and-zero_below zero (suc a) h = absurd (omega arith)
bit_and-zero_below (suc n) (suc a) h =
    omega (arith, bit_and_step (suc a) 0, bit_and-zero_below n (suc a / 2) (omega arith))

pub bit_and-zero : (a : ℕ) → bit_and a 0 ≡ 0
bit_and-zero a = bit_and-zero_below a a (le_refl _)

bit_or-zero_below : (n a : ℕ) → a ≤ n → bit_or a 0 ≡ a
bit_or-zero_below n zero h = refl
bit_or-zero_below zero (suc a) h = absurd (omega arith)
bit_or-zero_below (suc n) (suc a) h =
    omega (arith, bit_or_step (suc a) 0, bit_or-zero_below n (suc a / 2) (omega arith))

pub bit_or-zero : (a : ℕ) → bit_or a 0 ≡ a
bit_or-zero a = bit_or-zero_below a a (le_refl _)

zero-bit_or : (b : ℕ) → bit_or 0 b ≡ b
zero-bit_or b = bit_or-bitwise 0 b

mul-two_pow : (q k : ℕ) → q * 2 ^ suc k ≡ 2 * (q * 2 ^ k)
mul-two_pow q k = omega (arith, ap (λ (t : ℕ). q * t) (pow-suc 2 k))

-- `r | (q << k)` is a sum when `r` fits `k` bits.
pub bit_or_fields : (k q r : ℕ) → r < 2 ^ k → bit_or r (q * 2 ^ k) ≡ r + q * 2 ^ k
bit_or_fields zero q zero h = omega (arith, zero-bit_or (q * 2 ^ 0))
bit_or_fields zero q (suc r) h = absurd (omega arith)
bit_or_fields (suc k) q r h = ground (
  arith,
  bit_or_step r (q * 2 ^ suc k),
  mul-two_pow q k,
  pow-suc 2 k,
  bit_or_fields k q (r / 2) (omega (arith, pow-suc 2 k)),
)

masked : (k q r : ℕ) → r < 2 ^ k → bit_and (q * 2 ^ k + r) (2 ^ k - 1) ≡ r
masked zero q r h = rw bit_and-zero (omega arith)
masked (suc k) q r h = ground (
  arith,
  bit_and_step (q * 2 ^ suc k + r) (2 ^ suc k - 1),
  mul-two_pow q k,
  pow-suc 2 k,
  one-le-pow k 2,
  masked k q (r / 2) (omega (arith, pow-suc 2 k)),
)

-- `a & (2 ^ k - 1)` keeps the low bits.
pub bit_and_mask : (k a : ℕ) → bit_and a (2 ^ k - 1) ≡ a % 2 ^ k
bit_and_mask k a = ground (arith, one-le-pow k 2, masked k (a / 2 ^ k) (a % 2 ^ k))

-- Xor stays within a width, and undoes itself.
pub bit_xor-lt : (n a b : ℕ) → a < 2 ^ n → b < 2 ^ n → bit_xor a b < 2 ^ n
bit_xor-lt zero zero zero h k = omega arith
bit_xor-lt zero (suc a) b h k = absurd (omega arith)
bit_xor-lt zero a (suc b) h k = absurd (omega arith)
bit_xor-lt (suc n) a b h k = omega (
  arith,
  pow-suc 2 n,
  bit_xor_step a b,
  bit_xor-lt n (a / 2) (b / 2) (omega (arith, pow-suc 2 n)) (omega (arith, pow-suc 2 n)),
)

xor_cancel_below : (n a b : ℕ) → a ≤ n → b ≤ n → bit_xor (bit_xor a b) b ≡ a
xor_cancel_below zero zero zero h k = refl
xor_cancel_below zero (suc a) b h k = absurd (omega arith)
xor_cancel_below zero a (suc b) h k = absurd (omega arith)
xor_cancel_below (suc n) a b h k =
    let half : bit_xor a b / 2 ≡ bit_xor (a / 2) (b / 2) = omega (arith, bit_xor_step a b) in
    omega (
      arith,
      bit_xor_step (bit_xor a b) b,
      bit_xor_step a b,
      ap (λ t. bit_xor t (b / 2)) half,
      xor_cancel_below n (a / 2) (b / 2) (omega arith) (omega arith),
    )

pub xor_cancel : (a b : ℕ) → bit_xor (bit_xor a b) b ≡ a
xor_cancel a b = xor_cancel_below (a + b) a b (omega arith) (omega arith)

pub xor_injective : (a b c : ℕ) → bit_xor a c ≡ bit_xor b c → a ≡ b
xor_injective a b c h = sym (xor_cancel a c) ∙ ap (λ t. bit_xor t c) h ∙ xor_cancel b c

pub bit_xor-parity : (a b : ℕ) → bit_xor a b % 2 ≡ (a + b) % 2
bit_xor-parity a b = omega (arith, bit_xor_step a b)

-- Xor with a number whose top bit is set sets the top bit of a shorter number.
pub bit_xor_top : (n a p : ℕ) → a < 2 ^ n → 2 ^ n ≤ p → p < 2 ^ suc n → 2 ^ n ≤ bit_xor a p
bit_xor_top zero zero p h lo hi = omega (arith, bit_xor-bitwise 0 p, pow-suc 2 0)
bit_xor_top zero (suc a) p h lo hi = absurd (omega arith)
bit_xor_top (suc n) a p h lo hi = omega (
  arith,
  pow-suc 2 n,
  pow-suc 2 (suc n),
  bit_xor_step a p,
  bit_xor_top n (a / 2) (p / 2) (omega (arith, pow-suc 2 n)) (omega (arith, pow-suc 2 n))
      (omega (arith, pow-suc 2 n, pow-suc 2 (suc n))),
)

bit_xor_comm_below : (n a b : ℕ) → a ≤ n → b ≤ n → bit_xor a b ≡ bit_xor b a
bit_xor_comm_below zero zero zero h k = refl
bit_xor_comm_below zero (suc a) b h k = absurd (omega arith)
bit_xor_comm_below zero a (suc b) h k = absurd (omega arith)
bit_xor_comm_below (suc n) a b h k = omega (
  arith,
  bit_xor_step a b,
  bit_xor_step b a,
  bit_xor_comm_below n (a / 2) (b / 2) (omega arith) (omega arith),
)

pub bit_xor_comm : (a b : ℕ) → bit_xor a b ≡ bit_xor b a
bit_xor_comm a b = bit_xor_comm_below (a + b) a b (omega arith) (omega arith)
