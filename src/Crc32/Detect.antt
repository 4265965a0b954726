-- ===== src/Crc32/Detect.antt =====
-- The checksum tells apart any two messages that differ in one byte.
use libromx.Prelude.{
  ℕ, zero, suc, ◌/◌, ◌%◌, ◌^◌, ◌<◌, bit_xor, [], ◌∷◌, ◌++◌, ◌≡◌, ◌≢◌, sym, arith, All, inl, inr,
  ◌⊎◌, ◌∙◌,
}
use libromx.Prelude.Bits.{bit_xor-lt, bit_xor_top, xor_injective, bit_xor_comm}
use libromx.Bytes.{Bytes, IsByte}
use libromx.Crc32.{polynomial, crc_bit, crc_bits, crc32_update, crc32}
use libromx.Crc32.Stream.{
  crc_bit_even, crc_bit_odd, crc_bit-lt, crc_bits-lt, crc32_update-lt, crc32_update-append,
}

parity : (n : ℕ) → (n % 2 ≡ 0) ⊎ (n % 2 ≡ 1)
parity n = omega arith

-- The polynomial has its top bit set, so an odd register never meets an even one.
odd-ne-even : (a b : ℕ) → a < 2 ^ 32 → b < 2 ^ 32 → bit_xor (a / 2) polynomial ≢ bit_xor (b / 2) 0
odd-ne-even a b h k e = absurd (
    omega (
      arith,
      bit_xor_top 31 (a / 2) polynomial (omega arith) (omega arith) (omega arith),
      bit_xor-lt 31 (b / 2) 0 (omega arith) (omega arith),
    ))

crc_bit_injective : (a b : ℕ) → a < 2 ^ 32 → b < 2 ^ 32 → crc_bit a ≡ crc_bit b → a ≡ b
crc_bit_injective a b h k e = elim (parity a) [
  | inl ea ↦ elim (parity b) [
    | inl eb ↦
        omega
          (arith, xor_injective (a / 2) (b / 2) 0 (sym (crc_bit_even a ea) ∙ e ∙ crc_bit_even b eb))
    | inr ob ↦ absurd (odd-ne-even b a k h (sym (crc_bit_odd b ob) ∙ sym e ∙ crc_bit_even a ea))
  ]
  | inr oa ↦ elim (parity b) [
    | inl eb ↦ absurd (odd-ne-even a b h k (sym (crc_bit_odd a oa) ∙ e ∙ crc_bit_even b eb))
    | inr ob ↦ omega (
      arith,
      xor_injective (a / 2) (b / 2) polynomial (sym (crc_bit_odd a oa) ∙ e ∙ crc_bit_odd b ob),
    )
  ]
]

crc_bits_injective : (n a b : ℕ) → a < 2 ^ 32 → b < 2 ^ 32 → crc_bits n a ≡ crc_bits n b → a ≡ b
unfolding crc_bits
crc_bits_injective zero a b h k e = e
crc_bits_injective (suc n) a b h k e =
    crc_bit_injective a b h k
      (crc_bits_injective n (crc_bit a) (crc_bit b) (crc_bit-lt a h) (crc_bit-lt b k) e)

-- Different registers stay different under the same bytes.
crc32_update_injective :
    (bytes : Bytes) (a b : ℕ)
    → All IsByte bytes
    → a < 2 ^ 32
    → b < 2 ^ 32
    → crc32_update a bytes ≡ crc32_update b bytes
    → a ≡ b
unfolding crc32_update
crc32_update_injective [] a b hb h k e = e
crc32_update_injective (x ∷ bytes) a b (hx, hxs) h k e =
    let ax = bit_xor-lt 32 a x h (omega arith) in
    let bx = bit_xor-lt 32 b x k (omega arith) in
    xor_injective a b x (
      crc_bits_injective 8 (bit_xor a x) (bit_xor b x) ax bx
        (crc32_update_injective bytes _ _ hxs (crc_bits-lt 8 _ ax) (crc_bits-lt 8 _ bx) e))

xor_left_injective : (a b c : ℕ) → bit_xor c a ≡ bit_xor c b → a ≡ b
xor_left_injective a b c e = xor_injective a b c (bit_xor_comm a c ∙ e ∙ bit_xor_comm c b)

-- Two messages that differ in exactly one byte have different checksums.
pub crc32_detects_byte :
    (front back : Bytes) (x y : ℕ)
    → All IsByte front
    → All IsByte back
    → x < 256
    → y < 256
    → x ≢ y
    → crc32 (front ++ (x ∷ back)) ≢ crc32 (front ++ (y ∷ back))
unfolding crc32 crc32_update
crc32_detects_byte front back x y hf hb hx hy ne e =
    let c = crc32_update 0xffffffff front in
    let hc = crc32_update-lt front 0xffffffff hf (omega arith) in
    let cx = bit_xor-lt 32 c x hc (omega arith) in
    let cy = bit_xor-lt 32 c y hc (omega arith) in
    let whole = xor_injective _ _ 0xffffffff e in
    let split =
      sym (crc32_update-append front (x ∷ back) 0xffffffff)
      ∙ whole
      ∙ crc32_update-append front (y ∷ back) 0xffffffff in
    ne (
      xor_left_injective x y c (
        crc_bits_injective 8 (bit_xor c x) (bit_xor c y) cx cy
          (crc32_update_injective back _ _ hb (crc_bits-lt 8 _ cx) (crc_bits-lt 8 _ cy) split)))
