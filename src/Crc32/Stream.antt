-- ===== src/Crc32/Stream.antt =====
-- A checksum fed in chunks is the checksum of the whole, and it is a uint32_t.
use libromx.Prelude.{
  ℕ, zero, suc, ◌/◌, ◌%◌, ◌^◌, ◌<◌, bit_and, bit_xor, [], ◌∷◌, ◌++◌, ◌≡◌, refl, arith, All, inl,
  inr, ◌⊎◌,
}
use libromx.Prelude.Bits.{bit_and_mask, bit_and-zero, bit_xor-lt}
use libromx.Bytes.{Bytes, IsByte}
use libromx.Crc32.{polynomial, crc_bit, crc_bits, crc32_update, crc32}

-- The mask takes the polynomial or nothing, by the low bit.
pub crc_bit_even : (crc : ℕ) → crc % 2 ≡ 0 → crc_bit crc ≡ bit_xor (crc / 2) 0
unfolding crc_bit
crc_bit_even crc h =
    let low : bit_and crc 1 ≡ 0 = omega (arith, bit_and_mask 1 crc) in
    rw (low, bit_and-zero polynomial) refl

pub crc_bit_odd : (crc : ℕ) → crc % 2 ≡ 1 → crc_bit crc ≡ bit_xor (crc / 2) polynomial
unfolding crc_bit
crc_bit_odd crc h = let low : bit_and crc 1 ≡ 1 = omega (arith, bit_and_mask 1 crc) in rw low refl

parity : (n : ℕ) → (n % 2 ≡ 0) ⊎ (n % 2 ≡ 1)
parity n = omega arith

pub crc_bit-lt : (crc : ℕ) → crc < 2 ^ 32 → crc_bit crc < 2 ^ 32
crc_bit-lt crc h = elim (parity crc) [
  | inl even ↦ rw (crc_bit_even crc even) (bit_xor-lt 32 (crc / 2) 0 (omega arith) (omega arith))
  | inr odd ↦
      rw (crc_bit_odd crc odd) (bit_xor-lt 32 (crc / 2) polynomial (omega arith) (omega arith))
]

pub crc_bits-lt : (n crc : ℕ) → crc < 2 ^ 32 → crc_bits n crc < 2 ^ 32
unfolding crc_bits
crc_bits-lt zero crc h = h
crc_bits-lt (suc n) crc h = crc_bits-lt n (crc_bit crc) (crc_bit-lt crc h)

pub crc32_update-lt :
    (bytes : Bytes) (crc : ℕ) → All IsByte bytes → crc < 2 ^ 32 → crc32_update crc bytes < 2 ^ 32
unfolding crc32_update
crc32_update-lt [] crc hb h = h
crc32_update-lt (b ∷ bytes) crc (hb, hbs) h =
    crc32_update-lt bytes _ hbs
      (crc_bits-lt 8 (bit_xor crc b) (bit_xor-lt 32 crc b h (omega arith)))

-- The checksum of bytes is a uint32_t.
pub crc32-lt : (bytes : Bytes) → All IsByte bytes → crc32 bytes < 2 ^ 32
unfolding crc32
crc32-lt bytes h =
    bit_xor-lt 32 _ 0xffffffff (crc32_update-lt bytes 0xffffffff h (omega arith)) (omega arith)

-- Feeding `xs` and then `ys` is feeding both at once.
pub crc32_update-append :
    (xs ys : Bytes) (crc : ℕ) → crc32_update crc (xs ++ ys) ≡ crc32_update (crc32_update crc xs) ys
unfolding crc32_update
crc32_update-append [] ys crc = refl
crc32_update-append (x ∷ xs) ys crc = crc32_update-append xs ys _
