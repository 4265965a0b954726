-- ===== src/Cursor.antt =====
-- A position in an extent, the origins of a seek, and the addition of a signed offset: romx_vfs_add_offset
-- and the switch of src/vfs_file.c, which those of src/mutable.c repeat and share here; src/payload_file.c
-- has its own. The `int64_t` of a seek is a ℤ over the native numbers, negsuc n for -(n + 1). Null
-- handles are left out.
use libromx.Prelude.{
  ℕ, ◌+◌, ◌-◌, ◌^◌, ◌<◌, ◌≡◌, refl, inl, inr, true, false, Option, none, some, arith, ltb, leb,
  if◌then◌else◌, Bool-cases,
}
use libromx.Outcome.{
  invalid_argument, range, Outcome, ok, error_set, refuse_if, offset_unknown, ◌>>◌,
}

pub data ℤ : Type 0 where
  pos negsuc : ℕ → ℤ

-- romx_payload_seek_position_t, with the values that no constant names.
pub data Origin : Type 0 where
  seek_start seek_current seek_end : Origin
  seek_other : ℕ → Origin

-- romx_vfs_add_offset; `(uint64_t)(-(offset + 1)) + 1` is n + 1 for -(n + 1).
unfoldable pub add_offset : ℕ → ℤ → Outcome ℕ
add_offset base (pos n) = do
  refuse_if (ltb (2 ^ 64 - 1 - n) base) range offset_unknown
  ok (base + n)
add_offset base (negsuc n) = do
  refuse_if (ltb base (n + 1)) range offset_unknown
  ok (base - (n + 1))

-- The `switch` of a seek.
unfoldable pub seek_base : ℕ → ℕ → Origin → Outcome ℕ
seek_base size position seek_start = ok 0
seek_base size position seek_current = ok position
seek_base size position seek_end = ok size
seek_base size position (seek_other n) = error_set invalid_argument offset_unknown

-- The offset lies in the range of int64_t.
abbrev pub IsInt64 : ℤ → Type 0
IsInt64 (pos n) = n < 2 ^ 63
IsInt64 (negsuc n) = n < 2 ^ 63

-- The sum, when it is a number from 0 to UINT64_MAX.
abbrev pub signed_sum : ℕ → ℤ → Option ℕ
signed_sum base (pos n) = if ltb (base + n) (2 ^ 64) then some (base + n) else none
signed_sum base (negsuc n) = if leb (n + 1) base then some (base - (n + 1)) else none

abbrev pub sum_or_refused : Option ℕ → Outcome ℕ
sum_or_refused (some n) = ok n
sum_or_refused none = error_set range offset_unknown

-- The addition never wraps: it gives the exact sum when that is a uint64_t value, and a range error
-- otherwise, for every uint64_t base and every int64_t offset, the least one included.
pub add_offset-signed_sum :
    (base : ℕ) (offset : ℤ)
    → base < 2 ^ 64
    → IsInt64 offset
    → add_offset base offset ≡ sum_or_refused (signed_sum base offset)
unfolding add_offset
add_offset-signed_sum base (pos n) h k = elim (Bool-cases (ltb (base + n) (2 ^ 64))) [
  | inl fits ↦ let e : ltb (2 ^ 64 - 1 - n) base ≡ false = ground arith in rw (fits, e) refl
  | inr over ↦ let e : ltb (2 ^ 64 - 1 - n) base ≡ true = ground arith in rw (over, e) refl
]
add_offset-signed_sum base (negsuc n) h k = elim (Bool-cases (leb (n + 1) base)) [
  | inl fits ↦ let e : ltb base (n + 1) ≡ false = ground arith in rw (fits, e) refl
  | inr over ↦ let e : ltb base (n + 1) ≡ true = ground arith in rw (over, e) refl
]
