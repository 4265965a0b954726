-- ===== src/Utf8.antt =====
-- romx_utf8_validate of src/json.c: the walk over a text that refuses overlong forms, surrogates and
-- values beyond 0x10ffff, and reports where it gives up.
pub mod Bounds
use libromx.Prelude.{
  ℕ, zero, suc, ◌+◌, ◌*◌, ◌^◌, bit_and, bit_or, Bool, true, false, not, ◌&&◌, ◌||◌, Option, none,
  some, [], ◌∷◌, ltb, leb, ◌==◌, if◌then◌else◌, length,
}
use libromx.Bytes.{Bytes}

-- What a first byte announces: itself, or `more` bytes with the bits and the least value of the form.
pub data Lead : Type 0 where
  ascii refused : Lead
  multi : ℕ → ℕ → ℕ → Lead

unfoldable pub lead_of : ℕ → Lead
lead_of first =
    if ltb first 0x80
    then ascii
    else if leb 0xc2 first && leb first 0xdf
    then multi 1 (bit_and first 0x1f) 0x80
    else if leb 0xe0 first && leb first 0xef
    then multi 2 (bit_and first 0x0f) 0x800
    else if leb 0xf0 first && leb first 0xf4
    then multi 3 (bit_and first 0x07) 0x10000
    else refused

-- The rest of a form: its value and the bytes behind it, or the index of a byte that is no continuation.
pub data Tail : Type 0 where
  complete : ℕ → Bytes → Tail
  broken : ℕ → Tail

unfoldable pub read_tail : ℕ → ℕ → ℕ → Bytes → Tail
read_tail zero index value bytes = complete value bytes
read_tail (suc left) index value [] = broken index
read_tail (suc left) index value (next ∷ bytes) =
    if not (bit_and next 0xc0 == 0x80)
    then broken index
    else read_tail left (index + 1) (bit_or (bit_and next 0x3f) (value * 2 ^ 6)) bytes

-- `value < minimum || value > 0x10ffff || (value >= 0xd800 && value <= 0xdfff)`
unfoldable pub no_scalar : ℕ → ℕ → Bool
no_scalar value minimum =
    ltb value minimum || ltb 0x10ffff value || leb 0xd800 value && leb value 0xdfff

-- One round of the loop: the bytes that it leaves, or the offset of the fault behind the position.
pub data Step : Type 0 where
  advance : ℕ → Bytes → Step
  fault : ℕ → Step

abbrev pub check_scalar : ℕ → ℕ → Tail → Step
check_scalar more minimum (complete value bytes) =
    if no_scalar value minimum then fault 0 else advance (more + 1) bytes
check_scalar more minimum (broken index) = fault index

abbrev pub step_form : Lead → Bytes → Step
step_form ascii bytes = advance 1 bytes
step_form refused bytes = fault 0
step_form (multi more value minimum) bytes =
    if ltb (length bytes) more
    then fault 0
    else check_scalar more minimum (read_tail more 1 value bytes)

-- `while (position < size)`, with a round for each byte: `none` for a valid text, or `bad_offset`.
-- The case without fuel is not reached, since a round takes a byte at least.
unfoldable pub utf8_loop : ℕ → ℕ → Bytes → Option ℕ
utf8_loop fuel position [] = none
utf8_loop zero position (first ∷ bytes) = some position
utf8_loop (suc fuel) position (first ∷ bytes) = elim (step_form (lead_of first) bytes) [
  | advance count rest ↦ utf8_loop fuel (position + count) rest
  | fault index ↦ some (position + index)
]

unfoldable pub utf8_bad_offset : Bytes → Option ℕ
unfolding utf8_loop
utf8_bad_offset bytes = utf8_loop (length bytes) 0 bytes

abbrev is_none : Option ℕ → Bool
is_none none = true
is_none (some n) = false

unfoldable pub utf8_validate : Bytes → Bool
utf8_validate bytes = is_none (utf8_bad_offset bytes)
