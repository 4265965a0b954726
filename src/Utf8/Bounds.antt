-- ===== src/Utf8/Bounds.antt =====
-- romx_utf8_validate of src/json.c: the offset that it reports is one of the text.
use libromx.Prelude.{
  ℕ, zero, suc, ◌+◌, ◌≤◌, bit_and, ◌≡◌, Bool, true, false, not, Option, none, some, [], ◌∷◌, arith,
  ltb, ◌==◌, if◌then◌else◌, length,
}
use libromx.Bytes.{Bytes}
use libromx.Utf8.{
  Lead, ascii, refused, multi, lead_of, Tail, complete, broken, read_tail, Step, advance, fault,
  no_scalar, check_scalar, step_form, utf8_loop, utf8_bad_offset,
}

-- A form takes the bytes that it announces, or breaks off at one of them.
data TailIn (left index : ℕ) (bytes : Bytes) : Tail → Type 0 where
  complete_in :
      {value : ℕ} {rest : Bytes}
      → length rest + left ≡ length bytes
      → TailIn left index bytes (complete value rest)
  broken_in : {at : ℕ} → at ≤ index + length bytes → TailIn left index bytes (broken at)

TailIn-later :
    {left index next : ℕ} {bytes : Bytes} {tail : Tail}
    → TailIn left (index + 1) bytes tail
    → TailIn (suc left) index (next ∷ bytes) tail
TailIn-later (complete_in e) = complete_in (omega arith)
TailIn-later (broken_in le) = broken_in (omega arith)

TailIn-if :
    {left index : ℕ} {bytes : Bytes} (b : Bool) {x y : Tail}
    → TailIn left index bytes x
    → TailIn left index bytes y
    → TailIn left index bytes (if b then x else y)
TailIn-if true hx hy = hx
TailIn-if false hx hy = hy

read_tail-TailIn :
    (left index value : ℕ) (bytes : Bytes)
    → TailIn left index bytes (read_tail left index value bytes)
unfolding read_tail
read_tail-TailIn zero index value bytes = complete_in (omega arith)
read_tail-TailIn (suc left) index value [] = broken_in (omega arith)
read_tail-TailIn (suc left) index value (next ∷ bytes) =
    TailIn-if (not (bit_and next 0xc0 == 0x80)) (broken_in (omega arith))
      (TailIn-later (read_tail-TailIn left (index + 1) _ bytes))

-- A round passes some of the bytes, or finds a fault in one of them.
data StepIn (size : ℕ) : Step → Type 0 where
  advance_in :
      {count : ℕ} {rest : Bytes} → length rest + count ≤ size → StepIn size (advance count rest)
  fault_in : {at : ℕ} → at ≤ size → StepIn size (fault at)

StepIn-if :
    {size : ℕ} (b : Bool) {x y : Step}
    → StepIn size x
    → StepIn size y
    → StepIn size (if b then x else y)
StepIn-if true hx hy = hx
StepIn-if false hx hy = hy

check_scalar-StepIn :
    (more minimum : ℕ) (bytes : Bytes) (tail : Tail)
    → TailIn more 1 bytes tail
    → StepIn (suc (length bytes)) (check_scalar more minimum tail)
check_scalar-StepIn more minimum bytes _ (complete_in {value} e) =
    StepIn-if (no_scalar value minimum) (fault_in (omega arith)) (advance_in (omega arith))
check_scalar-StepIn more minimum bytes _ (broken_in le) = fault_in (omega arith)

step_form-StepIn :
    (lead : Lead) (bytes : Bytes) → StepIn (suc (length bytes)) (step_form lead bytes)
step_form-StepIn ascii bytes = advance_in (omega arith)
step_form-StepIn refused bytes = fault_in (omega arith)
step_form-StepIn (multi more value minimum) bytes =
    StepIn-if (ltb (length bytes) more) (fault_in (omega arith))
      (check_scalar-StepIn more minimum bytes _ (read_tail-TailIn more 1 value bytes))

data OffsetIn (low high : ℕ) : Option ℕ → Type 0 where
  no_offset : OffsetIn low high none
  offset_in : {offset : ℕ} → low ≤ offset → offset ≤ high → OffsetIn low high (some offset)

OffsetIn-widen :
    {low high least most : ℕ} {o : Option ℕ}
    → OffsetIn low high o
    → least ≤ low
    → high ≤ most
    → OffsetIn least most o
OffsetIn-widen no_offset l h = no_offset
OffsetIn-widen (offset_in a b) l h = offset_in (omega arith) (omega arith)

step-OffsetIn :
    (fuel position size : ℕ) (step : Step)
    → StepIn size step
    → ((count : ℕ) (rest : Bytes)
        → OffsetIn
            (position + count)
            (position + count + length rest)
            (utf8_loop fuel (position + count) rest))
    → OffsetIn position (position + size) (elim step [
      | advance count rest ↦ utf8_loop fuel (position + count) rest
      | fault index ↦ some (position + index)
    ])
step-OffsetIn fuel position size _ (advance_in {count} {rest} le) loop =
    OffsetIn-widen (loop count rest) (omega arith) (omega arith)
step-OffsetIn fuel position size _ (fault_in le) loop = offset_in (omega arith) (omega arith)

utf8_loop-OffsetIn :
    (fuel position : ℕ) (bytes : Bytes)
    → OffsetIn position (position + length bytes) (utf8_loop fuel position bytes)
unfolding utf8_loop
utf8_loop-OffsetIn fuel position [] = no_offset
utf8_loop-OffsetIn zero position (first ∷ bytes) = offset_in (omega arith) (omega arith)
utf8_loop-OffsetIn (suc fuel) position (first ∷ bytes) =
    step-OffsetIn fuel position (suc (length bytes)) (step_form (lead_of first) bytes)
      (step_form-StepIn (lead_of first) bytes)
      λ count rest. utf8_loop-OffsetIn fuel (position + count) rest

pub utf8_bad_offset-le :
    (bytes : Bytes) {offset : ℕ} → utf8_bad_offset bytes ≡ some offset → offset ≤ length bytes
unfolding utf8_bad_offset
utf8_bad_offset-le bytes h = go (utf8_loop-OffsetIn (length bytes) 0 bytes) h
  where
    go :
        {o : Option ℕ} {offset : ℕ}
        → OffsetIn 0 (0 + length bytes) o
        → o ≡ some offset
        → offset ≤ length bytes
    go no_offset e = cc
    go (offset_in l h) e = ground arith
