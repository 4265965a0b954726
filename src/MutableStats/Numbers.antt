-- ===== src/MutableStats/Numbers.antt =====
-- The numbers that romx_mutable_stats_serialize_json of src/mutable_stats.c prints, as romx_json_integer
-- reads them.
use libromx.Prelude.{
  ℕ, zero, suc, ◌+◌, ◌-◌, ◌*◌, ◌/◌, ◌%◌, ◌^◌, ◌≤◌, ◌<◌, ◌≡◌, refl, ap, ◌∙◌, inl, inr, true, false,
  some, [], ◌∷◌, ◌++◌, arith, ltb, ◌==◌, Bool-cases, length, take, drop, take-append, drop-append,
}
use native.Mathlib.Nat.{pow-suc}
use libromx.Bytes.{Bytes, byte_at}
use libromx.Json.Scan.{is_digit}
use libromx.Json.Lookup.{digit_loop, pos, signed, sign_digits, signed_digits, number_value}
use libromx.Json.Numbers.{all_digits, numeral, digit_loop-eq}
use libromx.MutableStats.Serialize.{decimal_loop, decimal}

numeral-decimal_loop :
    (fuel value : ℕ) (digits : Bytes)
    → value < 10 ^ fuel
    → numeral (decimal_loop fuel value digits) 0 ≡ numeral digits value
unfolding decimal_loop
numeral-decimal_loop zero value digits h =
    let none_left : value ≡ 0 = omega arith in rw none_left refl
numeral-decimal_loop (suc fuel) value digits h = elim (Bool-cases (ltb value 10)) [
  | inl single ↦
      let same : 0 * 10 + (value % 10 + 0x30 - 0x30) ≡ value = ground arith in
      rw single (ap (numeral digits) same)
  | inr more ↦
      let same : value / 10 * 10 + (value % 10 + 0x30 - 0x30) ≡ value = omega arith in
      rw more (
        numeral-decimal_loop fuel (value / 10) ((value % 10 + 0x30) ∷ digits)
          (omega (arith, pow-suc 10 fuel))
        ∙ ap (numeral digits) same)
]

digit_is_digit : (value : ℕ) → is_digit (value % 10 + 0x30) ≡ true
unfolding is_digit
digit_is_digit value = ground arith

all_digits-decimal_loop :
    (fuel value : ℕ) (digits : Bytes)
    → all_digits digits ≡ true
    → all_digits (decimal_loop fuel value digits) ≡ true
unfolding decimal_loop
all_digits-decimal_loop zero value digits h = h
all_digits-decimal_loop (suc fuel) value digits h = elim (Bool-cases (ltb value 10)) [
  | inl single ↦ rw (single, digit_is_digit value) h
  | inr more ↦ rw more (
      all_digits-decimal_loop fuel (value / 10) ((value % 10 + 0x30) ∷ digits)
        (rw (digit_is_digit value) h))
]

length-decimal_loop_pos :
    (fuel value : ℕ) (digits : Bytes) → length digits ≤ length (decimal_loop fuel value digits)
unfolding decimal_loop
length-decimal_loop_pos zero value digits = omega arith
length-decimal_loop_pos (suc fuel) value digits =
    ground (arith, length-decimal_loop_pos fuel (value / 10) ((value % 10 + 0x30) ∷ digits))

-- A text that starts with digits has no sign.
no_sign :
    (digits after : Bytes)
    → 0 < length digits
    → all_digits digits ≡ true
    → (byte_at (digits ++ after) 0 == 0x2d) ≡ false
unfolding is_digit
no_sign [] after some_digit h = absurd (omega arith)
no_sign (digit ∷ digits) after some_digit h = ground arith

get_or-append : (before after : Bytes) → byte_at (before ++ after) (length before) ≡ byte_at after 0
get_or-append [] after = refl
get_or-append (byte ∷ before) after = get_or-append before after

length-decimal_pos : (value : ℕ) → 0 < length (decimal value)
unfolding decimal decimal_loop
length-decimal_pos value =
    ground (arith, length-decimal_loop_pos 19 (value / 10) ((value % 10 + 0x30) ∷ []))

all_digits-decimal : (value : ℕ) → all_digits (decimal value) ≡ true
unfolding decimal
all_digits-decimal value = all_digits-decimal_loop 20 value [] refl

signed-fits : (value : ℕ) → value < 2 ^ 63 → signed false value ≡ some (pos value)
unfolding signed
signed-fits value h = let fits : ltb (2 ^ 63 - 1) value ≡ false = ground arith in rw fits refl

digit_loop-decimal : (value : ℕ) → value < 2 ^ 64 → digit_loop (decimal value) 0 ≡ some value
unfolding decimal
digit_loop-decimal value h =
    let whole : numeral (decimal_loop 20 value []) 0 ≡ value =
      numeral-decimal_loop 20 value [] (omega arith) in
    let digits : all_digits (decimal_loop 20 value []) ≡ true =
      all_digits-decimal_loop 20 value [] refl in
    let fits : ltb value (2 ^ 64) ≡ true = ground arith in
    digit_loop-eq (decimal_loop 20 value []) 0 (omega arith) ∙ rw (digits, whole, fits) refl

printed_slice :
    (before text after : Bytes)
    → take
        (length before + length text - length before)
        (drop (length before) (before ++ (text ++ after)))
      ≡ text
printed_slice before text after =
    let size : length before + length text - length before ≡ length text = omega arith in
    ap (λ n. take n (drop (length before) (before ++ (text ++ after)))) size
    ∙ ap (take (length text)) (drop-append before (text ++ after) (length before) refl)
    ∙ take-append text after (length text) refl

-- A number below 2 ^ 63 that is printed anywhere in a text is read back by romx_json_integer as that number.
pub number_value-decimal :
    (before after : Bytes) (value : ℕ)
    → value < 2 ^ 63
    → number_value
        (before ++ (decimal value ++ after))
        (length before)
        (length before + length (decimal value))
      ≡ some (pos value)
unfolding number_value
number_value-decimal before after value h =
    let text = before ++ (decimal value ++ after) in
    let unsigned : (byte_at text (length before) == 0x2d) ≡ false =
      ap (λ byte. byte == 0x2d) (get_or-append before (decimal value ++ after))
      ∙ no_sign (decimal value) after (length-decimal_pos value) (all_digits-decimal value) in
    ap (signed_digits text (length before) (length before + length (decimal value))) unsigned
    ∙ ap (λ digits. sign_digits false (digit_loop digits 0))
        (printed_slice before (decimal value) after)
    ∙ ap (sign_digits false) (digit_loop-decimal value (omega arith))
    ∙ signed-fits value h
