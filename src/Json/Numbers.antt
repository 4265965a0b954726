-- ===== src/Json/Numbers.antt =====
-- romx_json_integer of src/json.c against the value of a numeral, and the numerals that src/mutable_stats.c
-- prints.
use libromx.Prelude.{
  ℕ, ◌+◌, ◌-◌, ◌*◌, ◌/◌, ◌^◌, ◌≤◌, ◌<◌, ◌≡◌, refl, inl, inr, Bool, true, false, ◌&&◌, none, some,
  [], ◌∷◌, arith, ltb, if◌then◌else◌, Bool-cases,
}
use libromx.Bytes.{Bytes}
use libromx.Json.Scan.{is_digit}
use libromx.Json.Lookup.{digit_loop}

abbrev pub all_digits : Bytes → Bool
all_digits [] = true
all_digits (byte ∷ bytes) = is_digit byte && all_digits bytes

-- The number that digits stand for, behind those that stand for `high`.
abbrev pub numeral : Bytes → ℕ → ℕ
numeral [] high = high
numeral (byte ∷ bytes) high = numeral bytes (high * 10 + (byte - 0x30))

numeral-ge : (bytes : Bytes) (high : ℕ) → high ≤ numeral bytes high
numeral-ge [] high = omega arith
numeral-ge (byte ∷ bytes) high = omega (arith, numeral-ge bytes (high * 10 + (byte - 0x30)))

-- The test before a digit is taken is exact: it fails just when the longer number does not fit.
overflow-le :
    (high digit : ℕ)
    → digit ≤ 9
    → ltb ((2 ^ 64 - 1 - digit) / 10) high ≡ true
    → 2 ^ 64 ≤ high * 10 + digit
overflow-le high digit h over = ground arith

fits-lt :
    (high digit : ℕ)
    → digit ≤ 9
    → ltb ((2 ^ 64 - 1 - digit) / 10) high ≡ false
    → high * 10 + digit < 2 ^ 64
fits-lt high digit h fits = ground arith

digit_le : (byte : ℕ) → is_digit byte ≡ true → byte - 0x30 ≤ 9
unfolding is_digit
digit_le byte h = ground arith

not_lt : (a b : ℕ) → b ≤ a → ltb a b ≡ false
not_lt a b h = ground arith

and_false : (b : Bool) → (b && false) ≡ false
and_false true = refl
and_false false = refl

-- Digits are read as the number that they stand for, or refused if it does not fit 64 bits; other bytes are refused.
pub digit_loop-eq :
    (bytes : Bytes) (high : ℕ)
    → high < 2 ^ 64
    → digit_loop bytes high ≡ (
        if all_digits bytes && ltb (numeral bytes high) (2 ^ 64)
        then some (numeral bytes high)
        else none)
unfolding digit_loop
digit_loop-eq [] high h = let fits : ltb high (2 ^ 64) ≡ true = ground arith in rw fits refl
digit_loop-eq (byte ∷ bytes) high h = elim (Bool-cases (is_digit byte)) [
  | inr other ↦ rw other refl
  | inl digit ↦ elim (Bool-cases (ltb ((2 ^ 64 - 1 - (byte - 0x30)) / 10) high)) [
    | inl over ↦
        let long : 2 ^ 64 ≤ high * 10 + (byte - 0x30) =
          overflow-le high (byte - 0x30) (digit_le byte digit) over in
        let wide : ltb (numeral bytes (high * 10 + (byte - 0x30))) (2 ^ 64) ≡ false =
          not_lt _ _ (omega (arith, long, numeral-ge bytes (high * 10 + (byte - 0x30)))) in
        rw (digit, over, wide, and_false (all_digits bytes)) refl
    | inr fits ↦
        rw (digit, fits)
          (digit_loop-eq bytes (high * 10 + (byte - 0x30))
            (fits-lt high (byte - 0x30) (digit_le byte digit) fits))
  ]
]
