-- ===== src/Json/Bounds.antt =====
-- src/json.c: how far the scans of strings, numbers and spaces move the position.
use libromx.Prelude.{
  ℕ, zero, suc, ◌+◌, ◌≤◌, ◌<◌, ◌≡◌, refl, inl, inr, Bool, true, false, ◌&&◌, ◌||◌, some, [], ◌∷◌,
  arith, ltb, leb, ◌==◌, if◌then◌else◌, Option-cases, length, drop, length-drop,
}
use libromx.Bytes.{Bytes, byte_at}
use libromx.Json.Result.{
  parsed, rejected, Ends, with_value, with_offset, Ends-bind, Ends-if, Ends-map,
}
use libromx.Json.Scan.{
  span, skip, at, is_digit, digit_at, digits, Round, closed, next, bad, read_hex4, low_follows,
  is_high, is_low, is_simple_escape, unicode_escape, string_escape, string_round, string_loop,
  scan_string, scan_integer, scan_fraction, skip_sign, scan_exponent, scan_number,
}

span_le : (class : ℕ → Bool) (bytes : Bytes) → span class bytes ≤ length bytes
unfolding span
span_le class [] = omega arith
span_le class (byte ∷ bytes) = ground (arith, span_le class bytes)

pub skip_ge :
    (class : ℕ → Bool) (bytes : Bytes) (position : ℕ) → position ≤ skip class bytes position
unfolding skip
skip_ge class bytes position = omega arith

pub skip_le :
    (class : ℕ → Bool) (bytes : Bytes) (position : ℕ)
    → position ≤ length bytes
    → skip class bytes position ≤ length bytes
unfolding skip
skip_le class bytes position h =
    omega (arith, span_le class (drop position bytes), length-drop position bytes)

pub at_lt :
    (bytes : Bytes) (position byte : ℕ) → at bytes position byte ≡ true → position < length bytes
unfolding at
at_lt bytes position byte h = ground arith

pub digit_at_lt :
    (bytes : Bytes) (position : ℕ) → digit_at bytes position ≡ true → position < length bytes
unfolding digit_at
digit_at_lt bytes position h = ground arith

pub digits_gt : (bytes : Bytes) (position : ℕ) → position < digits bytes position
unfolding digits
digits_gt bytes position = omega (arith, skip_ge is_digit bytes (position + 1))

pub digits_le :
    (bytes : Bytes) (position : ℕ) → position < length bytes → digits bytes position ≤ length bytes
unfolding digits
digits_le bytes position h = skip_le is_digit bytes (position + 1) (omega arith)

-- A scan goes on behind `position` and stays in the text.
abbrev pub Onward : ℕ → ℕ → ℕ → Type 0
Onward size position end = (position < end) × (end ≤ size)

data RoundIn (size position : ℕ) : Round → Type 0 where
  closes_in : {end : ℕ} → Onward size position end → RoundIn size position (closed end)
  next_in : {end : ℕ} → Onward size position end → RoundIn size position (next end)
  bad_in : {offset : ℕ} → offset ≤ size → RoundIn size position (bad offset)

RoundIn-later :
    {size position : ℕ} {r : Round} → RoundIn size (position + 1) r → RoundIn size position r
RoundIn-later (closes_in (lower, upper)) = closes_in (omega arith, upper)
RoundIn-later (next_in (lower, upper)) = next_in (omega arith, upper)
RoundIn-later (bad_in upper) = bad_in upper

RoundIn-if :
    {size position : ℕ} (b : Bool) {x y : Round}
    → (b ≡ true → RoundIn size position x)
    → (b ≡ false → RoundIn size position y)
    → RoundIn size position (if b then x else y)
RoundIn-if true hx hy = hx refl
RoundIn-if false hx hy = hy refl

read_hex4_room :
    (bytes : Bytes) (size position : ℕ) {value : ℕ}
    → read_hex4 bytes size position ≡ some value
    → position + 4 ≤ size
unfolding read_hex4
read_hex4_room bytes size position h = ground arith

low_follows_room :
    (bytes : Bytes) (position : ℕ)
    → position ≤ length bytes
    → low_follows bytes position ≡ true
    → position + 6 ≤ length bytes
unfolding low_follows
low_follows_room bytes position h e = ground arith

unicode_escape-RoundIn :
    (bytes : Bytes) (position : ℕ)
    → position ≤ length bytes
    → RoundIn (length bytes) position (unicode_escape bytes position)
unfolding unicode_escape
unicode_escape-RoundIn bytes position h =
    elim (Option-cases (read_hex4 bytes (length bytes) position)) [
      | inl missing ↦ rw (unicode_escape, missing) (bad_in h)
      | inr (first, found) ↦
          let room = read_hex4_room bytes (length bytes) position found in
          rw (unicode_escape, found)
            (RoundIn-if (is_high first)
              (λ high.
                RoundIn-if (low_follows bytes (position + 4))
                  (λ low.
                    next_in
                      (omega arith, omega (arith, low_follows_room bytes (position + 4) room low)))
                  (λ alone. bad_in room))
              (λ plain.
                RoundIn-if (is_low first) (λ low. bad_in h)
                  (λ scalar. next_in (omega arith, room))))
    ]

string_escape-RoundIn :
    (bytes : Bytes) (position : ℕ)
    → position ≤ length bytes
    → RoundIn (length bytes) position (string_escape bytes position)
unfolding string_escape
string_escape-RoundIn bytes position h =
    RoundIn-if (leb (length bytes) position) (λ past. bad_in h)
      λ inside.
        RoundIn-if (byte_at bytes position == 0x75)
          (λ u. RoundIn-later (unicode_escape-RoundIn bytes (position + 1) (ground arith)))
          (λ other.
            RoundIn-if (is_simple_escape (byte_at bytes position))
              (λ simple. next_in (omega arith, ground arith)) (λ unknown. bad_in h))

string_round-RoundIn :
    (bytes : Bytes) (start position : ℕ)
    → start ≤ length bytes
    → position ≤ length bytes
    → RoundIn (length bytes) position (string_round bytes start position)
unfolding string_round
string_round-RoundIn bytes start position hs h =
    RoundIn-if (leb (length bytes) position) (λ past. bad_in hs)
      λ inside.
        RoundIn-if (byte_at bytes position == 0x22) (λ quote. closes_in (omega arith, ground arith))
          λ other.
            RoundIn-if (ltb (byte_at bytes position) 0x20) (λ control. bad_in h)
              λ printable.
                RoundIn-if (byte_at bytes position == 0x5c)
                  (λ backslash.
                    RoundIn-later (string_escape-RoundIn bytes (position + 1) (ground arith)))
                  (λ plain. next_in (omega arith, ground arith))

abbrev LoopEnds : Bytes → ℕ → ℕ → ℕ → Type 0
LoopEnds bytes start fuel position =
    Ends (length bytes) (Onward (length bytes) position) (string_loop fuel bytes start position)

round-Ends :
    (bytes : Bytes) (start fuel position : ℕ) (round : Round)
    → RoundIn (length bytes) position round
    → ((end : ℕ) → Onward (length bytes) position end → LoopEnds bytes start fuel end)
    → Ends (length bytes) (Onward (length bytes) position) (elim round [
      | closed end ↦ parsed end
      | next later ↦ string_loop fuel bytes start later
      | bad offset ↦ rejected offset
    ])
round-Ends bytes start fuel position _ (closes_in onward) loop = with_value onward
round-Ends bytes start fuel position _ (bad_in bound) loop = with_offset bound
round-Ends bytes start fuel position _ (next_in {end} onward) loop =
    Ends-map (loop end onward) λ closing (behind, inside). (omega (arith, onward.1), inside)

string_loop-Ends :
    (fuel : ℕ) (bytes : Bytes) (start position : ℕ)
    → start ≤ length bytes
    → position ≤ length bytes
    → length bytes < fuel + position
    → LoopEnds bytes start fuel position
unfolding string_loop
string_loop-Ends zero bytes start position hs h enough = absurd (omega arith)
string_loop-Ends (suc fuel) bytes start position hs h enough =
    round-Ends bytes start fuel position (string_round bytes start position)
      (string_round-RoundIn bytes start position hs h)
      λ end (behind, inside). string_loop-Ends fuel bytes start end hs inside (omega arith)

-- parse_string's scan ends, behind the closing quote or with an offset of the text.
pub scan_string-Ends :
    (bytes : Bytes) (start : ℕ)
    → start < length bytes
    → Ends (length bytes) (Onward (length bytes) start) (scan_string bytes start)
unfolding scan_string
scan_string-Ends bytes start h =
    Ends-map
      (string_loop-Ends (length bytes + 1) bytes start (start + 1) (omega arith) (omega arith)
        (omega arith))
      λ end (behind, inside). (omega arith, inside)

scan_integer-Ends :
    (bytes : Bytes) (start : ℕ)
    → start < length bytes
    → Ends (length bytes) (Onward (length bytes) start) (scan_integer bytes start)
unfolding scan_integer
scan_integer-Ends bytes start h =
    let position : ℕ = if byte_at bytes start == 0x2d then start + 1 else start in
    let least : start ≤ position = ground arith in
    let most : position ≤ length bytes = ground arith in
    Ends-if (leb (length bytes) position) (λ past. with_offset most)
      λ inside.
        Ends-if (byte_at bytes position == 0x30)
          (λ zero_first.
            Ends-if (digit_at bytes (position + 1)) (λ digit. with_offset (ground arith))
              (λ alone. with_value (omega arith, ground arith)))
          (λ other.
            Ends-if (leb 0x31 (byte_at bytes position) && leb (byte_at bytes position) 0x39)
              (λ digit.
                with_value (
                  omega (arith, digits_gt bytes position),
                  digits_le bytes position (ground arith),
                ))
              (λ unknown. with_offset most))

scan_fraction-Ends :
    (bytes : Bytes) (position : ℕ)
    → position ≤ length bytes
    → Ends
        (length bytes)
        (λ end. (position ≤ end) × (end ≤ length bytes))
        (scan_fraction bytes position)
unfolding scan_fraction
scan_fraction-Ends bytes position h =
    Ends-if (at bytes position 0x2e)
      (λ point.
        Ends-if (digit_at bytes (position + 1))
          (λ digit. with_value (
            omega (arith, digits_gt bytes (position + 1)),
            digits_le bytes (position + 1) (digit_at_lt bytes (position + 1) digit),
          ))
          (λ bare. with_offset (omega (arith, at_lt bytes position 0x2e point))))
      (λ whole. with_value (omega arith, h))

skip_sign_ge : (bytes : Bytes) (position : ℕ) → position ≤ skip_sign bytes position
unfolding skip_sign
skip_sign_ge bytes position = ground arith

skip_sign_le :
    (bytes : Bytes) (position : ℕ)
    → position ≤ length bytes
    → skip_sign bytes position ≤ length bytes
unfolding skip_sign at
skip_sign_le bytes position h = ground arith

letter_lt :
    (bytes : Bytes) (position : ℕ)
    → (at bytes position 0x65 || at bytes position 0x45) ≡ true
    → position < length bytes
unfolding at
letter_lt bytes position h = ground arith

scan_exponent-Ends :
    (bytes : Bytes) (position : ℕ)
    → position ≤ length bytes
    → Ends
        (length bytes)
        (λ end. (position ≤ end) × (end ≤ length bytes))
        (scan_exponent bytes position)
unfolding scan_exponent
scan_exponent-Ends bytes position h =
    let power : ℕ = skip_sign bytes (position + 1) in
    Ends-if (at bytes position 0x65 || at bytes position 0x45)
      (λ letter.
        Ends-if (digit_at bytes power)
          (λ digit. with_value (
            omega (arith, skip_sign_ge bytes (position + 1), digits_gt bytes power),
            digits_le bytes power (digit_at_lt bytes power digit),
          ))
          (λ bare.
            with_offset
              (skip_sign_le bytes (position + 1) (omega (arith, letter_lt bytes position letter)))))
      (λ plain. with_value (omega arith, h))

-- parse_number's scan ends, behind the number or with an offset of the text.
pub scan_number-Ends :
    (bytes : Bytes) (start : ℕ)
    → start < length bytes
    → Ends (length bytes) (Onward (length bytes) start) (scan_number bytes start)
unfolding scan_number
scan_number-Ends bytes start h =
    Ends-bind (scan_integer-Ends bytes start h) λ fraction (behind, inside).
      Ends-bind (scan_fraction-Ends bytes fraction inside) λ exponent (later, within).
        Ends-map (scan_exponent-Ends bytes exponent within) λ end (last, most). (omega arith, most)
