-- ===== src/Json/Scan.antt =====
-- src/json.c: hex_value, read_hex4 and skip_space, the scan of parse_string up to the closing quote and
-- the scan of parse_number. `position` is `parser->position`; a byte past the end is never asked for.
use libromx.Prelude.{
  ℕ, zero, suc, ◌+◌, ◌-◌, ◌*◌, ◌^◌, bit_or, Bool, false, not, ◌&&◌, ◌||◌, Option, none, some, [],
  ◌∷◌, ltb, leb, ◌==◌, if◌then◌else◌, length, drop,
}
use libromx.Bytes.{Bytes, byte_at}
use libromx.Json.Result.{Parse, parsed, rejected, out_of_fuel, ◌>>=◌}

unfoldable pub hex_value : ℕ → Option ℕ
hex_value byte =
    if leb 0x30 byte && leb byte 0x39
    then some (byte - 0x30)
    else if leb 0x61 byte && leb byte 0x66
    then some (byte - 0x61 + 10)
    else if leb 0x41 byte && leb byte 0x46
    then some (byte - 0x41 + 10)
    else none

-- `for (index = 0U; index < 4U; ++index)`, with the digits that are left
unfoldable pub hex_loop : ℕ → Bytes → ℕ → ℕ → Option ℕ
unfolding hex_value
hex_loop zero bytes position result = some result
hex_loop (suc left) bytes position result = elim (hex_value (byte_at bytes position)) [
  | none ↦ none
  | some digit ↦ hex_loop left bytes (position + 1) (bit_or (result * 2 ^ 4) digit)
]

unfoldable pub read_hex4 : Bytes → ℕ → ℕ → Option ℕ
unfolding hex_loop
read_hex4 bytes size position =
    let digits = hex_loop 4 bytes position 0 in
    if ltb size position || ltb (size - position) 4 then none else digits

unfoldable pub is_space : ℕ → Bool
is_space byte = byte == 0x20 || byte == 0x09 || byte == 0x0d || byte == 0x0a

unfoldable pub is_digit : ℕ → Bool
is_digit byte = leb 0x30 byte && leb byte 0x39

-- How many bytes a `while` over one class of bytes passes.
unfoldable pub span : (ℕ → Bool) → Bytes → ℕ
span class [] = 0
span class (byte ∷ bytes) = let more = span class bytes in if class byte then suc more else 0

unfoldable pub skip : (ℕ → Bool) → Bytes → ℕ → ℕ
unfolding span
skip class bytes position = position + span class (drop position bytes)

-- `parser->position < size && bytes[parser->position] == byte`
unfoldable pub at : Bytes → ℕ → ℕ → Bool
at bytes position byte = ltb position (length bytes) && byte_at bytes position == byte

-- What a round of the loop of parse_string comes to.
pub data Round : Type 0 where
  closed next bad : ℕ → Round

unfoldable pub is_high : ℕ → Bool
is_high value = leb 0xd800 value && leb value 0xdbff

unfoldable pub is_low : ℕ → Bool
is_low value = leb 0xdc00 value && leb value 0xdfff

unfoldable pub is_simple_escape : ℕ → Bool
is_simple_escape escape =
    escape == 0x22
    || escape == 0x5c
    || escape == 0x2f
    || escape == 0x62
    || escape == 0x66
    || escape == 0x6e
    || escape == 0x72
    || escape == 0x74

unfoldable pub low_follows : Bytes → ℕ → Bool
unfolding read_hex4 is_low
low_follows bytes position =
    not (ltb (length bytes - position) 6)
    && byte_at bytes position == 0x5c
    && byte_at bytes (position + 1) == 0x75
    && elim (read_hex4 bytes (length bytes) (position + 2)) [
      | none ↦ false
      | some second ↦ is_low second
    ]

unfoldable pub unicode_escape : Bytes → ℕ → Round
unfolding read_hex4 is_high is_low low_follows
unicode_escape bytes position = elim (read_hex4 bytes (length bytes) position) [
  | none ↦ bad position
  | some first ↦
      if is_high first
      then (if low_follows bytes (position + 4) then next (position + 10) else bad (position + 4))
      else if is_low first
      then bad position
      else next (position + 4)
]

-- `position` is behind the backslash.
unfoldable pub string_escape : Bytes → ℕ → Round
unfolding unicode_escape is_simple_escape
string_escape bytes position =
    if leb (length bytes) position
    then bad position
    else if byte_at bytes position == 0x75
    then unicode_escape bytes (position + 1)
    else if is_simple_escape (byte_at bytes position)
    then next (position + 1)
    else bad position

unfoldable pub string_round : Bytes → ℕ → ℕ → Round
unfolding string_escape
string_round bytes start position =
    let byte = byte_at bytes position in
    if leb (length bytes) position
    then bad start
    else if byte == 0x22
    then closed (position + 1)
    else if ltb byte 0x20
    then bad position
    else if byte == 0x5c
    then string_escape bytes (position + 1)
    else next (position + 1)

unfoldable pub string_loop : ℕ → Bytes → ℕ → ℕ → Parse ℕ
unfolding string_round
string_loop zero bytes start position = out_of_fuel
string_loop (suc fuel) bytes start position = elim (string_round bytes start position) [
  | closed end ↦ parsed end
  | next position ↦ string_loop fuel bytes start position
  | bad offset ↦ rejected offset
]

-- From the opening quote to behind the closing one: a round passes a byte at least.
unfoldable pub scan_string : Bytes → ℕ → Parse ℕ
unfolding string_loop
scan_string bytes start = string_loop (length bytes + 1) bytes start (start + 1)

unfoldable pub digit_at : Bytes → ℕ → Bool
unfolding is_digit
digit_at bytes position = ltb position (length bytes) && is_digit (byte_at bytes position)

-- `do { ++parser->position; } while (…a digit…);`
unfoldable pub digits : Bytes → ℕ → ℕ
unfolding skip is_digit
digits bytes position = skip is_digit bytes (position + 1)

unfoldable pub scan_integer : Bytes → ℕ → Parse ℕ
unfolding digits digit_at
scan_integer bytes start =
    let position = if byte_at bytes start == 0x2d then start + 1 else start in
    if leb (length bytes) position
    then rejected position
    else if byte_at bytes position == 0x30
    then (if digit_at bytes (position + 1) then rejected (position + 1) else parsed (position + 1))
    else if leb 0x31 (byte_at bytes position) && leb (byte_at bytes position) 0x39
    then parsed (digits bytes position)
    else rejected position

unfoldable pub scan_fraction : Bytes → ℕ → Parse ℕ
unfolding digits digit_at at
scan_fraction bytes position =
    if at bytes position 0x2e
    then (if digit_at bytes (position + 1)
        then parsed (digits bytes (position + 1))
        else rejected (position + 1))
    else parsed position

-- `if (… '+' || … '-') ++parser->position;`
unfoldable pub skip_sign : Bytes → ℕ → ℕ
unfolding at
skip_sign bytes position =
    if at bytes position 0x2b || at bytes position 0x2d then position + 1 else position

unfoldable pub scan_exponent : Bytes → ℕ → Parse ℕ
unfolding digits digit_at at skip_sign
scan_exponent bytes position =
    let power = skip_sign bytes (position + 1) in
    if at bytes position 0x65 || at bytes position 0x45
    then (if digit_at bytes power then parsed (digits bytes power) else rejected power)
    else parsed position

unfoldable pub scan_number : Bytes → ℕ → Parse ℕ
unfolding scan_integer scan_fraction scan_exponent
scan_number bytes start = scan_integer bytes start >>= λ fraction.
    scan_fraction bytes fraction >>= λ exponent. scan_exponent bytes exponent
