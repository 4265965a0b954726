-- ===== src/Json/Strings.antt =====
-- src/json.c: decode_next, utf8_size, write_utf8, romx_json_copy_string, romx_json_string_characters,
-- romx_json_string_equals and romx_json_strings_equal. A null buffer is one without bytes: no call
-- writes to either or accepts it. `malloc` answers whether a block of a size was had.
use libromx.Prelude.{
  ℕ, zero, suc, ◌+◌, ◌-◌, ◌*◌, ◌/◌, ◌%◌, ◌^◌, bit_and, bit_or, Bool, true, false, not, ◌&&◌, ◌||◌,
  Option, none, some, List, [], ◌∷◌, ◌++◌, ltb, leb, ◌==◌, if◌then◌else◌, length, get_elem?, take,
  drop, replicate,
}
use libromx.Bytes.{Bytes, byte_at, bytes_equal, copy_at, slice}
use libromx.Json.Tokens.{JsonType, string, Token}
use libromx.Json.Scan.{read_hex4, is_high, span}

-- romx_json_document_t
pub record Document : Type 0 where
  pub bytes : Bytes
  pub tokens : List Token

-- The value of an escape that is a letter.
unfoldable pub simple_escape : ℕ → Option ℕ
simple_escape byte =
    if byte == 0x22 || byte == 0x5c || byte == 0x2f
    then some byte
    else if byte == 0x62
    then some 8
    else if byte == 0x66
    then some 12
    else if byte == 0x6e
    then some 10
    else if byte == 0x72
    then some 13
    else if byte == 0x74
    then some 9
    else none

-- `UINT32_C(0x10000) + ((first - 0xd800) << 10) + (second - 0xdc00)`, in a uint32_t
unfoldable pub join_surrogates : ℕ → ℕ → ℕ
join_surrogates first second =
    (0x10000 + (first - 0xd800) * 2 ^ 10 + (second + 2 ^ 32 - 0xdc00)) % 2 ^ 32

unfoldable pub decode_unicode : Bytes → ℕ → ℕ → Option (ℕ × ℕ)
unfolding read_hex4 is_high join_surrogates
decode_unicode bytes end position = elim (read_hex4 bytes end position) [
  | none ↦ none
  | some first ↦
      if is_high first
      then elim (read_hex4 bytes end (position + 6)) [
        | none ↦ none
        | some second ↦ some (join_surrogates first second, position + 10)
      ]
      else some (first, position + 4)
]

-- The value at a position and the position behind it.
unfoldable pub decode_next : Bytes → ℕ → ℕ → Option (ℕ × ℕ)
unfolding simple_escape decode_unicode
decode_next bytes end position =
    let byte = byte_at bytes position in
    let escape = byte_at bytes (position + 1) in
    if not (byte == 0x5c)
    then some (byte, position + 1)
    else if escape == 0x75
    then decode_unicode bytes end (position + 2)
    else elim (simple_escape escape) [ none ↦ none | some value ↦ some (value, position + 2) ]

unfoldable pub utf8_size : ℕ → ℕ
utf8_size value =
    if ltb value 0x80 then 1 else if ltb value 0x800 then 2 else if ltb value 0x10000 then 3 else 4

-- The bytes that write_utf8 puts into the buffer, each cut to a char.
unfoldable pub write_utf8 : ℕ → Bytes
write_utf8 value =
    if ltb value 0x80
    then value ∷ []
    else if ltb value 0x800
    then bit_or 0xc0 (value / 2 ^ 6) ∷ bit_or 0x80 (bit_and value 0x3f) ∷ []
    else if ltb value 0x10000
    then bit_or 0xe0 (value / 2 ^ 12)
      ∷ bit_or 0x80 (bit_and (value / 2 ^ 6) 0x3f)
      ∷ bit_or 0x80 (bit_and value 0x3f)
      ∷ []
    else bit_or 0xf0 (value / 2 ^ 18) % 256
      ∷ bit_or 0x80 (bit_and (value / 2 ^ 12) 0x3f)
      ∷ bit_or 0x80 (bit_and (value / 2 ^ 6) 0x3f)
      ∷ bit_or 0x80 (bit_and value 0x3f)
      ∷ []

unfoldable pub is_continuation : ℕ → Bool
is_continuation byte = bit_and byte 0xc0 == 0x80

-- `while (input < token->end - 1U && …) ++input;`
unfoldable pub skip_continuation : Bytes → ℕ → ℕ → ℕ
unfolding is_continuation span
skip_continuation bytes limit input =
    input + span is_continuation (take (limit - input) (drop input bytes))

-- One character of a string: how many bytes it counts, those that are written, and where it ends.
pub record Character : Type 0 where
  pub count : ℕ
  pub text : Bytes
  pub stop : ℕ

unfoldable pub copied_character : Bytes → ℕ → ℕ → ℕ × ℕ → Character
unfolding utf8_size write_utf8 skip_continuation
copied_character bytes limit before (value, next) =
    let stop = skip_continuation bytes limit next in
    let count = 1 + (stop - next) in
    if leb 0x80 (byte_at bytes before)
    then record { count = count; text = slice before count bytes; stop = stop }
    else record { count = utf8_size value; text = write_utf8 value; stop = next }

unfoldable pub next_character : Bytes → ℕ → ℕ → Option Character
unfolding decode_next copied_character
next_character bytes limit input = elim (decode_next bytes limit input) [
  | none ↦ none
  | some decoded ↦ some (copied_character bytes limit input decoded)
]

-- `if (buffer != NULL && output + count < capacity) …`
unfoldable pub put : Bytes → ℕ → Character → Bytes
put buffer output character =
    if ltb (output + character.count) (length buffer)
    then copy_at buffer output character.text
    else buffer

-- The loop of romx_json_copy_string: the buffer and `output`. A round passes a byte at least, so the
-- case without fuel is that of a loop that has ended.
unfoldable pub copy_loop : ℕ → Bytes → ℕ → ℕ → Bytes → ℕ → Option (Bytes × ℕ)
unfolding next_character put
copy_loop zero bytes end input buffer output = some (buffer, output)
copy_loop (suc fuel) bytes end input buffer output =
    let rest : Option (Bytes × ℕ) = elim (next_character bytes (end - 1) input) [
      | none ↦ none
      | some character ↦
          copy_loop fuel bytes end character.stop (put buffer output character)
            (output + character.count)
    ] in
    if ltb (input + 1) end then rest else some (buffer, output)

-- What the call leaves: `*required` where it was set, the buffer, and whether it returned 1.
pub record Copied : Type 0 where
  pub required : Option ℕ
  pub buffer : Bytes
  pub done : Bool

unfoldable pub finish_copy : Bytes → Option (Bytes × ℕ) → Copied
finish_copy before none = record { required = none; buffer = before; done = false }
finish_copy before (some (buffer, output)) =
    if ltb (length buffer) (output + 1)
    then record { required = some (output + 1); buffer = buffer; done = false }
    else record {
      required = some (output + 1);
      buffer = copy_at buffer output (0 ∷ []);
      done = true;
    }

abbrev pub is_string : JsonType → Bool
is_string string = true
is_string _ = false

-- The token at an index that is in the table and has a type.
abbrev pub typed_token : (JsonType → Bool) → Document → Option ℕ → Option Token
typed_token type document none = none
typed_token type document (some index) = elim (get_elem? document.tokens index) [
  | none ↦ none
  | some token ↦ if type token.kind then some token else none
]

abbrev pub copy_token : Document → Bytes → Option Token → Copied
copy_token document buffer none = record { required = none; buffer = buffer; done = false }
copy_token document buffer (some token) =
    finish_copy buffer (copy_loop token.end document.bytes token.end (token.start + 1) buffer 0)

unfoldable pub copy_string : Document → Option ℕ → Bytes → Copied
unfolding copy_loop finish_copy
copy_string document index buffer =
    copy_token document buffer (typed_token is_string document index)

-- romx_json_string_characters, with `none` for SIZE_MAX.
unfoldable pub characters_loop : ℕ → Bytes → ℕ → ℕ → ℕ → Option ℕ
unfolding next_character
characters_loop zero bytes end input count = some count
characters_loop (suc fuel) bytes end input count =
    let rest : Option ℕ = elim (next_character bytes (end - 1) input) [
      | none ↦ none
      | some character ↦ characters_loop fuel bytes end character.stop (count + 1)
    ] in
    if ltb (input + 1) end then rest else some count

unfoldable pub string_characters : Document → Token → Option ℕ
unfolding characters_loop
string_characters document token =
    characters_loop token.end document.bytes token.end (token.start + 1) 0

-- `size_t required = 0U;`, which a call may have set
abbrev pub required_size : Copied → ℕ
required_size copied = elim copied.required [ none ↦ 0 | some required ↦ required ]

-- A block from malloc, whose bytes the copies overwrite.
abbrev pub block : ℕ → Bytes
block size = replicate size 0

-- `value` is a C string without its terminating zero.
unfoldable pub string_equals : (ℕ → Bool) → Document → Option ℕ → Bytes → Bool
unfolding copy_string bytes_equal
string_equals malloc document index value =
    let required = required_size (copy_string document index []) in
    let decoded = copy_string document index (block required) in
    required == length value + 1
    && malloc required
    && decoded.done
    && bytes_equal (take required decoded.buffer) (value ++ (0 ∷ []))

unfoldable pub strings_equal : (ℕ → Bool) → Document → Option ℕ → Option ℕ → Bool
unfolding copy_string bytes_equal
strings_equal malloc document first second =
    let first_size = required_size (copy_string document first []) in
    let second_size = required_size (copy_string document second []) in
    let left = copy_string document first (block first_size) in
    let right = copy_string document second (block second_size) in
    if first_size == 0 || not (first_size == second_size)
    then false
    else if not (malloc first_size) || not (malloc second_size)
    then true
    else if not left.done || not right.done
    then true
    else bytes_equal (take first_size left.buffer) (take first_size right.buffer)
