-- ===== src/Json/Lookup.antt =====
-- src/json.c: romx_json_next_direct_child, romx_json_object_value and romx_json_integer. An index of -1
-- is `none`.
use libromx.Prelude.{
  ℕ, zero, suc, ◌+◌, ◌-◌, ◌*◌, ◌/◌, ◌^◌, Bool, true, false, not, ◌||◌, Option, none, some, List, [],
  ◌∷◌, ltb, ◌==◌, if◌then◌else◌, length, take, drop,
}
use libromx.Bytes.{Bytes, byte_at}
use libromx.Json.Tokens.{JsonType, object, array, number, literal_true, literal_false, Token}
use libromx.Json.Scan.{is_digit}
use libromx.Json.Strings.{Document, typed_token, string_equals}

abbrev is_parent : ℕ → Option ℕ → Bool
is_parent parent none = false
is_parent parent (some i) = i == parent

-- `for (; index < document->token_count; ++index) if (… == parent) return (int)index;`, over the
-- tokens from `index` on
unfoldable pub child_from : ℕ → ℕ → List Token → Option ℕ
child_from parent index [] = none
child_from parent index (token ∷ tokens) =
    let later = child_from parent (index + 1) tokens in
    if is_parent parent token.parent then some index else later

-- `after < 0 ? 0U : (size_t)after + 1U`
abbrev pub from_index : Option ℕ → ℕ
from_index none = 0
from_index (some after) = after + 1

unfoldable pub next_direct_child : Document → ℕ → Option ℕ → Option ℕ
unfolding child_from
next_direct_child document parent after =
    child_from parent (from_index after) (drop (from_index after) document.tokens)

abbrev pub is_object : JsonType → Bool
is_object object = true
is_object _ = false

abbrev pub is_number : JsonType → Bool
is_number number = true
is_number _ = false

abbrev pub is_array : JsonType → Bool
is_array array = true
is_array _ = false

abbrev pub is_boolean : JsonType → Bool
is_boolean literal_true = true
is_boolean literal_false = true
is_boolean _ = false

module _ (malloc : ℕ → Bool) where
  -- The loop of romx_json_object_value; each round passes two tokens.
  unfoldable pub value_loop : ℕ → Document → ℕ → Bytes → Option ℕ → Option ℕ
  unfolding next_direct_child string_equals
  value_loop zero document parent key item = none
  value_loop (suc fuel) document parent key item = elim (next_direct_child document parent item) [
    | none ↦ none
    | some name ↦ elim (next_direct_child document parent (some name)) [
      | none ↦ none
      | some value ↦
          let rest = value_loop fuel document parent key (some value) in
          if string_equals malloc document (some name) key then some value else rest
    ]
  ]

  unfoldable pub object_value : Document → ℕ → Bytes → Option ℕ
  unfolding value_loop
  object_value document index key = elim (typed_token is_object document (some index)) [
    | none ↦ none
    | some token ↦ value_loop (length document.tokens + 1) document index key none
  ]

-- The digits of a number: `none` for another byte and for a value beyond UINT64_MAX.
unfoldable pub digit_loop : Bytes → ℕ → Option ℕ
unfolding is_digit
digit_loop [] result = some result
digit_loop (byte ∷ bytes) result =
    let rest = digit_loop bytes (result * 10 + (byte - 0x30)) in
    if not (is_digit byte) || ltb ((2 ^ 64 - 1 - (byte - 0x30)) / 10) result then none else rest

-- An int64_t: `pos n`, or `negsuc n` for -1 - n.
pub data Integer : Type 0 where
  pos negsuc : ℕ → Integer

abbrev pub negate : ℕ → Integer
negate zero = pos 0
negate (suc n) = negsuc n

-- INT64_MAX is 2 ^ 63 - 1.
unfoldable pub signed : Bool → ℕ → Option Integer
signed false result = if ltb (2 ^ 63 - 1) result then none else some (pos result)
signed true result = if ltb (2 ^ 63) result then none else some (negate result)

abbrev pub sign_digits : Bool → Option ℕ → Option Integer
sign_digits negative none = none
sign_digits negative (some result) = signed negative result

-- `if (… == '-') { negative = 1; ++position; }`, and the digits up to `end`
abbrev pub signed_digits : Bytes → ℕ → ℕ → Bool → Option Integer
signed_digits bytes start end negative =
    let position = if negative then start + 1 else start in
    sign_digits negative (digit_loop (take (end - position) (drop position bytes)) 0)

unfoldable pub number_value : Bytes → ℕ → ℕ → Option Integer
unfolding digit_loop signed
number_value bytes start end = signed_digits bytes start end (byte_at bytes start == 0x2d)

unfoldable pub integer : Document → Option ℕ → Option Integer
unfolding number_value
integer document index = elim (typed_token is_number document index) [
  | none ↦ none
  | some token ↦ number_value document.bytes token.start token.end
]
