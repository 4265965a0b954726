-- ===== src/Tests/Json.antt =====
-- Runs of the JSON parser on small documents.
use libromx.Prelude.{
  ℕ, ◌^◌, ◌≡◌, refl, Bool, true, ◌&&◌, none, some, List, [], ◌∷◌, arith, ltb, if◌then◌else◌, length,
}
use libromx.Bytes.{Bytes, c_string}
use libromx.Json.Result.{parsed, rejected}
use libromx.Json.Tokens.{object, array, string, number, literal_true, Token}
use libromx.Json.Result.{Ends}
use libromx.Json.Tree.{IsTree}
use libromx.Json.Sound.{json_parse-Ends}
use libromx.Json.Numbers.{all_digits, numeral, digit_loop-eq}
use libromx.Json.Copies.{decoded, string_text, Delivers, copy_string-Delivers}
use libromx.Json.Parser.{json_parse}
use libromx.Json.Strings.{Document, copy_string, block, string_equals}
use libromx.Json.Lookup.{integer, digit_loop, negsuc, object_value}

abbrev plenty : ℕ → Bool
plenty n = true

-- {"a":[1,true]}
abbrev sample : Bytes
sample =
    0x7b ∷ 0x22 ∷ 0x61 ∷ 0x22 ∷ 0x3a ∷ 0x5b ∷ 0x31 ∷ 0x2c ∷ 0x74 ∷ 0x72 ∷ 0x75 ∷ 0x65 ∷ 0x5d ∷ 0x7d
    ∷ []

abbrev sample_tokens : List Token
sample_tokens =
    record { kind = object; start = 0; end = 14; parent = none; child_count = 2 }
    ∷ record { kind = string; start = 1; end = 4; parent = some 0; child_count = 0 }
    ∷ record { kind = array; start = 5; end = 13; parent = some 0; child_count = 2 }
    ∷ record { kind = number; start = 6; end = 7; parent = some 2; child_count = 0 }
    ∷ record { kind = literal_true; start = 8; end = 12; parent = some 2; child_count = 0 }
    ∷ []

sample_parses : json_parse plenty sample ≡ parsed sample_tokens
unfolding json_parse
sample_parses = refl

-- {1:2} has a key that is no string, and the offset reported is 0
numeric_key : json_parse plenty (0x20 ∷ 0x7b ∷ 0x31 ∷ 0x3a ∷ 0x32 ∷ 0x7d ∷ []) ≡ rejected 0
unfolding json_parse
numeric_key = refl

-- ["\u20ac\ud83d\ude00",-12]
abbrev texts : Bytes
texts =
    0x5b ∷ 0x22 ∷ 0x5c ∷ 0x75 ∷ 0x32 ∷ 0x30 ∷ 0x61 ∷ 0x63 ∷ 0x5c ∷ 0x75 ∷ 0x64 ∷ 0x38 ∷ 0x33 ∷ 0x64
    ∷ 0x5c ∷ 0x75 ∷ 0x64 ∷ 0x65 ∷ 0x30 ∷ 0x30 ∷ 0x22 ∷ 0x2c ∷ 0x2d ∷ 0x31 ∷ 0x32 ∷ 0x5d ∷ []

abbrev texts_document : Document
texts_document = record {
  bytes = texts;
  tokens =
      record { kind = array; start = 0; end = 26; parent = none; child_count = 2 }
      ∷ record { kind = string; start = 1; end = 21; parent = some 0; child_count = 0 }
      ∷ record { kind = number; start = 22; end = 25; parent = some 0; child_count = 0 }
      ∷ [];
}

texts_parse : json_parse plenty texts ≡ parsed texts_document.tokens
unfolding json_parse
texts_parse = refl

euro_smile :
    string_equals plenty texts_document
      (some 1)
      (0xe2 ∷ 0x82 ∷ 0xac ∷ 0xf0 ∷ 0x9f ∷ 0x98 ∷ 0x80 ∷ [])
    ≡ true
unfolding string_equals
euro_smile = refl

minus_twelve : integer texts_document (some 2) ≡ some (negsuc 11)
unfolding integer
minus_twelve = refl

-- {"a":[1,true]}
value_of_a :
    object_value plenty (record { bytes = sample; tokens = sample_tokens }) 0 (0x61 ∷ []) ≡ some 2
unfolding object_value
value_of_a = refl

json_parse-Ends_example : Ends (length sample) (IsTree (length sample) 0) (json_parse plenty sample)
json_parse-Ends_example = json_parse-Ends plenty sample

abbrev text_token : Token
text_token = record { kind = string; start = 1; end = 21; parent = some 0; child_count = 0 }

abbrev euro_smile_text : Bytes
euro_smile_text = 0xe2 ∷ 0x82 ∷ 0xac ∷ 0xf0 ∷ 0x9f ∷ 0x98 ∷ 0x80 ∷ []

euro_smile_reads : string_text texts_document text_token ≡ some euro_smile_text
unfolding decoded
euro_smile_reads = refl

copy_string-Delivers_example :
    Delivers euro_smile_text [] (copy_string texts_document (some 1) [])
    × Delivers euro_smile_text (block 8) (copy_string texts_document (some 1) (block 8))
copy_string-Delivers_example =
    copy_string-Delivers texts_document (some 1) text_token euro_smile_text (block 8) refl
      (omega arith) euro_smile_reads

-- 2 ^ 64
digit_loop-eq_example : digit_loop (c_string "18446744073709551616") 0 ≡ (
    if all_digits (c_string "18446744073709551616")
      && ltb (numeral (c_string "18446744073709551616") 0) (2 ^ 64)
    then some (numeral (c_string "18446744073709551616") 0)
    else none)
digit_loop-eq_example = digit_loop-eq (c_string "18446744073709551616") 0 (omega arith)
