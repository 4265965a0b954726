-- ===== src/Metadata/Schema.antt =====
-- src/metadata.c: the checks of the document, up to valid_schema. A token index of -1 is `none`.
use libromx.Prelude.{
  ℕ, zero, suc, ◌+◌, ◌-◌, Bool, true, false, not, ◌&&◌, ◌||◌, Option, none, some, List, [], ◌∷◌,
  ltb, leb, ◌==◌, if◌then◌else◌, length, take,
}
use Prim.Native.String.{String}
use libromx.Bytes.{Bytes, c_string}
use libromx.Json.Tokens.{Token}
use libromx.Json.Strings.{
  Document, typed_token, is_string, copy_string, string_characters, string_equals, strings_equal,
  block,
}
use libromx.Json.Lookup.{
  next_direct_child, is_object, is_array, is_boolean, integer, Integer, pos, negsuc,
}

abbrev is_some {ℓ} : {A : Type ℓ} → Option A → Bool
is_some none = false
is_some (some a) = true

abbrev length_between : ℕ → ℕ → Option ℕ → Bool
length_between minimum maximum none = false
length_between minimum maximum (some length) = leb minimum length && leb length maximum

unfoldable pub string_length_between : Document → Option ℕ → ℕ → ℕ → Bool
unfolding string_characters
string_length_between json token minimum maximum = elim (typed_token is_string json token) [
  | none ↦ false
  | some found ↦ length_between minimum maximum (string_characters json found)
]

unfoldable pub valid_boolean : Document → Option ℕ → Bool
valid_boolean json token = is_some (typed_token is_boolean json token)

-- The lower-case hexadecimal digits.
unfoldable pub is_lower_hex : ℕ → Bool
is_lower_hex byte = leb 0x30 byte && leb byte 0x39 || leb 0x61 byte && leb byte 0x66

unfoldable pub all_bytes : (ℕ → Bool) → Bytes → Bool
all_bytes class [] = true
all_bytes class (byte ∷ bytes) = class byte && all_bytes class bytes

abbrev required_is : ℕ → Option ℕ → Bool
required_is size none = false
required_is size (some required) = required == size

-- valid_hex_string, with its buffer of nine bytes.
unfoldable pub valid_hex_string : Document → Option ℕ → ℕ → Bool
unfolding string_length_between copy_string is_lower_hex all_bytes
valid_hex_string json token length =
    let copied = copy_string json token (block 9) in
    leb (length + 1) 9
    && string_length_between json token length length
    && copied.done
    && required_is (length + 1) copied.required
    && all_bytes is_lower_hex (take length copied.buffer)

-- The bytes of a date from an index on: dashes at 4 and 7, digits elsewhere.
unfoldable pub date_loop : ℕ → Bytes → Bool
date_loop index [] = true
date_loop index (byte ∷ bytes) =
    (if index == 4 || index == 7 then byte == 0x2d else leb 0x30 byte && leb byte 0x39)
    && date_loop (index + 1) bytes

-- valid_release_date, with its buffer of eleven bytes.
unfoldable pub valid_release_date : Document → Option ℕ → Bool
unfolding copy_string date_loop
valid_release_date json token =
    let copied = copy_string json token (block 11) in
    copied.done
    && (required_is 5 copied.required
        || required_is 8 copied.required
        || required_is 11 copied.required)
    && elim copied.required [
      | none ↦ false
      | some required ↦ date_loop 0 (take (required - 1) copied.buffer)
    ]

abbrev integer_between : ℕ → ℕ → Option Integer → Bool
integer_between minimum maximum none = false
integer_between minimum maximum (some (pos n)) = leb minimum n && leb n maximum
integer_between minimum maximum (some (negsuc n)) = false

abbrev not_beyond : Option ℕ → Option ℕ → Option ℕ
not_beyond none item = none
not_beyond (some previous) none = some previous
not_beyond (some previous) (some item) = if previous == item then none else some previous

abbrev dumps : List Bytes
dumps =
    c_string "unknown"
    ∷ c_string "good"
    ∷ c_string "bad"
    ∷ c_string "overdump"
    ∷ c_string "hack"
    ∷ c_string "translation"
    ∷ c_string "homebrew"
    ∷ []

module _ (malloc : ℕ → Bool) where
  unfoldable pub string_is_one_of : Document → Option ℕ → List Bytes → Bool
  unfolding string_equals
  string_is_one_of json token [] = false
  string_is_one_of json token (value ∷ values) =
      is_some (typed_token is_string json token)
      && (string_equals malloc json token value || string_is_one_of json token values)

  -- The inner loop of object_has_duplicate_keys, over the members behind `second`. Each round of a
  -- loop over children passes a token, so a round for each token is enough, here and below.
  unfoldable pub same_key_behind : ℕ → Document → ℕ → ℕ → ℕ → Bool
  unfolding next_direct_child strings_equal
  same_key_behind zero json object first second = false
  same_key_behind (suc fuel) json object first second =
      elim (next_direct_child json object (some second)) [
        | none ↦ false
        | some key ↦ elim (next_direct_child json object (some key)) [
          | none ↦ true
          | some value ↦
              let rest = same_key_behind fuel json object first value in
              if strings_equal malloc json (some first) (some key) then true else rest
        ]
      ]

  unfoldable pub duplicate_key_loop : ℕ → Document → ℕ → Option ℕ → Bool
  unfolding next_direct_child same_key_behind
  duplicate_key_loop zero json object first = false
  duplicate_key_loop (suc fuel) json object first = elim (next_direct_child json object first) [
    | none ↦ false
    | some key ↦ elim (next_direct_child json object (some key)) [
      | none ↦ true
      | some value ↦
          let rest = duplicate_key_loop fuel json object (some value) in
          if same_key_behind (length json.tokens) json object key value then true else rest
    ]
  ]

  unfoldable pub object_has_duplicate_keys : Document → ℕ → Bool
  unfolding duplicate_key_loop
  object_has_duplicate_keys json object = duplicate_key_loop (length json.tokens) json object none

  -- The loop over the table, from `index` on.
  unfoldable pub document_duplicates : Document → ℕ → List Token → Bool
  unfolding object_has_duplicate_keys
  document_duplicates json index [] = false
  document_duplicates json index (token ∷ tokens) =
      is_object token.kind && object_has_duplicate_keys json index
      || document_duplicates json (index + 1) tokens

  unfoldable pub document_has_duplicate_keys : Document → Bool
  unfolding document_duplicates
  document_has_duplicate_keys json = document_duplicates json 0 json.tokens

  -- The inner loop of valid_string_array: an item before `item` with the same text.
  unfoldable pub same_item_before : ℕ → Document → ℕ → ℕ → Option ℕ → Bool
  unfolding next_direct_child strings_equal
  same_item_before zero json array item previous = false
  same_item_before (suc fuel) json array item previous =
      elim (not_beyond (next_direct_child json array previous) (some item)) [
        | none ↦ false
        | some earlier ↦
            let rest = same_item_before fuel json array item (some earlier) in
            if strings_equal malloc json (some earlier) (some item) then true else rest
      ]

  unfoldable pub string_array_loop : ℕ → Document → ℕ → ℕ → ℕ → Option ℕ → ℕ → Bool
  unfolding next_direct_child string_length_between same_item_before
  string_array_loop zero json array maximum_items maximum_length item count = true
  string_array_loop (suc fuel) json array maximum_items maximum_length item count =
      elim (next_direct_child json array item) [
        | none ↦ true
        | some next ↦
            let rest =
              string_array_loop fuel json array maximum_items maximum_length (some next)
                (count + 1) in
            if ltb maximum_items (count + 1)
              || not (string_length_between json (some next) 0 maximum_length)
            then false
            else if same_item_before (length json.tokens) json array next none
            then false
            else rest
      ]

  unfoldable pub valid_string_array : Document → Option ℕ → ℕ → ℕ → Bool
  unfolding string_array_loop
  valid_string_array json none maximum_items maximum_length = false
  valid_string_array json (some array) maximum_items maximum_length =
      is_some (typed_token is_array json (some array))
      && string_array_loop (length json.tokens) json array maximum_items maximum_length none 0

  -- `romx_json_string_equals(json, key, "…")`
  unfoldable pub is_key : Document → ℕ → String → Bool
  unfolding string_equals
  is_key json key name = string_equals malloc json (some key) (c_string name)

  -- A member of the cover object.
  unfoldable pub valid_cover_member : Document → ℕ → ℕ → Bool
  unfolding is_key string_length_between integer
  valid_cover_member json key value =
      if is_key json key "mime_type"
      then string_length_between json (some value) 1 64
        && string_equals malloc json (some value) (c_string "image/png")
      else (is_key json key "width" || is_key json key "height")
        && integer_between 1 8192 (integer json (some value))

  unfoldable pub cover_loop : ℕ → Document → ℕ → Option ℕ → Bool
  unfolding next_direct_child valid_cover_member
  cover_loop zero json object key = true
  cover_loop (suc fuel) json object key = elim (next_direct_child json object key) [
    | none ↦ true
    | some name ↦ elim (next_direct_child json object (some name)) [
      | none ↦ false
      | some value ↦
          let rest = cover_loop fuel json object (some value) in
          if not (valid_cover_member json name value) then false else rest
    ]
  ]

  unfoldable pub valid_cover_object : Document → Option ℕ → Bool
  unfolding cover_loop
  valid_cover_object json none = false
  valid_cover_object json (some object) =
      is_some (typed_token is_object json (some object))
      && cover_loop (length json.tokens) json object none

  -- A member of the document: whether its key is known and its value fits. Genre and region share a
  -- branch, in which the greatest length of a text depends on the key.
  unfoldable pub valid_member : Document → ℕ → ℕ → Bool
  unfolding is_key string_equals string_length_between valid_hex_string valid_release_date
      valid_string_array integer valid_boolean string_is_one_of valid_cover_object
  valid_member json key value =
      if is_key json key "schema_version"
      then string_equals malloc json (some value) (c_string "0.2.0")
      else if is_key json key "name"
      then string_length_between json (some value) 1 512
      else if is_key json key "crc32"
      then valid_hex_string json (some value) 8
      else if is_key json key "origin_crc32"
      then valid_hex_string json (some value) 8
      else if is_key json key "serial" || is_key json key "origin" || is_key json key "category"
      then string_length_between json (some value) 0 128
      else if is_key json key "developer"
          || is_key json key "publisher"
          || is_key json key "franchise"
          || is_key json key "language"
          || is_key json key "enhancement_hw"
      then string_length_between json (some value) 0 256
      else if is_key json key "media"
      then string_length_between json (some value) 0 64
      else if is_key json key "description"
      then string_length_between json (some value) 0 32768
      else if is_key json key "release_date"
      then valid_release_date json (some value)
      else if is_key json key "genre" || is_key json key "region"
      then valid_string_array json (some value) 32 (if is_key json key "genre" then 64 else 32)
      else if is_key json key "users"
      then integer_between 1 255 (integer json (some value))
      else if is_key json key "coop" || is_key json key "rumble" || is_key json key "analog"
      then valid_boolean json (some value)
      else if is_key json key "dump_status"
      then string_is_one_of json (some value) dumps
      else is_key json key "cover" && valid_cover_object json (some value)

  -- The flags `required_schema` and `required_name` behind a valid member.
  abbrev sees : Bool → Bool → Bool
  sees before now = before || now

  -- The loop over the members.
  unfoldable pub schema_loop : ℕ → Document → Option ℕ → Bool → Bool → Bool
  unfolding next_direct_child valid_member is_key
  schema_loop zero json key required_schema required_name = required_schema && required_name
  schema_loop (suc fuel) json key required_schema required_name =
      elim (next_direct_child json 0 key) [
        | none ↦ required_schema && required_name
        | some name ↦ elim (next_direct_child json 0 (some name)) [
          | none ↦ false
          | some value ↦
              let schema = is_key json name "schema_version" in
              let rest =
                schema_loop fuel json (some value) (sees required_schema schema)
                  (sees required_name (not schema && is_key json name "name")) in
              if not (valid_member json name value) then false else rest
        ]
      ]

  unfoldable pub valid_schema : Document → Bool
  unfolding document_has_duplicate_keys schema_loop
  valid_schema json =
      is_some (typed_token is_object json (some 0))
      && not (document_has_duplicate_keys json)
      && schema_loop (length json.tokens) json none false false
