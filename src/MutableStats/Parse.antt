-- ===== src/MutableStats/Parse.antt =====
-- src/mutable_stats.c: romx_mutable_stats_t and romx_mutable_stats_parse_json.
use libromx.Prelude.{
  ℕ, zero, suc, bit_and, bit_or, Bool, true, false, not, ◌&&◌, ◌||◌, Option, none, some, ltb, ◌==◌,
  if◌then◌else◌, length,
}
use Prim.Native.String.{String}
use libromx.Bytes.{Bytes, c_string}
use libromx.Outcome.{
  invalid_argument, mutable_stats, Outcome, ok, error_set, refuse_if, offset_unknown, ◌>>=◌, ◌>>◌,
}
use libromx.Utf8.{utf8_bad_offset}
use libromx.Json.Result.{parsed, rejected, out_of_fuel}
use libromx.Json.Tokens.{JsonType, literal_true, Token}
use libromx.Json.Parser.{json_parse}
use libromx.Json.Strings.{Document, typed_token, string_equals, strings_equal}
use libromx.Json.Lookup.{next_direct_child, is_object, is_boolean, integer, Integer, pos, negsuc}

-- `struct_size` is left out and `reserved` stays 0.
pub record Stats : Type 0 where
  pub flags : ℕ
  pub play_time_seconds : ℕ
  pub launch_count : ℕ
  pub first_played_unix_seconds : ℕ
  pub last_played_unix_seconds : ℕ
  pub favorite : ℕ
  pub completed : ℕ
  pub completion_percent : ℕ
  pub reserved : ℕ
  pub achievements_unlocked : ℕ
  pub achievements_total : ℕ
  pub achievements_hardcore_unlocked : ℕ

-- ROMX_MUTABLE_STATS_INIT
abbrev pub new_stats : Stats
new_stats = record {
  flags = 0;
  play_time_seconds = 0;
  launch_count = 0;
  first_played_unix_seconds = 0;
  last_played_unix_seconds = 0;
  favorite = 0;
  completed = 0;
  completion_percent = 0;
  reserved = 0;
  achievements_unlocked = 0;
  achievements_total = 0;
  achievements_hardcore_unlocked = 0;
}

-- ROMX_MUTABLE_STATS_HAS_…
abbrev pub has_play_time : ℕ
has_play_time = 0x1

abbrev pub has_launch_count : ℕ
has_launch_count = 0x2

abbrev pub has_first_played : ℕ
has_first_played = 0x4

abbrev pub has_last_played : ℕ
has_last_played = 0x8

abbrev pub has_favorite : ℕ
has_favorite = 0x10

abbrev pub has_completed : ℕ
has_completed = 0x20

abbrev pub has_completion_percent : ℕ
has_completion_percent = 0x40

abbrev pub has_achievements : ℕ
has_achievements = 0x80

abbrev pub has_hardcore_unlocked : ℕ
has_hardcore_unlocked = 0x100

-- `(flags & bit) != 0`
unfoldable pub has : Stats → ℕ → Bool
has stats bit = not (bit_and stats.flags bit == 0)

-- `parsed.flags |= bit`
abbrev pub flag : ℕ → Stats → Stats
flag bit stats = record stats { flags = bit_or stats.flags bit }

-- ROMX_MUTABLE_STATS_MAX_SAFE_INTEGER
abbrev pub max_safe_integer : ℕ
max_safe_integer = 9007199254740991

abbrev pub uint53_of : Option Integer → Option ℕ
uint53_of none = none
uint53_of (some (negsuc n)) = none
uint53_of (some (pos n)) = if ltb max_safe_integer n then none else some n

unfoldable pub json_uint53 : Document → ℕ → Option ℕ
unfolding integer
json_uint53 json token = uint53_of (integer json (some token))

abbrev pub is_true : JsonType → Bool
is_true literal_true = true
is_true _ = false

abbrev pub truth_of : Option Token → Option ℕ
truth_of none = none
truth_of (some token) = some (if is_true token.kind then 1 else 0)

unfoldable pub json_boolean : Document → ℕ → Option ℕ
json_boolean json token = truth_of (typed_token is_boolean json (some token))

-- `if (!read(…, &field)) goto schema_error;`
abbrev pub store : Option ℕ → (ℕ → Stats) → Option Stats
store none put = none
store (some value) put = some (put value)

-- `percent > 100` is an error too.
abbrev pub percent_of : Option ℕ → Option ℕ
percent_of none = none
percent_of (some percent) = if ltb 100 percent then none else some percent

-- The two required members that were seen, `unlocked` and `total` or `schema` and `version`, and the
-- statistics behind the members read so far.
pub record Progress : Type 0 where
  pub have_first : Bool
  pub have_second : Bool
  pub stats : Stats

abbrev pub advance : Progress → Option Stats → Option Progress
advance progress none = none
advance progress (some stats) = some (record progress { stats = stats })

abbrev pub advance_first : Progress → Option Stats → Option Progress
advance_first progress none = none
advance_first progress (some stats) = some (record progress { have_first = true; stats = stats })

abbrev pub advance_second : Progress → Option Stats → Option Progress
advance_second progress none = none
advance_second progress (some stats) = some (record progress { have_second = true; stats = stats })

abbrev pub version_is_one : Option Integer → Bool
version_is_one none = false
version_is_one (some (pos n)) = n == 1
version_is_one (some (negsuc n)) = false

-- The checks of parse_achievements behind its loop.
unfoldable pub bad_achievements : Progress → Bool
unfolding has
bad_achievements progress =
    let stats = progress.stats in
    not progress.have_first
    || not progress.have_second
    || ltb stats.achievements_total stats.achievements_unlocked
    || has stats has_hardcore_unlocked
      && ltb stats.achievements_unlocked stats.achievements_hardcore_unlocked

unfoldable pub finish_achievements : Progress → Option Stats
unfolding bad_achievements
finish_achievements progress =
    if bad_achievements progress then none else some (flag has_achievements progress.stats)

-- The checks of romx_mutable_stats_parse_json behind its loop.
unfoldable pub bad_stats : Progress → Bool
unfolding has
bad_stats progress =
    let stats = progress.stats in
    not progress.have_first
    || not progress.have_second
    || has stats has_first_played
      && has stats has_last_played
      && ltb stats.last_played_unix_seconds stats.first_played_unix_seconds

unfoldable pub finish_stats : Option Progress → Option Stats
unfolding bad_stats
finish_stats none = none
finish_stats (some progress) = if bad_stats progress then none else some progress.stats

module _ (realloc malloc : ℕ → Bool) where
  unfoldable pub is_key : Document → ℕ → String → Bool
  unfolding string_equals
  is_key json item name = string_equals malloc json (some item) (c_string name)

  -- The inner loop of object_has_unique_keys: another member with the key `first`.
  unfoldable pub other_same_key : ℕ → Document → ℕ → ℕ → Option ℕ → Bool
  unfolding next_direct_child strings_equal
  other_same_key zero json object first second = false
  other_same_key (suc fuel) json object first second = elim (next_direct_child json object second) [
    | none ↦ false
    | some key ↦ elim (next_direct_child json object (some key)) [
      | none ↦ true
      | some value ↦
          let rest = other_same_key fuel json object first (some value) in
          if not (key == first) && strings_equal malloc json (some first) (some key)
          then true
          else rest
    ]
  ]

  unfoldable pub unique_key_loop : ℕ → Document → ℕ → Option ℕ → Bool
  unfolding next_direct_child other_same_key
  unique_key_loop zero json object first = true
  unique_key_loop (suc fuel) json object first = elim (next_direct_child json object first) [
    | none ↦ true
    | some key ↦ elim (next_direct_child json object (some key)) [
      | none ↦ false
      | some value ↦
          let rest = unique_key_loop fuel json object (some value) in
          if other_same_key (length json.tokens) json object key none then false else rest
    ]
  ]

  unfoldable pub object_has_unique_keys : Document → ℕ → Bool
  unfolding unique_key_loop
  object_has_unique_keys json object = unique_key_loop (length json.tokens) json object none

  unfoldable pub achievements_member : Document → ℕ → ℕ → Progress → Option Progress
  unfolding is_key json_uint53
  achievements_member json item value progress =
      let stats = progress.stats in
      let number = json_uint53 json value in
      if is_key json item "unlocked"
      then advance_first progress (store number λ n. record stats { achievements_unlocked = n })
      else if is_key json item "total"
      then advance_second progress (store number λ n. record stats { achievements_total = n })
      else if is_key json item "hardcore_unlocked"
      then advance progress (
          store number
            λ n. flag has_hardcore_unlocked (record stats { achievements_hardcore_unlocked = n }))
      else none

  -- The loop over the members of an object, with what each of them does.
  unfoldable pub member_loop :
      ℕ
      → (ℕ → ℕ → Progress → Option Progress)
      → Document
      → ℕ
      → Option ℕ
      → Progress
      → Option Progress
  unfolding next_direct_child
  member_loop zero member json object item progress = some progress
  member_loop (suc fuel) member json object item progress =
      elim (next_direct_child json object item) [
        | none ↦ some progress
        | some key ↦ elim (next_direct_child json object (some key)) [
          | none ↦ none
          | some value ↦ elim (member key value progress) [
            | none ↦ none
            | some next ↦ member_loop fuel member json object (some value) next
          ]
        ]
      ]

  abbrev pub finish_object : Option Progress → Option Stats
  finish_object none = none
  finish_object (some progress) = finish_achievements progress

  unfoldable pub parse_achievements : Document → ℕ → Stats → Option Stats
  unfolding object_has_unique_keys member_loop achievements_member finish_achievements
  parse_achievements json object stats =
      let found = finish_object (
        member_loop (length json.tokens) (achievements_member json) json object none
          (record { have_first = false; have_second = false; stats = stats })) in
      elim (typed_token is_object json (some object)) [
        | none ↦ none
        | some token ↦ if not (object_has_unique_keys json object) then none else found
      ]

  -- A member of the document.
  unfoldable pub stats_member : Document → ℕ → ℕ → Progress → Option Progress
  unfolding is_key json_uint53 json_boolean integer parse_achievements string_equals
  stats_member json item value progress =
      let stats = progress.stats in
      let number = json_uint53 json value in
      let truth = json_boolean json value in
      if is_key json item "schema"
      then (if string_equals malloc json (some value) (c_string "romx.stats")
          then advance_first progress (some stats)
          else none)
      else if is_key json item "version"
      then (if version_is_one (integer json (some value))
          then advance_second progress (some stats)
          else none)
      else if is_key json item "play_time_seconds"
      then advance progress
          (store number λ n. flag has_play_time (record stats { play_time_seconds = n }))
      else if is_key json item "launch_count"
      then advance progress
          (store number λ n. flag has_launch_count (record stats { launch_count = n }))
      else if is_key json item "first_played_unix_seconds"
      then advance progress
          (store number λ n. flag has_first_played (record stats { first_played_unix_seconds = n }))
      else if is_key json item "last_played_unix_seconds"
      then advance progress
          (store number λ n. flag has_last_played (record stats { last_played_unix_seconds = n }))
      else if is_key json item "favorite"
      then advance progress (store truth λ n. flag has_favorite (record stats { favorite = n }))
      else if is_key json item "completed"
      then advance progress (store truth λ n. flag has_completed (record stats { completed = n }))
      else if is_key json item "completion_percent"
      then advance progress (
          store (percent_of number)
            λ n. flag has_completion_percent (record stats { completion_percent = n }))
      else if is_key json item "achievements"
      then advance progress (parse_achievements json value stats)
      else none

  unfoldable pub read_stats : Document → Option Stats
  unfolding member_loop stats_member finish_stats
  read_stats json = finish_stats (
      member_loop (length json.tokens) (stats_member json) json 0 none
        (record { have_first = false; have_second = false; stats = new_stats }))

  -- The strict JSON of a document whose root is an object with unique keys. `bad_offset` is what the
  -- two parsers leave in it.
  unfoldable pub strict_document : Bytes → Outcome Document
  unfolding utf8_bad_offset json_parse object_has_unique_keys
  strict_document bytes = elim (utf8_bad_offset bytes) [
    | some offset ↦ error_set mutable_stats offset
    | none ↦ elim (json_parse realloc bytes) [
      | rejected offset ↦ error_set mutable_stats offset
      | out_of_fuel ↦ error_set mutable_stats 0
      | parsed tokens ↦
          let json : Document = record { bytes = bytes; tokens = tokens } in
          elim (typed_token is_object json (some 0)) [
            | none ↦ error_set mutable_stats 0
            | some root ↦
                if not (object_has_unique_keys json 0) then error_set mutable_stats 0 else ok json
          ]
    ]
  ]

  abbrev pub require_schema : Option Stats → Outcome Stats
  require_schema none = error_set mutable_stats offset_unknown
  require_schema (some stats) = ok stats

  -- ROMX_MUTABLE_STATS_MAX_JSON_SIZE is 16384.
  unfoldable pub stats_parse_json : Bytes → Outcome Stats
  unfolding strict_document read_stats
  stats_parse_json bytes = do
    refuse_if (length bytes == 0 || ltb 16384 (length bytes)) invalid_argument offset_unknown
    json ← strict_document bytes
    require_schema (read_stats json)
