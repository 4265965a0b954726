-- ===== src/MutableStats/Serialize.antt =====
-- src/mutable_stats.c: stats_values_valid and romx_mutable_stats_serialize_json.
use libromx.Prelude.{
  ℕ, zero, suc, ◌+◌, ◌-◌, ◌/◌, ◌%◌, bit_and, Bool, not, ◌&&◌, ◌||◌, Option, none, some, [], ◌∷◌,
  ◌++◌, ltb, leb, ◌==◌, if◌then◌else◌, length,
}
use Prim.Native.String.{String}
use libromx.Bytes.{Bytes, c_string}
use libromx.Outcome.{
  invalid_argument, mutable_stats, buffer_too_small, Outcome, ok, error_set, refuse_if,
  offset_unknown, ◌>>=◌, ◌>>◌,
}
use libromx.MutableStats.Parse.{
  Stats, has, max_safe_integer, has_play_time, has_launch_count, has_first_played, has_last_played,
  has_favorite, has_completed, has_completion_percent, has_achievements, has_hardcore_unlocked,
}

-- The first `if` of stats_values_valid; ROMX_MUTABLE_STATS_FLAGS_MASK is 0x1ff.
unfoldable pub bad_flags : Stats → Bool
unfolding has
bad_flags stats =
    not (bit_and stats.flags (0xffffffff - 0x1ff) == 0)
    || not (stats.reserved == 0)
    || has stats has_favorite && ltb 1 stats.favorite
    || has stats has_completed && ltb 1 stats.completed
    || has stats has_completion_percent && ltb 100 stats.completion_percent
    || has stats has_hardcore_unlocked && not (has stats has_achievements)

unfoldable pub beyond_limit : Stats → Bool
beyond_limit stats =
    ltb max_safe_integer stats.play_time_seconds
    || ltb max_safe_integer stats.launch_count
    || ltb max_safe_integer stats.first_played_unix_seconds
    || ltb max_safe_integer stats.last_played_unix_seconds
    || ltb max_safe_integer stats.achievements_unlocked
    || ltb max_safe_integer stats.achievements_total
    || ltb max_safe_integer stats.achievements_hardcore_unlocked

unfoldable pub out_of_order : Stats → Bool
unfolding has
out_of_order stats =
    has stats has_first_played
      && has stats has_last_played
      && ltb stats.last_played_unix_seconds stats.first_played_unix_seconds
    || has stats has_achievements && ltb stats.achievements_total stats.achievements_unlocked
    || has stats has_hardcore_unlocked
      && ltb stats.achievements_unlocked stats.achievements_hardcore_unlocked

unfoldable pub stats_values_valid : Stats → Bool
unfolding bad_flags beyond_limit out_of_order
stats_values_valid stats =
    not (bad_flags stats) && not (beyond_limit stats) && not (out_of_order stats)

-- ROMX_MUTABLE_STATS_MAX_JSON_SIZE, the size of the buffer.
abbrev pub max_json_size : ℕ
max_json_size = 16384

-- The text so far, whose length is `position`.
unfoldable pub append_text : String → Bytes → Option Bytes
append_text text output =
    if ltb max_json_size (length output)
      || ltb (max_json_size - length output) (length (c_string text))
    then none
    else some (output ++ c_string text)

-- The decimal digits that "%" PRIu64 prints; a uint64_t has twenty at most.
unfoldable pub decimal_loop : ℕ → ℕ → Bytes → Bytes
decimal_loop zero value digits = digits
decimal_loop (suc fuel) value digits =
    let rest = decimal_loop fuel (value / 10) ((value % 10 + 0x30) ∷ digits) in
    if ltb value 10 then (value % 10 + 0x30) ∷ digits else rest

unfoldable pub decimal : ℕ → Bytes
unfolding decimal_loop
decimal value = decimal_loop 20 value []

unfoldable pub append_uint : ℕ → Bytes → Option Bytes
unfolding decimal
append_uint value output =
    if leb max_json_size (length output)
    then none
    else if leb (max_json_size - length output) (length (decimal value))
    then none
    else some (output ++ decimal value)

infixl 5 ◌and_then◌
abbrev pub ◌and_then◌ : Option Bytes → (Bytes → Option Bytes) → Option Bytes
none and_then next = none
some output and_then next = next output

-- `if (flag) …append…`
abbrev pub when : Bool → (Bytes → Option Bytes) → Bytes → Option Bytes
when asked append output = let more = append output in if asked then more else some output

abbrev pub append_number : String → ℕ → Bytes → Option Bytes
append_number name value output = append_text name output and_then append_uint value

abbrev pub append_boolean : String → String → ℕ → Bytes → Option Bytes
append_boolean truth lie value output =
    let text_no = append_text lie output in
    let text_yes = append_text truth output in if value == 0 then text_no else text_yes

unfoldable pub append_achievements : Stats → Bytes → Option Bytes
unfolding append_text append_uint has
append_achievements stats output =
    append_number ",\"achievements\":{\"unlocked\":" stats.achievements_unlocked output
    and_then append_number ",\"total\":" stats.achievements_total
    and_then when (has stats has_hardcore_unlocked)
        (append_number ",\"hardcore_unlocked\":" stats.achievements_hardcore_unlocked)
    and_then append_text "}"

-- The JSON text, or `none` for `too_large`.
unfoldable pub stats_text : Stats → Option Bytes
unfolding append_text append_uint has append_achievements
stats_text stats =
    append_text "{\"schema\":\"romx.stats\",\"version\":1" []
    and_then when (has stats has_play_time)
        (append_number ",\"play_time_seconds\":" stats.play_time_seconds)
    and_then when (has stats has_launch_count)
        (append_number ",\"launch_count\":" stats.launch_count)
    and_then when (has stats has_first_played)
        (append_number ",\"first_played_unix_seconds\":" stats.first_played_unix_seconds)
    and_then when (has stats has_last_played)
        (append_number ",\"last_played_unix_seconds\":" stats.last_played_unix_seconds)
    and_then when (has stats has_favorite)
        (append_boolean ",\"favorite\":true" ",\"favorite\":false" stats.favorite)
    and_then when (has stats has_completed)
        (append_boolean ",\"completed\":true" ",\"completed\":false" stats.completed)
    and_then when (has stats has_completion_percent)
        (append_number ",\"completion_percent\":" stats.completion_percent)
    and_then when (has stats has_achievements) (append_achievements stats)
    and_then append_text "}"

abbrev require_text : Option Bytes → Outcome Bytes
require_text none = error_set mutable_stats offset_unknown
require_text (some text) = ok text

-- `*required_size` and the bytes stored in a buffer of `capacity` bytes.
unfoldable pub stats_serialize_json : Stats → ℕ → Outcome (ℕ × Outcome Bytes)
unfolding stats_values_valid stats_text
stats_serialize_json stats capacity = do
  refuse_if (not (stats_values_valid stats)) invalid_argument offset_unknown
  text ← require_text (stats_text stats)
  ok (
    length text,
    (if ltb capacity (length text) then error_set buffer_too_small offset_unknown else ok text),
  )
