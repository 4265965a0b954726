-- ===== src/MutableStats/Fits.antt =====
-- romx_mutable_stats_serialize_json of src/mutable_stats.c never runs out of its buffer: the longest
-- text of statistics in their ranges is far shorter than ROMX_MUTABLE_STATS_MAX_JSON_SIZE.
use libromx.Prelude.{
  ℕ, zero, suc, ◌+◌, ◌-◌, ◌/◌, ◌%◌, ◌≤◌, ◌<◌, ◌≡◌, refl, inl, inr, Bool, true, false, ◌||◌, Option,
  some, [], ◌∷◌, arith, ltb, leb, ◌==◌, if◌then◌else◌, Bool-cases, length, length-append,
}
use Prim.Native.String.{String}
use libromx.Bytes.{Bytes, c_string}
use libromx.Outcome.{ok, error_set, buffer_too_small, offset_unknown}
use libromx.MutableStats.Parse.{
  Stats, has, has_play_time, has_launch_count, has_first_played, has_last_played, has_favorite,
  has_completed, has_completion_percent, has_achievements, has_hardcore_unlocked,
}
use libromx.MutableStats.Serialize.{
  stats_values_valid, max_json_size, append_text, decimal_loop, decimal, append_uint, ◌and_then◌,
  when, append_number, append_boolean, append_achievements, stats_text, stats_serialize_json,
}

-- An append that adds at most `most` bytes whatever was written before, as long as there is room.
pub data Grows (most : ℕ) (output : Bytes) : Option Bytes → Type 0 where
  grown : {longer : Bytes} → length longer ≤ length output + most → Grows most output (some longer)

length-decimal_loop :
    (fuel value : ℕ) (digits : Bytes)
    → length (decimal_loop fuel value digits) ≤ length digits + fuel
unfolding decimal_loop
length-decimal_loop zero value digits = omega arith
length-decimal_loop (suc fuel) value digits =
    ground (arith, length-decimal_loop fuel (value / 10) ((value % 10 + 0x30) ∷ digits))

length-decimal : (value : ℕ) → length (decimal value) ≤ 20
unfolding decimal
length-decimal value = length-decimal_loop 20 value []

append_text-Grows :
    (text : String) (most : ℕ) (output : Bytes)
    → length (c_string text) ≤ most
    → length output + most < max_json_size
    → Grows most output (append_text text output)
unfolding append_text
append_text-Grows text most output short room =
    elim (Bool-cases (
      ltb max_json_size (length output)
      || ltb (max_json_size - length output) (length (c_string text)))) [
        | inl full ↦ absurd (ground arith)
        | inr free ↦
            rw (append_text, free) (grown (omega (arith, length-append output (c_string text))))
      ]

leb→le : (a b : ℕ) → leb a b ≡ true → a ≤ b
leb→le a b h = ground arith

append_uint-Grows :
    (value : ℕ) (output : Bytes)
    → length output + 20 < max_json_size
    → Grows 20 output (append_uint value output)
unfolding append_uint
append_uint-Grows value output room = elim (Bool-cases (leb max_json_size (length output))) [
  | inl full ↦ absurd (omega (arith, leb→le _ _ full))
  | inr free ↦ elim (Bool-cases (leb (max_json_size - length output) (length (decimal value)))) [
    | inl long ↦ absurd (omega (arith, leb→le _ _ long, length-decimal value))
    | inr short ↦
        rw (append_uint, free, short)
          (grown (omega (arith, length-append output (decimal value), length-decimal value)))
  ]
]

-- One append after another.
Grows-and_then :
    (first second : ℕ) (output : Bytes) {before : Option Bytes} (next : Bytes → Option Bytes)
    → Grows first output before
    → ((longer : Bytes) → length longer ≤ length output + first → Grows second longer (next longer))
    → Grows (first + second) output (before and_then next)
Grows-and_then first second output next (grown {longer} le) then_grows = go (then_grows longer le)
  where
    go : {result : Option Bytes} → Grows second longer result → Grows (first + second) output result
    go (grown more) = grown (omega (arith, le))

Grows-when :
    (asked : Bool) (most : ℕ) (append : Bytes → Option Bytes) (output : Bytes)
    → Grows most output (append output)
    → Grows most output (when asked append output)
Grows-when true most append output h = h
Grows-when false most append output h = grown (omega arith)

append_number-Grows :
    (name : String) (value : ℕ) (output : Bytes)
    → length (c_string name) ≤ 40
    → length output + 60 < max_json_size
    → Grows 60 output (append_number name value output)
append_number-Grows name value output short room =
    Grows-and_then 40 20 output (append_uint value)
      (append_text-Grows name 40 output short (omega arith))
      λ longer le. append_uint-Grows value longer (omega arith)

append_boolean-Grows :
    (truth lie : String) (value : ℕ) (output : Bytes)
    → length (c_string truth) ≤ 60
    → length (c_string lie) ≤ 60
    → length output + 60 < max_json_size
    → Grows 60 output (append_boolean truth lie value output)
append_boolean-Grows truth lie value output short_truth short_lie room =
    go (value == 0) (append_text-Grows lie 60 output short_lie room)
      (append_text-Grows truth 60 output short_truth room)
  where
    go :
        (b : Bool) {x y : Option Bytes}
        → Grows 60 output x
        → Grows 60 output y
        → Grows 60 output (if b then x else y)
    go true hx hy = hx
    go false hx hy = hy

append_achievements-Grows :
    (stats : Stats) (output : Bytes)
    → length output + 240 < max_json_size
    → Grows 240 output (append_achievements stats output)
unfolding append_achievements
append_achievements-Grows stats output room =
    Grows-and_then 180 60 output (append_text "}")
      (Grows-and_then 120 60 output
        (when (has stats has_hardcore_unlocked)
          (append_number ",\"hardcore_unlocked\":" stats.achievements_hardcore_unlocked))
        (Grows-and_then 60 60 output (append_number ",\"total\":" stats.achievements_total)
          (append_number-Grows ",\"achievements\":{\"unlocked\":" stats.achievements_unlocked output
            (omega arith) (omega arith))
          λ longer le.
            append_number-Grows ",\"total\":" stats.achievements_total longer (omega arith)
              (omega arith))
        λ longer le.
          Grows-when (has stats has_hardcore_unlocked) 60
            (append_number ",\"hardcore_unlocked\":" stats.achievements_hardcore_unlocked) longer
            (append_number-Grows ",\"hardcore_unlocked\":" stats.achievements_hardcore_unlocked
              longer (omega arith) (omega arith)))
      λ longer le. append_text-Grows "}" 60 longer (omega arith) (omega arith)

stats_text-Grows : (stats : Stats) → Grows 780 [] (stats_text stats)
unfolding stats_text
stats_text-Grows stats =
    Grows-and_then 720 60 [] (append_text "}")
      (Grows-and_then 480 240 [] (when (has stats has_achievements) (append_achievements stats))
        (Grows-and_then 420 60 []
          (when (has stats has_completion_percent)
            (append_number ",\"completion_percent\":" stats.completion_percent))
          (Grows-and_then 360 60 []
            (when (has stats has_completed)
              (append_boolean ",\"completed\":true" ",\"completed\":false" stats.completed))
            (Grows-and_then 300 60 []
              (when (has stats has_favorite)
                (append_boolean ",\"favorite\":true" ",\"favorite\":false" stats.favorite))
              (Grows-and_then 240 60 []
                (when (has stats has_last_played)
                  (append_number ",\"last_played_unix_seconds\":" stats.last_played_unix_seconds))
                (Grows-and_then 180 60 []
                  (when (has stats has_first_played) (
                    append_number ",\"first_played_unix_seconds\":"
                      stats.first_played_unix_seconds))
                  (Grows-and_then 120 60 []
                    (when (has stats has_launch_count)
                      (append_number ",\"launch_count\":" stats.launch_count))
                    (Grows-and_then 60 60 []
                      (when (has stats has_play_time)
                        (append_number ",\"play_time_seconds\":" stats.play_time_seconds))
                      (append_text-Grows "{\"schema\":\"romx.stats\",\"version\":1" 60 []
                        (omega arith) (omega arith))
                      λ longer le.
                        Grows-when (has stats has_play_time) 60
                          (append_number ",\"play_time_seconds\":" stats.play_time_seconds) longer
                          (append_number-Grows ",\"play_time_seconds\":" stats.play_time_seconds
                            longer (omega arith) (omega arith)))
                    λ longer le.
                      Grows-when (has stats has_launch_count) 60
                        (append_number ",\"launch_count\":" stats.launch_count) longer
                        (append_number-Grows ",\"launch_count\":" stats.launch_count longer
                          (omega arith) (omega arith)))
                  λ longer le.
                    Grows-when (has stats has_first_played) 60
                      (append_number ",\"first_played_unix_seconds\":"
                        stats.first_played_unix_seconds)
                      longer
                      (append_number-Grows ",\"first_played_unix_seconds\":"
                        stats.first_played_unix_seconds longer (omega arith) (omega arith)))
                λ longer le.
                  Grows-when (has stats has_last_played) 60
                    (append_number ",\"last_played_unix_seconds\":" stats.last_played_unix_seconds)
                    longer
                    (append_number-Grows ",\"last_played_unix_seconds\":"
                      stats.last_played_unix_seconds longer (omega arith) (omega arith)))
              λ longer le.
                Grows-when (has stats has_favorite) 60
                  (append_boolean ",\"favorite\":true" ",\"favorite\":false" stats.favorite) longer
                  (append_boolean-Grows ",\"favorite\":true" ",\"favorite\":false" stats.favorite
                    longer (omega arith) (omega arith) (omega arith)))
            λ longer le.
              Grows-when (has stats has_completed) 60
                (append_boolean ",\"completed\":true" ",\"completed\":false" stats.completed) longer
                (append_boolean-Grows ",\"completed\":true" ",\"completed\":false" stats.completed
                  longer (omega arith) (omega arith) (omega arith)))
          λ longer le.
            Grows-when (has stats has_completion_percent) 60
              (append_number ",\"completion_percent\":" stats.completion_percent) longer
              (append_number-Grows ",\"completion_percent\":" stats.completion_percent longer
                (omega arith) (omega arith)))
        λ longer le.
          Grows-when (has stats has_achievements) 240 (append_achievements stats) longer
            (append_achievements-Grows stats longer (omega arith)))
      λ longer le. append_text-Grows "}" 60 longer (omega arith) (omega arith)

grown_text :
    {most : ℕ} {o : Option Bytes}
    → Grows most [] o
    → (text : Bytes) × (o ≡ some text) × (length text ≤ most)
grown_text (grown {longer} le) = (longer, refl, omega arith)

-- romx_mutable_stats_serialize_json gives a text to all statistics that pass stats_values_valid: `too_large` is never reached, the size that it reports is at most 780, and a buffer of that size gets the text.
pub stats_serialize_json-eq-ok :
    (stats : Stats) (capacity : ℕ)
    → stats_values_valid stats ≡ true
    → (text : Bytes) × (length text ≤ 780)
      × (stats_serialize_json stats capacity
          ≡ ok (
            length text,
            (if ltb capacity (length text)
                then error_set buffer_too_small offset_unknown
                else ok text),
          ))
unfolding stats_serialize_json
stats_serialize_json-eq-ok stats capacity valid =
    let (text, e, short) = grown_text (stats_text-Grows stats) in (text, short, rw (valid, e) refl)
