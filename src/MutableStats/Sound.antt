-- ===== src/MutableStats/Sound.antt =====
-- Statistics that romx_mutable_stats_parse_json of src/mutable_stats.c accepts pass stats_values_valid.
mod Values
mod Members
mod Achievements
use libromx.Prelude.{
  ℕ, zero, suc, ◌+◌, ◌-◌, ◌*◌, ◌/◌, ◌%◌, ◌^◌, ◌≤◌, ◌<◌, min, bit_and, bit_or, bit_xor, ◌≡◌, refl,
  sym, ap, ◌∙◌, ◌≢◌, ◌↔◌, ◌⊎◌, inl, inr, Bool, true, false, not, ◌&&◌, ◌||◌, Option, none, some,
  List, [], ◌∷◌, ◌++◌, map, append_assoc, append-nil, arith, ltb, leb, ◌==◌, if◌then◌else◌, ltb→lt,
  lt→ltb, ==_iff, Bool-cases, Option-cases, length, get_or, get_elem?, set, take, drop, replicate,
  All, length-append, length-set, take-append-drop, length-take, length-drop, length-replicate,
  take-all, take-append, drop-append, drop-drop, take-append-take, All-append, All-take, All-drop,
  All-get_or, get_elem?-append, get_elem?-concat, All-map, All-get_elem?,
}
use mathlib.Core.Path.{subst}
use libromx.Prelude.Masks.{bit_or_clear, bit_or_other, bit_or_ge, bit_and-bit_or}
use libromx.Bytes.{Bytes, c_string}
use libromx.Outcome.{Outcome, ok, refuse_if, invalid_argument, offset_unknown, >>=-eq-ok}
use libromx.Json.Tokens.{Token}
use libromx.Json.Strings.{Document, typed_token, string_equals}
use libromx.Json.Lookup.{next_direct_child, is_boolean, is_object, integer, Integer, pos, negsuc}
use libromx.MutableStats.Parse
use libromx.MutableStats.Parse.{
  Stats, new_stats, has, flag, bad_achievements, bad_stats, max_safe_integer, has_play_time,
  has_launch_count, has_first_played, has_last_played, has_favorite, has_completed,
  has_completion_percent, has_achievements, has_hardcore_unlocked, json_uint53, uint53_of, is_true,
  truth_of, percent_of, json_boolean, is_key, store, Progress, advance, advance_first,
  advance_second, achievements_member, member_loop, finish_achievements, object_has_unique_keys,
  finish_object, parse_achievements, stats_member, version_is_one, require_schema, finish_stats,
  read_stats, strict_document, stats_parse_json,
}
use libromx.MutableStats.Serialize.{bad_flags, beyond_limit, out_of_order, stats_values_valid}
use libromx.MutableStats.Sound.Values.{
  Fits, Clear, InRange, in_range, Earned, none_told, told, valid_of,
}
use libromx.MutableStats.Sound.Members.{
  Holds, refused, holds, Holds-if, Holds-advance, Holds-advance_first, Holds-advance_second,
  Holds-member_loop, json_uint53-Fits, Keeps, play-Holds, launches-Holds, first-Holds, last-Holds,
  favorite-Holds, completed-Holds, percent-Holds,
}
use libromx.MutableStats.Sound.Achievements.{
  Returns, nothing, statistics, Returns-if, parse_achievements-Returns,
}

module _ (realloc malloc : ℕ → Bool) where
  -- A member that stores a text or a version keeps the statistics.
  schema-Holds :
      (b : Bool) (progress : Progress)
      → Keeps progress.stats
      → Holds Keeps (if b then advance_first progress (some progress.stats) else none)
  schema-Holds true progress kept = holds kept
  schema-Holds false progress kept = refused

  version-Holds :
      (b : Bool) (progress : Progress)
      → Keeps progress.stats
      → Holds Keeps (if b then advance_second progress (some progress.stats) else none)
  version-Holds true progress kept = holds kept
  version-Holds false progress kept = refused

  achievements-Holds :
      (progress : Progress) (o : Option Stats) → Returns Keeps o → Holds Keeps (advance progress o)
  achievements-Holds progress _ nothing = refused
  achievements-Holds progress _ (statistics kept) = holds kept

  stats_member-Holds :
      (json : Document) (key value : ℕ) (progress : Progress)
      → Keeps progress.stats
      → Holds Keeps (stats_member realloc malloc json key value progress)
  unfolding stats_member
  stats_member-Holds json key value progress kept =
      Holds-if (is_key realloc malloc json key "schema")
        (schema-Holds (string_equals malloc json (some value) (c_string "romx.stats")) progress
          kept)
        (Holds-if (is_key realloc malloc json key "version")
          (version-Holds (version_is_one (integer json (some value))) progress kept)
          (Holds-if (is_key realloc malloc json key "play_time_seconds")
            (play-Holds json value progress kept)
            (Holds-if (is_key realloc malloc json key "launch_count")
              (launches-Holds json value progress kept)
              (Holds-if (is_key realloc malloc json key "first_played_unix_seconds")
                (first-Holds json value progress kept)
                (Holds-if (is_key realloc malloc json key "last_played_unix_seconds")
                  (last-Holds json value progress kept)
                  (Holds-if (is_key realloc malloc json key "favorite")
                    (favorite-Holds json value progress kept)
                    (Holds-if (is_key realloc malloc json key "completed")
                      (completed-Holds json value progress kept)
                      (Holds-if (is_key realloc malloc json key "completion_percent")
                        (percent-Holds json value progress kept)
                        (Holds-if (is_key realloc malloc json key "achievements")
                          (achievements-Holds progress _ (
                            parse_achievements-Returns realloc malloc json value progress.stats
                              kept.0))
                          refused)))))))))

  new_stats-Keeps : Keeps new_stats
  new_stats-Keeps = (
    in_range refl (omega arith) (omega arith) (omega arith) (omega arith) (omega arith)
        (omega arith) (omega arith) refl (omega arith) (omega arith) (omega arith),
    none_told refl refl,
  )

  abbrev Accepts : Stats → Type 0
  Accepts stats = stats_values_valid stats ≡ true

  times_ordered :
      (progress : Progress)
      → bad_stats progress ≡ false
      → (has progress.stats has_first_played
          && has progress.stats has_last_played
          && ltb progress.stats.last_played_unix_seconds progress.stats.first_played_unix_seconds)
        ≡ false
  unfolding bad_stats
  times_ordered progress fine = ground arith

  finish-Accepts : (o : Option Progress) → Holds Keeps o → Returns Accepts (finish_stats o)
  unfolding finish_stats bad_stats
  finish-Accepts _ refused = nothing
  finish-Accepts _ (holds {progress} (range, earned)) =
      Returns-if (bad_stats progress) (λ bad. nothing)
        λ fine. statistics (valid_of progress.stats range earned (times_ordered progress fine))

  read_stats-Returns : (json : Document) → Returns Accepts (read_stats realloc malloc json)
  unfolding read_stats
  read_stats-Returns json = finish-Accepts _ (
      Holds-member_loop realloc malloc (length json.tokens) (stats_member realloc malloc json) json
        0 none _ (λ key value progress kept. stats_member-Holds json key value progress kept)
        new_stats-Keeps)

  accepted :
      (o : Option Stats) {stats : Stats}
      → Returns Accepts o
      → require_schema realloc malloc o ≡ ok stats
      → Accepts stats
  accepted _ nothing h = cc
  accepted _ (statistics fits) h = subst Accepts (cc) fits

  -- Statistics that romx_mutable_stats_parse_json accepts from any text pass stats_values_valid: their flags are known, every number is in its range, the first time is not behind the last, and the achievements agree, so that romx_mutable_stats_serialize_json takes them.
  pub stats_parse_json-Accepts :
      (text : Bytes) {stats : Stats}
      → stats_parse_json realloc malloc text ≡ ok stats
      → stats_values_valid stats ≡ true
  unfolding stats_parse_json
  stats_parse_json-Accepts text h =
      let (_, sized, rest) =
        >>=-eq-ok
          (refuse_if (length text == 0 || ltb 16384 (length text)) invalid_argument offset_unknown)
          _ h in
      let (json, strict, last) = >>=-eq-ok (strict_document realloc malloc text) _ rest in
      accepted (read_stats realloc malloc json) (read_stats-Returns json) last
