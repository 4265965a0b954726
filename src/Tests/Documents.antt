-- ===== src/Tests/Documents.antt =====
-- Runs of the readers of JSON documents: metadata and statistics.
use libromx.Prelude.{
  ℕ, ◌+◌, ◌≤◌, ◌≡◌, refl, Bool, true, Option, none, some, [], ◌++◌, arith, ltb, if◌then◌else◌,
  length,
}
use libromx.Bytes.{Bytes, c_string}
use libromx.Outcome.{ok, error_set, metadata_schema, metadata_json, offset_unknown}
use libromx.Utf8.{lead_of}
use libromx.Metadata.Errors.{DocumentFault, Accepted, Reports, check_document-Reports}
use libromx.Metadata.{validate_metadata_bytes, check_document}
use libromx.Outcome.{buffer_too_small}
use libromx.MutableStats.Sound.{stats_parse_json-Accepts}
use libromx.MutableStats.Fits.{stats_serialize_json-eq-ok}
use libromx.MutableStats.Numbers.{number_value-decimal}
use libromx.Json.Lookup.{number_value, pos}
use libromx.MutableStats.Parse.{Stats, new_stats, stats_parse_json}
use libromx.MutableStats.Serialize.{decimal, stats_text, stats_values_valid, stats_serialize_json}

abbrev plenty : ℕ → Bool
plenty n = true

good_metadata :
    validate_metadata_bytes plenty plenty
      (c_string "{\"schema_version\":\"0.2.0\",\"name\":\"Tetris\",\"users\":2}")
    ≡ ok tt
unfolding validate_metadata_bytes lead_of
good_metadata = refl

no_name :
    validate_metadata_bytes plenty plenty (c_string "{\"schema_version\":\"0.2.0\"}")
    ≡ error_set metadata_schema 0
unfolding validate_metadata_bytes lead_of
no_name = refl

twice :
    validate_metadata_bytes plenty plenty
      (c_string "{\"schema_version\":\"0.2.0\",\"name\":\"a\",\"n\\u0061me\":\"b\"}")
    ≡ error_set metadata_schema 0
unfolding validate_metadata_bytes lead_of
twice = refl

abbrev some_stats : Stats
some_stats = record new_stats {
  flags = 0x1b9;
  play_time_seconds = 7200;
  last_played_unix_seconds = 1700000000;
  favorite = 1;
  completed = 0;
  achievements_unlocked = 3;
  achievements_total = 10;
  achievements_hardcore_unlocked = 2;
}

abbrev text_or_empty : Option Bytes → Bytes
text_or_empty none = []
text_or_empty (some text) = text

printed :
    stats_text some_stats
    ≡ some (
        c_string
          "{\"schema\":\"romx.stats\",\"version\":1,\"play_time_seconds\":7200,\"last_played_unix_seconds\":1700000000,\"favorite\":true,\"completed\":false,\"achievements\":{\"unlocked\":3,\"total\":10,\"hardcore_unlocked\":2}}")
unfolding stats_text
printed = refl

parsed_back : stats_parse_json plenty plenty (text_or_empty (stats_text some_stats)) ≡ ok some_stats
unfolding stats_parse_json stats_text lead_of
parsed_back = refl

some_stats_valid : stats_values_valid some_stats ≡ true
unfolding stats_values_valid
some_stats_valid = refl

stats_parse_json-Accepts_example : stats_values_valid some_stats ≡ true
stats_parse_json-Accepts_example =
    stats_parse_json-Accepts plenty plenty (text_or_empty (stats_text some_stats)) parsed_back

stats_serialize_json-eq-ok_example :
    (text : Bytes) × (length text ≤ 780)
    × (stats_serialize_json some_stats 100
        ≡ ok (
          length text,
          (if ltb 100 (length text) then error_set buffer_too_small offset_unknown else ok text),
        ))
stats_serialize_json-eq-ok_example = stats_serialize_json-eq-ok some_stats 100 some_stats_valid

-- In a text such as {"total":9007199254740991}
number_value-decimal_example :
    number_value
      (c_string "{\"total\":" ++ (decimal 9007199254740991 ++ c_string "}"))
      9
      (9 + length (decimal 9007199254740991))
    ≡ some (pos 9007199254740991)
number_value-decimal_example =
    number_value-decimal (c_string "{\"total\":") (c_string "}") 9007199254740991 (omega arith)

abbrev cut_short : Bytes
cut_short = c_string "{\"name\":}"

check_document-Reports_example :
    Reports
      (DocumentFault plenty plenty 640 cut_short)
      (Accepted plenty plenty cut_short)
      (check_document plenty plenty 640 cut_short)
check_document-Reports_example = check_document-Reports plenty plenty 640 cut_short (omega arith)

-- The offset 648 is that of the closing brace.
cut_short_fails : check_document plenty plenty 640 cut_short ≡ error_set metadata_json 648
unfolding check_document lead_of
cut_short_fails = refl
