-- ===== src/MutableStats/Sound/Values.antt =====
-- What of the statistics stats_values_valid of src/mutable_stats.c asks for, as ranges of the fields
-- and as an agreement of the flags.
use libromx.Prelude.{
  ℕ, ◌-◌, ◌≤◌, bit_and, ◌≡◌, refl, ◌≢◌, ◌⊎◌, inl, inr, true, false, not, ◌&&◌, ◌||◌, arith, ltb,
  set,
}
use libromx.MutableStats.Parse.{
  Stats, has, max_safe_integer, has_first_played, has_last_played, has_achievements,
  has_hardcore_unlocked,
}
use libromx.MutableStats.Serialize.{bad_flags, beyond_limit, out_of_order, stats_values_valid}

abbrev pub Fits : ℕ → Type 0
Fits n = n ≤ max_safe_integer

abbrev pub Clear : ℕ → ℕ → Type 0
Clear flags bit = bit_and flags bit ≡ 0

-- Each field is in its range whether its flag is set or not.
pub data InRange (stats : Stats) : Type 0 where
  in_range :
      Clear stats.flags (0xffffffff - 0x1ff)
      → Fits stats.play_time_seconds
      → Fits stats.launch_count
      → Fits stats.first_played_unix_seconds
      → Fits stats.last_played_unix_seconds
      → stats.favorite ≤ 1
      → stats.completed ≤ 1
      → stats.completion_percent ≤ 100
      → stats.reserved ≡ 0
      → Fits stats.achievements_unlocked
      → Fits stats.achievements_total
      → Fits stats.achievements_hardcore_unlocked
      → InRange stats

-- The flags and the numbers of the achievements agree.
pub data Earned (stats : Stats) : Type 0 where
  none_told :
      Clear stats.flags has_achievements → Clear stats.flags has_hardcore_unlocked → Earned stats
  told :
      stats.achievements_unlocked ≤ stats.achievements_total
      → Clear stats.flags has_hardcore_unlocked
        ⊎ (stats.achievements_hardcore_unlocked ≤ stats.achievements_unlocked)
      → bit_and stats.flags has_achievements ≢ 0
      → Earned stats

within_limit : (stats : Stats) → InRange stats → beyond_limit stats ≡ false
unfolding beyond_limit
within_limit stats
      (in_range known play launches first last favorite completed percent unreserved unlocked total
        hardcore) =
    ground arith

-- ROMX_MUTABLE_STATS_HAS_HARDCORE_UNLOCKED comes with ROMX_MUTABLE_STATS_HAS_ACHIEVEMENTS.
hardcore_backed :
    (stats : Stats)
    → Earned stats
    → (has stats has_hardcore_unlocked && not (has stats has_achievements)) ≡ false
unfolding has
hardcore_backed stats (none_told absent clear) = ground arith
hardcore_backed stats (told le (inl clear) set) = ground arith
hardcore_backed stats (told le (inr hard) set) = ground arith

flags_agree : (stats : Stats) → InRange stats → Earned stats → bad_flags stats ≡ false
unfolding bad_flags
flags_agree stats
      (in_range known play launches first last favorite completed percent unreserved unlocked total
        hardcore)
      earned =
    rw (hardcore_backed stats earned) (ground arith)

achievements_ordered :
    (stats : Stats)
    → Earned stats
    → (has stats has_achievements && ltb stats.achievements_total stats.achievements_unlocked
        || has stats has_hardcore_unlocked
          && ltb stats.achievements_unlocked stats.achievements_hardcore_unlocked)
      ≡ false
unfolding has
achievements_ordered stats (none_told absent clear) = ground arith
achievements_ordered stats (told le (inl clear) set) = ground arith
achievements_ordered stats (told le (inr hard) set) = ground arith

pub valid_of :
    (stats : Stats)
    → InRange stats
    → Earned stats
    → (has stats has_first_played
        && has stats has_last_played
        && ltb stats.last_played_unix_seconds stats.first_played_unix_seconds)
      ≡ false
    → stats_values_valid stats ≡ true
unfolding stats_values_valid out_of_order
valid_of stats range earned ordered =
    rw
      (
        flags_agree stats range earned,
        within_limit stats range,
        ordered,
        achievements_ordered stats earned,
      )
      refl
