-- ===== src/MutableStats/Sound/Achievements.antt =====
-- parse_achievements of src/mutable_stats.c keeps the numbers in their ranges and sets its flag only on
-- numbers that agree.
use libromx.Prelude.{
  ℕ, ◌≤◌, bit_and, bit_or, ◌≡◌, refl, ◌∙◌, ◌≢◌, ◌⊎◌, inl, inr, Bool, true, false, not, ◌&&◌, Option,
  none, some, arith, ltb, ◌==◌, if◌then◌else◌, Bool-cases, Option-cases, length, set,
}
use libromx.Prelude.Masks.{bit_or_clear, bit_or_other, bit_or_ge, bit_and-bit_or}
use libromx.Json.Strings.{Document, typed_token}
use libromx.Json.Lookup.{is_object}
use libromx.MutableStats.Parse.{
  Stats, has, flag, bad_achievements, has_achievements, has_hardcore_unlocked, json_uint53, is_key,
  store, Progress, advance, advance_first, advance_second, achievements_member, finish_achievements,
  object_has_unique_keys, finish_object, parse_achievements,
}
use libromx.MutableStats.Sound.Values.{Clear, InRange, in_range, told}
use libromx.MutableStats.Sound.Members.{
  Holds, refused, holds, Holds-if, Holds-advance, Holds-advance_first, Holds-advance_second,
  Holds-member_loop, json_uint53-Fits, Keeps,
}

unlocked-Holds :
    (json : Document) (value : ℕ) (progress : Progress)
    → InRange progress.stats
    → Holds InRange (
        advance_first progress
          (store (json_uint53 json value) λ n. record progress.stats { achievements_unlocked = n }))
unlocked-Holds json value progress
      (in_range known play launches first last favorite completed percent unreserved unlocked total
        hardcore) =
    Holds-advance_first progress (json_uint53 json value) _ λ n read.
      in_range known play launches first last favorite completed percent unreserved
        (json_uint53-Fits json value read) total hardcore

total-Holds :
    (json : Document) (value : ℕ) (progress : Progress)
    → InRange progress.stats
    → Holds InRange (
        advance_second progress
          (store (json_uint53 json value) λ n. record progress.stats { achievements_total = n }))
total-Holds json value progress
      (in_range known play launches first last favorite completed percent unreserved unlocked total
        hardcore) =
    Holds-advance_second progress (json_uint53 json value) _ λ n read.
      in_range known play launches first last favorite completed percent unreserved unlocked
        (json_uint53-Fits json value read) hardcore

hardcore-Holds :
    (json : Document) (value : ℕ) (progress : Progress)
    → InRange progress.stats
    → Holds InRange (
        advance progress (
          store (json_uint53 json value) λ n.
            flag has_hardcore_unlocked
              (record progress.stats { achievements_hardcore_unlocked = n })))
hardcore-Holds json value progress
      (in_range known play launches first last favorite completed percent unreserved unlocked total
        hardcore) =
    Holds-advance progress (json_uint53 json value) _ λ n read.
      in_range (bit_or_clear progress.stats.flags has_hardcore_unlocked _ known refl) play launches
        first last favorite completed percent unreserved unlocked total
        (json_uint53-Fits json value read)

achievements_member-Holds :
    (realloc malloc : ℕ → Bool) (json : Document) (key value : ℕ) (progress : Progress)
    → InRange progress.stats
    → Holds InRange (achievements_member realloc malloc json key value progress)
unfolding achievements_member
achievements_member-Holds realloc malloc json key value progress kept =
    Holds-if (is_key realloc malloc json key "unlocked") (unlocked-Holds json value progress kept) (
      Holds-if (is_key realloc malloc json key "total") (total-Holds json value progress kept) (
        Holds-if (is_key realloc malloc json key "hardcore_unlocked")
          (hardcore-Holds json value progress kept) refused))

-- The flag that finish_achievements sets is set.
flag_set : (flags : ℕ) → bit_and (bit_or flags has_achievements) has_achievements ≢ 0
flag_set flags z = absurd (
    omega (
      arith,
      bit_and-bit_or flags has_achievements has_achievements,
      bit_or_ge (bit_and flags has_achievements) has_achievements,
      z,
    ))

-- What finish_achievements, and so parse_achievements, returns.
pub data Returns (I : Stats → Type 0) : Option Stats → Type 0 where
  nothing : Returns I none
  statistics : {stats : Stats} → I stats → Returns I (some stats)

pub Returns-if :
    {I : Stats → Type 0} (b : Bool) {x y : Option Stats}
    → (b ≡ true → Returns I x)
    → (b ≡ false → Returns I y)
    → Returns I (if b then x else y)
Returns-if true hx hy = hx refl
Returns-if false hx hy = hy refl

hardcore_agrees :
    (stats : Stats)
    → (has stats has_hardcore_unlocked
        && ltb stats.achievements_unlocked stats.achievements_hardcore_unlocked)
      ≡ false
    → Clear (bit_or stats.flags has_achievements) has_hardcore_unlocked
      ⊎ (stats.achievements_hardcore_unlocked ≤ stats.achievements_unlocked)
unfolding has
hardcore_agrees stats h = elim (Bool-cases (bit_and stats.flags has_hardcore_unlocked == 0)) [
  | inl clear ↦ inl (bit_or_other stats.flags has_achievements _ refl ∙ zero_of clear)
  | inr set ↦ inr (ground arith)
]
  where
    zero_of :
        (bit_and stats.flags has_hardcore_unlocked == 0) ≡ true
        → bit_and stats.flags has_hardcore_unlocked ≡ 0
    zero_of e = ground arith

achievements-le :
    (progress : Progress)
    → bad_achievements progress ≡ false
    → progress.stats.achievements_unlocked ≤ progress.stats.achievements_total
unfolding bad_achievements
achievements-le progress fine = ground arith

achievements-hardcore :
    (progress : Progress)
    → bad_achievements progress ≡ false
    → (has progress.stats has_hardcore_unlocked
        && ltb progress.stats.achievements_unlocked progress.stats.achievements_hardcore_unlocked)
      ≡ false
unfolding bad_achievements
achievements-hardcore progress fine = ground arith

finish-Returns :
    (progress : Progress) → InRange progress.stats → Returns Keeps (finish_achievements progress)
unfolding finish_achievements
finish-Returns progress
      (in_range known play launches first last favorite completed percent unreserved unlocked total
        hardcore) =
    Returns-if (bad_achievements progress) (λ bad. nothing)
      λ fine. statistics (
        in_range (bit_or_clear progress.stats.flags has_achievements _ known refl) play launches
            first last favorite completed percent unreserved unlocked total hardcore,
        told (achievements-le progress fine)
            (hardcore_agrees progress.stats (achievements-hardcore progress fine))
            (flag_set progress.stats.flags),
      )

pub parse_achievements-Returns :
    (realloc malloc : ℕ → Bool) (json : Document) (object : ℕ) (stats : Stats)
    → InRange stats
    → Returns Keeps (parse_achievements realloc malloc json object stats)
unfolding parse_achievements
parse_achievements-Returns realloc malloc json object stats range =
    elim (Option-cases (typed_token is_object json (some object))) [
      | inl absent ↦ rw (parse_achievements, absent) nothing
      | inr (token, found) ↦
          rw (parse_achievements, found)
            (Returns-if (not (object_has_unique_keys realloc malloc json object)) (λ twice. nothing)
              λ unique. finished _ (
                Holds-member_loop realloc malloc (length json.tokens)
                  (achievements_member realloc malloc json) json object none _
                  (λ key value progress kept. member-Holds key value progress kept) range))
    ]
  where
    finished :
        (o : Option Progress) → Holds InRange o → Returns Keeps (finish_object realloc malloc o)
    finished _ refused = nothing
    finished _ (holds {progress} kept) = finish-Returns progress kept

    member-Holds :
        (key value : ℕ) (progress : Progress)
        → InRange progress.stats
        → Holds InRange (achievements_member realloc malloc json key value progress)
    member-Holds key value progress kept =
        achievements_member-Holds realloc malloc json key value progress kept
