-- ===== src/MutableStats/Sound/Members.antt =====
-- src/mutable_stats.c: what each member of the document leaves of the statistics' ranges and flags.
use libromx.Prelude.{
  ℕ, zero, suc, ◌-◌, ◌≤◌, bit_or, ◌≡◌, refl, sym, ◌∙◌, inl, inr, Bool, true, false, Option, none,
  some, arith, if◌then◌else◌, Option-cases, set,
}
use libromx.Prelude.Masks.{bit_or_clear, bit_or_other}
use libromx.Json.Tokens.{Token}
use libromx.Json.Strings.{Document, typed_token}
use libromx.Json.Lookup.{next_direct_child, is_boolean, integer, Integer, pos, negsuc}
use libromx.MutableStats.Parse.{
  Stats, flag, has_play_time, has_launch_count, has_first_played, has_last_played, has_favorite,
  has_completed, has_completion_percent, has_achievements, has_hardcore_unlocked, json_uint53,
  uint53_of, truth_of, percent_of, json_boolean, store, Progress, advance, advance_first,
  advance_second, member_loop,
}
use libromx.MutableStats.Sound.Values.{Fits, Clear, InRange, in_range, Earned, none_told, told}

-- A step that succeeds leaves statistics with a property.
pub data Holds (I : Stats → Type 0) : Option Progress → Type 0 where
  refused : Holds I none
  holds : {progress : Progress} → I progress.stats → Holds I (some progress)

pub Holds-if :
    {I : Stats → Type 0} (b : Bool) {x y : Option Progress}
    → Holds I x
    → Holds I y
    → Holds I (if b then x else y)
Holds-if true hx hy = hx
Holds-if false hx hy = hy

-- The three ways to store a value that was read.
pub Holds-advance :
    {I : Stats → Type 0} (progress : Progress) (read : Option ℕ) (put : ℕ → Stats)
    → ((n : ℕ) → read ≡ some n → I (put n))
    → Holds I (advance progress (store read put))
Holds-advance progress none put h = refused
Holds-advance progress (some n) put h = holds (h n refl)

pub Holds-advance_first :
    {I : Stats → Type 0} (progress : Progress) (read : Option ℕ) (put : ℕ → Stats)
    → ((n : ℕ) → read ≡ some n → I (put n))
    → Holds I (advance_first progress (store read put))
Holds-advance_first progress none put h = refused
Holds-advance_first progress (some n) put h = holds (h n refl)

pub Holds-advance_second :
    {I : Stats → Type 0} (progress : Progress) (read : Option ℕ) (put : ℕ → Stats)
    → ((n : ℕ) → read ≡ some n → I (put n))
    → Holds I (advance_second progress (store read put))
Holds-advance_second progress none put h = refused
Holds-advance_second progress (some n) put h = holds (h n refl)

-- A loop over members keeps what each member keeps.
-- What follows a member that was taken.
after_member :
    {I : Stats → Type 0} (taken : Option Progress) (rest : Progress → Option Progress)
    → Holds I taken
    → ((next : Progress) → I next.stats → Holds I (rest next))
    → Holds I (elim taken [ none ↦ none | some next ↦ rest next ])
after_member _ rest refused again = refused
after_member _ rest (holds {progress} kept) again = again progress kept

-- A loop over members keeps what each member keeps.
pub Holds-member_loop :
    {I : Stats → Type 0} (realloc malloc : ℕ → Bool) (fuel : ℕ)
    (member : ℕ → ℕ → Progress → Option Progress) (json : Document) (object : ℕ) (item : Option ℕ)
    (progress : Progress)
    → ((key value : ℕ) (before : Progress) → I before.stats → Holds I (member key value before))
    → I progress.stats
    → Holds I (member_loop realloc malloc fuel member json object item progress)
unfolding member_loop
Holds-member_loop realloc malloc zero member json object item progress keeps start = holds start
Holds-member_loop realloc malloc (suc fuel) member json object item progress keeps start =
    elim (Option-cases (next_direct_child json object item)) [
      | inl last ↦ rw (member_loop, last) (holds start)
      | inr (key, found) ↦ elim (Option-cases (next_direct_child json object (some key))) [
        | inl alone ↦ rw (member_loop, found, alone) refused
        | inr (value, paired) ↦
            rw (member_loop, found, paired)
              (after_member (member key value progress)
                (λ next. member_loop realloc malloc fuel member json object (some value) next)
                (keeps key value progress start)
                λ next kept.
                  Holds-member_loop realloc malloc fuel member json object (some value) next keeps
                    kept)
      ]
    ]

pub json_uint53-Fits :
    (json : Document) (token : ℕ) {n : ℕ} → json_uint53 json token ≡ some n → Fits n
unfolding json_uint53
json_uint53-Fits json token h = go (integer json (some token)) h
  where
    go : (o : Option Integer) {n : ℕ} → uint53_of o ≡ some n → Fits n
    go none h = cc
    go (some (negsuc k)) h = cc
    go (some (pos k)) h = ground arith

json_boolean-le : (json : Document) (token : ℕ) {n : ℕ} → json_boolean json token ≡ some n → n ≤ 1
unfolding json_boolean
json_boolean-le json token h = go (typed_token is_boolean json (some token)) h
  where
    go : (o : Option Token) {n : ℕ} → truth_of o ≡ some n → n ≤ 1
    go none h = cc
    go (some t) h = ground arith

percent_of-le : (o : Option ℕ) {n : ℕ} → percent_of o ≡ some n → n ≤ 100
percent_of-le none h = cc
percent_of-le (some k) h = ground arith

-- The members that store a number, on statistics in their ranges.
abbrev pub Keeps : Stats → Type 0
Keeps stats = InRange stats × Earned stats

other_flag :
    (bit : ℕ) (stats : Stats)
    → Clear bit (0xffffffff - 0x1ff)
    → InRange stats
    → Clear (bit_or stats.flags bit) (0xffffffff - 0x1ff)
other_flag bit stats clear
      (in_range known play launches first last favorite completed percent unreserved unlocked total
        hardcore) =
    bit_or_clear stats.flags bit _ known clear

-- A member that is none of the achievements leaves them as they were.
other-Earned :
    (stats changed : Stats) (bit : ℕ)
    → changed.flags ≡ bit_or stats.flags bit
    → changed.achievements_unlocked ≡ stats.achievements_unlocked
    → changed.achievements_total ≡ stats.achievements_total
    → changed.achievements_hardcore_unlocked ≡ stats.achievements_hardcore_unlocked
    → Clear bit has_achievements
    → Clear bit has_hardcore_unlocked
    → Earned stats
    → Earned changed
other-Earned stats changed bit e u t h clear_a clear_h (none_told absent clear) =
    none_told (rw e (bit_or_other stats.flags bit _ clear_a ∙ absent))
      (rw e (bit_or_other stats.flags bit _ clear_h ∙ clear))
other-Earned stats changed bit e u t h clear_a clear_h (told le (inl clear) set) =
    told (rw (u, t) le) (inl (rw e (bit_or_other stats.flags bit _ clear_h ∙ clear)))
      (λ z. set (sym (bit_or_other stats.flags bit _ clear_a) ∙ (rw e at z)))
other-Earned stats changed bit e u t h clear_a clear_h (told le (inr hard) set) =
    told (rw (u, t) le) (inr (rw (u, h) hard))
      (λ z. set (sym (bit_or_other stats.flags bit _ clear_a) ∙ (rw e at z)))

pub play-Holds :
    (json : Document) (value : ℕ) (progress : Progress)
    → Keeps progress.stats
    → Holds Keeps (
        advance progress (
          store
            (json_uint53 json value)
            λ n. flag has_play_time (record progress.stats { play_time_seconds = n })))
play-Holds json value progress
      (
        (in_range known play launches first last favorite completed percent unreserved unlocked
            total hardcore),
        earned,
      ) =
    Holds-advance progress (json_uint53 json value) _ λ n read.
      let fits = json_uint53-Fits json value read in
      (
        in_range (bit_or_clear progress.stats.flags has_play_time _ known refl) fits launches first
            last favorite completed percent unreserved unlocked total hardcore,
        other-Earned progress.stats _ has_play_time refl refl refl refl refl refl earned,
      )

pub launches-Holds :
    (json : Document) (value : ℕ) (progress : Progress)
    → Keeps progress.stats
    → Holds Keeps (
        advance progress (
          store
            (json_uint53 json value)
            λ n. flag has_launch_count (record progress.stats { launch_count = n })))
launches-Holds json value progress
      (
        (in_range known play launches first last favorite completed percent unreserved unlocked
            total hardcore),
        earned,
      ) =
    Holds-advance progress (json_uint53 json value) _ λ n read.
      let fits = json_uint53-Fits json value read in
      (
        in_range (bit_or_clear progress.stats.flags has_launch_count _ known refl) play fits first
            last favorite completed percent unreserved unlocked total hardcore,
        other-Earned progress.stats _ has_launch_count refl refl refl refl refl refl earned,
      )

pub first-Holds :
    (json : Document) (value : ℕ) (progress : Progress)
    → Keeps progress.stats
    → Holds Keeps (
        advance progress (
          store
            (json_uint53 json value)
            λ n. flag has_first_played (record progress.stats { first_played_unix_seconds = n })))
first-Holds json value progress
      (
        (in_range known play launches first last favorite completed percent unreserved unlocked
            total hardcore),
        earned,
      ) =
    Holds-advance progress (json_uint53 json value) _ λ n read.
      let fits = json_uint53-Fits json value read in
      (
        in_range (bit_or_clear progress.stats.flags has_first_played _ known refl) play launches
            fits last favorite completed percent unreserved unlocked total hardcore,
        other-Earned progress.stats _ has_first_played refl refl refl refl refl refl earned,
      )

pub last-Holds :
    (json : Document) (value : ℕ) (progress : Progress)
    → Keeps progress.stats
    → Holds Keeps (
        advance progress (
          store
            (json_uint53 json value)
            λ n. flag has_last_played (record progress.stats { last_played_unix_seconds = n })))
last-Holds json value progress
      (
        (in_range known play launches first last favorite completed percent unreserved unlocked
            total hardcore),
        earned,
      ) =
    Holds-advance progress (json_uint53 json value) _ λ n read.
      let fits = json_uint53-Fits json value read in
      (
        in_range (bit_or_clear progress.stats.flags has_last_played _ known refl) play launches
            first fits favorite completed percent unreserved unlocked total hardcore,
        other-Earned progress.stats _ has_last_played refl refl refl refl refl refl earned,
      )

pub favorite-Holds :
    (json : Document) (value : ℕ) (progress : Progress)
    → Keeps progress.stats
    → Holds Keeps (
        advance progress (
          store
            (json_boolean json value)
            λ n. flag has_favorite (record progress.stats { favorite = n })))
favorite-Holds json value progress
      (
        (in_range known play launches first last favorite completed percent unreserved unlocked
            total hardcore),
        earned,
      ) =
    Holds-advance progress (json_boolean json value) _ λ n read.
      let fits = json_boolean-le json value read in
      (
        in_range (bit_or_clear progress.stats.flags has_favorite _ known refl) play launches first
            last fits completed percent unreserved unlocked total hardcore,
        other-Earned progress.stats _ has_favorite refl refl refl refl refl refl earned,
      )

pub completed-Holds :
    (json : Document) (value : ℕ) (progress : Progress)
    → Keeps progress.stats
    → Holds Keeps (
        advance progress (
          store
            (json_boolean json value)
            λ n. flag has_completed (record progress.stats { completed = n })))
completed-Holds json value progress
      (
        (in_range known play launches first last favorite completed percent unreserved unlocked
            total hardcore),
        earned,
      ) =
    Holds-advance progress (json_boolean json value) _ λ n read.
      let fits = json_boolean-le json value read in
      (
        in_range (bit_or_clear progress.stats.flags has_completed _ known refl) play launches first
            last favorite fits percent unreserved unlocked total hardcore,
        other-Earned progress.stats _ has_completed refl refl refl refl refl refl earned,
      )

pub percent-Holds :
    (json : Document) (value : ℕ) (progress : Progress)
    → Keeps progress.stats
    → Holds Keeps (
        advance progress (
          store
            (percent_of (json_uint53 json value))
            λ n. flag has_completion_percent (record progress.stats { completion_percent = n })))
percent-Holds json value progress
      (
        (in_range known play launches first last favorite completed percent unreserved unlocked
            total hardcore),
        earned,
      ) =
    Holds-advance progress (percent_of (json_uint53 json value)) _ λ n read.
      let fits = percent_of-le (json_uint53 json value) read in
      (
        in_range (bit_or_clear progress.stats.flags has_completion_percent _ known refl) play
            launches first last favorite completed fits unreserved unlocked total hardcore,
        other-Earned progress.stats _ has_completion_percent refl refl refl refl refl refl earned,
      )
