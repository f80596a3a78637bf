-- ===== src/Datetime/Matches.antt =====
-- The moments at which the anchor of a time span matches, in a time zone with a fixed offset.
use coaly.Prelude.{
  ℕ, ltb, ltb→lt, Bool-cases, inl, inr, ◌+◌, ◌-◌, ◌*◌, ◌/◌, ◌%◌, ◌<◌, ◌≤◌, ◌≡◌, ◌∙◌, refl, arith,
  some,
}
use coaly.Datetime.{
  TimeSpanUnit, TimeStampAnchor, Clock, forward, back_strictly, sub_seconds, add_seconds,
  next_match, prev_match,
}

-- Local time runs a fixed number of seconds behind the instants, whose first day is any weekday.
pub record IsFixed (c : Clock) (offset first_day : ℕ) : Type 0 where
  pub minutes : (t : ℕ) → c.minute_of t ≡ (t + offset) / 60 % 60
  pub hours : (t : ℕ) → c.hour_of t ≡ (t + offset) / 3600 % 24
  pub days : (t : ℕ) → c.num_days_from_monday t ≡ ((t + offset) / 86400 + first_day) % 7

-- The ranges of the minute, the hour and the weekday of an anchor.
pub record IsAnchor (a : TimeStampAnchor) : Type 0 where
  pub minute_in : a.minute < 60
  pub hour_in : a.hour < 24
  pub weekday_in : a.day_of_week < 7

-- The units with an anchor and a fixed period.
pub data IsPeriodic : TimeSpanUnit → Type 0 where
  hourly : IsPeriodic TimeSpanUnit.hour
  daily : IsPeriodic TimeSpanUnit.day
  weekly : IsPeriodic TimeSpanUnit.week

abbrev pub period : TimeSpanUnit → ℕ
period TimeSpanUnit.hour = 3600
period TimeSpanUnit.day = 86400
period TimeSpanUnit.week = 604800
period _ = 1

-- The anchor's moment, at an instant, as far as the unit asks for it.
abbrev pub Matches : Clock → TimeSpanUnit → TimeStampAnchor → ℕ → Type 0
Matches c TimeSpanUnit.hour a t = c.minute_of t ≡ a.minute
Matches c TimeSpanUnit.day a t = (c.minute_of t ≡ a.minute) × (c.hour_of t ≡ a.hour)
Matches c TimeSpanUnit.week a t =
    (c.minute_of t ≡ a.minute) × (c.hour_of t ≡ a.hour) × (c.num_days_from_monday t ≡ a.day_of_week)
Matches c _ a t = Unit {0}

-- A match that is whole minutes from an instant on and less than a period away, the first such.
pub record IsFirst (c : Clock) (unit : TimeSpanUnit) (a : TimeStampAnchor) (instant t : ℕ)
    : Type 0 where
  pub at : Matches c unit a t
  pub later : instant ≤ t
  pub whole : (t - instant) % 60 ≡ 0
  pub soon : t < instant + period unit
  pub first : (r : ℕ) → Matches c unit a r → instant ≤ r → (r - instant) % 60 ≡ 0 → t ≤ r

module _ (c : Clock) (offset first_day : ℕ) (fixed : IsFixed c offset first_day)
    (a : TimeStampAnchor) (anchor : IsAnchor a) where
  -- The steps to the anchor's minute, hour and weekday, each of which keeps those before.
  to_minute :
      (t : ℕ)
      → (c.minute_of (t + forward 60 a.minute (c.minute_of t) * 60) ≡ a.minute)
        × (forward 60 a.minute (c.minute_of t) < 60)
  to_minute t =
      let now = fixed.minutes t in
      let then_at = fixed.minutes (t + forward 60 a.minute (c.minute_of t) * 60) in
      ground (arith, anchor.minute_in)

  -- Whole hours keep the minute, whole days the hour.
  minute_of-hours : (t n : ℕ) → c.minute_of (t + n * 3600) ≡ c.minute_of t
  minute_of-hours t n = omega (arith, fixed.minutes t, fixed.minutes (t + n * 3600))

  minute_of-days : (t n : ℕ) → c.minute_of (t + n * 86400) ≡ c.minute_of t
  minute_of-days t n = omega (arith, fixed.minutes t, fixed.minutes (t + n * 86400))

  hour_of-days : (t n : ℕ) → c.hour_of (t + n * 86400) ≡ c.hour_of t
  hour_of-days t n = omega (arith, fixed.hours t, fixed.hours (t + n * 86400))

  to_hour :
      (t : ℕ)
      → (c.hour_of (t + forward 24 a.hour (c.hour_of t) * 3600) ≡ a.hour)
        × (forward 24 a.hour (c.hour_of t) < 24)
  to_hour t =
      let now = fixed.hours t in
      let then_at = fixed.hours (t + forward 24 a.hour (c.hour_of t) * 3600) in
      ground (arith, anchor.hour_in)

  to_weekday :
      (t : ℕ)
      → (c.num_days_from_monday (t + forward 7 a.day_of_week (c.num_days_from_monday t) * 86400)
          ≡ a.day_of_week)
        × (forward 7 a.day_of_week (c.num_days_from_monday t) < 7)
  to_weekday t =
      let now = fixed.days t in
      let then_at = fixed.days (t + forward 7 a.day_of_week (c.num_days_from_monday t) * 86400) in
      ground (arith, anchor.weekday_in)

  -- The first moments from an instant on at which the anchor's minute, hour and weekday match.
  abbrev by_minute : ℕ → ℕ
  by_minute t = forward 60 a.minute (c.minute_of t) * 60

  abbrev by_hour : ℕ → ℕ
  by_hour t = forward 24 a.hour (c.hour_of t) * 3600

  abbrev by_weekday : ℕ → ℕ
  by_weekday t = forward 7 a.day_of_week (c.num_days_from_monday t) * 86400

  inside : (t n : ℕ) → t + n ≤ c.latest → add_seconds c t n ≡ some (t + n)
  inside t n h = ground arith

  -- Two matches that are whole minutes apart are the same, or a period apart.
  Matches-apart :
      (unit : TimeSpanUnit) (t r : ℕ)
      → IsPeriodic unit
      → Matches c unit a t
      → Matches c unit a r
      → r < t
      → (t - r) % 60 ≡ 0
      → r + period unit ≤ t
  Matches-apart TimeSpanUnit.hour t r u at_t at_r less whole =
      omega (arith, fixed.minutes t, fixed.minutes r, at_t, at_r)
  Matches-apart TimeSpanUnit.day t r u at_t at_r less whole =
      omega (arith, fixed.minutes t, fixed.minutes r, at_t, at_r, fixed.hours t, fixed.hours r)
  Matches-apart TimeSpanUnit.week t r u at_t at_r less whole = omega (
    arith,
    fixed.minutes t,
    fixed.minutes r,
    at_t,
    at_r,
    fixed.hours t,
    fixed.hours r,
    fixed.days t,
    fixed.days r,
  )
  Matches-apart _ t r u at_t at_r less whole = elim u [ ]

  is_first :
      (unit : TimeSpanUnit) (instant t : ℕ)
      → IsPeriodic unit
      → Matches c unit a t
      → instant ≤ t
      → t < instant + period unit
      → (t - instant) % 60 ≡ 0
      → IsFirst c unit a instant t
  is_first unit instant t u at later soon whole = record {
    at = at;
    later = later;
    whole = whole;
    soon = soon;
    first = λ r at_r after whole_r. elim (Bool-cases (ltb r t)) [
      | inl e ↦
          absurd (omega (arith, Matches-apart unit t r u at at_r (ltb→lt r t e) (omega arith)))
      | inr e ↦ ground arith
    ];
  }

  -- In a time zone with a fixed offset, `next_match` finds a moment at which the valid anchor of an
  -- hourly, daily or weekly time span matches. It is not before the instant, whole minutes and less
  -- than a period from it, and the first such moment. The range of instants must reach a period
  -- behind the instant.
  pub next_match-IsFirst :
      (unit : TimeSpanUnit) (instant : ℕ)
      → IsPeriodic unit
      → instant + period unit ≤ c.latest
      → (t : ℕ) × (next_match c unit a instant ≡ some t) × IsFirst c unit a instant t
  unfolding next_match
  next_match-IsFirst TimeSpanUnit.hour t u room =
      let (at_minute, soon) = to_minute t in
      (
        t + by_minute t,
        rw (inside t (by_minute t) (omega arith)) refl,
        is_first TimeSpanUnit.hour t _ u at_minute (omega arith) (omega arith) (omega arith),
      )
  next_match-IsFirst TimeSpanUnit.day t u room =
      let (at_minute, soon) = to_minute t in
      let t1 = t + by_minute t in
      let (at_hour, soon1) = to_hour t1 in
      (
        t1 + by_hour t1,
        rw (inside t (by_minute t) (omega arith)) (rw (inside t1 (by_hour t1) (omega arith)) refl),
        is_first TimeSpanUnit.day t _ u (minute_of-hours t1 _ ∙ at_minute, at_hour) (omega arith)
            (omega arith) (omega arith),
      )
  next_match-IsFirst TimeSpanUnit.week t u room =
      let (at_minute, soon) = to_minute t in
      let t1 = t + by_minute t in
      let (at_hour, soon1) = to_hour t1 in
      let t2 = t1 + by_hour t1 in
      let (at_weekday, soon2) = to_weekday t2 in
      (
        t2 + by_weekday t2,
        rw (inside t (by_minute t) (omega arith))
            (rw (inside t1 (by_hour t1) (omega arith)) (inside t2 (by_weekday t2) (omega arith))),
        is_first TimeSpanUnit.week t _ u
            (
              minute_of-days t2 _ ∙ minute_of-hours t1 _ ∙ at_minute,
              hour_of-days t2 _ ∙ at_hour,
              at_weekday,
            )
            (omega arith) (omega arith) (omega arith),
      )
  next_match-IsFirst _ instant u room = elim u [ ]

  -- In a time zone with a fixed offset, where a daily time span has a valid anchor that matched 1
  -- to 60 whole minutes before an instant, `prev_match` misses this moment and goes back to the
  -- moment a day before it, if that lies in the range of instants.
  pub prev_match-day_before :
      (t k : ℕ)
      → Matches c TimeSpanUnit.day a t
      → 1 ≤ k
      → k ≤ 60
      → c.earliest + 86400 ≤ t
      → prev_match c TimeSpanUnit.day a (t + k * 60) ≡ some (t - 86400)
  unfolding prev_match
  prev_match-day_before t k (at_minute, at_hour) low high room =
      let later = fixed.minutes (t + k * 60) in
      let now = fixed.minutes t in
      let step : back_strictly 60 a.minute (c.minute_of (t + k * 60)) ≡ k =
        ground (arith, anchor.minute_in) in
      let hours_back : back_strictly 24 a.hour (c.hour_of t) ≡ 24 = ground (arith, at_hour) in
      let first : sub_seconds c (t + k * 60)
            (back_strictly 60 a.minute (c.minute_of (t + k * 60)) * 60)
          ≡ some t =
        rw step (ground arith) in
      let second : sub_seconds c t (back_strictly 24 a.hour (c.hour_of t) * 3600)
          ≡ some (t - 86400) =
        rw hours_back (ground arith) in
      rw (first, second) refl
