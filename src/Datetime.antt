-- ===== src/Datetime.antt =====
-- src/datetime.rs: time spans, anchors and intervals. An instant is the number of seconds from a
-- fixed moment before all instants; years are counted from a year that 400 divides. The local time
-- of an instant and the range of instants come from the crate `chrono`, and are a parameter.
pub mod Matches
pub mod Elapses
pub mod Months
pub mod Names
pub mod Anchors
use coaly.Prelude.{
  ℕ, zero, suc, ◌+◌, ◌-◌, ◌*◌, ◌%◌, ◌^◌, min, ◌==◌, ◌||◌, ltb, leb, Bool, true, false, Option, none,
  some, if◌then◌else◌,
}

abbrev pub max_duration : ℕ
max_duration = 366 * 24 * 3600

pub data TimeSpanUnit : Type 0 where
  second : TimeSpanUnit
  minute : TimeSpanUnit
  hour : TimeSpanUnit
  day : TimeSpanUnit
  week : TimeSpanUnit
  month : TimeSpanUnit

pub data WeekDay : Type 0 where
  monday : WeekDay
  tuesday : WeekDay
  wednesday : WeekDay
  thursday : WeekDay
  friday : WeekDay
  saturday : WeekDay
  sunday : WeekDay

abbrev pub week_day_number : WeekDay → ℕ
week_day_number WeekDay.monday = 0
week_day_number WeekDay.tuesday = 1
week_day_number WeekDay.wednesday = 2
week_day_number WeekDay.thursday = 3
week_day_number WeekDay.friday = 4
week_day_number WeekDay.saturday = 5
week_day_number WeekDay.sunday = 6

pub record TimeSpan : Type 0 where
  pub unit : TimeSpanUnit
  pub value : ℕ

pub record TimeStampAnchor : Type 0 where
  pub minute : ℕ
  pub hour : ℕ
  pub day_of_week : ℕ
  pub day_of_month : ℕ

abbrev pub for_unit_hour : ℕ → TimeStampAnchor
for_unit_hour m = record { minute = m; hour = 0; day_of_week = 0; day_of_month = 0 }

abbrev pub for_unit_day : ℕ → ℕ → TimeStampAnchor
for_unit_day h m = record { minute = m; hour = h; day_of_week = 0; day_of_month = 0 }

abbrev pub for_unit_week : WeekDay → ℕ → ℕ → TimeStampAnchor
for_unit_week d h m = record {
  minute = m;
  hour = h;
  day_of_week = week_day_number d;
  day_of_month = 0;
}

abbrev pub for_unit_month : ℕ → ℕ → ℕ → TimeStampAnchor
for_unit_month d h m = record { minute = m; hour = h; day_of_week = 0; day_of_month = d }

pub record Interval : Type 0 where
  pub time_span : TimeSpan
  pub anchor : Option TimeStampAnchor

abbrev pub anchored : TimeSpan → TimeStampAnchor → Interval
anchored s a = record { time_span = s; anchor = some a }

abbrev pub unanchored : TimeSpan → Interval
unanchored s = record { time_span = s; anchor = none }

unfoldable pub days_in_month : ℕ → ℕ → ℕ
days_in_month m y =
    if m == 2
    then (if y % 400 == 0 then 29 else if y % 100 == 0 then 28 else if y % 4 == 0 then 29 else 28)
    else if (m == 4) || (m == 6) || (m == 9) || (m == 11)
    then 30
    else 31

-- The local time of an instant, and the first and the last instant.
pub record Clock : Type 0 where
  pub earliest : ℕ
  pub latest : ℕ
  pub minute_of : ℕ → ℕ
  pub hour_of : ℕ → ℕ
  pub num_days_from_monday : ℕ → ℕ
  pub day_of : ℕ → ℕ
  pub month_of : ℕ → ℕ
  pub year_of : ℕ → ℕ

-- The next month, with its year.
abbrev pub following : ℕ × ℕ → ℕ × ℕ
following (m, y) = if ltb m 12 then (m + 1, y) else (1, y + 1)

abbrev previous : ℕ × ℕ → ℕ × ℕ
previous (m, y) = if ltb 1 m then (m - 1, y) else (12, y - 1)

-- The loop over the months between the first and the last one, with the days counted so far. The
-- counter has 32 bits.
unfoldable pub pass_months : ℕ → ℕ → ℕ × ℕ → ℕ × (ℕ × ℕ)
unfolding days_in_month
pass_months zero day_count at = (day_count, at)
pass_months (suc n) day_count (m, y) =
    pass_months n ((day_count + days_in_month m y) % 2 ^ 32) (following (m, y))

-- The days to the same day some months later, or to the end of a month without that day.
unfoldable pub month_days : ℕ → ℕ → ℕ → ℕ → ℕ
unfolding pass_months days_in_month
month_days count y m d =
    let (day_count, at) = pass_months (count - 1) (days_in_month m y - d) (following (m, y)) in
    (day_count + min (days_in_month at.0 at.1) d) % 2 ^ 32

-- How far a value is on to another one, around a period.
abbrev pub forward : ℕ → ℕ → ℕ → ℕ
forward period target now = if ltb target now then target + period - now else target - now

abbrev pub back_strictly : ℕ → ℕ → ℕ → ℕ
back_strictly period target now = if ltb target now then now - target else now + period - target

infixl 1 ◌>>=◌
abbrev pub ◌>>=◌ {ℓ κ} : {A : Type ℓ} {B : Type κ} → Option A → (A → Option B) → Option B
none >>= f = none
some a >>= f = f a

module _ (c : Clock) where
  unfoldable pub duration : TimeSpan → ℕ → ℕ
  unfolding month_days
  duration s from = min (seconds s.unit) max_duration
    where
      seconds : TimeSpanUnit → ℕ
      seconds TimeSpanUnit.second = s.value
      seconds TimeSpanUnit.minute = s.value * 60
      seconds TimeSpanUnit.hour = s.value * 3600
      seconds TimeSpanUnit.day = s.value * 86400
      seconds TimeSpanUnit.week = s.value * 604800
      seconds TimeSpanUnit.month =
          month_days s.value (c.year_of from) (c.month_of from) (c.day_of from) * 86400

  -- `checked_add_signed(..).unwrap()` and `checked_sub_signed(..).unwrap()`, which panic outside
  -- of the range.
  abbrev pub add_seconds : ℕ → ℕ → Option ℕ
  add_seconds t n = if ltb c.latest (t + n) then none else some (t + n)

  abbrev pub sub_seconds : ℕ → ℕ → Option ℕ
  sub_seconds t n = if ltb t (c.earliest + n) then none else some (t - n)

  abbrev next_day_of_month : ℕ → ℕ → Option ℕ
  next_day_of_month target t =
      let days_curr_month = days_in_month (c.month_of t) (c.year_of t) in
      let (m, y) = following (c.month_of t, c.year_of t) in
      if leb (c.day_of t) (min target days_curr_month)
      then add_seconds t ((min target days_curr_month - c.day_of t) * 86400)
      else add_seconds t ((days_curr_month - c.day_of t + min target (days_in_month m y)) * 86400)

  abbrev prev_day_of_month : ℕ → ℕ → Option ℕ
  prev_day_of_month target t =
      let days_curr_month = days_in_month (c.month_of t) (c.year_of t) in
      let (m, y) = previous (c.month_of t, c.year_of t) in
      if leb (min target days_curr_month) (c.day_of t)
      then sub_seconds t ((c.day_of t - min target days_curr_month) * 86400)
      else sub_seconds t ((c.day_of t + days_in_month m y - min target (days_in_month m y)) * 86400)

  -- What follows the steps to the minute and to the hour, by the unit of the time span.
  abbrev next_day : TimeSpanUnit → TimeStampAnchor → ℕ → Option ℕ
  next_day TimeSpanUnit.day a t = some t
  next_day TimeSpanUnit.week a t =
      add_seconds t (forward 7 a.day_of_week (c.num_days_from_monday t) * 86400)
  next_day unit a t = next_day_of_month a.day_of_month t

  abbrev next_hour : TimeSpanUnit → TimeStampAnchor → ℕ → Option ℕ
  next_hour TimeSpanUnit.hour a t = some t
  next_hour unit a t =
      add_seconds t (forward 24 a.hour (c.hour_of t) * 3600) >>= λ t1. next_day unit a t1

  unfoldable pub next_match : TimeSpanUnit → TimeStampAnchor → ℕ → Option ℕ
  unfolding days_in_month
  next_match unit a instant =
      add_seconds instant (forward 60 a.minute (c.minute_of instant) * 60) >>= λ t.
      next_hour unit a t

  abbrev prev_day : TimeSpanUnit → TimeStampAnchor → ℕ → Option ℕ
  prev_day TimeSpanUnit.day a t = some t
  prev_day TimeSpanUnit.week a t =
      let iwd = c.num_days_from_monday t in
      sub_seconds t
        ((if leb a.day_of_week iwd then iwd - a.day_of_week else iwd + 7 - a.day_of_week) * 86400)
  prev_day unit a t = prev_day_of_month a.day_of_month t

  abbrev prev_hour : TimeSpanUnit → TimeStampAnchor → ℕ → Option ℕ
  prev_hour TimeSpanUnit.hour a t = some t
  prev_hour unit a t =
      sub_seconds t (back_strictly 24 a.hour (c.hour_of t) * 3600) >>= λ t1. prev_day unit a t1

  unfoldable pub prev_match : TimeSpanUnit → TimeStampAnchor → ℕ → Option ℕ
  unfolding days_in_month
  prev_match unit a instant =
      sub_seconds instant (back_strictly 60 a.minute (c.minute_of instant) * 60) >>= λ t.
      prev_hour unit a t

  -- The match that is nearer to the end of the time span.
  abbrev pub nearer : ℕ → ℕ → ℕ → ℕ
  nearer next anchored_next anchored_prev =
      if ltb (anchored_next - next) (next - anchored_prev) then anchored_next else anchored_prev

  abbrev pub at_anchor : TimeSpanUnit → Option TimeStampAnchor → ℕ → Option ℕ
  at_anchor unit none next = some next
  at_anchor unit (some a) next = next_match unit a next >>= λ anchored_next.
      if anchored_next - next == 0
      then some next
      else (prev_match unit a next >>= λ anchored_prev.
          some (nearer next anchored_next anchored_prev))

  unfoldable pub next_elapse : Interval → ℕ → Option ℕ
  unfolding next_match prev_match duration
  next_elapse i last_elapsed =
      add_seconds last_elapsed (duration i.time_span last_elapsed) >>= λ next.
      at_anchor i.time_span.unit i.anchor next
