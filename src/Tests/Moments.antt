-- ===== src/Tests/Moments.antt =====
-- The intervals of src/datetime.rs and the conditions of src/policies.rs at concrete inputs.
use coaly.Prelude.{
  ℕ, ◌+◌, ◌-◌, ◌*◌, ◌/◌, ◌%◌, ◌^◌, ◌<◌, ◌≤◌, ◌==◌, ◌≡◌, refl, inl, inr, arith, Option, none, some,
  [], ◌∷◌, ◌++◌, if◌then◌else◌,
}
use coaly.Prelude.Texts.{codes, Text}
use coaly.Datetime.{
  TimeSpanUnit, TimeSpan, TimeStampAnchor, Clock, max_duration, anchored, for_unit_hour,
  for_unit_day, next_match, prev_match, next_elapse, days_in_month,
}
use coaly.Datetime.Names.{valid, Captures, Pattern, for_unit, u32_from_str, unit_from_str}
use coaly.Datetime.Months.{month_length}
use coaly.Datetime.Matches.{
  IsFixed, IsAnchor, hourly, daily, IsFirst, next_match-IsFirst, prev_match-day_before,
}
use coaly.Datetime.Elapses.{next_elapse-later}
use coaly.Policies.{time_elapsed, parse_size_str, condition_from_str}
use coaly.Policies.Sizes.{decimal, unit_size, upper_mega, parse_size_str-decimal}
use coaly.Policies.Conditions.{condition_from_str-IsAnchorFor}

-- A clock without an offset, whose first day is a Thursday; the date is always a January 31st.
abbrev utc : Clock
utc = record {
  earliest = 0;
  latest = 10 ^ 12;
  minute_of = λ t. t / 60 % 60;
  hour_of = λ t. t / 3600 % 24;
  num_days_from_monday = λ t. (t / 86400 + 3) % 7;
  day_of = λ t. 31;
  month_of = λ t. 1;
  year_of = λ t. 2023;
}

utc-IsFixed : IsFixed utc 0 3
utc-IsFixed = record {
  minutes = λ t. omega arith;
  hours = λ t. omega arith;
  days = λ t. omega arith;
}

-- A time of a day some weeks on.
abbrev at_time : ℕ → ℕ → ℕ → ℕ
at_time days hours minutes = (100 + days) * 86400 + hours * 3600 + minutes * 60

abbrev quarter : TimeStampAnchor
quarter = for_unit_hour 15

quarter-IsAnchor : IsAnchor quarter
quarter-IsAnchor = record {
  minute_in = omega arith;
  hour_in = omega arith;
  weekday_in = omega arith;
}

abbrev evening : TimeStampAnchor
evening = for_unit_day 22 0

evening-IsAnchor : IsAnchor evening
evening-IsAnchor = record {
  minute_in = omega arith;
  hour_in = omega arith;
  weekday_in = omega arith;
}

abbrev one : TimeSpanUnit → TimeSpan
one u = record { unit = u; value = 1 }

-- The tests of the source: 15:55, 15:20 and 15:45.
hourly_less :
    next_elapse utc (anchored (one TimeSpanUnit.hour) quarter) (at_time 0 15 55)
    ≡ some (at_time 0 17 15)
unfolding next_elapse
hourly_less = refl

hourly_greater :
    next_elapse utc (anchored (one TimeSpanUnit.hour) quarter) (at_time 0 15 20)
    ≡ some (at_time 0 16 15)
unfolding next_elapse
hourly_greater = refl

hourly_half :
    next_elapse utc (anchored (one TimeSpanUnit.hour) quarter) (at_time 0 15 45)
    ≡ some (at_time 0 16 15)
unfolding next_elapse
hourly_half = refl

-- Every day at 22:00, behind 22:20: not at 22:00 of the next day, but a day later.
evening_late :
    next_elapse utc (anchored (one TimeSpanUnit.day) evening) (at_time 0 22 20)
    ≡ some (at_time 2 22 0)
unfolding next_elapse
evening_late = refl

-- Every 0 hours: the next moment is not later than the last one.
no_hours :
    next_elapse utc
      (anchored (record { unit = TimeSpanUnit.hour; value = 0 }) quarter)
      (at_time 0 15 20)
    ≡ some (at_time 0 15 15)
unfolding next_elapse
no_hours = refl

next_match-IsFirst_example :
    (t : ℕ) × (next_match utc TimeSpanUnit.day evening (at_time 0 23 30) ≡ some t)
    × IsFirst utc TimeSpanUnit.day evening (at_time 0 23 30) t
next_match-IsFirst_example =
    next_match-IsFirst utc 0 3 utc-IsFixed evening evening-IsAnchor TimeSpanUnit.day
      (at_time 0 23 30) daily (omega arith)

prev_match-day_before_example :
    prev_match utc TimeSpanUnit.day evening (at_time 0 22 0 + 20 * 60)
    ≡ some (at_time 0 22 0 - 86400)
prev_match-day_before_example =
    prev_match-day_before utc 0 3 utc-IsFixed evening evening-IsAnchor (at_time 0 22 0) 20
      (refl, refl) (omega arith) (omega arith) (omega arith)

next_elapse-later_example :
    (t : ℕ) × (next_elapse utc (anchored (one TimeSpanUnit.hour) quarter) (at_time 0 15 55)
      ≡ some t)
    × (at_time 0 15 55 < t)
    × (t < at_time 0 15 55 + max_duration + 3600)
next_elapse-later_example =
    next_elapse-later utc 0 3 utc-IsFixed quarter quarter-IsAnchor TimeSpanUnit.hour 1
      (at_time 0 15 55) hourly (omega arith) (omega arith) (omega arith)

january : 31 ≤ month_length 24276
unfolding month_length days_in_month
january = omega arith

abbrev sized : Captures
sized pattern s = some λ i. none

parse_size_str-decimal_example :
    parse_size_str sized (codes "20" ++ ((b' ' ∷ []) ++ b'M' ∷ []))
    ≡ some (decimal 0 (codes "20") * unit_size (b'M' ∷ []) % 2 ^ 64)
parse_size_str-decimal_example =
    parse_size_str-decimal sized (codes "20") (b' ' ∷ []) (b'M' ∷ []) (λ i. none) refl
      (refl, (refl, tt)) (inr (inl refl), tt) upper_mega

-- 17179869184g, which is 2 ^ 64, is no size at all.
size_overflows : parse_size_str sized (codes "17179869184g") ≡ some 0
unfolding parse_size_str
size_overflows = refl

-- What the patterns capture in a text about an interval of an hour.
abbrev hour_groups : ℕ → Option Text
hour_groups i = if i == 2 then some (codes "hour") else if i == 3 then some (codes "15") else none

abbrev hour_captures : Captures
hour_captures Pattern.rovr_cond_intvl_at s = some hour_groups
hour_captures pattern s = none

abbrev hour_text : Text
hour_text =
    b'e'
    ∷ b'v'
    ∷ b'e'
    ∷ b'r'
    ∷ b'y'
    ∷ b' '
    ∷ b'h'
    ∷ b'o'
    ∷ b'u'
    ∷ b'r'
    ∷ b' '
    ∷ b'a'
    ∷ b't'
    ∷ b' '
    ∷ codes "15"

hour_condition :
    condition_from_str (λ t. t) (λ t. t) hour_captures hour_text
    ≡ valid (time_elapsed (anchored (one TimeSpanUnit.hour) quarter))
unfolding condition_from_str u32_from_str unit_from_str for_unit
hour_condition = refl

condition_from_str-IsAnchorFor_example : IsAnchor quarter
condition_from_str-IsAnchorFor_example =
    condition_from_str-IsAnchorFor (λ t. t) (λ t. t) hour_captures hour_text
      (anchored (one TimeSpanUnit.hour) quarter) quarter hour_condition refl
