-- ===== src/Datetime/Elapses.antt =====
-- When an interval elapses, in a time zone with a fixed offset.
use coaly.Prelude.{
  ℕ, leb, if◌then◌else◌, ◌+◌, ◌-◌, ◌*◌, ◌<◌, ◌≤◌, ◌==◌, ◌≡◌, refl, arith, some, ltb, Bool-cases,
  inl, inr,
}
use coaly.Datetime.{
  TimeSpanUnit, TimeStampAnchor, Clock, max_duration, anchored, back_strictly, add_seconds,
  sub_seconds, at_anchor, duration, next_match, prev_match, next_elapse,
}
use coaly.Datetime.Matches.{IsFixed, IsAnchor, IsPeriodic, period, next_match-IsFirst}

module _ (c : Clock) (offset first_day : ℕ) (fixed : IsFixed c offset first_day)
    (a : TimeStampAnchor) (anchor : IsAnchor a) where
  minute_back : (t : ℕ) → back_strictly 60 a.minute (c.minute_of t) ≤ 60
  minute_back t = ground (arith, fixed.minutes t, anchor.minute_in)

  hour_back : (t : ℕ) → back_strictly 24 a.hour (c.hour_of t) ≤ 24
  hour_back t = ground (arith, fixed.hours t, anchor.hour_in)

  leaves : (t n : ℕ) → c.earliest + n ≤ t → sub_seconds c t n ≡ some (t - n)
  leaves t n h = ground arith

  adds : (t n : ℕ) → t + n ≤ c.latest → add_seconds c t n ≡ some (t + n)
  adds t n h = ground arith

  abbrev weekday_back : ℕ → ℕ
  weekday_back iwd = if leb a.day_of_week iwd then iwd - a.day_of_week else iwd + 7 - a.day_of_week

  weekday_back-le : (t : ℕ) → weekday_back (c.num_days_from_monday t) ≤ 7
  weekday_back-le t = ground (arith, fixed.days t, anchor.weekday_in)

  -- Ten days behind the first instant `prev_match` has a result, which is not later.
  prev_match-le :
      (unit : TimeSpanUnit) (t : ℕ)
      → IsPeriodic unit
      → c.earliest + 864000 ≤ t
      → (p : ℕ) × (prev_match c unit a t ≡ some p) × (p ≤ t)
  unfolding prev_match
  prev_match-le TimeSpanUnit.hour t u room =
      let n = back_strictly 60 a.minute (c.minute_of t) * 60 in
      (t - n, rw (leaves t n (omega (arith, minute_back t))) refl, omega arith)
  prev_match-le TimeSpanUnit.day t u room =
      let n = back_strictly 60 a.minute (c.minute_of t) * 60 in
      let few = minute_back t in
      let t1 = t - n in
      let n1 = back_strictly 24 a.hour (c.hour_of t1) * 3600 in
      (
        t1 - n1,
        rw (leaves t n (omega arith)) (rw (leaves t1 n1 (omega (arith, hour_back t1))) refl),
        omega arith,
      )
  prev_match-le TimeSpanUnit.week t u room =
      let n = back_strictly 60 a.minute (c.minute_of t) * 60 in
      let few = minute_back t in
      let t1 = t - n in
      let n1 = back_strictly 24 a.hour (c.hour_of t1) * 3600 in
      let few1 = hour_back t1 in
      let t2 = t1 - n1 in
      let n2 = weekday_back (c.num_days_from_monday t2) * 86400 in
      (
        t2 - n2,
        rw (leaves t n (omega arith))
            (rw (leaves t1 n1 (omega arith)) (leaves t2 n2 (omega (arith, weekday_back-le t2)))),
        omega arith,
      )
  prev_match-le _ t u room = elim u [ ]

  duration-ge :
      (unit : TimeSpanUnit) (value from : ℕ)
      → IsPeriodic unit
      → 1 ≤ value
      → (period unit ≤ duration c (record { unit = unit; value = value }) from)
        × (duration c (record { unit = unit; value = value }) from ≤ max_duration)
  unfolding duration
  duration-ge TimeSpanUnit.hour value from u some_value = (omega arith, omega arith)
  duration-ge TimeSpanUnit.day value from u some_value = (omega arith, omega arith)
  duration-ge TimeSpanUnit.week value from u some_value = (omega arith, omega arith)
  duration-ge _ value from u some_value = elim u [ ]

  -- The moment chosen is less than a period away from the end of the time span.
  at_anchor-near :
      (unit : TimeSpanUnit) (next t p : ℕ)
      → next_match c unit a next ≡ some t
      → prev_match c unit a next ≡ some p
      → next ≤ t
      → t < next + period unit
      → p ≤ next
      → (r : ℕ) × (at_anchor c unit (some a) next ≡ some r)
        × (next < r + period unit)
        × (r < next + period unit)
  at_anchor-near unit next t p found back later soon before = elim (Bool-cases (t - next == 0)) [
    | inl e ↦ (next, rw (found, e) refl, omega arith, omega arith)
    | inr e ↦ elim (Bool-cases (ltb (t - next) (next - p))) [
      | inl l ↦ (t, rw (found, e, back, l) refl, omega arith, omega arith)
      | inr l ↦ (p, rw (found, e, back, l) refl, ground arith, omega arith)
    ]
  ]

  -- In a time zone with a fixed offset, an hourly, daily or weekly time span with a valid anchor
  -- elapses again, always later than before, and less than a period behind the longest duration, if
  -- its value is not 0 and the range of instants is not left.
  pub next_elapse-later :
      (unit : TimeSpanUnit) (value last : ℕ)
      → IsPeriodic unit
      → 1 ≤ value
      → c.earliest + 864000 ≤ last
      → last + max_duration + period unit ≤ c.latest
      → (t : ℕ) × (next_elapse c (anchored (record { unit = unit; value = value }) a) last ≡ some t)
        × (last < t)
        × (t < last + max_duration + period unit)
  unfolding next_elapse
  next_elapse-later unit value last u some_value low high =
      let (least, most) = duration-ge unit value last u some_value in
      let n = duration c (record { unit = unit; value = value }) last in
      let next = last + n in
      let (t, found, is) =
        next_match-IsFirst c offset first_day fixed a anchor unit next u (omega arith) in
      let (p, back, before) = prev_match-le unit next u (omega arith) in
      let (r, chosen, above, below) =
        at_anchor-near unit next t p found back is.later is.soon before in
      (r, rw (adds last n (omega arith)) chosen, omega arith, omega arith)
