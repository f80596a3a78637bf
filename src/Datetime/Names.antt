-- ===== src/Datetime/Names.antt =====
-- src/datetime.rs: the names of units and weekdays, and the anchor that a text describes. The
-- regular expressions come from a crate and are a parameter: what a pattern captures in a text.
use coaly.Prelude.{
  ℕ, ◌==◌, ltb, leb, min, Option, none, some, List, [], ◌∷◌, ◌^◌, if◌then◌else◌, ◌≡◌, arith,
}
use coaly.Prelude.Texts.{codes, Text, same_text}
use coaly.Parser.Conversions.{digits_value}
use coaly.Datetime.{
  TimeSpanUnit, WeekDay, TimeStampAnchor, for_unit_hour, for_unit_day, for_unit_week,
  for_unit_month,
}

abbrev pub unit_name : TimeSpanUnit → Text
unit_name TimeSpanUnit.second = codes "second"
unit_name TimeSpanUnit.minute = codes "minute"
unit_name TimeSpanUnit.hour = codes "hour"
unit_name TimeSpanUnit.day = codes "day"
unit_name TimeSpanUnit.week = codes "week"
unit_name TimeSpanUnit.month = codes "month"

-- The alternatives of a `match` on texts, in order.
abbrev pub alternative {ℓ} : {A : Type ℓ} → Text → List (Text × A) → Option A
alternative s [] = none
alternative s ((name, a) ∷ more) = if same_text s name then some a else alternative s more

unfoldable pub unit_from_str : Text → Option TimeSpanUnit
unit_from_str s = alternative s (
    (codes "second", TimeSpanUnit.second)
    ∷ (codes "seconds", TimeSpanUnit.second)
    ∷ (codes "minute", TimeSpanUnit.minute)
    ∷ (codes "minutes", TimeSpanUnit.minute)
    ∷ (codes "hour", TimeSpanUnit.hour)
    ∷ (codes "hours", TimeSpanUnit.hour)
    ∷ (codes "day", TimeSpanUnit.day)
    ∷ (codes "days", TimeSpanUnit.day)
    ∷ (codes "week", TimeSpanUnit.week)
    ∷ (codes "weeks", TimeSpanUnit.week)
    ∷ (codes "month", TimeSpanUnit.month)
    ∷ (codes "months", TimeSpanUnit.month)
    ∷ [])

abbrev pub week_day_name : WeekDay → Text
week_day_name WeekDay.monday = codes "monday"
week_day_name WeekDay.tuesday = codes "tuesday"
week_day_name WeekDay.wednesday = codes "wednesday"
week_day_name WeekDay.thursday = codes "thursday"
week_day_name WeekDay.friday = codes "friday"
week_day_name WeekDay.saturday = codes "saturday"
week_day_name WeekDay.sunday = codes "sunday"

unfoldable pub week_day_from_str : Text → Option WeekDay
week_day_from_str s = alternative s (
    (codes "monday", WeekDay.monday)
    ∷ (codes "tuesday", WeekDay.tuesday)
    ∷ (codes "wednesday", WeekDay.wednesday)
    ∷ (codes "thursday", WeekDay.thursday)
    ∷ (codes "friday", WeekDay.friday)
    ∷ (codes "saturday", WeekDay.saturday)
    ∷ (codes "sunday", WeekDay.sunday)
    ∷ [])

abbrev below_limit : ℕ → Option ℕ → Option ℕ
below_limit limit none = none
below_limit limit (some n) = if ltb n limit then some n else none

abbrev limited_digits : ℕ → Text → Option ℕ
limited_digits limit [] = none
limited_digits limit (c ∷ cs) = below_limit limit (digits_value 10 0 (c ∷ cs))

-- `from_str` of an unsigned integer type: digits with or without a sign, below the type's limit.
unfoldable pub number_from_str : ℕ → Text → Option ℕ
unfolding digits_value
number_from_str limit [] = none
number_from_str limit (c ∷ cs) =
    if c == b'+' then limited_digits limit cs else limited_digits limit (c ∷ cs)

unfoldable pub u32_from_str : Text → Option ℕ
unfolding number_from_str
u32_from_str = number_from_str (2 ^ 32)

-- The warnings about a configured value, with the text that they show.
pub data Warning : Type 0 where
  anchor_min_req : Warning
  anchor_hhmm_req : Warning
  anchor_dowhm_req : Warning
  anchor_domhm_req : Warning
  anchor_not_allowed : Warning
  inv_rovr_file_size : Warning
  inv_num_in_intvl : Warning
  inv_unit_in_intvl : Warning
  inv_rover_cond_pattern : Warning
  unknown_buf_flush_condition : Warning
  unknown_compr_algo : Warning

-- A value, a warning, or a panic where a capture is missing.
pub data Configured {ℓ} (A : Type ℓ) : Type ℓ where
  valid : A → Configured A
  warned : Warning → Text → Configured A
  panicked : Configured A

-- The regular expressions, each by the constant that holds it.
pub data Pattern : Type 0 where
  anchor_hour : Pattern
  anchor_dow : Pattern
  anchor_dom : Pattern
  size_str : Pattern
  rovr_cond_size : Pattern
  rovr_cond_intvl : Pattern
  rovr_cond_intvl_at : Pattern

-- What a pattern captures in a text that matches it, by the number of the group.
abbrev pub Captures : Type 0
Captures = Pattern → Text → Option (ℕ → Option Text)

-- `unwrap` of a capture.
abbrev pub captured {ℓ} : {A : Type ℓ} → Option Text → (Text → Configured A) → Configured A
captured none continue = panicked
captured (some t) continue = continue t

-- A number that was read and is in its range.
abbrev pub in_limit : ℕ → Option ℕ → Option ℕ
in_limit limit none = none
in_limit limit (some n) = if leb n limit then some n else none

-- Goes on with a value that is there.
abbrev pub if_some {ℓ κ} :
    {X : Type κ} {A : Type ℓ} → Option X → Configured A → (X → Configured A) → Configured A
if_some none refused continue = refused
if_some (some x) refused continue = continue x

abbrev pub hour_and_minute {ℓ} :
    {A : Type ℓ} → Text → Text → Configured A → (ℕ → ℕ → Configured A) → Configured A
hour_and_minute h m refused continue =
    if_some (in_limit 23 (u32_from_str h)) refused
      λ hour. if_some (in_limit 59 (u32_from_str m)) refused λ minute. continue hour minute

abbrev ultimo : Text
ultimo = codes "ultimo"

-- The day of a month, at most the 31st; there is no day 0.
abbrev pub day_of_month : Text → Option ℕ
day_of_month spec = if same_text spec ultimo then some 31 else elim (u32_from_str spec) [
  | none ↦ none
  | some d ↦ if ltb 0 d then some (min d 31) else none
]

module _ (captures : Captures) where
  abbrev pub day_anchor : Text → Configured TimeStampAnchor
  day_anchor s = if_some (captures Pattern.anchor_hour s) (warned anchor_hhmm_req s) λ get.
      captured (get 1) λ h. captured (get 2) λ m.
        hour_and_minute h m (warned anchor_hhmm_req s)
          λ hour minute. valid (for_unit_day hour minute)

  abbrev pub week_anchor : Text → Configured TimeStampAnchor
  week_anchor s = if_some (captures Pattern.anchor_dow s) (warned anchor_dowhm_req s) λ get.
      captured (get 1) λ d. captured (get 2) λ h. captured (get 3) λ m.
        if_some (week_day_from_str d) (warned anchor_dowhm_req s) λ dow.
          hour_and_minute h m (warned anchor_dowhm_req s)
            λ hour minute. valid (for_unit_week dow hour minute)

  abbrev pub month_anchor : Text → Configured TimeStampAnchor
  month_anchor s = if_some (captures Pattern.anchor_dom s) (warned anchor_domhm_req s) λ get.
      captured (get 1) λ d. captured (get 2) λ h. captured (get 3) λ m.
        if_some (day_of_month d) (warned anchor_domhm_req s) λ dom.
          hour_and_minute h m (warned anchor_domhm_req s)
            λ hour minute. valid (for_unit_month dom hour minute)

  unfoldable pub for_unit : Text → TimeSpanUnit → Configured TimeStampAnchor
  unfolding u32_from_str week_day_from_str
  for_unit s TimeSpanUnit.hour =
      if_some (in_limit 59 (u32_from_str s)) (warned anchor_min_req s)
        λ minute. valid (for_unit_hour minute)
  for_unit s TimeSpanUnit.day = day_anchor s
  for_unit s TimeSpanUnit.week = week_anchor s
  for_unit s TimeSpanUnit.month = month_anchor s
  for_unit s unit = warned anchor_not_allowed s

pub unit_from_str-name : (u : TimeSpanUnit) → unit_from_str (unit_name u) ≡ some u
unfolding unit_from_str
unit_from_str-name u = ground arith

pub week_day_from_str-name : (d : WeekDay) → week_day_from_str (week_day_name d) ≡ some d
unfolding week_day_from_str
week_day_from_str-name d = ground arith
