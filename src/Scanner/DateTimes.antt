-- ===== src/Scanner/DateTimes.antt =====
-- src/config/toml/scanner/datetimestates.rs: the states for dates and times.
use coaly.Prelude.Texts.{codes}
use coaly.Prelude.{
  ℕ, zero, suc, ◌+◌, ◌-◌, ◌==◌, ◌||◌, ◌&&◌, not, Bool, true, false, none, some, List, [], ◌∷◌, ltb,
  in_range, if◌then◌else◌,
}
use coaly.Scanner.{
  char_processed, resume_calling_state, finished, suspended, error, token_found, inv_time,
  tz_or_ms_expected, inv_date, two_digit_month_required, two_digit_day_required, TokenId,
  TokenValueType, ScannerStateId, StateResult, null, tab, line_feed, carriage_return, space, one_of,
  is_digit,
}

abbrev validate_hour1 : ℕ → Bool
validate_hour1 ch = in_range b'0' b'2' ch

abbrev validate_min_sec1 : ℕ → Bool
validate_min_sec1 ch = in_range b'0' b'5' ch

abbrev validate_colon : ℕ → Bool
validate_colon ch = ch == b':'

-- TIME_VALIDATORS_MS
abbrev validators_ms : List (ℕ → Bool)
validators_ms = validate_min_sec1 ∷ is_digit ∷ validate_colon ∷ validate_min_sec1 ∷ is_digit ∷ []

-- TIME_VALIDATORS_HM
abbrev validators_hm : List (ℕ → Bool)
validators_hm = validate_hour1 ∷ is_digit ∷ validate_colon ∷ validate_min_sec1 ∷ is_digit ∷ []

-- TIME_VALIDATORS_HMS
abbrev validators_hms : List (ℕ → Bool)
validators_hms = validate_hour1 ∷ is_digit ∷ validate_colon ∷ validators_ms

-- The validator at an index accepts the character. The states check that the index is in range.
abbrev validates : List (ℕ → Bool) → ℕ → ℕ → Bool
validates [] n ch = false
validates (f ∷ fs) zero ch = f ch
validates (f ∷ fs) (suc n) ch = validates fs n ch

-- The characters that end a time.
abbrev pub is_time_end : ℕ → Bool
is_time_end = one_of (space ∷ tab ∷ line_feed ∷ carriage_return ∷ null ∷ [])

abbrev time_error : StateResult
time_error = error inv_time true none

-- The states for times count the characters read.
unfoldable pub local_time_char : ℕ → ℕ → ℕ × StateResult
local_time_char char_count ch =
    if is_time_end ch
    then (
      char_count,
      if ltb char_count 5
          then time_error
          else token_found 1 false TokenId.value TokenValueType.local_time none,
    )
    else if ltb char_count 5 && validates validators_ms char_count ch
    then (char_count + 1, char_processed true)
    else if char_count == 5
    then (if ch == b'.'
        then (char_count + 1, suspended 1 ScannerStateId.fractional_seconds)
        else (char_count, time_error))
    else (char_count, time_error)

unfoldable pub offset_time_char : ℕ → ℕ → ℕ × StateResult
offset_time_char char_count ch =
    if is_time_end ch
    then (
      char_count,
      if char_count == 8
          then token_found 1 false TokenId.value TokenValueType.local_date_time none
          else time_error,
    )
    else if ltb char_count 8
    then (if validates validators_hms char_count ch
        then (char_count + 1, char_processed true)
        else (char_count, time_error))
    else if ch == b'.'
    then (
      char_count,
      if not (char_count == 8) then time_error else suspended 1 ScannerStateId.fractional_seconds,
    )
    else if one_of (codes "+-Z") ch
    then (char_count, finished 1 false false ScannerStateId.time_zone_offset)
    else (char_count, error tz_or_ms_expected true none)

pub record TimeZoneOffsetState : Type 0 where
  pub char_count : ℕ
  pub is_utc : Bool

-- The character behind the time: a sign, or `Z`.
abbrev first_of_offset : TimeZoneOffsetState → ℕ → TimeZoneOffsetState × StateResult
first_of_offset s ch =
    let s1 = record s { char_count = 1 } in
    if one_of (codes "+-") ch
    then (s1, char_processed true)
    else if ch == b'Z'
    then (
      record s1 { is_utc = true },
      token_found 0 false TokenId.value TokenValueType.offset_date_time (some (ch ∷ [])),
    )
    else (s1, time_error)

unfoldable pub time_zone_offset_char : TimeZoneOffsetState → ℕ → TimeZoneOffsetState × StateResult
time_zone_offset_char s ch =
    if is_time_end ch
    then (
      s,
      if s.is_utc || ltb 5 s.char_count
          then token_found 1 false TokenId.value TokenValueType.offset_date_time none
          else time_error,
    )
    else if s.char_count == 0
    then first_of_offset s ch
    else if s.is_utc || ltb 5 s.char_count
    then (s, time_error)
    else if validates validators_hm (s.char_count - 1) ch
    then (record s { char_count = s.char_count + 1 }, char_processed true)
    else (s, time_error)

abbrev date_error : StateResult
date_error = error inv_date true none

-- A character of a date, with the number of characters up to it.
abbrev date_char : ℕ → ℕ → StateResult
date_char char_count ch =
    if is_digit ch
    then (if ltb 6 char_count
        then finished 1 false false ScannerStateId.offset_time
        else if (char_count == 3) || ltb 5 char_count
        then date_error
        else char_processed true)
    else if ch == b'-'
    then (if ltb char_count 3
        then error two_digit_month_required false none
        else if ltb 3 char_count
        then date_error
        else char_processed true)
    else if ch == b'T'
    then (if char_count == 5
        then error two_digit_day_required false none
        else if not (char_count == 6)
        then date_error
        else finished 0 false true ScannerStateId.offset_time)
    else if ch == space
    then (if char_count == 5
        then error two_digit_day_required false none
        else if not (char_count == 6)
        then date_error
        else suspended 0 ScannerStateId.space_after_date)
    else if one_of (tab ∷ carriage_return ∷ line_feed ∷ null ∷ []) ch
    then (if char_count == 5
        then error two_digit_day_required true none
        else if ltb char_count 6
        then date_error
        else token_found 1 false TokenId.value TokenValueType.local_date none)
    else date_error

unfoldable pub date_or_date_time_char : ℕ → ℕ → ℕ × StateResult
date_or_date_time_char char_count ch = (char_count + 1, date_char (char_count + 1) ch)

unfoldable pub space_after_date_char : ℕ → StateResult
space_after_date_char ch =
    if is_digit ch
    then resume_calling_state 1 space 1
    else token_found 1 false TokenId.value TokenValueType.local_date none

unfoldable pub fractional_seconds_char : ℕ → ℕ → ℕ × StateResult
fractional_seconds_char char_count ch =
    if char_count == 0
    then (1, char_processed true)
    else if is_digit ch
    then (char_count + 1, char_processed true)
    else if ltb char_count 2
    then (char_count, time_error)
    else (char_count, resume_calling_state 1 null 0)
