-- ===== src/Scanner/Numbers.antt =====
-- src/config/toml/scanner/numberstates.rs: the states for numbers and symbols.
use coaly.Prelude.{
  ℕ, ◌+◌, ◌==◌, ◌||◌, ◌++◌, Bool, true, false, none, some, List, [], ◌∷◌, ltb, in_range,
  if◌then◌else◌,
}
use coaly.Prelude.Texts.{codes, same_text}
use coaly.Scanner.{
  char_processed, finished, char_error, error, token_found, leading_zero_not_allowed, inv_value,
  inv_num_char, digit_delim_not_embedded, digit_expected, empty_float_fract, inv_float_exp, TokenId,
  TokenValueType, ScannerStateId, StateResult, null, tab, line_feed, carriage_return, space, one_of,
  is_digit, is_letter,
}

-- The characters that end a number.
abbrev pub is_end : ℕ → Bool
is_end = one_of (space ∷ tab ∷ line_feed ∷ carriage_return ∷ null ∷ codes ",;}]")

unfoldable pub signed_zero_char : ℕ → StateResult
signed_zero_char ch =
    if one_of (codes "eE") ch
    then finished 0 false true ScannerStateId.float_exponent
    else if ch == b'.'
    then finished 0 false true ScannerStateId.float_fraction
    else if is_end ch
    then token_found 1 false TokenId.value TokenValueType.integer none
    else if is_digit ch
    then char_error 1 leading_zero_not_allowed b'0'
    else char_error 0 inv_num_char ch

abbrev inf : List ℕ
inf = codes "inf"

abbrev nan : List ℕ
nan = codes "nan"

-- src/config/toml/mod.rs
abbrev pub quoted : List ℕ → List ℕ
quoted [] = codes "\"\""
quoted (c ∷ cs) = if c == b'"' then c ∷ cs else b'"' ∷ c ∷ cs ++ b'"' ∷ []

unfoldable pub check_sym : List ℕ → StateResult
check_sym sym =
    if same_text sym (codes "true") || same_text sym (codes "false")
    then token_found 1 false TokenId.value TokenValueType.boolean (some sym)
    else if same_text sym inf
        || same_text sym (b'+' ∷ inf)
        || same_text sym (b'-' ∷ inf)
        || same_text sym nan
        || same_text sym (b'+' ∷ nan)
        || same_text sym (b'-' ∷ nan)
    then token_found 1 false TokenId.value TokenValueType.float (some sym)
    else error inv_value false (some (quoted sym))

-- The state for symbols: the characters read.
unfoldable pub symbolic_value_char : List ℕ → ℕ → List ℕ × StateResult
unfolding check_sym
symbolic_value_char sym_buffer ch =
    if is_letter ch || is_digit ch || one_of (codes "_+-") ch
    then (sym_buffer ++ ch ∷ [], char_processed false)
    else (sym_buffer, check_sym sym_buffer)

-- `is_whitespace` of a character: the code points with the property White_Space.
abbrev is_whitespace : ℕ → Bool
is_whitespace ch =
    in_range 9 13 ch
    || in_range 8192 8202 ch
    || one_of (32 ∷ 133 ∷ 160 ∷ 5760 ∷ 8232 ∷ 8233 ∷ 8239 ∷ 8287 ∷ 12288 ∷ []) ch

-- The state for integers with a radix: the last character read.
unfoldable pub radix_int_char : (ℕ → Bool) → ℕ → ℕ → ℕ × StateResult
radix_int_char validate_digit last_char ch =
    if validate_digit ch
    then (ch, char_processed true)
    else if ch == b'_'
    then (if last_char == b'_'
        then (last_char, char_error 0 digit_delim_not_embedded ch)
        else (b'_', char_processed false))
    else if is_whitespace ch || one_of (null ∷ codes ",;}]") ch
    then (
      last_char,
      if last_char == b'_'
          then char_error 1 digit_delim_not_embedded b'_'
          else token_found 1 false TokenId.value TokenValueType.integer none,
    )
    else (last_char, char_error 0 inv_num_char ch)

-- The states of `NumberState` and `FloatFractionState`.
pub record NumberState : Type 0 where
  pub digit_count : ℕ
  pub last_char : ℕ

-- `activate`
abbrev pub number_start : NumberState
number_start = record { digit_count = 0; last_char = b'_' }

unfoldable pub number_char : NumberState → ℕ → NumberState × StateResult
number_char s ch =
    if is_digit ch
    then (record { digit_count = s.digit_count + 1; last_char = ch }, char_processed true)
    else if ch == b'_'
    then (if s.last_char == b'_'
        then (s, char_error 0 digit_delim_not_embedded ch)
        else (record s { last_char = ch }, char_processed false))
    else if is_end ch
    then (
      s,
      if s.last_char == b'_'
          then char_error 1 digit_delim_not_embedded b'_'
          else if s.digit_count == 0
          then char_error 0 digit_expected ch
          else token_found 1 false TokenId.value TokenValueType.integer none,
    )
    else if one_of (codes "eE") ch
    then (
      s,
      if s.last_char == b'_'
          then char_error 1 digit_delim_not_embedded b'_'
          else finished 0 false true ScannerStateId.float_exponent,
    )
    else if ch == b'.'
    then (
      s,
      if s.last_char == b'_'
          then char_error 1 digit_delim_not_embedded b'_'
          else finished 0 false true ScannerStateId.float_fraction,
    )
    else (s, char_error 0 inv_num_char ch)

unfoldable pub signed_number_char : ℕ → StateResult
signed_number_char ch =
    if ch == b'0'
    then finished 0 false true ScannerStateId.signed_zero
    else if in_range b'1' b'9' ch
    then finished 1 false false ScannerStateId.number
    else if one_of (codes "in") ch
    then finished 1 false false ScannerStateId.symbolic_value
    else char_error 0 digit_expected ch

unfoldable pub float_fraction_char : NumberState → ℕ → NumberState × StateResult
float_fraction_char s ch =
    if is_digit ch
    then (record { digit_count = s.digit_count + 1; last_char = ch }, char_processed true)
    else if ch == b'_'
    then (if s.last_char == b'_'
        then (s, char_error 0 digit_delim_not_embedded ch)
        else (record s { last_char = ch }, char_processed false))
    else if one_of (codes "eE") ch
    then (
      s,
      if s.digit_count == 0
          then error empty_float_fract true none
          else if s.last_char == b'_'
          then char_error 1 digit_delim_not_embedded b'_'
          else finished 0 false true ScannerStateId.float_exponent,
    )
    else if is_end ch
    then (
      s,
      if s.digit_count == 0
          then error empty_float_fract true none
          else if s.last_char == b'_'
          then char_error 1 digit_delim_not_embedded b'_'
          else token_found 1 false TokenId.value TokenValueType.float none,
    )
    else (s, char_error 0 inv_num_char ch)

pub record FloatExponentState : Type 0 where
  pub digit_count : ℕ
  pub last_char : ℕ
  pub sign_defined : Bool

unfoldable pub float_exponent_char : FloatExponentState → ℕ → FloatExponentState × StateResult
float_exponent_char s ch =
    if is_digit ch
    then (record s { digit_count = s.digit_count + 1; last_char = ch }, char_processed true)
    else if ch == b'_'
    then (if s.last_char == b'_'
        then (s, char_error 0 digit_delim_not_embedded ch)
        else (record s { last_char = ch }, char_processed false))
    else if one_of (codes "+-") ch
    then (if ltb 0 s.digit_count || s.sign_defined
        then (s, error inv_float_exp true none)
        else (record s { sign_defined = true }, char_processed (ch == b'-')))
    else if is_end ch
    then (
      s,
      if s.digit_count == 0
          then error inv_float_exp true none
          else if s.last_char == b'_'
          then char_error 1 digit_delim_not_embedded b'_'
          else token_found 1 false TokenId.value TokenValueType.float none,
    )
    else (s, char_error 0 inv_num_char ch)
