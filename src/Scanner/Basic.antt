-- ===== src/Scanner/Basic.antt =====
-- src/config/toml/scanner/basicstates.rs: the states outside of values, and those that begin one.
use coaly.Prelude.Texts.{codes}
use coaly.Prelude.{
  ℕ, ◌+◌, ◌-◌, ◌==◌, ◌||◌, Bool, true, false, none, some, List, [], ◌∷◌, ltb, leb, in_range,
  if◌then◌else◌,
}
use coaly.Scanner.{
  char_processed, finished, suspended, char_error, error, token_found, inv_key_start,
  inv_value_start, invalid_char, inv_ctrl_char, unterminated_str, inv_radix_prefix,
  leading_zero_not_allowed, two_digit_hour_required, four_digit_year_required, inv_value,
  inv_numdt_char, TokenId, TokenValueType, ScannerStateId, StateResult, null, tab, line_feed,
  carriage_return, space, one_of, is_digit, is_letter,
}

-- The result for a character that is a token.
abbrev sign : TokenId → ℕ → StateResult
sign id ch = token_found 0 true id TokenValueType.string (some (ch ∷ []))

-- "<END-OF-LINE>"
abbrev end_of_line : List ℕ
end_of_line = codes "<END-OF-LINE>"

-- "<END-OF-INPUT>"
abbrev end_of_input_text : List ℕ
end_of_input_text =
    b'<' ∷ b'E' ∷ b'N' ∷ b'D' ∷ b'-' ∷ b'O' ∷ b'F' ∷ b'-' ∷ b'I' ∷ b'N' ∷ b'P' ∷ b'U' ∷ b'T' ∷ b'>'
    ∷ []

unfoldable pub idle_char : ℕ → Bool → StateResult
idle_char ch expect_key =
    if ch == line_feed
    then token_found 0 true TokenId.line_break TokenValueType.string (some end_of_line)
    else if ch == null
    then token_found 0 true TokenId.line_break TokenValueType.string (some end_of_input_text)
    else if ch == carriage_return
    then finished 0 true false ScannerStateId.line_break
    else if one_of (tab ∷ space ∷ []) ch
    then char_processed false
    else if ch == b'='
    then sign TokenId.equal ch
    else if ch == b','
    then sign TokenId.comma ch
    else if ch == b'.'
    then sign TokenId.dot ch
    else if ch == b'{'
    then sign TokenId.left_brace ch
    else if ch == b'}'
    then sign TokenId.right_brace ch
    else if ch == b'['
    then (if expect_key
        then finished 0 true true ScannerStateId.lbracket
        else sign TokenId.left_bracket ch)
    else if ch == b']'
    then (if expect_key
        then finished 0 true true ScannerStateId.rbracket
        else sign TokenId.right_bracket ch)
    else if ch == b'"'
    then (if expect_key
        then finished 0 true false ScannerStateId.double_quoted_key
        else finished 0 true false ScannerStateId.start_of_basic_string)
    else if ch == b'\''
    then (if expect_key
        then finished 0 true false ScannerStateId.single_quoted_key
        else finished 0 true false ScannerStateId.start_of_literal_string)
    else if ch == b'+'
    then (if expect_key
        then char_error 0 inv_key_start ch
        else finished 0 true false ScannerStateId.signed_number)
    else if ch == b'-'
    then (if expect_key
        then finished 0 true true ScannerStateId.bare_key
        else finished 0 true true ScannerStateId.signed_number)
    else if is_letter ch
    then (if expect_key
        then finished 0 true true ScannerStateId.bare_key
        else finished 1 true false ScannerStateId.symbolic_value)
    else if ch == b'_'
    then (if expect_key
        then finished 0 true true ScannerStateId.bare_key
        else char_error 0 inv_value_start ch)
    else if ch == b'0'
    then (if expect_key
        then finished 1 true false ScannerStateId.bare_key
        else finished 0 true true ScannerStateId.zero_state)
    else if in_range b'1' b'9' ch
    then (if expect_key
        then finished 0 true true ScannerStateId.bare_key
        else finished 0 true true ScannerStateId.number_or_date_time)
    else if ch == b'#'
    then finished 0 false false ScannerStateId.comment
    else char_error 0 invalid_char ch

unfoldable pub comment_char : ℕ → StateResult
comment_char ch =
    if one_of (line_feed ∷ null ∷ []) ch
    then token_found 0 true TokenId.line_break TokenValueType.string none
    else if ch == carriage_return
    then finished 0 true false ScannerStateId.line_break
    else if in_range 1 8 ch || one_of (11 ∷ 12 ∷ []) ch || in_range 14 31 ch || (ch == 127)
    then char_error 0 inv_ctrl_char ch
    else char_processed false

unfoldable pub line_break_char : ℕ → StateResult
line_break_char ch =
    if ch == line_feed
    then token_found 0 true TokenId.line_break TokenValueType.string none
    else char_error 1 inv_ctrl_char carriage_return

pub record BracketState : Type 0 where
  pub bracket_char : ℕ
  pub single_id : TokenId
  pub double_id : TokenId

unfoldable pub bracket_char_read : BracketState → ℕ → StateResult
bracket_char_read s ch =
    if ch == s.bracket_char
    then token_found 0 false s.double_id TokenValueType.string (some (s.bracket_char ∷ []))
    else token_found 1 false s.single_id TokenValueType.string none

unfoldable pub bare_key_char : ℕ → StateResult
bare_key_char ch =
    if is_letter ch || is_digit ch || (ch == b'_') || (ch == b'-')
    then char_processed true
    else token_found 1 false TokenId.key TokenValueType.string none

unfoldable pub double_quoted_key_char : ℕ → StateResult
double_quoted_key_char ch =
    if ch == b'"'
    then token_found 0 false TokenId.key TokenValueType.string none
    else if ch == b'\\'
    then suspended 0 ScannerStateId.single_line_esc_sequence
    else if in_range 1 8 ch || in_range 10 31 ch || (ch == 127)
    then char_error 0 inv_ctrl_char ch
    else if ch == null
    then error unterminated_str false none
    else char_processed true

unfoldable pub single_quoted_key_char : ℕ → StateResult
single_quoted_key_char ch =
    if ch == b'\''
    then token_found 0 false TokenId.key TokenValueType.string none
    else if in_range 1 8 ch || in_range 10 31 ch || (ch == 127)
    then char_error 0 inv_ctrl_char ch
    else if ch == null
    then error unterminated_str false none
    else char_processed true

-- The state for tokens that begin with a zero: the number of characters read.
unfoldable pub zero_char : ℕ → ℕ → ℕ × StateResult
zero_char char_count ch =
    if ch == b'b'
    then (
      char_count,
      if leb 2 char_count
          then error inv_radix_prefix false none
          else finished 0 false true ScannerStateId.bin_int,
    )
    else if ch == b'o'
    then (
      char_count,
      if leb 2 char_count
          then error inv_radix_prefix false none
          else finished 0 false true ScannerStateId.oct_int,
    )
    else if ch == b'x'
    then (
      char_count,
      if leb 2 char_count
          then error inv_radix_prefix false none
          else finished 0 false true ScannerStateId.hex_int,
    )
    else if one_of (codes "eE") ch
    then (char_count, finished 0 false true ScannerStateId.float_exponent)
    else if ch == b'.'
    then (
      char_count,
      if leb 2 char_count
          then char_error 1 leading_zero_not_allowed b'0'
          else finished 0 false true ScannerStateId.float_fraction,
    )
    else if one_of (space ∷ tab ∷ line_feed ∷ carriage_return ∷ null ∷ codes ",}]") ch
    then (char_count, token_found 1 false TokenId.value TokenValueType.integer none)
    else if is_digit ch
    then (if leb 2 char_count
        then (char_count, char_error 1 leading_zero_not_allowed b'0')
        else (2, char_processed true))
    else if ch == b':'
    then (
      char_count,
      if ltb char_count 2
          then char_error 1 two_digit_hour_required ch
          else finished 0 false true ScannerStateId.local_time,
    )
    else (char_count, error inv_value true none)

abbrev date_or_number : ℕ → ℕ → StateResult
date_or_number char_count ch =
    if is_digit ch
    then (if ltb 4 char_count
        then finished 1 false false ScannerStateId.number
        else char_processed true)
    else if ch == b':'
    then (if char_count == 3
        then finished 0 false true ScannerStateId.local_time
        else char_error 1 two_digit_hour_required ch)
    else if ch == b'-'
    then (if char_count == 5
        then finished 0 false true ScannerStateId.date_or_date_time
        else char_error (char_count - 1) four_digit_year_required ch)
    else if ch == b'_'
    then finished 0 false false ScannerStateId.number
    else if one_of (tab ∷ space ∷ line_feed ∷ carriage_return ∷ null ∷ codes ",;}]") ch
    then token_found 1 false TokenId.value TokenValueType.integer none
    else if one_of (codes "eE") ch
    then finished 0 false true ScannerStateId.float_exponent
    else if ch == b'.'
    then finished 0 false true ScannerStateId.float_fraction
    else char_error 0 inv_numdt_char ch

-- The state for a number, date or time: the number of characters read, which counts this one.
unfoldable pub number_or_date_time_char : ℕ → ℕ → ℕ × StateResult
number_or_date_time_char char_count ch = (char_count + 1, date_or_number (char_count + 1) ch)
