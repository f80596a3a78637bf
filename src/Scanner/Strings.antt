-- ===== src/Scanner/Strings.antt =====
-- src/config/toml/scanner/stringstates.rs: the states for strings and escape sequences.
use coaly.Prelude.Texts.{codes}
use coaly.Prelude.{
  ℕ, ◌+◌, ◌-◌, ◌*◌, ◌==◌, ◌||◌, ◌&&◌, ◌++◌, not, Bool, true, false, none, some, List, [], ◌∷◌, ltb,
  leb, in_range, if◌then◌else◌,
}
use coaly.Scanner.{
  char_processed, resume_calling_state, finished, suspended, char_error, error, token_found,
  inv_ctrl_char, unterminated_str, inv_eol_esc, sgl_line_term, inv_esc_char, inv_unicode_esc_seq,
  inv_unicode_esc_char, too_many_quotes, TokenId, TokenValueType, ScannerStateId, StateResult, null,
  tab, line_feed, carriage_return, space, one_of, is_digit, validate_hex_digit,
}

-- The part of `StartOfStringState` that does not change: the delimiter and the states behind it.
pub record Delimiter : Type 0 where
  pub delim : ℕ
  pub single_delim_state_id : ScannerStateId
  pub triple_delim_state_id : ScannerStateId

-- The start of a string: the number of delimiters read.
unfoldable pub start_of_string_char : Delimiter → ℕ → ℕ → ℕ × StateResult
start_of_string_char s delim_count ch =
    if ch == s.delim
    then (if leb 2 delim_count
        then (delim_count, finished 0 false false s.triple_delim_state_id)
        else (delim_count + 1, char_processed false))
    else if delim_count == 2
    then (delim_count, token_found 1 false TokenId.value TokenValueType.string none)
    else if one_of (carriage_return ∷ line_feed ∷ null ∷ []) ch
    then (delim_count, error unterminated_str false none)
    else (delim_count, finished 1 false false s.single_delim_state_id)

unfoldable pub basic_string_char : ℕ → StateResult
basic_string_char ch =
    if ch == b'"'
    then token_found 0 false TokenId.value TokenValueType.string none
    else if ch == b'\\'
    then suspended 0 ScannerStateId.single_line_esc_sequence
    else if one_of (null ∷ line_feed ∷ carriage_return ∷ []) ch
    then error unterminated_str false none
    else if in_range 1 8 ch || (ch == 11) || in_range 13 31 ch || (ch == 127)
    then char_error 0 inv_ctrl_char ch
    else char_processed true

-- A control character that strings over several lines exclude.
abbrev is_multi_line_control : ℕ → Bool
is_multi_line_control ch =
    in_range 1 8 ch || one_of (11 ∷ 12 ∷ []) ch || in_range 14 31 ch || (ch == 127)

-- The first line break of a string over several lines is skipped.
abbrev first_break : Bool → StateResult → Bool × StateResult
first_break first_char skipped = (false, if first_char then skipped else char_processed true)

-- The state: whether the next character is the first one.
unfoldable pub multi_line_basic_string_char : Bool → ℕ → Bool × StateResult
multi_line_basic_string_char first_char ch =
    if ch == line_feed
    then first_break first_char (char_processed false)
    else if ch == carriage_return
    then first_break first_char (suspended 0 ScannerStateId.initial_multi_line_cr)
    else if ch == b'"'
    then (false, suspended 0 ScannerStateId.double_quote_delim_sequence)
    else if ch == b'\\'
    then (false, suspended 0 ScannerStateId.multi_line_esc_sequence)
    else if ch == null
    then (first_char, error unterminated_str false none)
    else if is_multi_line_control ch
    then (first_char, char_error 0 inv_ctrl_char ch)
    else (false, char_processed true)

unfoldable pub literal_string_char : ℕ → StateResult
literal_string_char ch =
    if ch == b'\''
    then token_found 0 false TokenId.value TokenValueType.string none
    else if ch == null
    then error unterminated_str false none
    else if in_range 1 8 ch || in_range 10 31 ch || (ch == 127)
    then char_error 0 inv_ctrl_char ch
    else char_processed true

unfoldable pub multi_line_literal_string_char : Bool → ℕ → Bool × StateResult
multi_line_literal_string_char first_char ch =
    if ch == line_feed
    then first_break first_char (char_processed false)
    else if ch == carriage_return
    then first_break first_char (suspended 0 ScannerStateId.initial_multi_line_cr)
    else if ch == b'\''
    then (first_char, suspended 0 ScannerStateId.single_quote_delim_sequence)
    else if ch == null
    then (first_char, error unterminated_str false none)
    else if is_multi_line_control ch
    then (first_char, char_error 0 inv_ctrl_char ch)
    else (false, char_processed true)

pub record EscapeSequenceState : Type 0 where
  pub within_multi_line_string : Bool
  pub handling_line_ending : Bool
  pub expected_char_count : ℕ
  pub chars_processed : ℕ
  pub unicode_buffer : List ℕ

-- `activate`
unfoldable pub escape_start : Bool → EscapeSequenceState
escape_start multi_line = record {
  within_multi_line_string = multi_line;
  handling_line_ending = false;
  expected_char_count = 1;
  chars_processed = 0;
  unicode_buffer = [];
}

-- A whitespace after a backslash, up to the line feed.
abbrev line_ending_char : ℕ → StateResult
line_ending_char ch =
    if ch == line_feed
    then finished 0 false false ScannerStateId.extraneous_whitespace
    else if one_of (tab ∷ carriage_return ∷ space ∷ []) ch
    then char_processed false
    else char_error 0 inv_eol_esc ch

-- The first character after a backslash.
abbrev first_escaped : EscapeSequenceState → ℕ → EscapeSequenceState × StateResult
first_escaped s ch =
    if one_of (codes "\"\\") ch
    then (s, char_processed true)
    else if ch == b'b'
    then (s, resume_calling_state 0 8 1)
    else if ch == b't'
    then (s, resume_calling_state 0 9 1)
    else if ch == b'n'
    then (s, resume_calling_state 0 10 1)
    else if ch == b'f'
    then (s, resume_calling_state 0 12 1)
    else if ch == b'r'
    then (s, resume_calling_state 0 13 1)
    else if ch == b'u'
    then (record s { expected_char_count = 5 }, char_processed false)
    else if ch == b'U'
    then (record s { expected_char_count = 9 }, char_processed false)
    else if ch == line_feed
    then (
      s,
      if s.within_multi_line_string
          then finished 0 false false ScannerStateId.extraneous_whitespace
          else char_error 1 sgl_line_term b'\\',
    )
    else if one_of (tab ∷ carriage_return ∷ space ∷ []) ch
    then (if s.within_multi_line_string
        then (record s { handling_line_ending = true }, char_processed false)
        else (s, char_error 1 sgl_line_term b'\\'))
    else if ch == null
    then (s, resume_calling_state 1 null 0)
    else (s, char_error 0 inv_esc_char ch)

-- The value of a hexadecimal digit.
abbrev pub hex_value : ℕ → ℕ
hex_value ch = if is_digit ch then ch - b'0' else if in_range b'A' b'F' ch then ch - 55 else ch - 87

-- `u32::from_str_radix` on at most eight hexadecimal digits.
abbrev pub from_hex : ℕ → List ℕ → ℕ
from_hex acc [] = acc
from_hex acc (c ∷ cs) = from_hex (acc * 16 + hex_value c) cs

-- `char::from_u32` has a result.
abbrev pub is_char : ℕ → Bool
is_char v = ltb v 55296 || in_range 57344 1114111 v

-- A digit of an escape sequence for a Unicode character.
abbrev unicode_digit : EscapeSequenceState → ℕ → EscapeSequenceState × StateResult
unicode_digit s ch =
    let digits = s.unicode_buffer ++ ch ∷ [] in
    let v = from_hex 0 digits in
    if one_of (line_feed ∷ carriage_return ∷ null ∷ codes "\"'") ch
      && ltb s.chars_processed s.expected_char_count
    then (s, error inv_unicode_esc_seq false (some s.unicode_buffer))
    else if not (validate_hex_digit ch)
    then (s, char_error 1 inv_unicode_esc_char ch)
    else (
      record s { unicode_buffer = digits },
      if s.chars_processed == s.expected_char_count
          then (if is_char v
              then resume_calling_state 0 v 1
              else error inv_unicode_esc_seq false (some digits))
          else char_processed false,
    )

-- The states after a backslash.
unfoldable pub escape_char : EscapeSequenceState → ℕ → EscapeSequenceState × StateResult
escape_char s ch =
    let s1 = record s { chars_processed = s.chars_processed + 1 } in
    if s.handling_line_ending
    then (s, line_ending_char ch)
    else if ltb s1.expected_char_count s1.chars_processed
    then (s1, resume_calling_state 1 null 0)
    else if s1.chars_processed == 1
    then first_escaped s1 ch
    else unicode_digit s1 ch

unfoldable pub extraneous_whitespace_char : ℕ → StateResult
extraneous_whitespace_char ch =
    if one_of (tab ∷ line_feed ∷ carriage_return ∷ space ∷ []) ch
    then char_processed false
    else resume_calling_state 1 null 0

-- Delimiters within a string over several lines: the number of delimiters read.
unfoldable pub delim_sequence_char : ℕ → ℕ → ℕ → ℕ × StateResult
delim_sequence_char delim delim_count ch =
    if ch == delim
    then (if leb 5 delim_count
        then (delim_count, char_error 0 too_many_quotes ch)
        else (delim_count + 1, char_processed false))
    else if ltb delim_count 3
    then (delim_count, resume_calling_state 1 delim delim_count)
    else if delim_count == 3
    then (delim_count, token_found 1 false TokenId.value TokenValueType.string none)
    else (
      delim_count,
      token_found 1 false TokenId.value TokenValueType.string
          (some (if ltb 4 delim_count then delim ∷ delim ∷ [] else delim ∷ [])),
    )

unfoldable pub initial_multi_line_cr_char : ℕ → StateResult
initial_multi_line_cr_char ch =
    if ch == line_feed
    then resume_calling_state 0 null 0
    else resume_calling_state 1 carriage_return 1
