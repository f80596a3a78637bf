-- ===== src/Scanner.antt =====
-- src/config/toml/scanner/mod.rs: what the states of the TOML scanner share. Each state reads one
-- character, given as its code point, and says how the scanner goes on.
pub mod Basic
pub mod Numbers
pub mod Strings
pub mod DateTimes
pub mod States
pub mod Loop
pub mod Digits
pub mod Quotes
use coaly.Prelude.{ℕ, ◌==◌, ◌||◌, Bool, false, true, Option, List, [], ◌∷◌, in_range}

pub data TokenId : Type 0 where
  equal : TokenId
  comma : TokenId
  dot : TokenId
  left_brace : TokenId
  right_brace : TokenId
  left_bracket : TokenId
  right_bracket : TokenId
  double_left_bracket : TokenId
  double_right_bracket : TokenId
  key : TokenId
  value : TokenId
  line_break : TokenId
  end_of_input : TokenId

pub data TokenValueType : Type 0 where
  string : TokenValueType
  boolean : TokenValueType
  integer : TokenValueType
  float : TokenValueType
  offset_date_time : TokenValueType
  local_date_time : TokenValueType
  local_date : TokenValueType
  local_time : TokenValueType

pub data ScannerStateId : Type 0 where
  idle : ScannerStateId
  comment : ScannerStateId
  line_break : ScannerStateId
  lbracket : ScannerStateId
  rbracket : ScannerStateId
  bare_key : ScannerStateId
  double_quoted_key : ScannerStateId
  single_quoted_key : ScannerStateId
  start_of_basic_string : ScannerStateId
  start_of_literal_string : ScannerStateId
  basic_string : ScannerStateId
  multi_line_basic_string : ScannerStateId
  literal_string : ScannerStateId
  multi_line_literal_string : ScannerStateId
  zero_state : ScannerStateId
  signed_zero : ScannerStateId
  bin_int : ScannerStateId
  oct_int : ScannerStateId
  hex_int : ScannerStateId
  float_fraction : ScannerStateId
  float_exponent : ScannerStateId
  number : ScannerStateId
  signed_number : ScannerStateId
  number_or_date_time : ScannerStateId
  date_or_date_time : ScannerStateId
  space_after_date : ScannerStateId
  local_time : ScannerStateId
  offset_time : ScannerStateId
  fractional_seconds : ScannerStateId
  time_zone_offset : ScannerStateId
  symbolic_value : ScannerStateId
  single_line_esc_sequence : ScannerStateId
  multi_line_esc_sequence : ScannerStateId
  extraneous_whitespace : ScannerStateId
  double_quote_delim_sequence : ScannerStateId
  single_quote_delim_sequence : ScannerStateId
  initial_multi_line_cr : ScannerStateId

-- The message identifiers that the states use.
pub data MessageId : Type 0 where
  inv_key_start : MessageId
  inv_value_start : MessageId
  invalid_char : MessageId
  inv_ctrl_char : MessageId
  unterminated_str : MessageId
  inv_radix_prefix : MessageId
  leading_zero_not_allowed : MessageId
  two_digit_hour_required : MessageId
  four_digit_year_required : MessageId
  inv_value : MessageId
  inv_numdt_char : MessageId
  inv_num_char : MessageId
  digit_delim_not_embedded : MessageId
  digit_expected : MessageId
  empty_float_fract : MessageId
  inv_float_exp : MessageId
  inv_eol_esc : MessageId
  sgl_line_term : MessageId
  inv_esc_char : MessageId
  inv_unicode_esc_seq : MessageId
  inv_unicode_esc_char : MessageId
  too_many_quotes : MessageId
  inv_time : MessageId
  tz_or_ms_expected : MessageId
  inv_date : MessageId
  two_digit_month_required : MessageId
  two_digit_day_required : MessageId

pub data StateResult : Type 0 where
  char_processed : Bool → StateResult
  resume_calling_state : ℕ → ℕ → ℕ → StateResult
  finished : ℕ → Bool → Bool → ScannerStateId → StateResult
  suspended : ℕ → ScannerStateId → StateResult
  char_error : ℕ → MessageId → ℕ → StateResult
  error : MessageId → Bool → Option (List ℕ) → StateResult
  token_found : ℕ → Bool → TokenId → TokenValueType → Option (List ℕ) → StateResult

abbrev pub null : ℕ
null = 0

abbrev pub tab : ℕ
tab = 9

abbrev pub line_feed : ℕ
line_feed = 10

abbrev pub carriage_return : ℕ
carriage_return = 13

abbrev pub space : ℕ
space = 32

-- One of several characters in a pattern.
abbrev pub one_of : List ℕ → ℕ → Bool
one_of [] ch = false
one_of (c ∷ cs) ch = (ch == c) || one_of cs ch

abbrev pub is_digit : ℕ → Bool
is_digit ch = in_range b'0' b'9' ch

abbrev pub is_letter : ℕ → Bool
is_letter ch = in_range b'A' b'Z' ch || in_range b'a' b'z' ch

abbrev pub validate_bin_digit : ℕ → Bool
validate_bin_digit digit = (digit == b'0') || (digit == b'1')

abbrev pub validate_oct_digit : ℕ → Bool
validate_oct_digit digit = in_range b'0' b'7' digit

-- `is_ascii_hexdigit`
abbrev pub validate_hex_digit : ℕ → Bool
validate_hex_digit digit = is_digit digit || in_range b'A' b'F' digit || in_range b'a' b'f' digit
