-- ===== src/Scanner/States.antt =====
-- src/config/toml/scanner/mod.rs: the table of all states. Each state is created once and keeps its
-- memory from token to token; a state that is entered anew is activated.
pub mod Allowed
pub mod Ranks
pub mod Results
use coaly.Prelude.{ℕ, Bool, true, false, List, []}
use coaly.Scanner.{
  ScannerStateId, TokenId, StateResult, validate_bin_digit, validate_oct_digit, validate_hex_digit,
}
use coaly.Scanner.Basic.{
  idle_char, comment_char, line_break_char, bracket_char_read, bare_key_char,
  double_quoted_key_char, single_quoted_key_char, zero_char, number_or_date_time_char,
}
use coaly.Scanner.Numbers.{
  NumberState, FloatExponentState, number_start, signed_zero_char, symbolic_value_char,
  radix_int_char, number_char, signed_number_char, float_fraction_char, float_exponent_char,
}
use coaly.Scanner.Strings.{
  EscapeSequenceState, escape_start, start_of_string_char, basic_string_char,
  multi_line_basic_string_char, literal_string_char, multi_line_literal_string_char, escape_char,
  extraneous_whitespace_char, delim_sequence_char, initial_multi_line_cr_char,
}
use coaly.Scanner.DateTimes.{
  TimeZoneOffsetState, local_time_char, offset_time_char, time_zone_offset_char,
  date_or_date_time_char, space_after_date_char, fractional_seconds_char,
}

-- What the states remember.
pub record Memory : Type 0 where
  pub start_of_basic_string : ℕ
  pub start_of_literal_string : ℕ
  pub multi_line_basic_string : Bool
  pub multi_line_literal_string : Bool
  pub zero_state : ℕ
  pub bin_int : ℕ
  pub oct_int : ℕ
  pub hex_int : ℕ
  pub float_fraction : NumberState
  pub float_exponent : FloatExponentState
  pub number : NumberState
  pub number_or_date_time : ℕ
  pub date_or_date_time : ℕ
  pub local_time : ℕ
  pub offset_time : ℕ
  pub fractional_seconds : ℕ
  pub time_zone_offset : TimeZoneOffsetState
  pub symbolic_value : List ℕ
  pub single_line_esc_sequence : EscapeSequenceState
  pub multi_line_esc_sequence : EscapeSequenceState
  pub double_quote_delim_sequence : ℕ
  pub single_quote_delim_sequence : ℕ

abbrev exponent_start : FloatExponentState
exponent_start = record { digit_count = 0; last_char = b'_'; sign_defined = false }

abbrev offset_start : TimeZoneOffsetState
offset_start = record { char_count = 0; is_utc = false }

unfoldable pub handler_states : Memory
unfolding escape_start
handler_states = record {
  start_of_basic_string = 1;
  start_of_literal_string = 1;
  multi_line_basic_string = true;
  multi_line_literal_string = true;
  zero_state = 1;
  bin_int = b'_';
  oct_int = b'_';
  hex_int = b'_';
  float_fraction = number_start;
  float_exponent = exponent_start;
  number = number_start;
  number_or_date_time = 1;
  date_or_date_time = 0;
  local_time = 0;
  offset_time = 0;
  fractional_seconds = 0;
  time_zone_offset = offset_start;
  symbolic_value = [];
  single_line_esc_sequence = escape_start false;
  multi_line_esc_sequence = escape_start true;
  double_quote_delim_sequence = 1;
  single_quote_delim_sequence = 1;
}

unfoldable pub activate : ScannerStateId → Memory → Memory
unfolding escape_start
activate ScannerStateId.start_of_basic_string m = record m { start_of_basic_string = 1 }
activate ScannerStateId.start_of_literal_string m = record m { start_of_literal_string = 1 }
activate ScannerStateId.multi_line_basic_string m = record m { multi_line_basic_string = true }
activate ScannerStateId.multi_line_literal_string m = record m { multi_line_literal_string = true }
activate ScannerStateId.zero_state m = record m { zero_state = 1 }
activate ScannerStateId.bin_int m = record m { bin_int = b'_' }
activate ScannerStateId.oct_int m = record m { oct_int = b'_' }
activate ScannerStateId.hex_int m = record m { hex_int = b'_' }
activate ScannerStateId.float_fraction m = record m { float_fraction = number_start }
activate ScannerStateId.float_exponent m = record m { float_exponent = exponent_start }
activate ScannerStateId.number m = record m { number = number_start }
activate ScannerStateId.number_or_date_time m = record m { number_or_date_time = 1 }
activate ScannerStateId.date_or_date_time m = record m { date_or_date_time = 0 }
activate ScannerStateId.local_time m = record m { local_time = 0 }
activate ScannerStateId.offset_time m = record m { offset_time = 0 }
activate ScannerStateId.fractional_seconds m = record m { fractional_seconds = 0 }
activate ScannerStateId.time_zone_offset m = record m { time_zone_offset = offset_start }
activate ScannerStateId.symbolic_value m = record m { symbolic_value = [] }
activate ScannerStateId.single_line_esc_sequence m = record m {
  single_line_esc_sequence = escape_start false;
}
activate ScannerStateId.multi_line_esc_sequence m = record m {
  multi_line_esc_sequence = escape_start true;
}
activate ScannerStateId.double_quote_delim_sequence m = record m { double_quote_delim_sequence = 1 }
activate ScannerStateId.single_quote_delim_sequence m = record m { single_quote_delim_sequence = 1 }
activate _ m = m

-- A state's reading of a character, with what changes in its memory.
unfoldable pub process_char : ScannerStateId → Memory → ℕ → Bool → Memory × StateResult
process_char ScannerStateId.idle m ch expect_key = (m, idle_char ch expect_key)
process_char ScannerStateId.comment m ch expect_key = (m, comment_char ch)
process_char ScannerStateId.line_break m ch expect_key = (m, line_break_char ch)
process_char ScannerStateId.lbracket m ch expect_key = (
  m,
  bracket_char_read
      (record {
        bracket_char = b'[';
        single_id = TokenId.left_bracket;
        double_id = TokenId.double_left_bracket;
      })
      ch,
)
process_char ScannerStateId.rbracket m ch expect_key = (
  m,
  bracket_char_read
      (record {
        bracket_char = b']';
        single_id = TokenId.right_bracket;
        double_id = TokenId.double_right_bracket;
      })
      ch,
)
process_char ScannerStateId.bare_key m ch expect_key = (m, bare_key_char ch)
process_char ScannerStateId.double_quoted_key m ch expect_key = (m, double_quoted_key_char ch)
process_char ScannerStateId.single_quoted_key m ch expect_key = (m, single_quoted_key_char ch)
process_char ScannerStateId.start_of_basic_string m ch expect_key =
    let (n, r) =
      start_of_string_char
        (record {
          delim = b'"';
          single_delim_state_id = ScannerStateId.basic_string;
          triple_delim_state_id = ScannerStateId.multi_line_basic_string;
        })
        m.start_of_basic_string ch in
    (record m { start_of_basic_string = n }, r)
process_char ScannerStateId.start_of_literal_string m ch expect_key =
    let (n, r) =
      start_of_string_char
        (record {
          delim = b'\'';
          single_delim_state_id = ScannerStateId.literal_string;
          triple_delim_state_id = ScannerStateId.multi_line_literal_string;
        })
        m.start_of_literal_string ch in
    (record m { start_of_literal_string = n }, r)
process_char ScannerStateId.basic_string m ch expect_key = (m, basic_string_char ch)
process_char ScannerStateId.multi_line_basic_string m ch expect_key =
    let (s, r) = multi_line_basic_string_char m.multi_line_basic_string ch in
    (record m { multi_line_basic_string = s }, r)
process_char ScannerStateId.literal_string m ch expect_key = (m, literal_string_char ch)
process_char ScannerStateId.multi_line_literal_string m ch expect_key =
    let (s, r) = multi_line_literal_string_char m.multi_line_literal_string ch in
    (record m { multi_line_literal_string = s }, r)
process_char ScannerStateId.zero_state m ch expect_key =
    let (s, r) = zero_char m.zero_state ch in (record m { zero_state = s }, r)
process_char ScannerStateId.signed_zero m ch expect_key = (m, signed_zero_char ch)
process_char ScannerStateId.bin_int m ch expect_key =
    let (s, r) = radix_int_char validate_bin_digit m.bin_int ch in (record m { bin_int = s }, r)
process_char ScannerStateId.oct_int m ch expect_key =
    let (s, r) = radix_int_char validate_oct_digit m.oct_int ch in (record m { oct_int = s }, r)
process_char ScannerStateId.hex_int m ch expect_key =
    let (s, r) = radix_int_char validate_hex_digit m.hex_int ch in (record m { hex_int = s }, r)
process_char ScannerStateId.float_fraction m ch expect_key =
    let (s, r) = float_fraction_char m.float_fraction ch in (record m { float_fraction = s }, r)
process_char ScannerStateId.float_exponent m ch expect_key =
    let (s, r) = float_exponent_char m.float_exponent ch in (record m { float_exponent = s }, r)
process_char ScannerStateId.number m ch expect_key =
    let (s, r) = number_char m.number ch in (record m { number = s }, r)
process_char ScannerStateId.signed_number m ch expect_key = (m, signed_number_char ch)
process_char ScannerStateId.number_or_date_time m ch expect_key =
    let (s, r) = number_or_date_time_char m.number_or_date_time ch in
    (record m { number_or_date_time = s }, r)
process_char ScannerStateId.date_or_date_time m ch expect_key =
    let (s, r) = date_or_date_time_char m.date_or_date_time ch in
    (record m { date_or_date_time = s }, r)
process_char ScannerStateId.space_after_date m ch expect_key = (m, space_after_date_char ch)
process_char ScannerStateId.local_time m ch expect_key =
    let (s, r) = local_time_char m.local_time ch in (record m { local_time = s }, r)
process_char ScannerStateId.offset_time m ch expect_key =
    let (s, r) = offset_time_char m.offset_time ch in (record m { offset_time = s }, r)
process_char ScannerStateId.fractional_seconds m ch expect_key =
    let (s, r) = fractional_seconds_char m.fractional_seconds ch in
    (record m { fractional_seconds = s }, r)
process_char ScannerStateId.time_zone_offset m ch expect_key =
    let (s, r) = time_zone_offset_char m.time_zone_offset ch in
    (record m { time_zone_offset = s }, r)
process_char ScannerStateId.symbolic_value m ch expect_key =
    let (s, r) = symbolic_value_char m.symbolic_value ch in (record m { symbolic_value = s }, r)
process_char ScannerStateId.single_line_esc_sequence m ch expect_key =
    let (s, r) = escape_char m.single_line_esc_sequence ch in
    (record m { single_line_esc_sequence = s }, r)
process_char ScannerStateId.multi_line_esc_sequence m ch expect_key =
    let (s, r) = escape_char m.multi_line_esc_sequence ch in
    (record m { multi_line_esc_sequence = s }, r)
process_char ScannerStateId.extraneous_whitespace m ch expect_key =
    (m, extraneous_whitespace_char ch)
process_char ScannerStateId.double_quote_delim_sequence m ch expect_key =
    let (s, r) = delim_sequence_char b'"' m.double_quote_delim_sequence ch in
    (record m { double_quote_delim_sequence = s }, r)
process_char ScannerStateId.single_quote_delim_sequence m ch expect_key =
    let (s, r) = delim_sequence_char b'\'' m.single_quote_delim_sequence ch in
    (record m { single_quote_delim_sequence = s }, r)
process_char ScannerStateId.initial_multi_line_cr m ch expect_key =
    (m, initial_multi_line_cr_char ch)
