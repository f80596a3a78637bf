-- ===== src/Scanner/States/Results.antt =====
-- Each state of the TOML scanner has allowed results only.
use coaly.Prelude.{ℕ, Bool, true, ◌≡◌, arith}
use coaly.Scanner.{ScannerStateId}
use coaly.Scanner.Basic.{
  idle_char, comment_char, line_break_char, bracket_char_read, bare_key_char,
  double_quoted_key_char, single_quoted_key_char, zero_char, number_or_date_time_char,
}
use coaly.Scanner.Numbers.{
  signed_zero_char, symbolic_value_char, check_sym, radix_int_char, number_char, signed_number_char,
  float_fraction_char, float_exponent_char,
}
use coaly.Scanner.Strings.{
  start_of_string_char, basic_string_char, multi_line_basic_string_char, literal_string_char,
  multi_line_literal_string_char, escape_char, extraneous_whitespace_char, delim_sequence_char,
  initial_multi_line_cr_char,
}
use coaly.Scanner.DateTimes.{
  local_time_char, offset_time_char, time_zone_offset_char, date_or_date_time_char,
  space_after_date_char, fractional_seconds_char,
}
use coaly.Scanner.States.{Memory, process_char}
use coaly.Scanner.States.Allowed.{
  allowed, rank, entry_rank, is_called, is_caller, read_before, counts,
}

-- Whatever a state remembers, and whatever it reads.
pub process_char-allowed :
    (id : ScannerStateId) (m : Memory) (ch : ℕ) (k : Bool)
    → allowed id m (process_char id m ch k).0 (process_char id m ch k).1 ≡ true
unfolding allowed process_char rank entry_rank is_called is_caller read_before counts idle_char
    comment_char line_break_char bracket_char_read bare_key_char double_quoted_key_char
    single_quoted_key_char zero_char number_or_date_time_char signed_zero_char symbolic_value_char
    check_sym radix_int_char number_char signed_number_char float_fraction_char float_exponent_char
    start_of_string_char basic_string_char multi_line_basic_string_char literal_string_char
    multi_line_literal_string_char escape_char extraneous_whitespace_char delim_sequence_char
    initial_multi_line_cr_char local_time_char offset_time_char time_zone_offset_char
    date_or_date_time_char space_after_date_char fractional_seconds_char
process_char-allowed ScannerStateId.idle m ch k = ground arith
process_char-allowed ScannerStateId.comment m ch k = ground arith
process_char-allowed ScannerStateId.line_break m ch k = ground arith
process_char-allowed ScannerStateId.lbracket m ch k = ground arith
process_char-allowed ScannerStateId.rbracket m ch k = ground arith
process_char-allowed ScannerStateId.bare_key m ch k = ground arith
process_char-allowed ScannerStateId.double_quoted_key m ch k = ground arith
process_char-allowed ScannerStateId.single_quoted_key m ch k = ground arith
process_char-allowed ScannerStateId.start_of_basic_string m ch k = ground arith
process_char-allowed ScannerStateId.start_of_literal_string m ch k = ground arith
process_char-allowed ScannerStateId.basic_string m ch k = ground arith
process_char-allowed ScannerStateId.multi_line_basic_string m ch k = ground arith
process_char-allowed ScannerStateId.literal_string m ch k = ground arith
process_char-allowed ScannerStateId.multi_line_literal_string m ch k = ground arith
process_char-allowed ScannerStateId.zero_state m ch k = ground arith
process_char-allowed ScannerStateId.signed_zero m ch k = ground arith
process_char-allowed ScannerStateId.bin_int m ch k = ground arith
process_char-allowed ScannerStateId.oct_int m ch k = ground arith
process_char-allowed ScannerStateId.hex_int m ch k = ground arith
process_char-allowed ScannerStateId.float_fraction m ch k = ground arith
process_char-allowed ScannerStateId.float_exponent m ch k = ground arith
process_char-allowed ScannerStateId.number m ch k = ground arith
process_char-allowed ScannerStateId.signed_number m ch k = ground arith
process_char-allowed ScannerStateId.number_or_date_time m ch k = ground arith
process_char-allowed ScannerStateId.date_or_date_time m ch k = ground arith
process_char-allowed ScannerStateId.space_after_date m ch k = ground arith
process_char-allowed ScannerStateId.local_time m ch k = ground arith
process_char-allowed ScannerStateId.offset_time m ch k = ground arith
process_char-allowed ScannerStateId.fractional_seconds m ch k = ground arith
process_char-allowed ScannerStateId.time_zone_offset m ch k = ground arith
process_char-allowed ScannerStateId.symbolic_value m ch k = ground arith
process_char-allowed ScannerStateId.single_line_esc_sequence m ch k = ground arith
process_char-allowed ScannerStateId.multi_line_esc_sequence m ch k = ground arith
process_char-allowed ScannerStateId.extraneous_whitespace m ch k = ground arith
process_char-allowed ScannerStateId.double_quote_delim_sequence m ch k = ground arith
process_char-allowed ScannerStateId.single_quote_delim_sequence m ch k = ground arith
process_char-allowed ScannerStateId.initial_multi_line_cr m ch k = ground arith
