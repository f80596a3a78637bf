-- ===== src/Scanner/States/Allowed.antt =====
-- How the states of the TOML scanner call each other: which results each state can have.
use coaly.Prelude.{ℕ, suc, ◌==◌, ◌||◌, ◌&&◌, not, Bool, true, false, ltb, leb, if◌then◌else◌}
use coaly.Scanner.{
  ScannerStateId, StateResult, char_processed, resume_calling_state, finished, suspended,
  char_error, error, token_found,
}
use coaly.Scanner.States.{Memory}

-- A state that reads a character again passes on to a state of a lower rank. This is the rank of a
-- state that has been activated.
unfoldable pub entry_rank : ScannerStateId → ℕ
entry_rank ScannerStateId.idle = 3
entry_rank ScannerStateId.start_of_basic_string = 1
entry_rank ScannerStateId.start_of_literal_string = 1
entry_rank ScannerStateId.signed_number = 1
entry_rank ScannerStateId.number_or_date_time = 1
entry_rank ScannerStateId.offset_time = 1
entry_rank ScannerStateId.local_time = 1
entry_rank ScannerStateId.date_or_date_time = 2
entry_rank ScannerStateId.space_after_date = 3
entry_rank ScannerStateId.single_line_esc_sequence = 3
entry_rank ScannerStateId.multi_line_esc_sequence = 3
entry_rank ScannerStateId.extraneous_whitespace = 3
entry_rank ScannerStateId.double_quote_delim_sequence = 3
entry_rank ScannerStateId.single_quote_delim_sequence = 3
entry_rank ScannerStateId.initial_multi_line_cr = 3
entry_rank _ = 0

-- The state for fractional seconds reads the dot in any case.
unfoldable pub rank : ScannerStateId → Memory → ℕ
unfolding entry_rank
rank ScannerStateId.fractional_seconds m = if m.fractional_seconds == 0 then 0 else 3
rank id m = entry_rank id

-- The states that resume a suspended state.
unfoldable pub is_called : ScannerStateId → Bool
is_called ScannerStateId.space_after_date = true
is_called ScannerStateId.fractional_seconds = true
is_called ScannerStateId.single_line_esc_sequence = true
is_called ScannerStateId.multi_line_esc_sequence = true
is_called ScannerStateId.extraneous_whitespace = true
is_called ScannerStateId.double_quote_delim_sequence = true
is_called ScannerStateId.single_quote_delim_sequence = true
is_called ScannerStateId.initial_multi_line_cr = true
is_called _ = false

-- The states that are suspended.
unfoldable pub is_caller : ScannerStateId → Bool
is_caller ScannerStateId.double_quoted_key = true
is_caller ScannerStateId.basic_string = true
is_caller ScannerStateId.multi_line_basic_string = true
is_caller ScannerStateId.multi_line_literal_string = true
is_caller ScannerStateId.date_or_date_time = true
is_caller ScannerStateId.local_time = true
is_caller ScannerStateId.offset_time = true
is_caller _ = false

-- The characters that a state may give back in an error.
unfoldable pub read_before : ScannerStateId → Memory → ℕ
read_before ScannerStateId.number_or_date_time m = m.number_or_date_time
read_before _ m = 0

unfoldable pub counts : ScannerStateId → Bool
counts ScannerStateId.number_or_date_time = true
counts _ = false

-- A character is read, or given back to a state of a lower rank.
abbrev pub descends : ScannerStateId → Memory → ℕ → ScannerStateId → Bool
descends id m correction next =
    (correction == 0)
    || ((correction == 1) && ltb (entry_rank next) (rank id m) && not (counts next))

unfoldable pub allowed : ScannerStateId → Memory → Memory → StateResult → Bool
unfolding rank is_called is_caller read_before counts
allowed id m m1 (char_processed consume) = leb (read_before id m1) (suc (read_before id m))
allowed id m m1 (finished c mark consume next) =
    (not (is_called next) || is_called id) && descends id m c next
allowed id m m1 (suspended c next) = is_caller id && descends id m c next
allowed id m m1 (resume_calling_state c value count) =
    is_called id && ((c == 0) || ((c == 1) && (rank id m == 3)))
allowed id m m1 (char_error c message ch) = leb c (suc (read_before id m))
allowed id m m1 (error message with_value params) = true
allowed id m m1 (token_found c mark t_id t_type t_value) = leb c 1
