-- ===== src/Scanner/Loop.antt =====
-- src/config/toml/scanner/mod.rs: the scanner, and the loop that reads a token.
pub mod Steps
pub mod Ends
pub mod Progress
pub mod Found
pub mod Advances
use coaly.Prelude.{
  ℕ, zero, suc, ◌+◌, ◌-◌, ◌*◌, ◌==◌, Bool, true, false, Option, none, some, List, [], ◌∷◌, ◌++◌,
  length, ltb, leb, get_or, replicate, if◌then◌else◌,
}
use coaly.Prelude.Texts.{Text}
use coaly.Scanner.{
  ScannerStateId, TokenId, TokenValueType, MessageId, StateResult, char_processed,
  resume_calling_state, finished, suspended, char_error, error, token_found, null, line_feed,
}
use coaly.Scanner.Numbers.{quoted}
use coaly.Scanner.States.{Memory, handler_states, activate, process_char}

pub record TomlScanner : Type 0 where
  pub input_data : List ℕ
  pub current_index : ℕ
  pub token_index : ℕ
  pub token_value_type : TokenValueType
  pub token_value : Text
  pub suspended_states : List ScannerStateId
  pub states : Memory

unfoldable pub new_scanner : Text → TomlScanner
new_scanner text = record {
  input_data = text;
  current_index = 0;
  token_index = 0;
  token_value_type = TokenValueType.string;
  token_value = [];
  suspended_states = [];
  states = handler_states;
}

-- The characters up to an index, from a line and a column.
abbrev position_from : List ℕ → ℕ → ℕ × ℕ → ℕ × ℕ
position_from [] index at = at
position_from (ch ∷ chars) zero at = at
position_from (ch ∷ chars) (suc index) (line_nr, col_nr) =
    position_from chars index (if ch == line_feed then (line_nr + 1, 1) else (line_nr, col_nr + 1))

unfoldable pub position_from_index : TomlScanner → ℕ → ℕ × ℕ
position_from_index s index = position_from s.input_data index (1, 1)

-- The exception's message, line and column, and the character or the texts that it shows.
pub data ScanError : Type 0 where
  at_char : MessageId → ℕ × ℕ → ℕ → ScanError
  at_token : MessageId → ℕ × ℕ → List Text → ScanError

-- What `next_token` returns. It panics where an index falls below 0, or no state is suspended.
pub data Scanned : Type 0 where
  token : TokenId → Scanned
  exception : ScanError → Scanned
  panicked : Scanned

-- How the loop goes on: with a state, or not.
pub data Step : Type 0 where
  goes : ScannerStateId → TomlScanner → Step
  ends : TomlScanner → Scanned → Step

-- `current_index -= correction`
abbrev pub back : ℕ → TomlScanner → (TomlScanner → Step) → Step
back correction s continue =
    if ltb s.current_index correction
    then ends s panicked
    else continue (record s { current_index = s.current_index - correction })

-- The beginning of the token is the character just read.
abbrev pub marked : Bool → TomlScanner → TomlScanner
marked mark_beg s = if mark_beg then (record s { token_index = s.current_index - 1 }) else s

abbrev pub pushed : Bool → ℕ → TomlScanner → TomlScanner
pushed consume_char ch s =
    if consume_char then (record s { token_value = s.token_value ++ ch ∷ [] }) else s

abbrev pub value_text : Option Text → Text
value_text none = []
value_text (some t) = t

abbrev pub shown : Option Text → List Text
shown none = []
shown (some p) = quoted p ∷ []

-- The next state is activated.
abbrev pub enter : ScannerStateId → TomlScanner → Step
enter next s = goes next (record s { states = activate next s.states })

-- The last suspended state goes on.
abbrev pub resume : List ScannerStateId → TomlScanner → Step
resume [] s = ends s panicked
resume (caller ∷ others) s = goes caller (record s { suspended_states = others })

-- What the loop does with a result: the state's ID, the character, and the scanner behind it.
unfoldable pub after : ScannerStateId → ℕ → TomlScanner → StateResult → Step
unfolding position_from_index activate
after id ch s (token_found correction mark_beg t_id t_type t_value) =
    back correction (marked mark_beg (record s { token_value_type = t_type }))
      (λ s1. ends (record s1 { token_value = s1.token_value ++ value_text t_value }) (token t_id))
after id ch s (finished correction mark_beg consume_char follow_state_id) =
    back correction (marked mark_beg s) (λ s1. enter follow_state_id (pushed consume_char ch s1))
after id ch s (suspended correction follow_state_id) =
    back correction s
      (λ s1. enter follow_state_id (record s1 { suspended_states = id ∷ s1.suspended_states }))
after id ch s (char_error correction error_id c) =
    back correction s
      (λ s1. ends s1 (exception (at_char error_id (position_from_index s (s.current_index - 1)) c)))
after id ch s (error error_id incl_token_val params) = ends s (
    exception (
      at_token error_id (position_from_index s s.token_index)
        ((if incl_token_val then quoted s.token_value ∷ [] else []) ++ shown params)))
after id ch s (resume_calling_state correction value_char count) = back correction s (λ s1.
    resume s1.suspended_states
      (record s1 { token_value = s1.token_value ++ replicate count value_char }))
after id ch s (char_processed consume_char) = goes id (pushed consume_char ch s)

-- One turn of the loop.
unfoldable pub turn : ScannerStateId → Bool → TomlScanner → Step
unfolding after process_char
turn id expect_key s =
    let ch = get_or s.input_data s.current_index null in
    let (m, result) = process_char id s.states ch expect_key in
    after id ch (record s { current_index = s.current_index + 1; states = m }) result

unfoldable pub scan : ℕ → ScannerStateId → Bool → TomlScanner → Option (TomlScanner × Scanned)
unfolding turn
scan zero id expect_key s = none
scan (suc fuel) id expect_key s =
    if ltb (length s.input_data) s.current_index
    then some (s, token TokenId.end_of_input)
    else elim (turn id expect_key s) [
      | goes next s1 ↦ scan fuel next expect_key s1
      | ends s1 result ↦ some (s1, result)
    ]

-- Each character takes at most four turns.
abbrev pub enough : TomlScanner → ℕ
enough s = 4 * (length s.input_data + 2)

unfoldable pub next_token : TomlScanner → Bool → Option (TomlScanner × Scanned)
unfolding scan
next_token s expect_key =
    scan (enough s) ScannerStateId.idle expect_key
      (record s { token_value = []; suspended_states = [] })
