-- ===== src/Scanner/Loop/Progress.antt =====
-- A token takes at least one character of the scanner's text.
use coaly.Prelude.{
  ℕ, ◌+◌, ◌<◌, ◌≤◌, ◌==◌, ◌||◌, ◌&&◌, Bool, true, false, ◌≡◌, subst, arith, List, length, get_or,
}
use coaly.Scanner.{
  ScannerStateId, StateResult, char_processed, resume_calling_state, finished, suspended,
  char_error, error, token_found, null, is_letter, is_digit,
}
use coaly.Scanner.Basic.{idle_char, bare_key_char}
use coaly.Scanner.Numbers.{symbolic_value_char}
use coaly.Scanner.States.{Memory, process_char}
use coaly.Scanner.States.Allowed.{allowed}
use coaly.Scanner.States.Results.{process_char-allowed}
use coaly.Scanner.Loop.{TomlScanner, token, Step, goes, ends, after, turn}

-- The scanner stands behind `start`, in the same text, and at most one place behind the text's end.
pub record Beyond (start : ℕ) (text : List ℕ) (s : TomlScanner) : Type 0 where
  pub same : s.input_data ≡ text
  pub further : start < s.current_index
  pub inside : s.current_index ≤ length text + 1

abbrev pub Moves : ℕ → List ℕ → Step → Type 0
Moves start text (goes id s) = Beyond start text s
Moves start text (ends s (token t)) = Beyond start text s
Moves start text (ends s result) = Unit {0}

-- How many characters a result gives back, if it is no error.
abbrev returned : StateResult → ℕ
returned (char_processed consume) = 0
returned (resume_calling_state c value count) = c
returned (finished c mark consume next) = c
returned (suspended c next) = c
returned (char_error c message ch) = 0
returned (error message with_value params) = 0
returned (token_found c mark t_id t_type t_value) = c

returned_one :
    (id : ScannerStateId) (m m1 : Memory) (r : StateResult)
    → allowed id m m1 r ≡ true
    → returned r ≤ 1
unfolding allowed
returned_one id m m1 (char_processed consume) h = omega arith
returned_one id m m1 (resume_calling_state c value count) h = ground arith
returned_one id m m1 (finished c mark consume next) h = ground arith
returned_one id m m1 (suspended c next) h = ground arith
returned_one id m m1 (char_error c message ch) h = omega arith
returned_one id m m1 (error message with_value params) h = omega arith
returned_one id m m1 (token_found c mark t_id t_type t_value) h = ground arith

-- After a result that gives back less than has been read behind `start`.
after-Moves :
    (start : ℕ) (id : ScannerStateId) (ch : ℕ) (s : TomlScanner) (r : StateResult)
    → start + returned r < s.current_index
    → s.current_index ≤ length s.input_data + 1
    → Moves start s.input_data (after id ch s r)
unfolding after
after-Moves start id ch s r low high = ground arith

pub turn-Moves :
    (start : ℕ) (text : List ℕ) (id : ScannerStateId) (k : Bool) (s : TomlScanner)
    → Beyond start text s
    → s.current_index ≤ length s.input_data
    → Moves start text (turn id k s)
unfolding turn
turn-Moves start text id k s b inside =
    let ch = get_or s.input_data s.current_index null in
    let result = process_char id s.states ch k in
    let one = returned_one id s.states result.0 result.1 (process_char-allowed id s.states ch k) in
    subst (λ l. Moves start l (turn id k s)) b.same
      (after-Moves start id ch (record s { current_index = s.current_index + 1; states = result.0 })
        result.1 (omega (arith, one, b.further)) (omega (arith, inside)))

-- A result that, at the beginning of a token, reads its character, or gives it to a state that does.
abbrev pub reads : ScannerStateId → ℕ → Bool
reads ScannerStateId.bare_key ch = is_letter ch || is_digit ch || (ch == b'_') || (ch == b'-')
reads ScannerStateId.symbolic_value ch = is_letter ch
reads _ ch = false

abbrev pub begins : ℕ → StateResult → Bool
begins ch (char_processed consume) = true
begins ch (resume_calling_state c value count) = false
begins ch (finished c mark consume next) = (c == 0) || ((c == 1) && reads next ch)
begins ch (suspended c next) = false
begins ch (char_error c message shown) = true
begins ch (error message with_value params) = true
begins ch (token_found c mark t_id t_type t_value) = c == 0

pub idle-begins : (ch : ℕ) (k : Bool) → begins ch (idle_char ch k) ≡ true
unfolding idle_char
idle-begins ch k = ground arith

abbrev pub is_processed : StateResult → Bool
is_processed (char_processed consume) = true
is_processed _ = false

pub reads-processed :
    (id : ScannerStateId) (m : Memory) (ch : ℕ) (k : Bool)
    → reads id ch ≡ true
    → is_processed (process_char id m ch k).1 ≡ true
unfolding process_char bare_key_char symbolic_value_char
reads-processed id m ch k h = ground arith
