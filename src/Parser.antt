-- ===== src/Parser.antt =====
-- src/config/toml/parser.rs: the state of the TOML parser, its errors, and the parts of a key. The
-- parser is dropped after an error, so an error has no state behind it.

pub mod Conversions
pub mod Values
pub mod Ends
use coaly.Prelude.{
  ℕ, zero, suc, ◌+◌, ◌==◌, Bool, true, false, not, ◌&&◌, Option, none, some, List, [], ◌∷◌, ◌++◌,
  length, if◌then◌else◌,
}
use coaly.Prelude.Texts.{codes, Text}
use coaly.Scanner.{TokenId}
use coaly.Scanner.Numbers.{quoted}
use coaly.Scanner.Loop
use coaly.Scanner.Loop.{
  TomlScanner, ScanError, Scanned, token, exception, new_scanner, position_from_index,
}
use coaly.Document.{TomlError}
use coaly.Document.Editing.{TomlKey}

pub record TomlParser : Type 0 where
  pub scanner : TomlScanner
  pub latest_table_key : Option TomlKey
  pub latest_array_of_tables_key : Option TomlKey
  pub key_line_nr : ℕ

abbrev pub root_key : TomlKey
root_key = record { parts = []; line_nr = 1 }

unfoldable pub new_parser : Text → TomlParser
unfolding new_scanner
new_parser data_text = record {
  scanner = new_scanner data_text;
  latest_table_key = some root_key;
  latest_array_of_tables_key = none;
  key_line_nr = 1;
}

-- The message identifiers that the parser uses.
pub data ParserMessage : Type 0 where
  key_or_table_expected : ParserMessage
  no_line_break_after_kvp : ParserMessage
  no_line_break_after_header : ParserMessage
  ws_between_brackets : ParserMessage
  key_expected : ParserMessage
  comma_expected : ParserMessage
  dup_sep_token : ParserMessage
  leading_sep : ParserMessage
  trailing_sep : ParserMessage
  unterm_inline_table : ParserMessage
  comma_or_rbrace_expected : ParserMessage
  unsep_array_items : ParserMessage
  unterm_array : ParserMessage
  inv_array_token : ParserMessage
  inv_value_start : ParserMessage
  value_expected : ParserMessage
  two_dots_within_key : ParserMessage
  unsep_keyparts : ParserMessage
  trailing_dot_in_key : ParserMessage
  inv_key_term : ParserMessage
  equal_expected : ParserMessage
  closing_bracket_expected : ParserMessage
  inv_value : ParserMessage

-- An exception of the scanner, one of the parser with its line, its column and the texts that it
-- shows, one of the document, and one of the document behind a line number.
pub data ParseError : Type 0 where
  scan_error : ScanError → ParseError
  parse_error : ParserMessage → ℕ → Option ℕ → List Text → ParseError
  document_error : TomlError → ParseError
  enhanced_error : ℕ → TomlError → ParseError

-- What a function of the parser comes to. `out_of_fuel` has no counterpart in the program.
pub data Parsed {ℓ} (A : Type ℓ) : Type ℓ where
  done : A → TomlParser → Parsed A
  failed : ParseError → Parsed A
  panicked : Parsed A
  out_of_fuel : Parsed A

abbrev pub Parser {ℓ} : Type ℓ → Type ℓ
Parser A = TomlParser → Parsed A

abbrev pub bind {ℓ κ} : {A : Type ℓ} {B : Type κ} → Parsed A → (A → Parser B) → Parsed B
bind (done a p) f = f a p
bind (failed e) f = failed e
bind panicked f = panicked
bind out_of_fuel f = out_of_fuel

abbrev pub token_position : TomlScanner → ℕ × ℕ
token_position s = position_from_index s s.token_index

abbrev pub current_position : TomlScanner → ℕ × ℕ
current_position s = position_from_index s s.current_index

abbrev param_text : Option Text → List Text
param_text none = []
param_text (some t) = quoted t ∷ []

abbrev pub parser_error {ℓ} :
    {A : Type ℓ} → ParserMessage → ℕ → Option ℕ → Option Text → Bool → Parser A
parser_error code line col param incl_token_val p = failed (
    parse_error code line col
      (param_text param ++ (if incl_token_val then quoted p.scanner.token_value ∷ [] else [])))

abbrev pub current_pos_error {ℓ} : {A : Type ℓ} → ParserMessage → Bool → Parser A
current_pos_error code incl_token_val p =
    let (line, col) = current_position p.scanner in
    parser_error code line (some col) none incl_token_val p

abbrev pub token_pos_error {ℓ} : {A : Type ℓ} → ParserMessage → Bool → Parser A
token_pos_error code incl_token_val p =
    let (line, col) = token_position p.scanner in
    parser_error code line (some col) none incl_token_val p

abbrev pub key_line_error {ℓ} : {A : Type ℓ} → ParserMessage → Bool → Parser A
key_line_error code incl_token_val p = parser_error code p.key_line_nr none none incl_token_val p

-- The result of the scanner, as one of the parser.
abbrev scanned : TomlParser → Option (TomlScanner × Scanned) → Parsed TokenId
scanned p none = out_of_fuel
scanned p (some (s, token t)) = done t (record p { scanner = s })
scanned p (some (s, exception e)) = failed (scan_error e)
scanned p (some (s, Scanned.panicked)) = panicked

unfoldable pub read_token : Bool → Parser TokenId
unfolding Loop.next_token
read_token expect_key p = scanned p (Loop.next_token p.scanner expect_key)

-- The place of a token in its enumeration, and its text.
abbrev token_number : TokenId → ℕ
token_number TokenId.equal = 0
token_number TokenId.comma = 1
token_number TokenId.dot = 2
token_number TokenId.left_brace = 3
token_number TokenId.right_brace = 4
token_number TokenId.left_bracket = 5
token_number TokenId.right_bracket = 6
token_number TokenId.double_left_bracket = 7
token_number TokenId.double_right_bracket = 8
token_number TokenId.key = 9
token_number TokenId.value = 10
token_number TokenId.line_break = 11
token_number TokenId.end_of_input = 12

abbrev pub same_token : TokenId → TokenId → Bool
same_token s t = token_number s == token_number t

-- `Display` of a token.
abbrev token_text : TokenId → Text
token_text TokenId.equal = b'=' ∷ []
token_text TokenId.comma = b',' ∷ []
token_text TokenId.dot = b'.' ∷ []
token_text TokenId.left_brace = b'{' ∷ []
token_text TokenId.right_brace = b'}' ∷ []
token_text TokenId.left_bracket = b'[' ∷ []
token_text TokenId.right_bracket = b']' ∷ []
token_text TokenId.double_left_bracket = codes "[["
token_text TokenId.double_right_bracket = codes "]]"
token_text TokenId.key = codes "<KEY>"
token_text TokenId.value = codes "<VALUE>"
token_text TokenId.line_break = codes "<LINE_BREAK>"
token_text TokenId.end_of_input =
    b'<' ∷ b'E' ∷ b'N' ∷ b'D' ∷ b'-' ∷ b'O' ∷ b'F' ∷ b'-' ∷ b'I' ∷ b'N' ∷ b'P' ∷ b'U' ∷ b'T' ∷ b'>'
    ∷ []

-- The end of a key, at a token that may end one.
unfoldable pub key_ended : TokenId → TokenId → TokenId → List Text → Parser (List Text)
unfolding position_from_index
key_ended sep_token last_token t key_parts p =
    if not (same_token last_token TokenId.key)
    then token_pos_error trailing_dot_in_key false p
    else if not (same_token t sep_token)
    then parser_error inv_key_term (token_position p.scanner).0 none (some (token_text sep_token))
        true p
    else done key_parts p

-- The loop of `key`, with the parts read so far.
unfoldable pub key_loop : ℕ → TokenId → TokenId → List Text → Parser (List Text)
unfolding read_token key_ended position_from_index
key_loop zero sep_token last_token key_parts p = out_of_fuel
key_loop (suc fuel) sep_token last_token key_parts p = bind (read_token true p) λ t p1. elim t [
  | TokenId.dot ↦ elim (same_token last_token TokenId.key) [
    | false ↦ token_pos_error two_dots_within_key false p1
    | true ↦ key_loop fuel sep_token TokenId.dot key_parts p1
  ]
  | TokenId.key ↦ elim (same_token last_token TokenId.dot) [
    | false ↦ token_pos_error unsep_keyparts false p1
    | true ↦ key_loop fuel sep_token TokenId.key (key_parts ++ p1.scanner.token_value ∷ []) p1
  ]
  | TokenId.equal ↦ key_ended sep_token last_token TokenId.equal key_parts p1
  | TokenId.right_bracket ↦ key_ended sep_token last_token TokenId.right_bracket key_parts p1
  | TokenId.double_right_bracket ↦
      key_ended sep_token last_token TokenId.double_right_bracket key_parts p1
  | TokenId.line_break ↦ unended sep_token p1
  | TokenId.end_of_input ↦ unended sep_token p1
  | _ ↦ key_line_error closing_bracket_expected false p1
]
  where
    unended : TokenId → Parser (List Text)
    unended sep q =
        key_line_error
          (if same_token sep TokenId.equal then equal_expected else closing_bracket_expected) false
          q

-- More turns than the text has characters.
abbrev pub rounds : TomlParser → ℕ
rounds p = length p.scanner.input_data + 3

unfoldable pub key : TokenId → Parser TomlKey
unfolding key_loop position_from_index
key sep_token p =
    let line = (token_position p.scanner).0 in
    bind
      (key_loop (rounds p) sep_token TokenId.key (p.scanner.token_value ∷ [])
        (record p { key_line_nr = line }))
      λ key_parts p1. done (record { parts = key_parts; line_nr = p1.key_line_nr }) p1

-- A header behind its first token, which is a key.
unfoldable pub header_key : TokenId → Parser TomlKey
unfolding read_token key position_from_index
header_key term_token p = bind (key term_token p) λ k p1. bind (read_token true p1) λ t p2.
    if not (same_token t TokenId.line_break) && not (same_token t TokenId.end_of_input)
    then token_pos_error no_line_break_after_header true p2
    else done k p2

unfoldable pub table_header : TokenId → Parser TomlKey
unfolding read_token header_key position_from_index
table_header term_token p = bind (read_token true p) λ t p1.
    if not (same_token t TokenId.key)
    then (if same_token t TokenId.left_bracket
        then token_pos_error ws_between_brackets true p1
        else token_pos_error key_expected true p1)
    else header_key term_token p1
