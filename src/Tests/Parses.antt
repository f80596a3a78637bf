-- ===== src/Tests/Parses.antt =====
-- The parser of src/config/toml/parser.rs at concrete texts.
use coaly.Prelude.{◌≡◌, ◌≢◌, refl, Bool, true, false, none, some, Option, [], ◌∷◌}
use coaly.Prelude.Texts.{codes, Text}
use coaly.Scanner.{TokenValueType}
use coaly.Scanner.Basic.{idle_char, bare_key_char, number_or_date_time_char}
use coaly.Document.{
  TomlValueItem, value_item, simple, array, table, entry, no_entries, ◌⨾◌, no_items,
}
use coaly.Document.Editing.{TomlDocument}
use coaly.Parser.{Parsed, failed, panicked, out_of_fuel, done, parse_error, no_line_break_after_kvp}
use coaly.Parser.Conversions.{ChronoType, int_token_value, f64_token_value}
use coaly.Parser.Values.{parse}
use coaly.Parser.Ends.Values.{parse-ends}

-- A reader of dates that reads every text.
abbrev any_date : ChronoType → Text → Text → Bool
any_date t text format = true

abbrev root_of : Parsed TomlDocument → Option TomlValueItem
root_of (done d p) = some d.root
root_of _ = none

abbrev one : TomlValueItem
one = value_item (simple TokenValueType.integer (b'1' ∷ [])) 1 false

abbrev table_of : Text → TomlValueItem → Bool → TomlValueItem
table_of name v flag = value_item (table (entry name v no_entries)) 1 flag

-- a=1, without a line break at the end
pair_parse : root_of (parse any_date (codes "a=1")) ≡ some (table_of (b'a' ∷ []) one true)
unfolding parse idle_char bare_key_char number_or_date_time_char
pair_parse = refl

-- a=[1,{b=1}]
abbrev nested : Text
nested = codes "a=[1,{b=1}]"

nested_values :
    root_of (parse any_date nested)
    ≡ some (
        table_of
          (b'a' ∷ [])
          (value_item (array (one ⨾ table_of (b'b' ∷ []) one true ⨾ no_items)) 1 false)
          true)
unfolding parse idle_char bare_key_char number_or_date_time_char
nested_values = refl

-- a=1 b
two_pairs : parse any_date (codes "a=1 b") ≡ failed (parse_error no_line_break_after_kvp 1 none [])
unfolding parse idle_char bare_key_char number_or_date_time_char
two_pairs = refl

-- An empty array, and a key below it.
abbrev below_array : Text
below_array = b'a' ∷ b'=' ∷ b'[' ∷ b']' ∷ 10 ∷ b'a' ∷ b'.' ∷ b'b' ∷ b'=' ∷ b'1' ∷ 10 ∷ []

below_array_panics : parse any_date below_array ≡ panicked
unfolding parse idle_char bare_key_char number_or_date_time_char
below_array_panics = refl

-- The lowest number is read, and one below it is not.
lowest :
    int_token_value (
      b'-'
      ∷ b'9'
      ∷ b'2'
      ∷ b'2'
      ∷ b'3'
      ∷ b'3'
      ∷ b'7'
      ∷ b'2'
      ∷ b'0'
      ∷ b'3'
      ∷ b'6'
      ∷ b'8'
      ∷ b'5'
      ∷ codes "4775808")
    ≡ true
unfolding int_token_value
lowest = refl

too_low :
    int_token_value (
      b'-'
      ∷ b'9'
      ∷ b'2'
      ∷ b'2'
      ∷ b'3'
      ∷ b'3'
      ∷ b'7'
      ∷ b'2'
      ∷ b'0'
      ∷ b'3'
      ∷ b'6'
      ∷ b'8'
      ∷ b'5'
      ∷ codes "4775809")
    ≡ false
unfolding int_token_value
too_low = refl

float_reads : f64_token_value (codes "-1.5e+3") ≡ true
unfolding f64_token_value
float_reads = refl

no_float : f64_token_value (codes "1.5e") ≡ false
unfolding f64_token_value
no_float = refl

parse-ends_example : parse any_date nested ≢ out_of_fuel
parse-ends_example = parse-ends any_date nested
