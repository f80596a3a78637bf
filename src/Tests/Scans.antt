-- ===== src/Tests/Scans.antt =====
-- The scanner of src/config/toml/scanner at concrete inputs.
use coaly.Prelude.{
  ℕ, ◌≡◌, refl, true, false, none, some, [], ◌∷◌, Option, take, length, ◌<◌, ◌≤◌, ◌+◌, arith,
}
use coaly.Prelude.Texts.{codes, Text}
use coaly.Scanner.{TokenId}
use coaly.Scanner.Basic.{idle_char, bare_key_char, number_or_date_time_char}
use coaly.Scanner.DateTimes.{
  local_time_char, fractional_seconds_char, date_or_date_time_char, space_after_date_char,
}
use coaly.Scanner.Loop.{TomlScanner, Scanned, token, panicked, new_scanner, next_token}
use coaly.Scanner.States.{activate}
use coaly.Scanner.Loop.Advances.{next_token-advances}
use coaly.Scanner.Loop.Ends.{next_token-returns}

abbrev result_of : Option (TomlScanner × Scanned) → Option (Scanned × (ℕ × Text))
result_of none = none
result_of (some (s, r)) = some (r, (s.current_index, s.token_value))

abbrev time : Text
time = codes "10:20:30.5 "

abbrev date_time : Text
date_time =
    b'1'
    ∷ b'9'
    ∷ b'7'
    ∷ b'9'
    ∷ b'-'
    ∷ b'0'
    ∷ b'5'
    ∷ b'-'
    ∷ b'2'
    ∷ b'7'
    ∷ b'T'
    ∷ b'0'
    ∷ b'0'
    ∷ b':'
    ∷ codes "32:00.5.5 "

abbrev spaced : Text
spaced = codes "1979-05-27 x"

time_scan :
    result_of (next_token (new_scanner time) false) ≡ some (token TokenId.value, (10, take 10 time))
unfolding next_token new_scanner idle_char number_or_date_time_char local_time_char
    fractional_seconds_char
time_scan = refl

-- The space ends the date, as no digit follows it.
spaced_scan :
    result_of (next_token (new_scanner spaced) false)
    ≡ some (token TokenId.value, (11, take 10 spaced))
unfolding next_token new_scanner idle_char number_or_date_time_char date_or_date_time_char
    space_after_date_char
spaced_scan = refl

next_token-returns_example :
    (s1 : TomlScanner) × (result : Scanned) × (next_token (new_scanner date_time) true
      ≡ some (s1, result))
    × ¬ (result ≡ panicked)
next_token-returns_example = next_token-returns (new_scanner date_time) true

-- The key "a" in front of a space.
abbrev one_key : TomlScanner
one_key = new_scanner (codes "a ")

abbrev behind_key : TomlScanner
behind_key = record one_key { current_index = 1; token_value = b'a' ∷ [] }

one_key_scan : next_token one_key true ≡ some (behind_key, token TokenId.key)
unfolding next_token new_scanner idle_char bare_key_char activate
one_key_scan = refl

next_token-advances_example :
    (behind_key.input_data ≡ one_key.input_data)
    × (one_key.current_index < behind_key.current_index)
    × (behind_key.current_index ≤ length one_key.input_data + 1)
unfolding new_scanner
next_token-advances_example =
    next_token-advances one_key behind_key true TokenId.key (omega arith) one_key_scan
