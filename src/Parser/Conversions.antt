-- ===== src/Parser/Conversions.antt =====
-- src/config/toml/scanner/mod.rs: whether the text of a value token converts to a value. The
-- conversions of the standard library are written out; those of the crate `chrono`, which reads a
-- text by a format, are a parameter.
use coaly.Prelude.{
  ℕ, suc, ◌+◌, ◌-◌, ◌*◌, ◌^◌, ◌==◌, ◌&&◌, ◌||◌, Bool, true, false, Option, none, some, [], ◌∷◌,
  ◌++◌, ltb, leb, in_range, get_elem?, length, drop, if◌then◌else◌,
}
use coaly.Prelude.Texts.{codes, Text, same_text}
use coaly.Scanner.{TokenValueType, is_digit}

-- The types that `chrono` reads.
pub data ChronoType : Type 0 where
  fixed_offset : ChronoType
  naive_date_time : ChronoType
  naive_date : ChronoType
  naive_time : ChronoType

-- The value of a digit in any radix up to 36, or 36.
abbrev digit_value : ℕ → ℕ
digit_value c =
    if in_range b'0' b'9' c
    then c - b'0'
    else if in_range b'a' b'z' c
    then c - b'a' + 10
    else if in_range b'A' b'Z' c
    then c - b'A' + 10
    else 36

-- The number that digits stand for behind those read.
unfoldable pub digits_value : ℕ → ℕ → Text → Option ℕ
digits_value radix acc [] = some acc
digits_value radix acc (c ∷ cs) =
    let rest = digits_value radix (acc * radix + digit_value c) cs in
    if ltb (digit_value c) radix then rest else none

abbrev at_most : ℕ → Option ℕ → Bool
at_most limit none = false
at_most limit (some n) = leb n limit

-- Digits, one at least, of a number up to a limit.
unfoldable pub is_magnitude : ℕ → ℕ → Text → Bool
unfolding digits_value
is_magnitude radix limit [] = false
is_magnitude radix limit (c ∷ cs) = at_most limit (digits_value radix 0 (c ∷ cs))

-- `isize::from_str_radix` gives a number.
unfoldable pub is_isize : ℕ → Text → Bool
unfolding is_magnitude
is_isize radix [] = false
is_isize radix (c ∷ cs) =
    if c == b'-'
    then is_magnitude radix (2 ^ 63) cs
    else if c == b'+'
    then is_magnitude radix (2 ^ 63 - 1) cs
    else is_magnitude radix (2 ^ 63 - 1) (c ∷ cs)

abbrev pub starts_with : Text → Text → Bool
starts_with [] text = true
starts_with (c ∷ cs) [] = false
starts_with (c ∷ cs) (d ∷ ds) = if c == d then starts_with cs ds else false

unfoldable pub int_token_value : Text → Bool
unfolding is_isize
int_token_value text =
    if starts_with (codes "0b") text
    then is_isize 2 (drop 2 text)
    else if starts_with (codes "0o") text
    then is_isize 8 (drop 2 text)
    else if starts_with (codes "0x") text
    then is_isize 16 (drop 2 text)
    else is_isize 10 text

unfoldable pub bool_token_value : Text → Bool
bool_token_value text = same_text text (codes "true") || same_text text (codes "false")

-- How many digits a text begins with, and what follows them.
abbrev skip_digits : Text → ℕ × Text
skip_digits [] = (0, [])
skip_digits (c ∷ cs) =
    let (n, rest) = skip_digits cs in if is_digit c then (suc n, rest) else (0, c ∷ cs)

abbrev lower : ℕ → ℕ
lower c = if in_range b'A' b'Z' c then c + 32 else c

abbrev lower_case : Text → Text
lower_case [] = []
lower_case (c ∷ cs) = lower c ∷ lower_case cs

abbrev without_sign : Text → Text
without_sign [] = []
without_sign (c ∷ cs) = if (c == b'+') || (c == b'-') then cs else c ∷ cs

abbrev is_exponent : Text → Bool
is_exponent [] = true
is_exponent (c ∷ cs) =
    let (n, rest) = skip_digits (without_sign cs) in
    (lower c == b'e') && ltb 0 n && (length rest == 0)

-- What may follow the digits in front of the point, of which there are `n`.
abbrev is_fraction : ℕ → Text → Bool
is_fraction n [] = ltb 0 n
is_fraction n (c ∷ cs) =
    let (k, rest) = skip_digits cs in
    if c == b'.' then ltb 0 (n + k) && is_exponent rest else ltb 0 n && is_exponent (c ∷ cs)

abbrev is_unsigned_f64 : Text → Bool
is_unsigned_f64 text =
    let (n, rest) = skip_digits text in
    is_fraction n rest
    || same_text (lower_case text) (codes "inf")
    || same_text (lower_case text) (codes "infinity")
    || same_text (lower_case text) (codes "nan")

-- `parse::<f64>` gives a number; the words of the source are among those that it reads.
unfoldable pub f64_token_value : Text → Bool
f64_token_value text = is_unsigned_f64 (without_sign text)

abbrev has : ℕ → Text → Bool
has c [] = false
has c (d ∷ ds) = (c == d) || has c ds

abbrev fraction_format : Text → Text
fraction_format val = if has b'.' val then codes "%.f" else []

abbrev date_format : ℕ → Text → Text
date_format separator val = b'%' ∷ b'F' ∷ separator ∷ b'%' ∷ b'T' ∷ fraction_format val

-- `replace("Z", "+00:00")`
abbrev with_zulu : Text → Text
with_zulu [] = []
with_zulu (c ∷ cs) =
    if c == b'Z' then b'+' ∷ b'0' ∷ b'0' ∷ b':' ∷ b'0' ∷ b'0' ∷ with_zulu cs else c ∷ with_zulu cs

abbrev ends_with_zulu : Text → Bool
ends_with_zulu [] = false
ends_with_zulu (c ∷ []) = c == b'Z'
ends_with_zulu (c ∷ d ∷ cs) = ends_with_zulu (d ∷ cs)

module _ (parse_from_str : ChronoType → Text → Text → Bool) where
  unfoldable pub to_naive_time : Text → Bool
  to_naive_time val = parse_from_str ChronoType.naive_time val (b'%' ∷ b'T' ∷ fraction_format val)

  -- Without a character behind the date the program panics.
  unfoldable pub to_naive_datetime : Text → Option Bool
  to_naive_datetime val = elim (get_elem? val 10) [
    | none ↦ none
    | some separator ↦
        some (parse_from_str ChronoType.naive_date_time val (date_format separator val))
  ]

  unfoldable pub to_offset_datetime : Text → Option Bool
  to_offset_datetime val = elim (get_elem? val 10) [
    | none ↦ none
    | some separator ↦ some (
        parse_from_str ChronoType.fixed_offset (if ends_with_zulu val then with_zulu val else val)
          (date_format separator val ++ codes "%:z"))
  ]

  -- The conversion that `token_value` of the parser chooses.
  unfoldable pub converts : TokenValueType → Text → Option Bool
  unfolding bool_token_value int_token_value f64_token_value to_naive_time to_naive_datetime
      to_offset_datetime
  converts TokenValueType.string text = some true
  converts TokenValueType.boolean text = some (bool_token_value text)
  converts TokenValueType.integer text = some (int_token_value text)
  converts TokenValueType.float text = some (f64_token_value text)
  converts TokenValueType.offset_date_time text = to_offset_datetime text
  converts TokenValueType.local_date_time text = to_naive_datetime text
  converts TokenValueType.local_date text =
      some (parse_from_str ChronoType.naive_date text (codes "%Y-%m-%d"))
  converts TokenValueType.local_time text = some (to_naive_time text)
