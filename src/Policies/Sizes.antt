-- ===== src/Policies/Sizes.antt =====
-- Sizes and conditions that the configuration describes by a text.
use coaly.Prelude.{
  ℕ, ◌+◌, ◌-◌, ◌*◌, ◌%◌, ◌^◌, ◌≤◌, ◌≡◌, ◌⊎◌, ◌==◌, ◌||◌, refl, ap, ◌∙◌, arith, true, Option, some,
  [], ◌∷◌, ◌++◌, in_range, All, if◌then◌else◌,
}
use coaly.Prelude.Texts.{Text}
use coaly.Datetime.Names.{Captures, Pattern}
use coaly.Policies.{size_char, size_value, parse_size_str}

-- The number that decimal digits stand for, behind a number that was read.
abbrev pub decimal : ℕ → Text → ℕ
decimal n [] = n
decimal n (c ∷ cs) = decimal (10 * n + (c - b'0')) cs

abbrev pub IsDigit : ℕ → Type 0
IsDigit c = in_range b'0' b'9' c ≡ true

-- What the unit behind a size stands for.
abbrev pub unit_size : Text → ℕ
unit_size [] = 1
unit_size (c ∷ cs) =
    if (c == b'k') || (c == b'K')
    then 1024
    else if (c == b'm') || (c == b'M')
    then 1024 ^ 2
    else 1024 ^ 3

-- White space in ASCII, or a character beyond ASCII, as other white space is.
abbrev pub IsBlank : ℕ → Type 0
IsBlank c = (in_range 9 13 c ≡ true) ⊎ ((c ≡ b' ') ⊎ (128 ≤ c))

-- Nothing, or one of the letters that stand for a unit.
pub data IsUnit : Text → Type 0 where
  bytes : IsUnit []
  kilo : IsUnit (b'k' ∷ [])
  upper_kilo : IsUnit (b'K' ∷ [])
  mega : IsUnit (b'm' ∷ [])
  upper_mega : IsUnit (b'M' ∷ [])
  giga : IsUnit (b'g' ∷ [])
  upper_giga : IsUnit (b'G' ∷ [])

size_value-digits :
    (n : ℕ) (digits unit : Text)
    → All IsDigit digits
    → size_value (n % 2 ^ 64) (digits ++ unit) ≡ size_value (decimal n digits % 2 ^ 64) unit
unfolding size_value
size_value-digits n [] unit h = refl
size_value-digits n (c ∷ cs) unit h =
    let step : size_char (n % 2 ^ 64) c ≡ (10 * n + (c - b'0')) % 2 ^ 64 = rw (h.0) (omega arith) in
    ap (λ m. size_value m (cs ++ unit)) step ∙ size_value-digits (10 * n + (c - b'0')) cs unit h.1

size_char-blank : (m c : ℕ) → IsBlank c → size_char m c ≡ m
size_char-blank m c h = ground arith

size_value-blanks :
    (m : ℕ) (blanks unit : Text)
    → All IsBlank blanks
    → size_value m (blanks ++ unit) ≡ size_value m unit
unfolding size_value
size_value-blanks m [] unit h = refl
size_value-blanks m (c ∷ cs) unit h =
    ap (λ k. size_value k (cs ++ unit)) (size_char-blank m c h.0) ∙ size_value-blanks m cs unit h.1

size_value-unit :
    (n : ℕ) (unit : Text) → IsUnit unit → size_value (n % 2 ^ 64) unit ≡ n * unit_size unit % 2 ^ 64
unfolding size_value
size_value-unit n [] bytes = omega arith
size_value-unit n _ kilo = omega arith
size_value-unit n _ upper_kilo = omega arith
size_value-unit n _ mega = omega arith
size_value-unit n _ upper_mega = omega arith
size_value-unit n _ giga = omega arith
size_value-unit n _ upper_giga = omega arith

-- Where the pattern for sizes matches decimal digits, any white space, and one of the units k, K,
-- m, M, g and G or none, the size is the number that digits and unit stand for, if it is less than
-- 2 ^ 64, and what is left of it in 64 bits otherwise. Any characters beyond ASCII count as white
-- space here.
pub parse_size_str-decimal :
    (captures : Captures) (digits blanks unit : Text) (groups : ℕ → Option Text)
    → captures Pattern.size_str (digits ++ (blanks ++ unit)) ≡ some groups
    → All IsDigit digits
    → All IsBlank blanks
    → IsUnit unit
    → parse_size_str captures (digits ++ (blanks ++ unit))
      ≡ some (decimal 0 digits * unit_size unit % 2 ^ 64)
unfolding parse_size_str
parse_size_str-decimal captures digits blanks unit groups matched h k u =
    rw (parse_size_str, matched)
      (ap some (
        size_value-digits 0 digits (blanks ++ unit) h
        ∙ size_value-blanks (decimal 0 digits % 2 ^ 64) blanks unit k
        ∙ size_value-unit (decimal 0 digits) unit u))
