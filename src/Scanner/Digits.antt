-- ===== src/Scanner/Digits.antt =====
-- What the number states of src/config/toml/scanner accept.
use coaly.Prelude.Texts.{codes}
use coaly.Prelude.{ℕ, ◌+◌, ◌≤◌, ◌≡◌, ◌==◌, refl, true, false, none, List, [], ◌∷◌, arith, ◌∙◌, ap}
use coaly.Scanner.{
  TokenId, TokenValueType, StateResult, char_processed, token_found, is_digit, one_of, space, tab,
  line_feed, carriage_return, null,
}
use coaly.Scanner.Basic.{zero_char}
use coaly.Scanner.Numbers.{NumberState, number_char, is_end}

-- The characters are read while each is part of the token; `last` is read behind them.
abbrev pub number_run : NumberState → List ℕ → ℕ → StateResult
number_run s [] last = (number_char s last).1
number_run s (c ∷ cs) last =
    let (s1, result) = number_char s c in
    let rest = number_run s1 cs last in elim result [ char_processed keep ↦ rest | other ↦ other ]

-- Digits, with single underscores between digits.
pub data Numeral : List ℕ → Type 0 where
  one : {d : ℕ} → is_digit d ≡ true → Numeral (d ∷ [])
  next : {d : ℕ} {cs : List ℕ} → is_digit d ≡ true → Numeral cs → Numeral (d ∷ cs)
  group : {d : ℕ} {cs : List ℕ} → is_digit d ≡ true → Numeral cs → Numeral (d ∷ b'_' ∷ cs)

abbrev pub integer_token : StateResult
integer_token = token_found 1 false TokenId.value TokenValueType.integer none

digit_next :
    (s : NumberState) (d : ℕ)
    → is_digit d ≡ true
    → number_char s d
      ≡ (record { digit_count = s.digit_count + 1; last_char = d }, char_processed true)
unfolding number_char
digit_next s d h = rw h refl

digit_end :
    (s : NumberState) (last : ℕ)
    → is_digit s.last_char ≡ true
    → 1 ≤ s.digit_count
    → is_end last ≡ true
    → (number_char s last).1 ≡ integer_token
unfolding number_char
digit_end s last h k e = ground arith

digit_underscore :
    (s : NumberState)
    → is_digit s.last_char ≡ true
    → number_char s b'_' ≡ (record s { last_char = b'_' }, char_processed false)
unfolding number_char
digit_underscore s h = let ne : (s.last_char == b'_') ≡ false = ground arith in rw ne refl

digit_run :
    (s : NumberState) (d : ℕ) (cs : List ℕ) (last : ℕ)
    → is_digit d ≡ true
    → number_run s (d ∷ cs) last
      ≡ number_run (record { digit_count = s.digit_count + 1; last_char = d }) cs last
digit_run s d cs last h = rw (number_run, digit_next s d h, digit_next s d h) refl

underscore_run :
    (s : NumberState) (cs : List ℕ) (last : ℕ)
    → is_digit s.last_char ≡ true
    → number_run s (b'_' ∷ cs) last ≡ number_run (record s { last_char = b'_' }) cs last
underscore_run s cs last h = rw (number_run, digit_underscore s h, digit_underscore s h) refl

-- From any state, digits with single underscores between them, and a character that ends a number,
-- are an integer.
pub number_run-Numeral :
    {cs : List ℕ} (s : NumberState) (last : ℕ)
    → Numeral cs
    → is_end last ≡ true
    → number_run s cs last ≡ integer_token
number_run-Numeral s last (one {d} h) e =
    digit_run s d [] last h
    ∙ digit_end (record { digit_count = s.digit_count + 1; last_char = d }) last h (omega arith) e
number_run-Numeral s last (next {d} {cs} h n) e =
    digit_run s d cs last h
    ∙ number_run-Numeral (record { digit_count = s.digit_count + 1; last_char = d }) last n e
number_run-Numeral s last (group {d} {cs} h n) e =
    digit_run s d (b'_' ∷ cs) last h
    ∙ underscore_run (record { digit_count = s.digit_count + 1; last_char = d }) cs last h
    ∙ number_run-Numeral (record { digit_count = s.digit_count + 1; last_char = b'_' }) last n e

-- A digit behind a leading zero, and then a character that ends the token, are an integer: the
-- leading zero is not rejected.
pub zero_char-leading :
    (d last : ℕ)
    → is_digit d ≡ true
    → one_of (space ∷ tab ∷ line_feed ∷ carriage_return ∷ null ∷ codes ",}]") last ≡ true
    → ((zero_char 1 d).1 ≡ char_processed true)
      × ((zero_char (zero_char 1 d).0 last).1 ≡ integer_token)
unfolding zero_char
zero_char-leading d last h e =
    let two : zero_char 1 d ≡ (2, char_processed true) = ground arith in
    (ap (λ x. x.1) two, rw two (ground arith))
