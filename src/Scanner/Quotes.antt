-- ===== src/Scanner/Quotes.antt =====
-- Delimiters, escape sequences and first line breaks in the strings of src/config/toml/scanner.
use coaly.Prelude.Texts.{codes}
use coaly.Prelude.{
  ℕ, zero, suc, ◌+◌, ◌-◌, ◌≤◌, ◌<◌, ◌≡◌, ◌∙◌, ap, sym, ==_refl, ◌++◌, All, length, append_assoc,
  ◌==◌, refl, Bool, true, false, none, some, List, [], ◌∷◌, arith, if◌then◌else◌, ltb, leb,
  Bool-cases, inl, inr, replicate,
}
use coaly.Scanner.{
  TokenId, TokenValueType, StateResult, char_processed, token_found, resume_calling_state,
  char_error, error, too_many_quotes, inv_unicode_esc_seq, validate_hex_digit, one_of,
}
use coaly.Scanner.Strings.{
  delim_sequence_char, EscapeSequenceState, escape_start, escape_char, from_hex, is_char,
}

-- `n` more delimiters are read, and then `last`.
abbrev pub delims_run : ℕ → ℕ → ℕ → ℕ → StateResult
delims_run delim count zero last = (delim_sequence_char delim count last).1
delims_run delim count (suc n) last =
    let (count1, result) = delim_sequence_char delim count delim in
    let rest = delims_run delim count1 n last in
    elim result [ char_processed keep ↦ rest | other ↦ other ]

-- What `k` delimiters mean.
abbrev pub delims_meaning : ℕ → ℕ → StateResult
delims_meaning delim k =
    if ltb k 3
    then resume_calling_state 1 delim k
    else if k == 3
    then token_found 1 false TokenId.value TokenValueType.string none
    else if leb k 5
    then token_found 1 false TokenId.value TokenValueType.string (some (replicate (k - 3) delim))
    else char_error 0 too_many_quotes delim

delim_more :
    (delim count : ℕ)
    → count ≤ 4
    → delim_sequence_char delim count delim ≡ (count + 1, char_processed false)
unfolding delim_sequence_char
delim_more delim count h =
    let few : leb 5 count ≡ false = ground arith in rw (==_refl delim, few) refl

delim_over :
    (delim count : ℕ)
    → 5 ≤ count
    → delim_sequence_char delim count delim ≡ (count, char_error 0 too_many_quotes delim)
unfolding delim_sequence_char
delim_over delim count h =
    let many : leb 5 count ≡ true = ground arith in rw (==_refl delim, many) refl

delim_last :
    (delim count last : ℕ)
    → count ≤ 5
    → (last == delim) ≡ false
    → (delim_sequence_char delim count last).1 ≡ delims_meaning delim count
unfolding delim_sequence_char
delim_last delim zero last k e = rw e refl
delim_last delim (suc zero) last k e = rw e refl
delim_last delim (suc (suc zero)) last k e = rw e refl
delim_last delim (suc (suc (suc zero))) last k e = rw e refl
delim_last delim (suc (suc (suc (suc zero)))) last k e = rw e refl
delim_last delim (suc (suc (suc (suc (suc zero))))) last k e = rw e refl
delim_last delim (suc (suc (suc (suc (suc (suc n)))))) last k e = absurd (omega arith)

too_many : (delim k : ℕ) → 5 < k → delims_meaning delim k ≡ char_error 0 too_many_quotes delim
too_many delim k h = ground arith

-- In a string over several lines, a run of delimiters followed by another character belongs to the
-- string if it is shorter than three; otherwise three of them end it and the others, up to two,
-- belong to it; more than five are an error.
pub delims_run-delims_meaning :
    (delim count n last : ℕ)
    → 1 ≤ count
    → count ≤ 5
    → (last == delim) ≡ false
    → delims_run delim count n last ≡ delims_meaning delim (count + n)
delims_run-delims_meaning delim count zero last h k e =
    let same : count ≡ count + 0 = omega arith in
    delim_last delim count last k e ∙ ap (delims_meaning delim) same
delims_run-delims_meaning delim count (suc n) last h k e = elim (Bool-cases (leb 5 count)) [
  | inl many ↦
      let over : 5 ≤ count = ground arith in
      rw (delims_run, delim_over delim count over)
        (sym (too_many delim (count + suc n) (omega arith)))
  | inr few ↦
      let more : count ≤ 4 = ground arith in
      let same : count + 1 + n ≡ count + suc n = omega arith in
      rw (delims_run, delim_more delim count more, delim_more delim count more)
        (delims_run-delims_meaning delim (count + 1) n last (omega arith) (omega arith) e
          ∙ ap (delims_meaning delim) same)
]

-- The characters of an escape sequence are read while it goes on; the last result is returned.
abbrev pub escape_run : EscapeSequenceState → ℕ → List ℕ → StateResult
escape_run s c [] = (escape_char s c).1
escape_run s c (d ∷ ds) =
    let (s1, result) = escape_char s c in
    let rest = escape_run s1 d ds in elim result [ char_processed keep ↦ rest | other ↦ other ]

-- What the digits of a Unicode escape sequence mean.
abbrev pub unicode_meaning : List ℕ → StateResult
unicode_meaning digits =
    if is_char (from_hex 0 digits)
    then resume_calling_state 0 (from_hex 0 digits) 1
    else error inv_unicode_esc_seq false (some digits)

hex_step :
    (s : EscapeSequenceState) (c : ℕ)
    → validate_hex_digit c ≡ true
    → s.handling_line_ending ≡ false
    → 1 ≤ s.chars_processed
    → s.chars_processed + 1 < s.expected_char_count
    → escape_char s c ≡ (
      record s {
        chars_processed = s.chars_processed + 1;
        unicode_buffer = s.unicode_buffer ++ c ∷ [];
      },
      char_processed false,
    )
unfolding escape_char
hex_step s c x line more inside =
    let going : ltb s.expected_char_count (s.chars_processed + 1) ≡ false = ground arith in
    let later : (s.chars_processed + 1 == 1) ≡ false = ground arith in
    let unfinished : (s.chars_processed + 1 == s.expected_char_count) ≡ false = ground arith in
    let plain : one_of (10 ∷ 13 ∷ 0 ∷ codes "\"'") c ≡ false = ground arith in
    rw (line, going, later, plain, x, unfinished) refl

hex_last :
    (s : EscapeSequenceState) (c : ℕ)
    → validate_hex_digit c ≡ true
    → s.handling_line_ending ≡ false
    → 1 ≤ s.chars_processed
    → s.chars_processed + 1 ≡ s.expected_char_count
    → (escape_char s c).1 ≡ unicode_meaning (s.unicode_buffer ++ c ∷ [])
unfolding escape_char
hex_last s c x line more inside =
    let going : ltb s.expected_char_count (s.chars_processed + 1) ≡ false = ground arith in
    let later : (s.chars_processed + 1 == 1) ≡ false = ground arith in
    let done : (s.chars_processed + 1 == s.expected_char_count) ≡ true = ground arith in
    let plain : one_of (10 ∷ 13 ∷ 0 ∷ codes "\"'") c ≡ false = ground arith in
    rw (line, going, later, plain, x, done) refl

-- From a state behind `u` or `U`, as many digits as are expected.
hex_run :
    (cs : List ℕ) (c : ℕ) (s : EscapeSequenceState)
    → All (λ d. validate_hex_digit d ≡ true) (c ∷ cs)
    → s.handling_line_ending ≡ false
    → 1 ≤ s.chars_processed
    → s.chars_processed + length (c ∷ cs) ≡ s.expected_char_count
    → escape_run s c cs ≡ unicode_meaning (s.unicode_buffer ++ c ∷ cs)
hex_run [] c s x line more e = hex_last s c x.0 line more (omega arith)
hex_run (d ∷ ds) c s x line more e =
    let step = hex_step s c x.0 line more (omega arith) in
    rw (escape_run, step, step)
      (hex_run ds d _ x.1 line (omega arith) (omega arith)
        ∙ ap unicode_meaning (append_assoc s.unicode_buffer (c ∷ []) (d ∷ ds)))

-- Behind a backslash, `u` with four hexadecimal digits, or `U` with eight, gives the character with
-- that number if there is one, and otherwise an error.
pub escape_run-unicode :
    (multi_line long : Bool) (c : ℕ) (cs : List ℕ)
    → All (λ d. validate_hex_digit d ≡ true) (c ∷ cs)
    → length cs ≡ (if long then 7 else 3)
    → escape_run (escape_start multi_line) (if long then b'U' else b'u') (c ∷ cs)
      ≡ unicode_meaning (c ∷ cs)
unfolding escape_start escape_char
escape_run-unicode multi_line true c cs x e = hex_run cs c _ x refl (omega arith) (omega arith)
escape_run-unicode multi_line false c cs x e = hex_run cs c _ x refl (omega arith) (omega arith)
