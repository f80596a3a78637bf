-- ===== src/Scanner/Loop/Found.antt =====
-- A token that the scanner's loop finds, once it has left the place where it began, lies behind it.
use coaly.Prelude.{
  ℕ, zero, suc, ◌<◌, ◌≤◌, Bool, true, false, ◌≡◌, inl, inr, refl, sym, subst, ◌∙◌, arith, Option,
  some, List, ltb, length, Bool-cases,
}
use coaly.Scanner.{ScannerStateId, TokenId}
use coaly.Scanner.Loop.{
  TomlScanner, Scanned, token, exception, panicked, Step, goes, ends, turn, scan,
}
use coaly.Scanner.Loop.Progress.{Beyond, Moves, turn-Moves}

module _ (start : ℕ) (text : List ℕ) (k : Bool) where
  -- A result of the loop that is a token stands beyond the start.
  unfoldable pub Found : Option (TomlScanner × Scanned) → Type 0
  Found o = (s1 : TomlScanner) (t : TokenId) → o ≡ some (s1, token t) → Beyond start text s1

  unfoldable pub step_on : ℕ → Step → Option (TomlScanner × Scanned)
  step_on fuel (goes next s1) = scan fuel next k s1
  step_on fuel (ends s1 result) = some (s1, result)

  pub ended :
      (s : TomlScanner) (result : Scanned)
      → Moves start text (ends s result)
      → Found (some (s, result))
  unfolding Found
  ended s (token t1) m s1 t e = let same : s ≡ s1 = cc in subst (Beyond start text) same m
  ended s (exception x) m s1 t e = absurd cc
  ended s panicked m s1 t e = absurd cc

  pub next_Found :
      (fuel : ℕ) (step : Step)
      → ((id : ScannerStateId) (s : TomlScanner) → Beyond start text s → Found (scan fuel id k s))
      → Moves start text step
      → Found (step_on fuel step)
  unfolding step_on
  next_Found fuel (goes next s1) later m = later next s1 m
  next_Found fuel (ends s1 result) later m = ended s1 result m

  -- A turn of the loop inside of the text.
  pub scan-step_on :
      (fuel : ℕ) (id : ScannerStateId) (s : TomlScanner)
      → s.current_index ≤ length s.input_data
      → scan (suc fuel) id k s ≡ step_on fuel (turn id k s)
  unfolding scan step_on
  scan-step_on fuel id s inside =
      let not_end : ltb (length s.input_data) s.current_index ≡ false = ground arith in
      rw not_end (stepped (turn id k s))
    where
      stepped :
          (t : Step)
          → (elim t [ goes next s1 ↦ scan fuel next k s1 | ends s1 result ↦ some (s1, result) ])
            ≡ step_on fuel t
      stepped (goes next s1) = refl
      stepped (ends s1 result) = refl

  pub scan-end :
      (fuel : ℕ) (id : ScannerStateId) (s : TomlScanner)
      → length s.input_data < s.current_index
      → scan (suc fuel) id k s ≡ some (s, token TokenId.end_of_input)
  unfolding scan
  scan-end fuel id s past =
      let at_end : ltb (length s.input_data) s.current_index ≡ true = ground arith in rw at_end refl

  pub scan-Found :
      (fuel : ℕ) (id : ScannerStateId) (s : TomlScanner)
      → Beyond start text s
      → Found (scan fuel id k s)
  unfolding scan Found
  scan-Found zero id s b s1 t e = absurd cc
  scan-Found (suc fuel) id s b s1 t e =
      elim (Bool-cases (ltb (length s.input_data) s.current_index)) [
        | inl p ↦
            ended s (token TokenId.end_of_input) b s1 t
              (sym (scan-end fuel id s (ground arith)) ∙ e)
        | inr p ↦
            let inside : s.current_index ≤ length s.input_data = ground arith in
            next_Found fuel (turn id k s) (λ next s2. scan-Found fuel next s2)
              (turn-Moves start text id k s b inside) s1 t (sym (scan-step_on fuel id s inside) ∙ e)
      ]
