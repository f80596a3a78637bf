-- ===== src/Parser/Ends.antt =====
-- The parser ends: its loops read a token in each round, and its fuel is more than the characters.
pub mod Keys
pub mod Values
use coaly.Prelude.{
  ℕ, zero, suc, ◌+◌, ◌*◌, ◌<◌, ◌≤◌, ◌≡◌, ◌≢◌, ◌⊎◌, inl, inr, refl, sym, ap, ◌∙◌, arith, Bool, true,
  false, Option, none, some, List, [], length, ltb, Bool-cases, subst,
}
use coaly.Prelude.Texts.{Text}
use coaly.Scanner.{TokenId, ScannerStateId}
use coaly.Scanner.Loop
use coaly.Scanner.Loop.{TomlScanner, Scanned, token, exception, enough}
use coaly.Scanner.Loop.Ends.{next_token-returns}
use coaly.Scanner.Loop.Found.{scan-end}
use coaly.Scanner.Loop.Advances.{next_token-advances}
use coaly.Parser.{
  TomlParser, Parsed, done, failed, panicked, out_of_fuel, Parser, bind, scanned, read_token,
}

-- The parser stands at `start` or further on in the text, one place behind its end at most.
pub record Inside (text : List ℕ) (start : ℕ) (p : TomlParser) : Type 0 where
  pub same : p.scanner.input_data ≡ text
  pub further : start ≤ p.scanner.current_index
  pub upto : p.scanner.current_index ≤ length text + 1

-- The outcome is no lack of fuel, and a parser that goes on stands inside.
abbrev pub Within {ℓ} : {A : Type ℓ} → List ℕ → ℕ → Parsed A → Type 0
Within text start (done a p) = Inside text start p
Within text start (failed e) = Unit {0}
Within text start panicked = Unit {0}
Within text start out_of_fuel = ⊥

-- The same of a token that was read: the parser has moved on, or the text is at its end.
abbrev Reads : List ℕ → ℕ → Parsed TokenId → Type 0
Reads text start (done t p) =
    (Inside text start p) × ((t ≡ TokenId.end_of_input) ⊎ Inside text (suc start) p)
Reads text start (failed e) = Unit {0}
Reads text start panicked = Unit {0}
Reads text start out_of_fuel = ⊥

-- Behind the text the scanner reports its end, and stays.
next_token-end :
    (s : TomlScanner) (k : Bool)
    → length s.input_data < s.current_index
    → Loop.next_token s k
      ≡ some (record s { token_value = []; suspended_states = [] }, token TokenId.end_of_input)
unfolding Loop.next_token
next_token-end s k past =
    let fuel = 4 * length s.input_data + 7 in
    let counted : enough s ≡ suc fuel = omega arith in
    ap
      (λ n.
        Loop.scan n ScannerStateId.idle k (record s { token_value = []; suspended_states = [] }))
      counted
    ∙ scan-end s.current_index s.input_data k fuel ScannerStateId.idle
        (record s { token_value = []; suspended_states = [] }) past

scanned-Reads :
    (text : List ℕ) (start : ℕ) (p : TomlParser) (k : Bool) (s : TomlScanner) (r : Scanned)
    → Inside text start p
    → Loop.next_token p.scanner k ≡ some (s, r)
    → Reads text start (scanned p (some (s, r)))
scanned-Reads text start p k s (token t) i e =
    elim (Bool-cases (ltb (length p.scanner.input_data) p.scanner.current_index)) [
      | inl b ↦
          let end = next_token-end p.scanner k (ground arith) in
          let stays : record p.scanner { token_value = []; suspended_states = [] } ≡ s = cc in
          let ended : t ≡ TokenId.end_of_input = cc in
          (
            record {
              same = ap (λ (q : TomlScanner). q.input_data) (sym stays) ∙ i.same;
              further = omega (arith, ap (λ (q : TomlScanner). q.current_index) stays, i.further);
              upto = omega (arith, ap (λ (q : TomlScanner). q.current_index) stays, i.upto);
            },
            inl ended,
          )
      | inr b ↦
          let (same, further, upto) = next_token-advances p.scanner s k t (ground arith) e in
          let size = ap length i.same in
          let moved : Inside text (suc start) (record p { scanner = s }) = record {
            same = same ∙ i.same;
            further = omega (arith, further, i.further);
            upto = omega (arith, upto, size);
          } in
          (
            record { same = moved.same; further = omega (arith, moved.further); upto = moved.upto },
            inr moved,
          )
    ]
scanned-Reads text start p k s (exception x) i e = tt
scanned-Reads text start p k s Scanned.panicked i e = tt

read_token-Reads :
    (text : List ℕ) (start : ℕ) (p : TomlParser) (k : Bool)
    → Inside text start p
    → Reads text start (read_token k p)
unfolding read_token
read_token-Reads text start p k i =
    let (s, result, e, fine) = next_token-returns p.scanner k in
    rw e (scanned-Reads text start p k s result i e)

module _ {ℓ} {A : Type ℓ} (text : List ℕ) where
  pub Within-weaken : (start : ℕ) (r : Parsed A) → Within text (suc start) r → Within text start r
  Within-weaken start (done a p) i = record {
    same = i.same;
    further = omega (arith, i.further);
    upto = i.upto;
  }
  Within-weaken start (failed e) i = tt
  Within-weaken start panicked i = tt
  Within-weaken start out_of_fuel i = absurd i

  pub Within-fuel : (start : ℕ) (r : Parsed A) → Within text start r → r ≢ out_of_fuel
  Within-fuel start (done a p) i = cc
  Within-fuel start (failed e) i = cc
  Within-fuel start panicked i = cc
  Within-fuel start out_of_fuel i = absurd i

  pub Within-bind {κ} :
      {B : Type κ} {start : ℕ} (r : Parsed B) (f : B → Parser A)
      → Within text start r
      → ((b : B) (p : TomlParser) → Inside text start p → Within text start (f b p))
      → Within text start (bind r f)
  Within-bind (done a p) f i k = k a p i
  Within-bind (failed e) f i k = tt
  Within-bind panicked f i k = tt
  Within-bind out_of_fuel f i k = absurd i

  read_on :
      (start : ℕ) (r : Parsed TokenId) (f : TokenId → Parser A)
      → Reads text start r
      → ((t : TokenId) (p : TomlParser)
          → Inside text (suc start) p
          → Within text (suc start) (f t p))
      → ((p : TomlParser) → Inside text start p → Within text start (f TokenId.end_of_input p))
      → Within text start (bind r f)
  read_on start (done t p) f (i, moved) more last = elim moved [
    | inl e ↦ subst (λ x. Within text start (f x p)) (sym e) (last p i)
    | inr m ↦ Within-weaken start (f t p) (more t p m)
  ]
  read_on start (failed e) f h more last = tt
  read_on start panicked f h more last = tt
  read_on start out_of_fuel f h more last = absurd h

  pub Within-read :
      (start : ℕ) (k : Bool) (p : TomlParser) (f : TokenId → Parser A)
      → Inside text start p
      → ((t : TokenId) (p1 : TomlParser)
          → Inside text (suc start) p1
          → Within text (suc start) (f t p1))
      → ((p1 : TomlParser) → Inside text start p1 → Within text start (f TokenId.end_of_input p1))
      → Within text start (bind (read_token k p) f)
  Within-read start k p f i more last =
      read_on start (read_token k p) f (read_token-Reads text start p k i) more last
