-- ===== src/Scanner/Loop/Ends.antt =====
-- The scanner's loop ends, and does not panic.
use coaly.Prelude.{
  ℕ, zero, suc, ◌<◌, ◌≤◌, Bool, ◌≡◌, refl, arith, Option, none, some, ltb, length, Bool-cases,
  subst, inl, inr, [],
}
use coaly.Scanner.{ScannerStateId}
use coaly.Scanner.States.Allowed.{is_called, read_before}
use coaly.Scanner.States.Ranks.{rank-le}
use coaly.Scanner.Loop.{
  TomlScanner, Scanned, panicked, Step, goes, ends, turn, scan, next_token, enough,
}
use coaly.Scanner.Loop.Steps.{Sound, Continues, IsResult, weight, turn-Continues}

-- The loop has returned a token or an exception.
abbrev Returns : Option (TomlScanner × Scanned) → Type 0
Returns none = ⊥
Returns (some (s, result)) = IsResult result

returned :
    (o : Option (TomlScanner × Scanned))
    → Returns o
    → (s : TomlScanner) × (result : Scanned) × (o ≡ some (s, result)) × ¬ (result ≡ panicked)
returned none h = absurd h
returned (some (s, result)) h = (s, result, refl, λ e. subst IsResult e h)

idle-Sound :
    (s : TomlScanner)
    → Sound ScannerStateId.idle (record s { token_value = []; suspended_states = [] })
unfolding is_called read_before
idle-Sound s = record { callers = tt; called = λ e. absurd cc; before = omega arith }

next_turn :
    (fuel w : ℕ) (k : Bool) (t : Step)
    → ((id : ScannerStateId) (s : TomlScanner)
        → Sound id s
        → weight id s < fuel
        → Returns (scan fuel id k s))
    → Continues w t
    → w ≤ fuel
    → Returns (elim t [ goes next s1 ↦ scan fuel next k s1 | ends s1 result ↦ some (s1, result) ])
next_turn fuel w k (goes next s1) later c low = later next s1 c.0 (omega (arith, c.1))
next_turn fuel w k (ends s1 result) later c low = c

pub scan-Returns :
    (fuel : ℕ) (k : Bool) (id : ScannerStateId) (s : TomlScanner)
    → Sound id s
    → weight id s < fuel
    → Returns (scan fuel id k s)
unfolding scan
scan-Returns zero k id s sound low = absurd (omega arith)
scan-Returns (suc fuel) k id s sound low =
    elim (Bool-cases (ltb (length s.input_data) s.current_index)) [
      | inl e ↦ rw e tt
      | inr e ↦
          let inside : s.current_index ≤ length s.input_data = ground arith in
          rw e (
            next_turn fuel (weight id s) k (turn id k s) (λ next s1. scan-Returns fuel k next s1)
              (turn-Continues id k s sound inside) (omega arith))
    ]

-- A token is read in at most four turns for each character and the end, from any scanner: the
-- result is a token or an exception, and no index or stack is used out of its bounds.
pub next_token-returns :
    (s : TomlScanner) (expect_key : Bool)
    → (s1 : TomlScanner) × (result : Scanned) × (next_token s expect_key ≡ some (s1, result))
      × ¬ (result ≡ panicked)
unfolding next_token
next_token-returns s expect_key =
    let begin = record s { token_value = []; suspended_states = [] } in
    returned (scan (enough s) ScannerStateId.idle expect_key begin) (
      scan-Returns (enough s) expect_key ScannerStateId.idle begin (idle-Sound s)
        (omega (arith, rank-le ScannerStateId.idle s.states)))
