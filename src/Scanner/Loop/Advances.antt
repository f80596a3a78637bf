-- ===== src/Scanner/Loop/Advances.antt =====
-- The token that the scanner finds moves it forward.
use coaly.Prelude.{
  ℕ, zero, suc, ◌+◌, ◌-◌, ◌*◌, ◌||◌, ◌&&◌, ◌<◌, ◌≤◌, ◌==◌, Bool, true, false, ◌≡◌, ◌⊎◌, inl, inr,
  refl, sym, ap, ◌∙◌, arith, some, List, [], ltb, length, get_or, Bool-cases,
}
use coaly.Scanner.{
  ScannerStateId, StateResult, char_processed, resume_calling_state, finished, suspended,
  char_error, error, token_found, null, TokenId,
}
use coaly.Scanner.Basic.{idle_char}
use coaly.Scanner.States.{process_char}
use coaly.Scanner.Loop.{
  TomlScanner, token, exception, panicked, Step, goes, ends, after, turn, scan, next_token, enough,
}
use coaly.Scanner.Loop.Found.{Found, step_on, ended, next_Found, scan-step_on, scan-Found}
use coaly.Scanner.Loop.Progress.{
  Beyond, Moves, reads, begins, idle-begins, is_processed, reads-processed,
}

le-ltb : (c index : ℕ) → c ≤ index → ltb index c ≡ false
le-ltb c index h = ground arith

module _ (start : ℕ) (text : List ℕ) (k : Bool) where
  -- At the start, in a state that reads the next character.
  processed-Moves :
      (id : ScannerStateId) (ch : ℕ) (s : TomlScanner) (r : StateResult)
      → is_processed r ≡ true
      → s.input_data ≡ text
      → start < s.current_index
      → s.current_index ≤ length text + 1
      → Moves start text (after id ch s r)
  unfolding after
  processed-Moves id ch s (char_processed true) h same low high = record {
    same = same;
    further = low;
    inside = high;
  }
  processed-Moves id ch s (char_processed false) h same low high = record {
    same = same;
    further = low;
    inside = high;
  }
  processed-Moves id ch s (resume_calling_state c value count) h same low high = absurd cc
  processed-Moves id ch s (finished c mark consume next) h same low high = absurd cc
  processed-Moves id ch s (suspended c next) h same low high = absurd cc
  processed-Moves id ch s (char_error c message shown) h same low high = absurd cc
  processed-Moves id ch s (error message with_value params) h same low high = absurd cc
  processed-Moves id ch s (token_found c mark t_id t_type t_value) h same low high = absurd cc

  record AtStart (id : ScannerStateId) (s : TomlScanner) : Type 0 where
    same : s.input_data ≡ text
    here : s.current_index ≡ start
    reading : reads id (get_or text start null) ≡ true

  reading_Found :
      (fuel : ℕ) (id : ScannerStateId) (s : TomlScanner)
      → start ≤ length text
      → AtStart id s
      → Found start text k (scan fuel id k s)
  unfolding scan Found turn
  reading_Found zero id s low a s1 t e = absurd cc
  reading_Found (suc fuel) id s low a s1 t e =
      let inside : s.current_index ≤ length s.input_data = rw (a.here, a.same) low in
      let ch = get_or s.input_data s.current_index null in
      let reads_it : reads id ch ≡ true = rw (a.here, a.same) a.reading in
      let moved =
        processed-Moves id ch
          (record s {
            current_index = s.current_index + 1;
            states = (process_char id s.states ch k).0;
          })
          (process_char id s.states ch k).1 (reads-processed id s.states ch k reads_it) a.same
          (omega (arith, a.here)) (omega (arith, a.here, low)) in
      next_Found start text k fuel (turn id k s) (λ next s2. scan-Found start text k fuel next s2)
        moved s1 t (sym (scan-step_on start text k fuel id s inside) ∙ e)

  -- Where the first turn leads.
  abbrev Starts : Step → Type 0
  Starts (goes id s) = Beyond start text s ⊎ AtStart id s
  Starts (ends s (token t)) = Beyond start text s
  Starts (ends s result) = Unit {0}

  started :
      (c : ℕ) (next : ScannerStateId) (s : TomlScanner)
      → ((c == 0) || ((c == 1) && reads next (get_or text start null))) ≡ true
      → s.input_data ≡ text
      → s.current_index ≡ start + 1 - c
      → start ≤ length text
      → Starts (goes next s)
  started c next s h same here low =
      let given : (c ≡ 0) ⊎ ((c ≡ 1) × (reads next (get_or text start null) ≡ true)) =
        grind arith in
      elim given [
        | inl e ↦ inl (record {
          same = same;
          further = omega (arith, here, e);
          inside = omega (arith, here, e, low);
        })
        | inr e ↦ inr (record { same = same; here = omega (arith, here, e.0); reading = e.1 })
      ]

  not_below :
      (c index : ℕ) (next : ScannerStateId)
      → ((c == 0) || ((c == 1) && reads next (get_or text start null))) ≡ true
      → index ≡ start + 1
      → ltb index c ≡ false
  not_below c index next h at =
      let given : (c ≡ 0) ⊎ ((c ≡ 1) × (reads next (get_or text start null) ≡ true)) =
        grind arith in
      let most : c ≤ index = elim given [
        | inl e ↦ omega (arith, e, at)
        | inr e ↦ omega (arith, e.0, at)
      ] in
      le-ltb c index most

  begins-Starts :
      (id : ScannerStateId) (s : TomlScanner) (r : StateResult)
      → begins (get_or text start null) r ≡ true
      → s.input_data ≡ text
      → s.current_index ≡ start + 1
      → start ≤ length text
      → Starts (after id (get_or text start null) s r)
  unfolding after
  begins-Starts id s (char_processed true) h same here low =
      inl (record { same = same; further = omega (arith, here); inside = omega (arith, here, low) })
  begins-Starts id s (char_processed false) h same here low =
      inl (record { same = same; further = omega (arith, here); inside = omega (arith, here, low) })
  begins-Starts id s (resume_calling_state c value count) h same here low = absurd cc
  begins-Starts id s (finished c true true next) h same here low =
      rw (not_below c s.current_index next h here)
        (started c next _ h same (ap (λ n. n - c) here) low)
  begins-Starts id s (finished c true false next) h same here low =
      rw (not_below c s.current_index next h here)
        (started c next _ h same (ap (λ n. n - c) here) low)
  begins-Starts id s (finished c false true next) h same here low =
      rw (not_below c s.current_index next h here)
        (started c next _ h same (ap (λ n. n - c) here) low)
  begins-Starts id s (finished c false false next) h same here low =
      rw (not_below c s.current_index next h here)
        (started c next _ h same (ap (λ n. n - c) here) low)
  begins-Starts id s (suspended c next) h same here low = absurd cc
  begins-Starts id s (char_error c message shown) h same here low =
      elim (Bool-cases (ltb s.current_index c)) [ inl e ↦ rw e tt | inr e ↦ rw e tt ]
  begins-Starts id s (error message with_value params) h same here low = tt
  begins-Starts id s (token_found c true t_id t_type t_value) h same here low =
      let kept : c ≡ 0 = grind arith in
      let enough : ltb s.current_index c ≡ false = ground (arith, kept) in
      rw enough (record {
        same = same;
        further = omega (arith, here, kept);
        inside = omega (arith, here, low, kept);
      })
  begins-Starts id s (token_found c false t_id t_type t_value) h same here low =
      let kept : c ≡ 0 = grind arith in
      let enough : ltb s.current_index c ≡ false = ground (arith, kept) in
      rw enough (record {
        same = same;
        further = omega (arith, here, kept);
        inside = omega (arith, here, low, kept);
      })

  first_Found :
      (fuel : ℕ) (step : Step)
      → start ≤ length text
      → Starts step
      → Found start text k (step_on start text k fuel step)
  unfolding step_on
  first_Found fuel (goes next s1) low (inl b) = scan-Found start text k fuel next s1 b
  first_Found fuel (goes next s1) low (inr a) = reading_Found fuel next s1 low a
  first_Found fuel (ends s1 (token t)) low b = ended start text k s1 (token t) b
  first_Found fuel (ends s1 (exception e)) low b = ended start text k s1 (exception e) b
  first_Found fuel (ends s1 panicked) low b = ended start text k s1 panicked b

idle_turn :
    (k : Bool) (s : TomlScanner)
    → s.current_index ≤ length s.input_data
    → Starts s.current_index s.input_data k (turn ScannerStateId.idle k s)
unfolding turn process_char
idle_turn k s inside =
    let ch = get_or s.input_data s.current_index null in
    begins-Starts s.current_index s.input_data k ScannerStateId.idle
      (record s { current_index = s.current_index + 1 }) (idle_char ch k) (idle-begins ch k) refl
      refl inside

-- A scanner inside of its text that finds a token then stands further on in the same text, at most
-- one place behind its end.
pub next_token-advances :
    (s s1 : TomlScanner) (expect_key : Bool) (t : TokenId)
    → s.current_index ≤ length s.input_data
    → next_token s expect_key ≡ some (s1, token t)
    → (s1.input_data ≡ s.input_data)
      × (s.current_index < s1.current_index)
      × (s1.current_index ≤ length s.input_data + 1)
unfolding next_token Found
next_token-advances s s1 k t inside h =
    let begin = record s { token_value = []; suspended_states = [] } in
    let fuel = 4 * length s.input_data + 7 in
    let counted : enough s ≡ suc fuel = omega arith in
    let b =
      first_Found s.current_index s.input_data k fuel (turn ScannerStateId.idle k begin) inside
        (idle_turn k begin inside) s1 t
        (sym (scan-step_on s.current_index s.input_data k fuel ScannerStateId.idle begin inside)
          ∙ ap (λ n. scan n ScannerStateId.idle k begin) (sym counted)
          ∙ h) in
    (b.same, b.further, b.inside)
