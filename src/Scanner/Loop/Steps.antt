-- ===== src/Scanner/Loop/Steps.antt =====
-- A turn of the scanner's loop reads a character, or gives it to a state of a lower rank, and does
-- not panic.
use coaly.Prelude.{
  ℕ, ◌+◌, ◌-◌, ◌*◌, ◌<◌, ◌≤◌, ◌==◌, Bool, true, false, ◌≡◌, ◌⊎◌, inl, inr, arith, ◌&&◌, ◌||◌, not,
  List, [], ◌∷◌, ltb, length, get_or,
}
use coaly.Scanner.{
  ScannerStateId, StateResult, char_processed, resume_calling_state, finished, suspended,
  char_error, error, token_found, null,
}
use coaly.Scanner.States.{Memory, process_char}
use coaly.Scanner.States.Allowed.{
  allowed, rank, entry_rank, is_called, is_caller, read_before, counts, descends,
}
use coaly.Scanner.States.Ranks.{
  rank-le, entry_rank-le, rank-activate, read_before-activate, caller_rank, caller-called,
  caller_before, back_cases, and_true,
}
use coaly.Scanner.States.Results.{process_char-allowed}
use coaly.Scanner.Loop.{
  TomlScanner, Scanned, panicked, Step, goes, ends, enter, resume, after, turn,
}

abbrev pub AreCallers : List ScannerStateId → Type 0
AreCallers [] = Unit {0}
AreCallers (id ∷ ids) = (is_caller id ≡ true) × AreCallers ids

-- The scanner in a state: suspended are states that may be, and one at least where it is needed.
pub record Sound (id : ScannerStateId) (s : TomlScanner) : Type 0 where
  pub callers : AreCallers s.suspended_states
  pub called : is_called id ≡ true → 1 ≤ length s.suspended_states
  pub before : read_before id s.states ≤ s.current_index

-- Four turns for each character that is left, and the end.
abbrev pub weight : ScannerStateId → TomlScanner → ℕ
weight id s = 4 * (length s.input_data + 1 - s.current_index) + rank id s.states

abbrev pub IsResult : Scanned → Type 0
IsResult panicked = ⊥
IsResult _ = Unit {0}

abbrev pub Continues : ℕ → Step → Type 0
Continues w (goes next s) = Sound next s × (weight next s < w)
Continues w (ends s result) = IsResult result

-- A state that is entered.
enter-Continues :
    (w : ℕ) (next : ScannerStateId) (s : TomlScanner)
    → AreCallers s.suspended_states
    → (is_called next ≡ true → 1 ≤ length s.suspended_states)
    → (counts next ≡ true → 1 ≤ s.current_index)
    → 4 * (length s.input_data + 1 - s.current_index) + entry_rank next < w
    → Continues w (enter next s)
enter-Continues w next s callers called counted less = (
  record {
    callers = callers;
    called = called;
    before = rw (read_before-activate next s.states) (ground arith);
  },
  rw (rank-activate next s.states) less,
)

-- A state that is resumed.
resume-Continues :
    (w : ℕ) (ids : List ScannerStateId) (s : TomlScanner)
    → AreCallers ids
    → 1 ≤ length ids
    → 4 * (length s.input_data + 1 - s.current_index) + 2 < w
    → Continues w (resume ids s)
resume-Continues w [] s callers some_state less = absurd (omega arith)
resume-Continues w (id ∷ ids) s callers some_state less = (
  record {
    callers = callers.1;
    called = λ c. absurd (cc (c, caller-called id callers.0));
    before = rw (caller_before id s.states callers.0) (omega arith);
  },
  omega (arith, caller_rank id s.states callers.0, less),
)

module _ (id : ScannerStateId) (ch : ℕ) (s : TomlScanner) (m : Memory) (sound : Sound id s)
    (inside : s.current_index ≤ length s.input_data) where
  abbrev read : TomlScanner
  read = record s { current_index = s.current_index + 1; states = m }

  entered :
      (c index : ℕ) (value : List ℕ) (ids : List ScannerStateId) (next : ScannerStateId)
      → AreCallers ids
      → (is_called next ≡ true → 1 ≤ length ids)
      → descends id s.states c next ≡ true
      → Continues (weight id s) (
          enter next (record read {
            current_index = s.current_index + 1 - c;
            token_index = index;
            token_value = value;
            suspended_states = ids;
          }))
  entered c index value ids next callers called d =
      let at_most = entry_rank-le next in
      elim (back_cases id next s.states c d) [
        | inl e ↦
            enter-Continues _ next _ callers called (λ k. omega (arith, e))
              (omega (arith, e, at_most, inside))
        | inr e ↦
            enter-Continues _ next _ callers called (λ k. absurd (cc (k, e.2)))
              (omega (arith, e.0, e.1, inside))
      ]

  -- As many characters can be given back.
  gives_back :
      (c : ℕ) (next : ScannerStateId)
      → descends id s.states c next ≡ true
      → ltb (s.current_index + 1) c ≡ false
  gives_back c next d = elim (back_cases id next s.states c d) [
    | inl e ↦ ground (arith, e)
    | inr e ↦ ground (arith, e.0)
  ]

  finished_parts :
      (c : ℕ) (mark consume : Bool) (next : ScannerStateId)
      → allowed id s.states m (finished c mark consume next) ≡ true
      → (is_called next ≡ true → 1 ≤ length s.suspended_states)
        × (descends id s.states c next ≡ true)
  unfolding allowed
  finished_parts c mark consume next h =
      let (called, d) =
        and_true (not (is_called next) || is_called id) (descends id s.states c next) h in
      (λ k. sound.called (ground (arith, k, called)), d)

  after-finished :
      (c : ℕ) (mark consume : Bool) (next : ScannerStateId)
      → allowed id s.states m (finished c mark consume next) ≡ true
      → Continues (weight id s) (after id ch read (finished c mark consume next))
  unfolding after
  after-finished c true true next h =
      let (called, d) = finished_parts c true true next h in
      rw (gives_back c next d) (entered c _ _ _ next sound.callers called d)
  after-finished c true false next h =
      let (called, d) = finished_parts c true false next h in
      rw (gives_back c next d) (entered c _ _ _ next sound.callers called d)
  after-finished c false true next h =
      let (called, d) = finished_parts c false true next h in
      rw (gives_back c next d) (entered c _ _ _ next sound.callers called d)
  after-finished c false false next h =
      let (called, d) = finished_parts c false false next h in
      rw (gives_back c next d) (entered c _ _ _ next sound.callers called d)

  after-suspended :
      (c : ℕ) (next : ScannerStateId)
      → allowed id s.states m (suspended c next) ≡ true
      → Continues (weight id s) (after id ch read (suspended c next))
  unfolding allowed after
  after-suspended c next h =
      let (caller, d) = and_true (is_caller id) (descends id s.states c next) h in
      rw (gives_back c next d)
        (entered c _ _ (id ∷ s.suspended_states) next (caller, sound.callers) (λ k. omega arith) d)

  after-resume :
      (c value count : ℕ)
      → allowed id s.states m (resume_calling_state c value count) ≡ true
      → Continues (weight id s) (after id ch read (resume_calling_state c value count))
  unfolding allowed after
  after-resume c value count h =
      let (called, d) =
        and_true (is_called id) ((c == 0) || ((c == 1) && (rank id s.states == 3))) h in
      let given : (c ≡ 0) ⊎ ((c ≡ 1) × (rank id s.states ≡ 3)) = grind arith in
      let back : ltb (s.current_index + 1) c ≡ false = elim given [
        | inl e ↦ ground (arith, e)
        | inr e ↦ ground (arith, e.0)
      ] in
      let less : 4 * (length s.input_data + 1 - (s.current_index + 1 - c)) + 2 < weight id s =
        elim given [ inl e ↦ omega (arith, e, inside) | inr e ↦ omega (arith, e.0, e.1, inside) ] in
      rw back (resume-Continues _ s.suspended_states _ sound.callers (sound.called called) less)

  after-processed :
      (consume : Bool)
      → allowed id s.states m (char_processed consume) ≡ true
      → Continues (weight id s) (after id ch read (char_processed consume))
  unfolding allowed after
  after-processed true h = (
    record {
      callers = sound.callers;
      called = sound.called;
      before = ground (arith, sound.before);
    },
    omega (arith, rank-le id m, inside),
  )
  after-processed false h = (
    record {
      callers = sound.callers;
      called = sound.called;
      before = ground (arith, sound.before);
    },
    omega (arith, rank-le id m, inside),
  )

  -- The loop goes on with less weight, or ends with a result.
  after-Continues :
      (result : StateResult)
      → allowed id s.states m result ≡ true
      → Continues (weight id s) (after id ch read result)
  unfolding allowed after
  after-Continues (char_processed consume) h = after-processed consume h
  after-Continues (resume_calling_state c value count) h = after-resume c value count h
  after-Continues (finished c mark consume next) h = after-finished c mark consume next h
  after-Continues (suspended c next) h = after-suspended c next h
  after-Continues (char_error c message shown) h =
      let back : ltb (s.current_index + 1) c ≡ false = ground (arith, sound.before) in rw back tt
  after-Continues (error message with_value params) h = tt
  after-Continues (token_found c true t_id t_type t_value) h =
      let back : ltb (s.current_index + 1) c ≡ false = ground arith in rw back tt
  after-Continues (token_found c false t_id t_type t_value) h =
      let back : ltb (s.current_index + 1) c ≡ false = ground arith in rw back tt

pub turn-Continues :
    (id : ScannerStateId) (k : Bool) (s : TomlScanner)
    → Sound id s
    → s.current_index ≤ length s.input_data
    → Continues (weight id s) (turn id k s)
unfolding turn
turn-Continues id k s sound inside =
    let ch = get_or s.input_data s.current_index null in
    after-Continues id ch s (process_char id s.states ch k).0 sound inside _
      (process_char-allowed id s.states ch k)
