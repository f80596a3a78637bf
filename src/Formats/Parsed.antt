-- ===== src/Formats/Parsed.antt =====
-- A format that is written as a text is read back from it.
use coaly.Prelude.{
  ℕ, ◌-◌, ◌==◌, ◌&&◌, if◌then◌else◌, ◌≡◌, refl, ap, subst, ◌∙◌, true, false, Option, none, some, [],
  ◌∷◌, ◌++◌, append-nil, append_assoc, All, length, length-append, arith,
}
use coaly.Prelude.Texts.{codes, Text}
use coaly.Parser.Conversions.{starts_with}
use coaly.Formats.{
  Variable, constant_item, variable_item, FormatSpec, flushed, Parsing, ParseState, state_idle,
  state_in_const, state_in_var, longest_name, found_variable, found_env, parse_byte, parse_loop,
  from_str, variable_name,
}

-- A format as it is written in the configuration.
unfoldable pub printed : FormatSpec → Text
unfolding variable_name
printed [] = []
printed (constant_item c ∷ items) = c ++ printed items
printed (variable_item v ∷ items) = b'$' ∷ variable_name v ++ printed items

-- A variable is the longest one that its name and the rest of the text begin with, and the pattern
-- for environment variables captures exactly those.
unfoldable pub Clear : (Text → Option Text) → Text → Variable → Type 0
unfolding variable_name
Clear env_name rest (Variable.env name) =
    env_name (variable_name (Variable.env name) ++ rest) ≡ some name
Clear env_name rest Variable.level =
    (env_name (variable_name Variable.level ++ rest) ≡ none)
    × (starts_with (codes "Id") rest ≡ false)
Clear env_name rest Variable.time =
    (env_name (variable_name Variable.time ++ rest) ≡ none)
    × (starts_with (codes "Stamp") rest ≡ false)
Clear env_name rest v = (env_name (variable_name v ++ rest) ≡ none) × Unit {0}

-- No constant comes first.
abbrev pub NoConstant : FormatSpec → Type 0
NoConstant [] = Unit {0}
NoConstant (constant_item c ∷ items) = ⊥
NoConstant (variable_item v ∷ items) = Unit {0}

-- A constant has a byte and no `$`, and no other constant follows.
unfoldable pub Readable : (Text → Option Text) → FormatSpec → Type 0
unfolding printed Clear
Readable env_name [] = Unit {0}
Readable env_name (constant_item [] ∷ items) = ⊥
Readable env_name (constant_item (c ∷ cs) ∷ items) =
    All (λ d. (d == b'$') ≡ false) (c ∷ cs) × (NoConstant items × Readable env_name items)
Readable env_name (variable_item v ∷ items) =
    Clear env_name (printed items) v × Readable env_name items

abbrev parsing : FormatSpec → Text → ParseState → ℕ → Parsing
parsing items cur state skip = record { items = items; cur_item = cur; state = state; skip = skip }

module _ (env_name : Text → Option Text) where
  parse_loop-const :
      (items : FormatSpec) (cur c rest : Text)
      → All (λ d. (d == b'$') ≡ false) c
      → parse_loop env_name (parsing items cur state_in_const 0) (c ++ rest)
        ≡ parse_loop env_name (parsing items (cur ++ c) state_in_const 0) rest
  unfolding parse_loop parse_byte
  parse_loop-const items cur [] rest h = rw (append-nil cur) refl
  parse_loop-const items cur (c ∷ cs) rest h =
      rw (h.0, parse_loop)
        (parse_loop-const items (cur ++ c ∷ []) cs rest h.1
          ∙ rw (append_assoc cur (c ∷ []) cs) refl)

  parse_loop-skip :
      (items : FormatSpec) (s rest : Text)
      → parse_loop env_name (parsing items [] state_idle (length s)) (s ++ rest)
        ≡ parse_loop env_name (parsing items [] state_idle 0) rest
  unfolding parse_loop parse_byte
  parse_loop-skip items [] rest = refl
  parse_loop-skip items (c ∷ s) rest = parse_loop-skip items s rest

  found_env-named :
      (items : FormatSpec) (v : Variable) (rest : Text) (c : ℕ)
      → Clear env_name rest v
      → found_env
          (env_name (variable_name v ++ rest))
          (parsing items [] state_in_var 0)
          (variable_name v ++ rest)
          c
        ≡ parsing (items ++ variable_item v ∷ []) [] state_idle (length (variable_name v) - 1)
  unfolding found_env longest_name variable_name Clear
  found_env-named items Variable.application_id rest c h = rw (h.0) refl
  found_env-named items Variable.application_name rest c h = rw (h.0) refl
  found_env-named items Variable.date rest c h = rw (h.0) refl
  found_env-named items (Variable.env name) rest c h = rw (h) (
      ap (parsing (items ++ variable_item (Variable.env name) ∷ []) [] state_idle)
        (omega (arith, length-append name (b']' ∷ []))))
  found_env-named items Variable.host_name rest c h = rw (h.0) refl
  found_env-named items Variable.ip_address rest c h = rw (h.0) refl
  found_env-named items Variable.level rest c h = rw (h.0) (
      ap
        (λ b. found_variable (parsing items [] state_in_var 0) c (
          if b && true then 7 else 5,
          if b && true then some Variable.level_id else some Variable.level,
        ))
        (h.1))
  found_env-named items Variable.level_id rest c h = rw (h.0) refl
  found_env-named items Variable.message rest c h = rw (h.0) refl
  found_env-named items Variable.observer_name rest c h = rw (h.0) refl
  found_env-named items Variable.observer_value rest c h = rw (h.0) refl
  found_env-named items Variable.process_id rest c h = rw (h.0) refl
  found_env-named items Variable.process_name rest c h = rw (h.0) refl
  found_env-named items Variable.pure_source_file_name rest c h = rw (h.0) refl
  found_env-named items Variable.source_file_name rest c h = rw (h.0) refl
  found_env-named items Variable.source_line_nr rest c h = rw (h.0) refl
  found_env-named items Variable.thread_id rest c h = rw (h.0) refl
  found_env-named items Variable.thread_name rest c h = rw (h.0) refl
  found_env-named items Variable.time rest c h = rw (h.0) (
      ap
        (λ b. found_variable (parsing items [] state_in_var 0) c (
          if b && true then 9 else 4,
          if b && true then some Variable.time_stamp else some Variable.time,
        ))
        (h.1))
  found_env-named items Variable.time_stamp rest c h = rw (h.0) refl

  -- The first byte of a name, at which the pattern and the names are looked up.
  variable_name-begins : (v : Variable) → (k : ℕ) × ((ks : Text) × (variable_name v ≡ k ∷ ks))
  unfolding variable_name
  variable_name-begins Variable.application_id = (_, (_, refl))
  variable_name-begins Variable.application_name = (_, (_, refl))
  variable_name-begins Variable.date = (_, (_, refl))
  variable_name-begins (Variable.env name) = (_, (_, refl))
  variable_name-begins Variable.host_name = (_, (_, refl))
  variable_name-begins Variable.ip_address = (_, (_, refl))
  variable_name-begins Variable.level = (_, (_, refl))
  variable_name-begins Variable.level_id = (_, (_, refl))
  variable_name-begins Variable.message = (_, (_, refl))
  variable_name-begins Variable.observer_name = (_, (_, refl))
  variable_name-begins Variable.observer_value = (_, (_, refl))
  variable_name-begins Variable.process_id = (_, (_, refl))
  variable_name-begins Variable.process_name = (_, (_, refl))
  variable_name-begins Variable.pure_source_file_name = (_, (_, refl))
  variable_name-begins Variable.source_file_name = (_, (_, refl))
  variable_name-begins Variable.source_line_nr = (_, (_, refl))
  variable_name-begins Variable.thread_id = (_, (_, refl))
  variable_name-begins Variable.thread_name = (_, (_, refl))
  variable_name-begins Variable.time = (_, (_, refl))
  variable_name-begins Variable.time_stamp = (_, (_, refl))

  parse_loop-name :
      (items : FormatSpec) (v : Variable) (k : ℕ) (ks rest : Text)
      → found_env (env_name (k ∷ ks ++ rest)) (parsing items [] state_in_var 0) (k ∷ ks ++ rest) k
        ≡ parsing (items ++ variable_item v ∷ []) [] state_idle (length ks)
      → parse_loop env_name (parsing items [] state_in_var 0) (k ∷ ks ++ rest)
        ≡ parse_loop env_name (parsing (items ++ variable_item v ∷ []) [] state_idle 0) rest
  unfolding parse_loop parse_byte
  parse_loop-name items v k ks rest h =
      ap (λ p. parse_loop env_name p (ks ++ rest)) h
      ∙ parse_loop-skip (items ++ variable_item v ∷ []) ks rest

  parse_loop-variable :
      (items : FormatSpec) (v : Variable) (rest : Text)
      → Clear env_name rest v
      → parse_loop env_name (parsing items [] state_in_var 0) (variable_name v ++ rest)
        ≡ parse_loop env_name (parsing (items ++ variable_item v ∷ []) [] state_idle 0) rest
  parse_loop-variable items v rest h =
      let (k, (ks, e)) = variable_name-begins v in
      ap (λ name. parse_loop env_name (parsing items [] state_in_var 0) (name ++ rest)) e
      ∙ parse_loop-name items v k ks rest (
          subst
            (λ name.
              found_env (env_name (name ++ rest)) (parsing items [] state_in_var 0) (name ++ rest) k
              ≡ parsing (items ++ variable_item v ∷ []) [] state_idle (length name - 1))
            e (found_env-named items v rest k h)
          ∙ ap (parsing (items ++ variable_item v ∷ []) [] state_idle) (omega arith))

  -- What `from_str` makes of the variables of its loop.
  abbrev finished : Parsing → FormatSpec
  finished p = p.items ++ flushed p.cur_item []

  from_idle :
      (items more : FormatSpec)
      → Readable env_name more
      → finished (parse_loop env_name (parsing items [] state_idle 0) (printed more))
        ≡ items ++ more
  unfolding parse_loop parse_byte printed Readable
  from_idle items [] h = refl
  from_idle items (variable_item v ∷ more) h =
      ap finished (parse_loop-variable items v (printed more) h.0)
      ∙ from_idle (items ++ variable_item v ∷ []) more h.1
      ∙ append_assoc items (variable_item v ∷ []) more
  from_idle items (constant_item [] ∷ more) h = absurd h
  from_idle items (constant_item (c ∷ cs) ∷ []) h =
      rw (h.0.0, parse_loop) (ap finished (parse_loop-const items (c ∷ []) cs [] h.0.1))
  from_idle items (constant_item (c ∷ cs) ∷ constant_item k ∷ more) h = absurd (h.1.0)
  from_idle items (constant_item (c ∷ cs) ∷ variable_item v ∷ more) h =
      let before = items ++ constant_item (c ∷ cs) ∷ [] in
      rw (h.0.0, parse_loop)
        (ap finished (parse_loop-const items (c ∷ []) cs (printed (variable_item v ∷ more)) h.0.1)
          ∙ ap finished (parse_loop-variable before v (printed more) h.1.1.0)
          ∙ from_idle (before ++ variable_item v ∷ []) more h.1.1.1
          ∙ append_assoc before (variable_item v ∷ []) more
          ∙ append_assoc items (constant_item (c ∷ cs) ∷ []) (variable_item v ∷ more))

-- A format is read back from the text that it is written as, if constants have no `$`, have a byte
-- and do not follow each other, each variable is the longest that the text could mean, and the
-- pattern for environment variables captures those of the format and nothing else.
pub from_str-printed :
    (env_name : Text → Option Text) (spec : FormatSpec)
    → Readable env_name spec
    → from_str env_name (printed spec) ≡ spec
unfolding from_str
from_str-printed env_name spec h = from_idle env_name [] spec h
