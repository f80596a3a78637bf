-- ===== src/Formats/Specific.antt =====
-- What an optimized format does not depend on any more.
use coaly.Prelude.{
  ℕ, ◌≡◌, refl, ◌||◌, Bool, true, false, not, Option, none, [], ◌∷◌, ◌++◌, ap, ap₂, inl, inr,
  Option-cases,
}
use coaly.Prelude.Texts.{Text}
use coaly.Net.Messages.{OriginatorInfo}
use coaly.Formats.{
  Variable, constant_item, variable_item, FormatSpec, any_variable, of_thread, of_originator,
  of_time, is_thread_specific, is_originator_specific, is_datetime_independent, flushed, optimized,
  originator_thread_value, optimized_for, file_name_value, to_file_name,
}
use coaly.Formats.Optimized.{optimized-some, optimized-none}

any_variable-flushed :
    (test : Variable → Bool) (c : Text) (items : FormatSpec)
    → any_variable test (flushed c items) ≡ any_variable test items
any_variable-flushed test [] items = refl
any_variable-flushed test (k ∷ c) items = refl

or_false : (a b : Bool) → (a || b) ≡ false → (a ≡ false) × (b ≡ false)
or_false true b h = absurd cc
or_false false b h = (refl, h)

both_false : (a b : Bool) → a ≡ false → b ≡ false → (a || b) ≡ false
both_false true b h k = absurd cc
both_false false b h k = k

module _ (value : Variable → Option Text) (test : Variable → Bool) where
  -- No variable that passes a test is left, if each of them has a value.
  any_variable-optimized :
      (c : Text) (items : FormatSpec)
      → ((v : Variable) → value v ≡ none → test v ≡ false)
      → any_variable test (optimized value c items) ≡ false
  unfolding optimized
  any_variable-optimized c [] h = any_variable-flushed test c []
  any_variable-optimized c (constant_item k ∷ items) h = any_variable-optimized (c ++ k) items h
  any_variable-optimized c (variable_item v ∷ items) h = elim (Option-cases (value v)) [
    | inl e ↦ rw (optimized-none value c v items e) (
        rw (any_variable-flushed test c (variable_item v ∷ optimized value [] items))
          (both_false (test v) _ (h v e) (any_variable-optimized [] items h)))
    | inr (text, e) ↦
        rw (optimized-some value c v items text e) (any_variable-optimized (c ++ text) items h)
  ]

  -- No variable that passes a test comes in.
  any_variable-kept :
      (c : Text) (items : FormatSpec)
      → any_variable test items ≡ false
      → any_variable test (optimized value c items) ≡ false
  unfolding optimized
  any_variable-kept c [] h = any_variable-flushed test c []
  any_variable-kept c (constant_item k ∷ items) h = any_variable-kept (c ++ k) items h
  any_variable-kept c (variable_item v ∷ items) h =
      let parts = or_false (test v) (any_variable test items) h in
      elim (Option-cases (value v)) [
        | inl e ↦ rw (optimized-none value c v items e) (
            rw (any_variable-flushed test c (variable_item v ∷ optimized value [] items))
              (both_false (test v) _ parts.0 (any_variable-kept [] items parts.1)))
        | inr (text, e) ↦
            rw (optimized-some value c v items text e) (any_variable-kept (c ++ text) items parts.1)
      ]

kept-independent :
    (o : OriginatorInfo) (id : ℕ) (name : Text) (v : Variable)
    → originator_thread_value o id name v ≡ none
    → (of_thread v ≡ false) × (of_originator v ≡ false)
unfolding originator_thread_value
kept-independent o id name Variable.application_id h = absurd cc
kept-independent o id name Variable.application_name h = absurd cc
kept-independent o id name Variable.date h = (refl, refl)
kept-independent o id name (Variable.env var) h = absurd cc
kept-independent o id name Variable.host_name h = absurd cc
kept-independent o id name Variable.ip_address h = absurd cc
kept-independent o id name Variable.level h = (refl, refl)
kept-independent o id name Variable.level_id h = (refl, refl)
kept-independent o id name Variable.message h = (refl, refl)
kept-independent o id name Variable.observer_name h = (refl, refl)
kept-independent o id name Variable.observer_value h = (refl, refl)
kept-independent o id name Variable.process_id h = absurd cc
kept-independent o id name Variable.process_name h = absurd cc
kept-independent o id name Variable.pure_source_file_name h = (refl, refl)
kept-independent o id name Variable.source_file_name h = (refl, refl)
kept-independent o id name Variable.source_line_nr h = (refl, refl)
kept-independent o id name Variable.thread_id h = absurd cc
kept-independent o id name Variable.thread_name h = absurd cc
kept-independent o id name Variable.time h = (refl, refl)
kept-independent o id name Variable.time_stamp h = (refl, refl)

not-true : (b : Bool) → not b ≡ true → b ≡ false
not-true true h = absurd cc
not-true false h = refl

file_name_value-timeless :
    (now later : Text → Text) (v : Variable)
    → of_time v ≡ false
    → file_name_value now v ≡ file_name_value later v
file_name_value-timeless now later Variable.application_id h = refl
file_name_value-timeless now later Variable.application_name h = refl
file_name_value-timeless now later Variable.date h = absurd cc
file_name_value-timeless now later (Variable.env var) h = refl
file_name_value-timeless now later Variable.host_name h = refl
file_name_value-timeless now later Variable.ip_address h = refl
file_name_value-timeless now later Variable.level h = refl
file_name_value-timeless now later Variable.level_id h = refl
file_name_value-timeless now later Variable.message h = refl
file_name_value-timeless now later Variable.observer_name h = refl
file_name_value-timeless now later Variable.observer_value h = refl
file_name_value-timeless now later Variable.process_id h = refl
file_name_value-timeless now later Variable.process_name h = refl
file_name_value-timeless now later Variable.pure_source_file_name h = refl
file_name_value-timeless now later Variable.source_file_name h = refl
file_name_value-timeless now later Variable.source_line_nr h = refl
file_name_value-timeless now later Variable.thread_id h = refl
file_name_value-timeless now later Variable.thread_name h = refl
file_name_value-timeless now later Variable.time h = absurd cc
file_name_value-timeless now later Variable.time_stamp h = absurd cc

to_file_name-timeless :
    (now later : Text → Text) (items : FormatSpec)
    → any_variable of_time items ≡ false
    → to_file_name now items ≡ to_file_name later items
unfolding to_file_name
to_file_name-timeless now later [] h = refl
to_file_name-timeless now later (constant_item c ∷ items) h =
    ap (λ x. c ++ x) (to_file_name-timeless now later items h)
to_file_name-timeless now later (variable_item v ∷ items) h =
    let parts = or_false (of_time v) (any_variable of_time items) h in
    ap₂ (λ x y. x ++ y) (file_name_value-timeless now later v parts.0)
      (to_file_name-timeless now later items parts.1)

-- A format that was independent of date and time and is optimized for an originator's thread is
-- neither specific for a thread nor for an originator, and a file name that is made from it is the
-- same at all times.
pub optimized_for-independent :
    (spec : FormatSpec) (o : OriginatorInfo) (id : ℕ) (name : Text) (now later : Text → Text)
    → is_datetime_independent spec ≡ true
    → (is_thread_specific (optimized_for spec o id name) ≡ false)
      × ((is_originator_specific (optimized_for spec o id name) ≡ false)
          × (to_file_name now (optimized_for spec o id name)
              ≡ to_file_name later (optimized_for spec o id name)))
unfolding is_thread_specific is_originator_specific optimized_for is_datetime_independent
optimized_for-independent spec o id name now later h =
    let value = originator_thread_value o id name in
    (
      any_variable-optimized value of_thread [] spec (λ v e. (kept-independent o id name v e).0),
      (
        any_variable-optimized value of_originator [] spec
            (λ v e. (kept-independent o id name v e).1),
        to_file_name-timeless now later (optimized value [] spec)
            (any_variable-kept value of_time [] spec (not-true (any_variable of_time spec) h)),
      ),
    )
