-- ===== src/Formats/Optimized.antt =====
-- The optimizations of formats, one after the other and at once.
use coaly.Prelude.{
  ℕ, ◌≡◌, refl, sym, ap, ◌∙◌, Option, none, some, [], ◌∷◌, ◌++◌, append-nil, append_assoc, inl, inr,
  Option-cases,
}
use coaly.Prelude.Texts.{Text}
use coaly.Net.Messages.{OriginatorInfo}
use coaly.Formats.{
  Variable, constant_item, variable_item, FormatSpec, flushed, optimized, originator_value,
  thread_value, originator_thread_value, optimized_for, optimized_for_originator,
  optimized_for_thread,
}

-- The first of two results, if there is one.
abbrev pub or_else : Option Text → Option Text → Option Text
or_else (some text) other = some text
or_else none other = other

optimized-flushed :
    (value : Variable → Option Text) (c d : Text) (items : FormatSpec)
    → optimized value c (flushed d items) ≡ optimized value (c ++ d) items
unfolding optimized
optimized-flushed value c [] items = rw (append-nil c) refl
optimized-flushed value c (k ∷ d) items = refl

pub optimized-some :
    (value : Variable → Option Text) (c : Text) (v : Variable) (items : FormatSpec) (text : Text)
    → value v ≡ some text
    → optimized value c (variable_item v ∷ items) ≡ optimized value (c ++ text) items
unfolding optimized
optimized-some value c v items text e = rw (e, optimized) refl

pub optimized-none :
    (value : Variable → Option Text) (c : Text) (v : Variable) (items : FormatSpec)
    → value v ≡ none
    → optimized value c (variable_item v ∷ items)
      ≡ flushed c (variable_item v ∷ optimized value [] items)
unfolding optimized
optimized-none value c v items e = rw (e, optimized) refl

module _ (first second both : Variable → Option Text)
    (agree : (v : Variable) → both v ≡ or_else (first v) (second v)) where
  optimized-both :
      (c d : Text) (items : FormatSpec)
      → optimized second c (optimized first d items) ≡ optimized both (c ++ d) items
  unfolding optimized
  optimized-both c d [] = optimized-flushed second c d []
  optimized-both c d (constant_item k ∷ items) =
      rw (append_assoc c d k) (optimized-both c (d ++ k) items)
  optimized-both c d (variable_item v ∷ items) = elim (Option-cases (first v)) [
    | inr (text, e) ↦
        ap (optimized second c) (optimized-some first d v items text e)
        ∙ optimized-both c (d ++ text) items
        ∙ ap (λ x. optimized both x items) (sym (append_assoc c d text))
        ∙ sym
            (optimized-some both (c ++ d) v items text (agree v ∙ ap (λ x. or_else x (second v)) e))
    | inl e ↦
        let same : both v ≡ second v = agree v ∙ ap (λ x. or_else x (second v)) e in
        ap (optimized second c) (optimized-none first d v items e)
        ∙ optimized-flushed second c d (variable_item v ∷ optimized first [] items)
        ∙ elim (Option-cases (second v)) [
          | inr (text, e2) ↦
              optimized-some second (c ++ d) v (optimized first [] items) text e2
              ∙ optimized-both ((c ++ d) ++ text) [] items
              ∙ ap (λ x. optimized both x items) (append-nil ((c ++ d) ++ text))
              ∙ sym (optimized-some both (c ++ d) v items text (same ∙ e2))
          | inl e2 ↦
              optimized-none second (c ++ d) v (optimized first [] items) e2
              ∙ ap (λ x. flushed (c ++ d) (variable_item v ∷ x)) (optimized-both [] [] items)
              ∙ sym (optimized-none both (c ++ d) v items (same ∙ e2))
        ]
  ]

values-agree :
    (o : OriginatorInfo) (id : ℕ) (name : Text) (v : Variable)
    → originator_thread_value o id name v ≡ or_else (originator_value o v) (thread_value id name v)
unfolding originator_value thread_value originator_thread_value
values-agree o id name Variable.application_id = refl
values-agree o id name Variable.application_name = refl
values-agree o id name Variable.date = refl
values-agree o id name (Variable.env var) = refl
values-agree o id name Variable.host_name = refl
values-agree o id name Variable.ip_address = refl
values-agree o id name Variable.level = refl
values-agree o id name Variable.level_id = refl
values-agree o id name Variable.message = refl
values-agree o id name Variable.observer_name = refl
values-agree o id name Variable.observer_value = refl
values-agree o id name Variable.process_id = refl
values-agree o id name Variable.process_name = refl
values-agree o id name Variable.pure_source_file_name = refl
values-agree o id name Variable.source_file_name = refl
values-agree o id name Variable.source_line_nr = refl
values-agree o id name Variable.thread_id = refl
values-agree o id name Variable.thread_name = refl
values-agree o id name Variable.time = refl
values-agree o id name Variable.time_stamp = refl

-- The optimization for an originator's thread at once gives the format that the optimizations for
-- the originator and then for the thread give.
pub optimized_for-steps :
    (spec : FormatSpec) (o : OriginatorInfo) (id : ℕ) (name : Text)
    → optimized_for_thread (optimized_for_originator spec o) id name ≡ optimized_for spec o id name
unfolding optimized_for optimized_for_originator optimized_for_thread
optimized_for-steps spec o id name =
    optimized-both (originator_value o) (thread_value id name) (originator_thread_value o id name)
      (values-agree o id name) [] [] spec
