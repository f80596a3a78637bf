-- ===== src/Formats/Written.antt =====
-- The text of a record in an optimized format is that of the format with all variables replaced.
use coaly.Prelude.{
  ℕ, ◌≡◌, refl, sym, ap, ◌∙◌, Option, none, some, [], ◌∷◌, ◌++◌, append_assoc, inl, inr,
  Option-cases,
}
use coaly.Prelude.Texts.{Text}
use coaly.Observer.{ObserverData}
use coaly.Record.{RecordLevelId}
use coaly.Record.Data.{Moment, for_write, for_create}
use coaly.Net.Messages.{OriginatorInfo, RecordData}
use coaly.Rollover.{digits}
use coaly.Formats.{
  Variable, constant_item, variable_item, FormatSpec, env_var_value, flushed, optimized,
  originator_thread_value, optimized_for, RecordLevel, pure_file_name, TimeFormats, level_text,
  line_text, record_value, apply_items, apply_to_record,
}
use coaly.Formats.Optimized.{or_else, optimized-some, optimized-none}

abbrev prepended : Text → Option Text → Option Text
prepended text none = none
prepended text (some rest) = some (text ++ rest)

abbrev joined : Option Text → Option Text → Option Text
joined none rest = none
joined (some text) rest = prepended text rest

-- The texts of the items, one after the other, and a line feed, if every variable has a text.
abbrev pub written : (Variable → Option Text) → FormatSpec → Option Text
written value [] = some (10 ∷ [])
written value (constant_item c ∷ items) = prepended c (written value items)
written value (variable_item v ∷ items) = joined (value v) (written value items)

-- The text of each variable for a record of an originator's thread.
unfoldable pub variable_text :
    OriginatorInfo
    → (RecordLevelId → Option RecordLevel)
    → TimeFormats
    → RecordData
    → Variable
    → Option Text
unfolding digits line_text
variable_text o levels times r Variable.application_id = some (digits 20 o.application_id)
variable_text o levels times r Variable.application_name = some o.application_name
variable_text o levels times r Variable.date =
    some (times.format r.common.ts_secs r.common.ts_nano_secs times.date_fmt)
variable_text o levels times r (Variable.env name) = some (env_var_value name o.env_vars)
variable_text o levels times r Variable.host_name = some o.host_name
variable_text o levels times r Variable.ip_address = some o.ip_address
variable_text o levels times r Variable.level =
    level_text (λ desc. desc.name) (levels r.common.level)
variable_text o levels times r Variable.level_id =
    level_text (λ desc. desc.id_char) (levels r.common.level)
variable_text o levels times r Variable.message = r.common.message_text
variable_text o levels times r Variable.observer_name = r.common.observer_name
variable_text o levels times r Variable.observer_value = r.common.message_text
variable_text o levels times r Variable.process_id = some (digits 20 o.process_id)
variable_text o levels times r Variable.process_name = some o.process_name
variable_text o levels times r Variable.pure_source_file_name = some (pure_file_name r.source_fn)
variable_text o levels times r Variable.source_file_name = some r.source_fn
variable_text o levels times r Variable.source_line_nr = some (line_text r.common.line_nr)
variable_text o levels times r Variable.thread_id = some (digits 20 r.common.thread_id)
variable_text o levels times r Variable.thread_name = some r.common.thread_name
variable_text o levels times r Variable.time =
    some (times.format r.common.ts_secs r.common.ts_nano_secs times.tm_fmt)
variable_text o levels times r Variable.time_stamp =
    some (times.format r.common.ts_secs r.common.ts_nano_secs times.ts_fmt)

prepended_nil : (o : Option Text) → prepended [] o ≡ o
prepended_nil none = refl
prepended_nil (some t) = refl

prepended_assoc :
    (a b : Text) (o : Option Text) → prepended a (prepended b o) ≡ prepended (a ++ b) o
prepended_assoc a b none = refl
prepended_assoc a b (some t) = ap some (sym (append_assoc a b t))

apply_items-written :
    (value : Variable → Option Text) (result : Text) (items : FormatSpec)
    → apply_items value result items ≡ prepended result (written value items)
unfolding apply_items
apply_items-written value result [] = refl
apply_items-written value result (constant_item c ∷ items) =
    apply_items-written value (result ++ c) items
    ∙ sym (prepended_assoc result c (written value items))
apply_items-written value result (variable_item v ∷ items) = elim (Option-cases (value v)) [
  | inl e ↦ rw (e, apply_items) refl
  | inr (text, e) ↦
      rw (e, apply_items)
        (apply_items-written value (result ++ text) items
          ∙ sym (prepended_assoc result text (written value items)))
]

written-flushed :
    (value : Variable → Option Text) (c : Text) (items : FormatSpec)
    → written value (flushed c items) ≡ prepended c (written value items)
written-flushed value [] items = sym (prepended_nil (written value items))
written-flushed value (k ∷ c) items = refl

module _ (first second both : Variable → Option Text)
    (agree : (v : Variable) → both v ≡ or_else (first v) (second v)) where
  written-optimized :
      (c : Text) (items : FormatSpec)
      → written second (optimized first c items) ≡ prepended c (written both items)
  unfolding optimized
  written-optimized c [] = written-flushed second c []
  written-optimized c (constant_item k ∷ items) =
      written-optimized (c ++ k) items ∙ sym (prepended_assoc c k (written both items))
  written-optimized c (variable_item v ∷ items) = elim (Option-cases (first v)) [
    | inr (text, e) ↦
        ap (written second) (optimized-some first c v items text e)
        ∙ written-optimized (c ++ text) items
        ∙ sym (prepended_assoc c text (written both items))
        ∙ ap (λ x. prepended c (joined x (written both items)))
            (sym (agree v ∙ ap (λ x. or_else x (second v)) e))
    | inl e ↦
        ap (written second) (optimized-none first c v items e)
        ∙ written-flushed second c (variable_item v ∷ optimized first [] items)
        ∙ ap (λ x. prepended c (joined (second v) x))
            (written-optimized [] items ∙ prepended_nil (written both items))
        ∙ ap (λ x. prepended c (joined x (written both items)))
            (sym (agree v ∙ ap (λ x. or_else x (second v)) e))
  ]

module _ (o : OriginatorInfo) (levels : RecordLevelId → Option RecordLevel) (times : TimeFormats)
    (r : RecordData) where
  texts-agree :
      (v : Variable)
      → variable_text o levels times r v
        ≡ or_else
            (originator_thread_value o r.common.thread_id r.common.thread_name v)
            (record_value levels times r v)
  unfolding variable_text originator_thread_value record_value
  texts-agree Variable.application_id = refl
  texts-agree Variable.application_name = refl
  texts-agree Variable.date = refl
  texts-agree (Variable.env var) = refl
  texts-agree Variable.host_name = refl
  texts-agree Variable.ip_address = refl
  texts-agree Variable.level = refl
  texts-agree Variable.level_id = refl
  texts-agree Variable.message = refl
  texts-agree Variable.observer_name = refl
  texts-agree Variable.observer_value = refl
  texts-agree Variable.process_id = refl
  texts-agree Variable.process_name = refl
  texts-agree Variable.pure_source_file_name = refl
  texts-agree Variable.source_file_name = refl
  texts-agree Variable.source_line_nr = refl
  texts-agree Variable.thread_id = refl
  texts-agree Variable.thread_name = refl
  texts-agree Variable.time = refl
  texts-agree Variable.time_stamp = refl

  -- In a format that was optimized for the record's originator and thread, a record's text is the
  -- text of each item of the format before the optimization, one after the other, and a line
  -- feed; the code panics where a variable has no text.
  pub apply_to_record-optimized_for :
      (spec : FormatSpec)
      → apply_to_record
          (optimized_for spec o r.common.thread_id r.common.thread_name)
          r
          levels
          times
        ≡ written (variable_text o levels times r) spec
  unfolding apply_to_record optimized_for
  apply_to_record-optimized_for spec =
      apply_items-written (record_value levels times r) []
        (optimized_for spec o r.common.thread_id r.common.thread_name)
      ∙ prepended_nil _
      ∙ written-optimized (originator_thread_value o r.common.thread_id r.common.thread_name)
          (record_value levels times r) (variable_text o levels times r) texts-agree [] spec
      ∙ prepended_nil (written (variable_text o levels times r) spec)

  written-none :
      (v : Variable) (before after : FormatSpec)
      → variable_text o levels times r v ≡ none
      → written (variable_text o levels times r) (before ++ variable_item v ∷ after) ≡ none
  written-none v [] after e = rw (e) refl
  written-none v (constant_item c ∷ before) after e = rw (written-none v before after e) refl
  written-none v (variable_item w ∷ before) after e =
      rw (written-none v before after e) (elim (Option-cases (variable_text o levels times r w)) [
        | inl d ↦ rw (d) refl
        | inr (text, d) ↦ rw (d) refl
      ])

  written-panics :
      (v : Variable) (before after : FormatSpec)
      → variable_text o levels times r v ≡ none
      → apply_to_record
          (optimized_for
            (before ++ variable_item v ∷ after)
            o
            r.common.thread_id
            r.common.thread_name)
          r
          levels
          times
        ≡ none
  written-panics v before after e =
      apply_to_record-optimized_for (before ++ variable_item v ∷ after)
      ∙ written-none v before after e

-- A format with the observer's name panics for a plain message, and one with the message panics
-- where an observer without a value is created, as each observer of a module is.
pub apply_to_record-panics :
    (o : OriginatorInfo) (levels : RecordLevelId → Option RecordLevel) (times : TimeFormats)
    (before after : FormatSpec) (at : Moment) (level : RecordLevelId) (line : ℕ) (msg file : Text)
    (observer : ObserverData)
    → observer.value ≡ none
    → (apply_to_record
          (optimized_for
            (before ++ variable_item Variable.observer_name ∷ after)
            o
            at.thread
            at.name)
          (record { common = for_write at level line msg; source_fn = file })
          levels
          times
        ≡ none)
      × (apply_to_record
            (optimized_for (before ++ variable_item Variable.message ∷ after) o at.thread at.name)
            (record { common = for_create at observer line; source_fn = file })
            levels
            times
          ≡ none)
unfolding for_write for_create variable_text
apply_to_record-panics o levels times before after at level line msg file observer e = (
  written-panics o levels times (record { common = for_write at level line msg; source_fn = file })
      Variable.observer_name before after refl,
  written-panics o levels times (record { common = for_create at observer line; source_fn = file })
      Variable.message before after e,
)
