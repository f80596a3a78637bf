-- ===== src/Formats/Output.antt =====
-- src/output/recordformat.rs and src/output/outputformat.rs: the choice of a format for a record.
use coaly.Prelude.{
  ℕ, ◌==◌, ◌&&◌, ◌≡◌, refl, Bool, not, Option, List, [], ◌∷◌, map, bit_and, if◌then◌else◌, inl, inr,
  Bool-cases,
}
use coaly.Prelude.Texts.{Text}
use coaly.Record.{RecordLevelId, RecordTrigger, level_value, trigger_value}
use coaly.Net.Messages.{OriginatorInfo, RecordData}
use coaly.Formats.{FormatSpec, RecordLevel, TimeFormats, optimized_for, apply_to_record}
use coaly.Formats.Written.{written, variable_text, apply_to_record-optimized_for}

pub record RecordFormat : Type 0 where
  pub levels : ℕ
  pub triggers : ℕ
  pub timestamp_format : Text
  pub date_format : Text
  pub time_format : Text
  pub fields : FormatSpec

pub record OutputFormat : Type 0 where
  pub specific_formats : List RecordFormat
  pub default_format : RecordFormat
  pub level_map : RecordLevelId → Option RecordLevel

unfoldable pub format_applies_to : RecordFormat → RecordLevelId → RecordTrigger → Bool
unfolding level_value trigger_value
format_applies_to f level trigger =
    not (bit_and f.levels (level_value level) == 0)
    && not (bit_and f.triggers (trigger_value trigger) == 0)

-- The formats for times of a record format; `write` is what chrono writes.
abbrev pub times_of : (ℕ → ℕ → Text → Text) → RecordFormat → TimeFormats
times_of write f = record {
  ts_fmt = f.timestamp_format;
  date_fmt = f.date_format;
  tm_fmt = f.time_format;
  format = write;
}

module _ (write : ℕ → ℕ → Text → Text) where
  unfoldable pub record_format_apply_to :
      RecordFormat → RecordData → (RecordLevelId → Option RecordLevel) → Option Text
  unfolding apply_to_record
  record_format_apply_to f r levels = apply_to_record f.fields r levels (times_of write f)

  unfoldable pub apply_first :
      List RecordFormat
      → RecordFormat
      → RecordData
      → (RecordLevelId → Option RecordLevel)
      → Option Text
  unfolding format_applies_to record_format_apply_to
  apply_first [] default r levels = record_format_apply_to default r levels
  apply_first (f ∷ fs) default r levels =
      if format_applies_to f r.common.level r.common.trigger
      then record_format_apply_to f r levels
      else apply_first fs default r levels

  unfoldable pub output_format_apply_to : OutputFormat → RecordData → Option Text
  unfolding apply_first
  output_format_apply_to f r = apply_first f.specific_formats f.default_format r f.level_map

abbrev pub record_format_optimized : OriginatorInfo → ℕ → Text → RecordFormat → RecordFormat
record_format_optimized o id name f = record f { fields = optimized_for f.fields o id name }

-- The default format is not optimized.
unfoldable pub output_format_optimized_for : OutputFormat → OriginatorInfo → ℕ → Text → OutputFormat
output_format_optimized_for f o id name = record f {
  specific_formats = map (record_format_optimized o id name) f.specific_formats;
}

module _ (write : ℕ → ℕ → Text → Text) (o : OriginatorInfo) (r : RecordData)
    (levels : RecordLevelId → Option RecordLevel) where
  -- The text of a record in the first specific format for its level and trigger, with all
  -- variables replaced at once, and in the default format if there is none.
  unfoldable pub first_written : List RecordFormat → RecordFormat → Option Text
  unfolding format_applies_to
  first_written [] default = apply_to_record default.fields r levels (times_of write default)
  first_written (f ∷ fs) default =
      if format_applies_to f r.common.level r.common.trigger
      then written (variable_text o levels (times_of write f) r) f.fields
      else first_written fs default

  first_written-optimized :
      (fs : List RecordFormat) (default : RecordFormat)
      → apply_first write
          (map (record_format_optimized o r.common.thread_id r.common.thread_name) fs)
          default
          r
          levels
        ≡ first_written fs default
  unfolding apply_first record_format_apply_to first_written format_applies_to
  first_written-optimized [] default = refl
  first_written-optimized (f ∷ fs) default =
      elim (Bool-cases (format_applies_to f r.common.level r.common.trigger)) [
        | inl e ↦ rw (e) (apply_to_record-optimized_for o levels (times_of write f) r f.fields)
        | inr e ↦ rw (e) (first_written-optimized fs default)
      ]

-- In an output format that was optimized for a record's originator and thread, the record's text is
-- the one in the first specific format whose levels and triggers have the record's, with all
-- variables replaced at once. If there is none, it is the text in the default format.
pub output_format_apply_to-optimized_for :
    (write : ℕ → ℕ → Text → Text) (f : OutputFormat) (o : OriginatorInfo) (r : RecordData)
    → output_format_apply_to write
        (output_format_optimized_for f o r.common.thread_id r.common.thread_name)
        r
      ≡ first_written write o r f.level_map f.specific_formats f.default_format
unfolding output_format_apply_to output_format_optimized_for
output_format_apply_to-optimized_for write f o r =
    first_written-optimized write o r f.level_map f.specific_formats f.default_format
