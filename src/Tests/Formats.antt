-- ===== src/Tests/Formats.antt =====
-- The formats of src/output/formatspec.rs at concrete texts.
use coaly.Prelude.{◌==◌, ◌≡◌, refl, false, Option, none, some, [], ◌∷◌, drop, if◌then◌else◌}
use coaly.Prelude.Texts.{codes, Text, insert}
use coaly.Parser.Conversions.{starts_with}
use coaly.Observer.{ObserverData, for_mod}
use coaly.Record.{RecordLevelId}
use coaly.Record.Data.{Moment, for_write, for_create}
use coaly.Net.Messages.{OriginatorInfo, RecordData, new_originator, add_env_var}
use coaly.Formats.{
  Variable, constant_item, variable_item, FormatSpec, variable_name, found_env, parse_byte,
  parse_loop, from_str, is_datetime_independent, is_thread_specific, is_originator_specific,
  optimized_for, to_file_name, RecordLevel, TimeFormats, apply_to_record,
}
use coaly.Formats.Parsed.{printed, Clear, Readable, from_str-printed}
use coaly.Formats.Specific.{optimized_for-independent}
use coaly.Formats.Output.{
  RecordFormat, OutputFormat, output_format_apply_to, output_format_optimized_for, first_written,
  output_format_apply_to-optimized_for,
}
use coaly.Formats.Written.{written, variable_text, apply_to_record-panics}

-- What stands before the last `]`, as the greedy pattern captures it.
abbrev before_last : Text → Option Text
before_last [] = none
before_last (c ∷ cs) = elim (before_last cs) [
  | some t ↦ some (c ∷ t)
  | none ↦ if c == b']' then some [] else none
]

abbrev env_name : Text → Option Text
env_name text = if starts_with (codes "Env[") text then before_last (drop 4 text) else none

-- "$Level|$Env[A] $ThreadName"
abbrev fields : FormatSpec
fields =
    variable_item Variable.level
    ∷ constant_item (b'|' ∷ [])
    ∷ variable_item (Variable.env (b'A' ∷ []))
    ∷ constant_item (b' ' ∷ [])
    ∷ variable_item Variable.thread_name
    ∷ []

from_str-printed_example : from_str env_name (printed fields) ≡ fields
unfolding printed variable_name Clear Readable
from_str-printed_example =
    from_str-printed env_name fields
      ((refl, refl), ((((refl, tt)), (tt, (refl, (((refl, tt)), (tt, ((refl, tt), tt))))))))

-- "$Env[A]|$Env[B]": the greedy pattern makes one variable of the two.
greedy_parse :
    from_str env_name (
      printed (
        variable_item (Variable.env (b'A' ∷ []))
        ∷ constant_item (b'|' ∷ [])
        ∷ variable_item (Variable.env (b'B' ∷ []))
        ∷ []))
    ≡ variable_item (Variable.env (codes "A]|$Env[B")) ∷ []
unfolding printed variable_name from_str parse_loop parse_byte found_env
greedy_parse = refl

abbrev sender : OriginatorInfo
unfolding new_originator add_env_var
sender = add_env_var (new_originator 7 [] [] []) (b'A' ∷ []) (b'x' ∷ [])

optimized_for-independent_example :
    (is_thread_specific (optimized_for fields sender 5 (b'm' ∷ [])) ≡ false)
    × ((is_originator_specific (optimized_for fields sender 5 (b'm' ∷ [])) ≡ false)
        × (to_file_name (λ t. t) (optimized_for fields sender 5 (b'm' ∷ []))
            ≡ to_file_name (λ t. []) (optimized_for fields sender 5 (b'm' ∷ []))))
unfolding is_datetime_independent
optimized_for-independent_example =
    optimized_for-independent fields sender 5 (b'm' ∷ []) (λ t. t) (λ t. []) refl

abbrev now : Moment
now = record { thread = 5; name = b'm' ∷ []; secs = 0; nanos = 0 }

-- Every level has the name "I".
abbrev levels : RecordLevelId → Option RecordLevel
levels id = some (record { id = id; id_char = b'i' ∷ []; name = b'I' ∷ [] })

abbrev times : TimeFormats
times = record { ts_fmt = []; date_fmt = []; tm_fmt = []; format = λ secs nanos fmt. fmt }

abbrev message_record : RecordData
unfolding for_write
message_record = record { common = for_write now RecordLevelId.info 3 (b'h' ∷ []); source_fn = [] }

-- A format for messages of all levels, and one for nothing.
abbrev message_format : RecordFormat
message_format = record {
  levels = 2047;
  triggers = 1;
  timestamp_format = [];
  date_format = [];
  time_format = [];
  fields = fields;
}

abbrev no_format : RecordFormat
no_format = record message_format { levels = 0; fields = [] }

abbrev two_formats : OutputFormat
two_formats = record {
  specific_formats = no_format ∷ message_format ∷ [];
  default_format = no_format;
  level_map = levels;
}

output_format_apply_to-optimized_for_example :
    output_format_apply_to
      (λ secs nanos fmt. fmt)
      (output_format_optimized_for two_formats sender 5 (b'm' ∷ []))
      message_record
    ≡ first_written
        (λ secs nanos fmt. fmt)
        sender
        message_record
        levels
        (no_format ∷ message_format ∷ [])
        no_format
unfolding message_record for_write
output_format_apply_to-optimized_for_example =
    output_format_apply_to-optimized_for (λ secs nanos fmt. fmt) two_formats sender message_record

-- The text is "I|x m".
written-fields :
    written (variable_text sender levels times message_record) fields
    ≡ some (b'I' ∷ b'|' ∷ b'x' ∷ b' ' ∷ b'm' ∷ 10 ∷ [])
unfolding message_record for_write sender new_originator add_env_var insert variable_text
written-fields = refl

abbrev storage : ObserverData
unfolding for_mod
storage = (for_mod 1 (b's' ∷ []) []).0

apply_to_record-panics_example :
    (apply_to_record
        (optimized_for (variable_item Variable.observer_name ∷ fields) sender 5 (b'm' ∷ []))
        message_record
        levels
        times
      ≡ none)
    × (apply_to_record
          (optimized_for (variable_item Variable.message ∷ fields) sender 5 (b'm' ∷ []))
          (record { common = for_create now storage 3; source_fn = [] })
          levels
          times
        ≡ none)
unfolding message_record storage for_mod
apply_to_record-panics_example =
    apply_to_record-panics sender levels times [] fields now RecordLevelId.info 3 (b'h' ∷ []) []
      storage refl
