-- ===== src/Formats.antt =====
-- src/output/formatspec.rs and src/variables.rs: the formats of records and of file names, with the
-- variables in them. The regular expression for environment variables, and what the crate chrono
-- writes for a time, are parameters.
pub mod Optimized
pub mod Specific
pub mod Written
pub mod Parsed
pub mod Output
use coaly.Prelude.{
  ℕ, zero, suc, ◌+◌, ◌-◌, ◌==◌, ◌&&◌, ◌||◌, ltb, Bool, true, false, not, Option, none, some, List,
  [], ◌∷◌, ◌++◌, length, if◌then◌else◌,
}
use coaly.Prelude.Texts.{codes, Text, TextMap, same_text}
use coaly.Parser.Conversions.{starts_with}
use coaly.Record.{RecordLevelId}
use coaly.Net.Messages.{OriginatorInfo, RecordData}
use coaly.Rollover.{digits}

pub data Variable : Type 0 where
  application_id : Variable
  application_name : Variable
  date : Variable
  env : Text → Variable
  host_name : Variable
  ip_address : Variable
  level : Variable
  level_id : Variable
  message : Variable
  observer_name : Variable
  observer_value : Variable
  process_id : Variable
  process_name : Variable
  pure_source_file_name : Variable
  source_file_name : Variable
  source_line_nr : Variable
  thread_id : Variable
  thread_name : Variable
  time : Variable
  time_stamp : Variable

-- The name that a variable is written with.
unfoldable pub variable_name : Variable → Text
variable_name Variable.application_id = codes "AppId"
variable_name Variable.application_name = codes "AppName"
variable_name Variable.date = codes "Date"
variable_name (Variable.env name) = b'E' ∷ b'n' ∷ b'v' ∷ b'[' ∷ name ++ b']' ∷ []
variable_name Variable.host_name = codes "HostName"
variable_name Variable.ip_address = codes "IpAddress"
variable_name Variable.level = codes "Level"
variable_name Variable.level_id = codes "LevelId"
variable_name Variable.message = codes "Message"
variable_name Variable.observer_name = codes "ObserverName"
variable_name Variable.observer_value = codes "ObserverValue"
variable_name Variable.process_id = codes "ProcessId"
variable_name Variable.process_name = codes "ProcessName"
variable_name Variable.pure_source_file_name =
    b'P'
    ∷ b'u'
    ∷ b'r'
    ∷ b'e'
    ∷ b'S'
    ∷ b'o'
    ∷ b'u'
    ∷ b'r'
    ∷ b'c'
    ∷ b'e'
    ∷ b'F'
    ∷ b'i'
    ∷ b'l'
    ∷ b'e'
    ∷ codes "Name"
variable_name Variable.source_file_name =
    b'S' ∷ b'o' ∷ b'u' ∷ b'r' ∷ b'c' ∷ b'e' ∷ b'F' ∷ b'i' ∷ b'l' ∷ b'e' ∷ b'N' ∷ b'a' ∷ b'm' ∷ b'e'
    ∷ []
variable_name Variable.source_line_nr = codes "SourceLineNr"
variable_name Variable.thread_id = codes "ThreadId"
variable_name Variable.thread_name = codes "ThreadName"
variable_name Variable.time = codes "Time"
variable_name Variable.time_stamp = codes "TimeStamp"

-- The names of the variables, in the order of the map.
abbrev pub variable_map : TextMap Variable
variable_map =
    (codes "AppId", Variable.application_id)
    ∷ (codes "AppName", Variable.application_name)
    ∷ (codes "Date", Variable.date)
    ∷ (codes "Env", Variable.env [])
    ∷ (codes "HostName", Variable.host_name)
    ∷ (codes "IpAddress", Variable.ip_address)
    ∷ (codes "Level", Variable.level)
    ∷ (codes "LevelId", Variable.level_id)
    ∷ (codes "Message", Variable.message)
    ∷ (codes "ObserverName", Variable.observer_name)
    ∷ (codes "ObserverValue", Variable.observer_value)
    ∷ (codes "ProcessId", Variable.process_id)
    ∷ (codes "ProcessName", Variable.process_name)
    ∷ (
      b'P'
          ∷ b'u'
          ∷ b'r'
          ∷ b'e'
          ∷ b'S'
          ∷ b'o'
          ∷ b'u'
          ∷ b'r'
          ∷ b'c'
          ∷ b'e'
          ∷ b'F'
          ∷ b'i'
          ∷ b'l'
          ∷ codes "eName",
      Variable.pure_source_file_name,
    )
    ∷ (
      b'S' ∷ b'o' ∷ b'u' ∷ b'r' ∷ b'c' ∷ b'e' ∷ b'F' ∷ b'i' ∷ b'l' ∷ b'e' ∷ b'N' ∷ b'a' ∷ b'm'
          ∷ b'e' ∷ [],
      Variable.source_file_name,
    )
    ∷ (codes "SourceLineNr", Variable.source_line_nr)
    ∷ (codes "ThreadId", Variable.thread_id)
    ∷ (codes "ThreadName", Variable.thread_name)
    ∷ (codes "Time", Variable.time)
    ∷ (codes "TimeStamp", Variable.time_stamp)
    ∷ []

pub data FormatItem : Type 0 where
  constant_item : Text → FormatItem
  variable_item : Variable → FormatItem

abbrev pub FormatSpec : Type 0
FormatSpec = List FormatItem

abbrev pub any_variable : (Variable → Bool) → FormatSpec → Bool
any_variable test [] = false
any_variable test (constant_item c ∷ items) = any_variable test items
any_variable test (variable_item v ∷ items) = test v || any_variable test items

abbrev pub of_thread : Variable → Bool
of_thread Variable.thread_id = true
of_thread Variable.thread_name = true
of_thread _ = false

unfoldable pub is_thread_specific : FormatSpec → Bool
is_thread_specific = any_variable of_thread

abbrev pub of_originator : Variable → Bool
of_originator Variable.application_id = true
of_originator Variable.application_name = true
of_originator Variable.host_name = true
of_originator Variable.ip_address = true
of_originator Variable.process_id = true
of_originator Variable.process_name = true
of_originator (Variable.env name) = true
of_originator _ = false

unfoldable pub is_originator_specific : FormatSpec → Bool
is_originator_specific = any_variable of_originator

abbrev pub of_time : Variable → Bool
of_time Variable.date = true
of_time Variable.time = true
of_time Variable.time_stamp = true
of_time _ = false

unfoldable pub is_datetime_independent : FormatSpec → Bool
is_datetime_independent spec = not (any_variable of_time spec)

-- The environment variable of an originator; nothing is written for an unknown one.
abbrev pub env_var_value : Text → TextMap Text → Text
env_var_value name [] = []
env_var_value name ((key, value) ∷ vars) =
    if same_text name key then value else env_var_value name vars

-- What an optimization puts in place of a variable, or nothing if the variable is kept.
unfoldable pub originator_value : OriginatorInfo → Variable → Option Text
unfolding digits
originator_value o Variable.application_id = some (digits 20 o.application_id)
originator_value o Variable.application_name = some o.application_name
originator_value o (Variable.env name) = some (env_var_value name o.env_vars)
originator_value o Variable.host_name = some o.host_name
originator_value o Variable.ip_address = some o.ip_address
originator_value o Variable.process_id = some (digits 20 o.process_id)
originator_value o Variable.process_name = some o.process_name
originator_value o _ = none

unfoldable pub thread_value : ℕ → Text → Variable → Option Text
unfolding digits
thread_value id name Variable.thread_id = some (digits 20 id)
thread_value id name Variable.thread_name = some name
thread_value id name _ = none

unfoldable pub originator_thread_value : OriginatorInfo → ℕ → Text → Variable → Option Text
unfolding digits
originator_thread_value o id name Variable.application_id = some (digits 20 o.application_id)
originator_thread_value o id name Variable.application_name = some o.application_name
originator_thread_value o id name (Variable.env var) = some (env_var_value var o.env_vars)
originator_thread_value o id name Variable.host_name = some o.host_name
originator_thread_value o id name Variable.ip_address = some o.ip_address
originator_thread_value o id name Variable.process_id = some (digits 20 o.process_id)
originator_thread_value o id name Variable.process_name = some o.process_name
originator_thread_value o id name Variable.thread_id = some (digits 20 id)
originator_thread_value o id name Variable.thread_name = some name
originator_thread_value o id name _ = none

-- A constant that was collected goes in front of the items, unless it is empty.
abbrev pub flushed : Text → FormatSpec → FormatSpec
flushed [] items = items
flushed (c ∷ cs) items = constant_item (c ∷ cs) ∷ items

-- The loop of the three optimizations, with the constant that is being collected.
unfoldable pub optimized : (Variable → Option Text) → Text → FormatSpec → FormatSpec
optimized value collected [] = flushed collected []
optimized value collected (constant_item c ∷ items) = optimized value (collected ++ c) items
optimized value collected (variable_item v ∷ items) = elim (value v) [
  | some text ↦ optimized value (collected ++ text) items
  | none ↦ flushed collected (variable_item v ∷ optimized value [] items)
]

unfoldable pub optimized_for : FormatSpec → OriginatorInfo → ℕ → Text → FormatSpec
unfolding optimized originator_thread_value
optimized_for spec o id name = optimized (originator_thread_value o id name) [] spec

unfoldable pub optimized_for_originator : FormatSpec → OriginatorInfo → FormatSpec
unfolding optimized originator_value
optimized_for_originator spec o = optimized (originator_value o) [] spec

unfoldable pub optimized_for_thread : FormatSpec → ℕ → Text → FormatSpec
unfolding optimized thread_value
optimized_for_thread spec id name = optimized (thread_value id name) [] spec

-- What `levels` holds for a level; the character in its encoding.
pub record RecordLevel : Type 0 where
  pub id : RecordLevelId
  pub id_char : Text
  pub name : Text

-- The part behind the last separator, of which `part` begins behind the last one so far.
abbrev pub after_separators : Text → Text → Text
after_separators part [] = part
after_separators part (c ∷ cs) = after_separators (if c == b'/' then cs else part) cs

abbrev pub pure_file_name : Text → Text
pure_file_name path = after_separators path path

-- The formats for times, and what chrono writes for a local time in a format.
pub record TimeFormats : Type 0 where
  pub ts_fmt : Text
  pub date_fmt : Text
  pub tm_fmt : Text
  pub format : ℕ → ℕ → Text → Text

abbrev pub level_text : (RecordLevel → Text) → Option RecordLevel → Option Text
level_text get (some desc) = some (get desc)
level_text get none = none

unfoldable pub line_text : Option ℕ → Text
unfolding digits
line_text (some nr) = digits 20 nr
line_text none = b'-' ∷ []

-- What a variable adds to the text of a record, or nothing if the code panics.
unfoldable pub record_value :
    (RecordLevelId → Option RecordLevel) → TimeFormats → RecordData → Variable → Option Text
unfolding line_text
record_value levels times r Variable.date =
    some (times.format r.common.ts_secs r.common.ts_nano_secs times.date_fmt)
record_value levels times r Variable.level = level_text (λ desc. desc.name) (levels r.common.level)
record_value levels times r Variable.level_id =
    level_text (λ desc. desc.id_char) (levels r.common.level)
record_value levels times r Variable.message = r.common.message_text
record_value levels times r Variable.observer_value = r.common.message_text
record_value levels times r Variable.pure_source_file_name = some (pure_file_name r.source_fn)
record_value levels times r Variable.source_file_name = some r.source_fn
record_value levels times r Variable.source_line_nr = some (line_text r.common.line_nr)
record_value levels times r Variable.observer_name = r.common.observer_name
record_value levels times r Variable.time_stamp =
    some (times.format r.common.ts_secs r.common.ts_nano_secs times.ts_fmt)
record_value levels times r Variable.time =
    some (times.format r.common.ts_secs r.common.ts_nano_secs times.tm_fmt)
record_value levels times r _ = some []

-- The loop of `apply_to_record`, with the result so far, which ends with a line feed.
unfoldable pub apply_items : (Variable → Option Text) → Text → FormatSpec → Option Text
apply_items value result [] = some (result ++ 10 ∷ [])
apply_items value result (constant_item c ∷ items) = apply_items value (result ++ c) items
apply_items value result (variable_item v ∷ items) = elim (value v) [
  | some text ↦ apply_items value (result ++ text) items
  | none ↦ none
]

unfoldable pub apply_to_record :
    FormatSpec → RecordData → (RecordLevelId → Option RecordLevel) → TimeFormats → Option Text
unfolding apply_items record_value
apply_to_record spec r levels times = apply_items (record_value levels times r) [] spec

abbrev pub fn_timestamp_format : Text
fn_timestamp_format = codes "%Y%m%d%H%M%S"

abbrev pub fn_date_format : Text
fn_date_format = codes "%Y%m%d"

abbrev pub fn_time_format : Text
fn_time_format = codes "%H%M%S"

abbrev pub file_name_value : (Text → Text) → Variable → Text
file_name_value now Variable.date = now fn_date_format
file_name_value now Variable.time_stamp = now fn_timestamp_format
file_name_value now Variable.time = now fn_time_format
file_name_value now _ = []

-- `now` is what is written for the current time in a format.
unfoldable pub to_file_name : (Text → Text) → FormatSpec → Text
to_file_name now [] = []
to_file_name now (constant_item c ∷ items) = c ++ to_file_name now items
to_file_name now (variable_item v ∷ items) = file_name_value now v ++ to_file_name now items

-- The variable with the longest name that a text starts with, with the name's length; `longest`
-- is the one so far, with length zero for none.
unfoldable pub longest_name : Text → ℕ → Option Variable → TextMap Variable → ℕ × Option Variable
longest_name text len longest [] = (len, longest)
longest_name text len longest ((name, v) ∷ names) =
    let longer = starts_with name text && ltb len (length name) in
    longest_name text (if longer then length name else len) (if longer then some v else longest)
      names

pub data ParseState : Type 0 where
  state_idle : ParseState
  state_in_const : ParseState
  state_in_var : ParseState

-- The variables of the loop of `from_str`; `skip` is what is left up to `var_end_index`.
pub record Parsing : Type 0 where
  pub items : FormatSpec
  pub cur_item : Text
  pub state : ParseState
  pub skip : ℕ

abbrev found_variable : Parsing → ℕ → ℕ × Option Variable → Parsing
found_variable p c (len, some v) = record p {
  items = p.items ++ variable_item v ∷ [];
  state = state_idle;
  skip = len - 1;
}
found_variable p c (len, none) = record p {
  cur_item = p.cur_item ++ c ∷ [];
  state = state_in_const;
}

unfoldable pub found_env : Option Text → Parsing → Text → ℕ → Parsing
unfolding longest_name
found_env (some name) p text c = record p {
  items = p.items ++ variable_item (Variable.env name) ∷ [];
  state = state_idle;
  skip = length name + 4;
}
found_env none p text c = found_variable p c (longest_name text 0 none variable_map)

-- A byte `c`, with which the rest `text` begins. `env_name` is what the pattern captures there.
unfoldable pub parse_byte : (Text → Option Text) → Parsing → ParseState → ℕ → Text → Parsing
unfolding longest_name found_env
parse_byte env_name p state_idle c text = elim p.skip [
  | suc n ↦ record p { skip = n }
  | zero ↦
      if c == b'$'
      then record p { state = state_in_var }
      else record p { cur_item = p.cur_item ++ c ∷ []; state = state_in_const }
]
parse_byte env_name p state_in_const c text =
    if not (c == b'$') then record p { cur_item = p.cur_item ++ c ∷ [] } else record p {
      items = p.items ++ constant_item p.cur_item ∷ [];
      cur_item = [];
      state = state_in_var;
    }
parse_byte env_name p state_in_var c text = found_env (env_name text) p text c

unfoldable pub parse_loop : (Text → Option Text) → Parsing → Text → Parsing
unfolding parse_byte
parse_loop env_name p [] = p
parse_loop env_name p (c ∷ cs) = parse_loop env_name (parse_byte env_name p p.state c (c ∷ cs)) cs

-- The text is read by bytes, since neither `$` nor the names occur inside of another character.
unfoldable pub from_str : (Text → Option Text) → Text → FormatSpec
unfolding parse_loop
from_str env_name text =
    let start : Parsing = record { items = []; cur_item = []; state = state_idle; skip = 0 } in
    let p = parse_loop env_name start text in p.items ++ flushed p.cur_item []
