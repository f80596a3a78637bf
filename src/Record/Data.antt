-- ===== src/Record/Data.antt =====
-- src/record/recorddata.rs: the data of a log or trace record and its constructors. The time at
-- which a record is made is an argument.
use coaly.Prelude.{ℕ, Option, none, some}
use coaly.Observer.{Text, ObserverData, kind_value}
use coaly.Record.{
  RecordTrigger, message, observer_created, observer_dropped, RecordLevelId, object, level_from,
}

pub record CommonRecordData : Type 0 where
  pub thread_id : ℕ
  pub thread_name : Text
  pub ts_secs : ℕ
  pub ts_nano_secs : ℕ
  pub level : RecordLevelId
  pub trigger : RecordTrigger
  pub line_nr : Option ℕ
  pub message_text : Option Text
  pub observer_name : Option Text
  pub observer_value : Option Text
  pub observer_id : ℕ

-- The caller's thread, with its name, and the time in seconds and nanoseconds.
pub record Moment : Type 0 where
  pub thread : ℕ
  pub name : Text
  pub secs : ℕ
  pub nanos : ℕ

unfoldable pub for_write : Moment → RecordLevelId → ℕ → Text → CommonRecordData
for_write at level line_nr msg = record {
  thread_id = at.thread;
  thread_name = at.name;
  ts_secs = at.secs;
  ts_nano_secs = at.nanos;
  level = level;
  trigger = message;
  line_nr = some line_nr;
  message_text = some msg;
  observer_name = none;
  observer_value = none;
  observer_id = 0;
}

unfoldable pub for_write_obs : Moment → ObserverData → ℕ → Text → CommonRecordData
for_write_obs at observer line_nr msg = record {
  thread_id = at.thread;
  thread_name = at.name;
  ts_secs = at.secs;
  ts_nano_secs = at.nanos;
  level = object;
  trigger = message;
  line_nr = some line_nr;
  message_text = some msg;
  observer_name = some observer.name;
  observer_value = observer.value;
  observer_id = observer.id;
}

unfoldable pub for_create : Moment → ObserverData → ℕ → CommonRecordData
unfolding level_from kind_value
for_create at observer line_nr = record {
  thread_id = at.thread;
  thread_name = at.name;
  ts_secs = at.secs;
  ts_nano_secs = at.nanos;
  level = level_from (kind_value observer.kind);
  trigger = observer_created;
  line_nr = some line_nr;
  message_text = observer.value;
  observer_name = some observer.name;
  observer_value = observer.value;
  observer_id = observer.id;
}

unfoldable pub for_drop : Moment → ObserverData → CommonRecordData
unfolding level_from kind_value
for_drop at observer = record {
  thread_id = at.thread;
  thread_name = at.name;
  ts_secs = at.secs;
  ts_nano_secs = at.nanos;
  level = level_from (kind_value observer.kind);
  trigger = observer_dropped;
  line_nr = none;
  message_text = observer.value;
  observer_name = some observer.name;
  observer_value = observer.value;
  observer_id = observer.id;
}
