-- ===== src/Agent.antt =====
-- src/agent: the status of application threads (threadstatus.rs), and how the worker (worker.rs)
-- determines the output mode for a record and which records it writes.
pub mod Threads
pub mod Openings
pub mod Modes
pub mod Scopes
pub mod Filter
use coaly.Prelude.{
  ℕ, ◌+◌, ◌/◌, ◌^◌, ◌≡◌, Bool, true, false, Option, none, some, List, [], ◌∷◌, ◌==◌, not,
  if◌then◌else◌, u32_max, low_half, high_half, bit_and,
}
use coaly.Prelude.OrderedMap.{OrderedMap, insert, lookup}
use coaly.Collections.{RecoverableStack}
use coaly.Collections
use coaly.Observer.{Text}
use coaly.Record.{
  RecordTrigger, message, observer_created, observer_dropped, all_triggers, RecordLevelId,
  emergency, alert, critical, error, warning, notice, info, debug, function, modul, object, logs,
  problems, traces, units, all, level_value,
}
use coaly.Record.Data.{CommonRecordData}
use coaly.ModeChange.{
  OverrideModeMap, ModeChangeDescList, global_mode_for_obj, local_mode_for_obj, local_mode_for_unit,
}
use coaly.ModeChange

infixl 5 ◌>>=◌
abbrev pub ◌>>=◌ : {A B : Type 0} → Option A → (A → Option B) → Option B
none >>= f = none
some a >>= f = f a

-- The interface to the output resources is of no concern to the modes, and is left out.
pub record ThreadStatus : Type 0 where
  pub obj_mode_map : OverrideModeMap
  pub unit_mode_stack : RecoverableStack ℕ

pub record Configuration (Regex : Type 0) : Type 0 where
  pub change_stack_size : ℕ
  pub initial_output_mode : ℕ
  pub mode_changes : ModeChangeDescList Regex

unfoldable pub new_status : {Regex : Type 0} → Configuration Regex → ThreadStatus
unfolding ModeChange.new Collections.new Collections.push
new_status config = record {
  obj_mode_map = ModeChange.new 32768;
  unit_mode_stack =
      (Collections.push (Collections.new config.change_stack_size 256)
        config.initial_output_mode).0;
}

-- `none` is the panic of `unwrap` on an empty stack.
unfoldable pub active_mode : ThreadStatus → Option ℕ
active_mode ts =
    let mode = ModeChange.active_mode ts.obj_mode_map in
    if not (mode == u32_max) then some mode else Collections.last ts.unit_mode_stack

-- The halves that `|` joins share no bit, so it adds them.
abbrev pub override : ℕ → ℕ → ℕ
override curr_mode mode =
    let new_enabled = if low_half mode == 0xffff then low_half curr_mode else low_half mode in
    let new_buffered =
      if high_half mode == 0xffff_0000 then high_half curr_mode else high_half mode in
    new_buffered + new_enabled

unfoldable pub actual_mode : ThreadStatus → ℕ → Option ℕ
unfolding active_mode
actual_mode ts mode = do curr_mode ← active_mode ts; some (override curr_mode mode)

unfoldable pub unit_entered : ThreadStatus → ℕ → Option (ℕ × ThreadStatus)
unfolding actual_mode
unit_entered ts mode = do
  new_mode ← actual_mode ts mode
  some (new_mode, record ts { unit_mode_stack = (Collections.push ts.unit_mode_stack new_mode).0 })

unfoldable pub unit_left : ThreadStatus → ThreadStatus
unit_left ts = record ts { unit_mode_stack = (Collections.pop ts.unit_mode_stack).0 }

unfoldable pub object_created : ThreadStatus → ℕ → ℕ → Option (ℕ × ThreadStatus)
unfolding actual_mode
object_created ts observer_id mode = do
  new_mode ← actual_mode ts mode
  some (
    new_mode,
    record ts {
      obj_mode_map = (ModeChange.matching_observer_created ts.obj_mode_map observer_id new_mode).0;
    },
  )

unfoldable pub object_dropped : ThreadStatus → ℕ → ThreadStatus
object_dropped ts observer_id = record ts {
  obj_mode_map = (ModeChange.matching_observer_dropped ts.obj_mode_map observer_id).0;
}

abbrev pub is_object : RecordLevelId → Bool
is_object object = true
is_object _ = false

-- A mode, the map of the process wide changes and the thread's status.
abbrev pub Modes : Type 0
Modes = ℕ × OverrideModeMap × ThreadStatus

-- The local part of a creation: `mode` stands unless it is still open.
abbrev enter_local : ℕ → OverrideModeMap → ThreadStatus → Option (ℕ × ThreadStatus) → Option Modes
enter_local mode glob ts none = none
enter_local mode glob ts (some (new_mode, ts')) =
    some (if mode == u32_max then new_mode else mode, glob, ts')

module _ {Regex : Type 0} (is_match : Regex → Text → Bool) (descs : ModeChangeDescList Regex) where
  abbrev glob_mode_of : CommonRecordData → ℕ
  glob_mode_of r = global_mode_for_obj is_match descs r.observer_name r.message_text

  abbrev loc_mode_of : CommonRecordData → ℕ
  loc_mode_of r = local_mode_for_obj is_match descs r.observer_name r.message_text

  abbrev unit_mode_of : CommonRecordData → ℕ
  unit_mode_of r = local_mode_for_unit is_match descs r.observer_name

  unfoldable pub created_object :
      ℕ → OverrideModeMap → ThreadStatus → CommonRecordData → Option Modes
  unfolding object_created
  created_object mode glob ts r =
      let changes = not (glob_mode_of r == u32_max) in
      let mode1 = if changes then glob_mode_of r else mode in
      let glob1 =
        if changes
        then (ModeChange.matching_observer_created glob r.observer_id (glob_mode_of r)).0
        else glob in
      if not (loc_mode_of r == u32_max)
      then enter_local mode1 glob1 ts (object_created ts r.observer_id (loc_mode_of r))
      else some (mode1, glob1, ts)

  unfoldable pub created_unit : ℕ → OverrideModeMap → ThreadStatus → CommonRecordData → Option Modes
  unfolding unit_entered
  created_unit mode glob ts r =
      if not (unit_mode_of r == u32_max)
      then enter_local mode glob ts (unit_entered ts (unit_mode_of r))
      else some (mode, glob, ts)

  unfoldable pub dropped_object : ℕ → OverrideModeMap → ThreadStatus → CommonRecordData → Modes
  unfolding object_dropped
  dropped_object mode glob ts r =
      let glob1 =
        if not (glob_mode_of r == u32_max)
        then (ModeChange.matching_observer_dropped glob r.observer_id).0
        else glob in
      let ts1 = if not (loc_mode_of r == u32_max) then object_dropped ts r.observer_id else ts in
      (mode, glob1, ts1)

  unfoldable pub dropped_unit : ℕ → OverrideModeMap → ThreadStatus → CommonRecordData → Modes
  unfolding unit_left
  dropped_unit mode glob ts r =
      (mode, glob, if not (unit_mode_of r == u32_max) then unit_left ts else ts)

  -- The mode, or that of the thread if it is still open.
  unfoldable pub settled : ℕ → ThreadStatus → Option ℕ
  unfolding active_mode
  settled mode ts = if mode == u32_max then active_mode ts else some mode

  unfoldable pub changes_for :
      RecordTrigger → ℕ → OverrideModeMap → ThreadStatus → CommonRecordData → Option Modes
  unfolding created_object created_unit dropped_object dropped_unit settled
  changes_for observer_created mode glob ts r =
      if is_object r.level then created_object mode glob ts r else created_unit mode glob ts r
  changes_for observer_dropped mode glob ts r = do
    mode1 ← settled mode ts
    some
        (if is_object r.level then dropped_object mode1 glob ts r else dropped_unit mode1 glob ts r)
  changes_for _ mode glob ts r = some (mode, glob, ts)

  unfoldable pub determine_mode : OverrideModeMap → ThreadStatus → CommonRecordData → Option Modes
  unfolding changes_for settled
  determine_mode glob ts r = do
    (mode, glob1, ts1) ← changes_for r.trigger (ModeChange.active_mode glob) glob ts r
    final ← settled mode ts1
    some (final, glob1, ts1)

-- The worker's part that decides on records; its inventory of output resources is left out.
pub record Worker (Regex : Type 0) : Type 0 where
  pub configuration : Option (Configuration Regex)
  pub thread_states : OrderedMap ThreadStatus
  pub mode_map : OverrideModeMap

abbrev pub status_or : ThreadStatus → Option ThreadStatus → ThreadStatus
status_or fresh none = fresh
status_or fresh (some ts) = ts

module _ {Regex : Type 0} where
  abbrev pub config_or : Configuration Regex → Option (Configuration Regex) → Configuration Regex
  config_or fallback none = fallback
  config_or fallback (some config) = config

  unfoldable pub new_worker : Worker Regex
  unfolding ModeChange.new
  new_worker = record { configuration = none; thread_states = []; mode_map = ModeChange.new 4096 }

-- `none` if the record is not written, else whether it is buffered.
unfoldable pub write_decision : RecordLevelId → ℕ → Option Bool
unfolding level_value
write_decision level mode =
    if bit_and (level_value level) mode == 0
    then none
    else some (not (bit_and (level_value level) (mode / 2 ^ 16) == 0))

-- The default configuration is used if none has been read.
unfoldable pub handle_local_record_event :
    {Regex : Type 0}
    → (Regex → Text → Bool)
    → Configuration Regex
    → Worker Regex
    → CommonRecordData
    → Option (Worker Regex × Option Bool)
handle_local_record_event is_match default_config w r = do
  let cnf = config_or default_config w.configuration
  let ts = status_or (new_status cnf) (lookup r.thread_id w.thread_states)
  (mode, glob1, ts1) ← determine_mode is_match cnf.mode_changes w.mode_map ts r
  some (
    record {
      configuration = some cnf;
      thread_states = insert r.thread_id ts1 w.thread_states;
      mode_map = glob1;
    },
    write_decision r.level mode,
  )
