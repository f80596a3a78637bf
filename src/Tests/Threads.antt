-- ===== src/Tests/Threads.antt =====
-- Mode changes, threads and the worker of src/agent at concrete inputs.
use coaly.Prelude.Texts.{codes}
use coaly.Prelude.{
  ℕ, zero, suc, ◌+◌, ◌*◌, ◌^◌, ◌≡◌, refl, Bool, true, false, none, some, [], ◌∷◌, arith, low_half,
  high_half,
}
use coaly.Observer.{Text, ObserverData}
use coaly.Observer
use coaly.Collections.{RecoverableStack}
use coaly.Collections.Stack.{CallTree, done, call, calls, run, run-calls}
use coaly.Record.{error, is_group}
use coaly.Record.Data.{Moment}
use coaly.ModeChange.{
  ModeChangeDesc, ModeChangeDescList, OverrideModeMap, process, matching_observer_created,
  matching_observer_dropped,
}
use coaly.ModeChange.Lookup.{mode_of, mode_of-halves}
use coaly.ModeChange.Active.{dropped-created}
use coaly.Agent.{ThreadStatus, Configuration, Worker, new_status, write_decision}
use coaly.Agent.Threads.{IsReady}
use coaly.Agent.Modes.{after_records}
use coaly.Agent.Scopes.{Scopes, write, observe, records, records-restore}
use coaly.Agent.Filter.{write_decision-bits}
use coaly.Prelude.OrderedMap.{insert}

-- A full stack with room for one value.
abbrev full_stack : RecoverableStack ℕ
full_stack = record { items = 7 ∷ []; overflow_count = 0; max_capacity = 1 }

-- A unit that calls another one.
abbrev nested : CallTree ℕ
nested = call 5 (call 6 done done) done

run-calls_example : run full_stack (calls nested) ≡ full_stack
run-calls_example =
    run-calls nested full_stack (record { bounded = omega arith; full = λ h. omega arith })

-- A pattern is a length here.
abbrev has_length : ℕ → Text → Bool
has_length zero [] = true
has_length (suc n) (c ∷ cs) = has_length n cs
has_length _ _ = false

abbrev on_two : ModeChangeDesc ℕ
on_two = record {
  scope = process;
  observer_kind = Observer.ObserverKind.object;
  observer_name = some 2;
  observer_value = none;
  enabled_levels = 3;
  buffered_levels = 1;
}

abbrev mode_changes : ModeChangeDescList ℕ
mode_changes = record {
  global_obj_descs = on_two ∷ [];
  local_obj_descs = on_two ∷ [];
  local_unit_descs = on_two ∷ [];
}

abbrev two_letters : Text
two_letters = codes "ab"

halves_of_mode :
    (low_half (mode_of on_two) ≡ low_half 3) × (high_half (mode_of on_two) ≡ low_half 1 * 2 ^ 16)
halves_of_mode = mode_of-halves on_two

abbrev one_change : OverrideModeMap
one_change = record { active_changes = (3, 9) ∷ []; size_limit = 2 }

dropped-created_example :
    (matching_observer_dropped (matching_observer_created one_change 4 8).0 4).0 ≡ one_change
dropped-created_example = dropped-created one_change 4 8 (omega arith, tt)

abbrev config : Configuration ℕ
config = record { change_stack_size = 8; initial_output_mode = 1; mode_changes = mode_changes }

abbrev status : ThreadStatus
status = record {
  obj_mode_map = record { active_changes = []; size_limit = 8 };
  unit_mode_stack = record { items = 1 ∷ []; overflow_count = 0; max_capacity = 8 };
}

abbrev no_changes : OverrideModeMap
no_changes = record { active_changes = []; size_limit = 8 }

status-IsReady : IsReady 1 status
status-IsReady = record {
  stack = record { bounded = omega arith; full = λ h. omega arith };
  nonempty = omega arith;
  fresh = tt;
}

abbrev moment : Moment
moment = record { thread = 1; name = two_letters; secs = 10; nanos = 20 }

abbrev observed : ObserverData
observed = record {
  id = 1;
  name = two_letters;
  file_name = two_letters;
  kind = Observer.ObserverKind.object;
  value = none;
}

abbrev scopes : Scopes
scopes = observe moment moment 1 observed (write moment error 2 two_letters Scopes.done) Scopes.done

records-restore_example :
    after_records has_length mode_changes no_changes status (records scopes)
    ≡ some (no_changes, status)
records-restore_example =
    records-restore has_length mode_changes 1 no_changes status scopes
      (record { thread = status-IsReady; global = tt }) (omega arith, tt, tt)

write_decision-bits_example : write_decision error (8 + 8 * 2 ^ 16) ≡ some true
unfolding is_group
write_decision-bits_example = write_decision-bits error (8 + 8 * 2 ^ 16) refl

abbrev other_thread : Worker ℕ
other_thread = record {
  configuration = none;
  thread_states = (2, status) ∷ [];
  mode_map = no_changes;
}

abbrev after_write : Worker ℕ
after_write = record {
  configuration = some config;
  thread_states = insert 1 (new_status config) ((2, status) ∷ []);
  mode_map = no_changes;
}
