-- ===== src/Agent/Filter.antt =====
-- Which records the worker of src/agent/worker.rs writes, and what it leaves alone.
use coaly.Prelude.{
  ℕ, suc, zero, ◌*◌, ◌/◌, ◌%◌, ◌^◌, ◌<◌, ◌≡◌, ◌≢◌, Bool, false, Option, none, some, arith, not,
  ◌==◌, if◌then◌else◌, bit_and, Option-cases, inl, inr,
}
use coaly.Prelude.Bits.{
  bit_and_comm, bit_and_1, bit_and_2, bit_and_4, bit_and_8, bit_and_16, bit_and_32, bit_and_64,
  bit_and_128, bit_and_256, bit_and_512, bit_and_1024,
}
use coaly.Prelude.OrderedMap.{lookup, lookup-insert}
use coaly.Observer.{Text}
use coaly.Record.{
  RecordLevelId, emergency, alert, critical, error, warning, notice, info, debug, function, modul,
  object, logs, problems, traces, units, all, level_value, is_group,
}
use coaly.Record.Data.{CommonRecordData}
use coaly.Agent.{
  Worker, Configuration, handle_local_record_event, write_decision, config_or, status_or,
  new_status, determine_mode,
}

-- Handling a record changes no other thread's status.
pub handle-other_threads :
    {Regex : Type 0} (is_match : Regex → Text → Bool) (default_config : Configuration Regex)
    (w : Worker Regex) (r : CommonRecordData) {w' : Worker Regex} {d : Option Bool} (other : ℕ)
    → handle_local_record_event is_match default_config w r ≡ some (w', d)
    → other ≢ r.thread_id
    → lookup other w'.thread_states ≡ lookup other w.thread_states
unfolding handle_local_record_event
handle-other_threads is_match default_config w r other e ne =
    let cnf = config_or default_config w.configuration in
    let ts = status_or (new_status cnf) (lookup r.thread_id w.thread_states) in
    elim (Option-cases (determine_mode is_match cnf.mode_changes w.mode_map ts r)) [
      | inl stops ↦ cc (e, stops)
      | inr ((mode, glob1, ts1), runs) ↦
          ground (arith, lookup-insert r.thread_id other ts1 w.thread_states)
    ]

-- The position of the bit of a level that is no group.
abbrev pub level_index : RecordLevelId → ℕ
level_index emergency = 0
level_index alert = 1
level_index critical = 2
level_index error = 3
level_index warning = 4
level_index notice = 5
level_index info = 6
level_index debug = 7
level_index function = 8
level_index modul = 9
level_index object = 10
level_index _ = 11

abbrev pub has_bit : ℕ → ℕ → Bool
has_bit mode i = mode / 2 ^ i % 2 == 1

test_of_mask : (x d v : ℕ) → x ≡ d * v → d < 2 → 0 < v → not (x == 0) ≡ (d == 1)
test_of_mask x zero v e h p = ground arith
test_of_mask x (suc zero) v e h p = ground arith
test_of_mask x (suc (suc d)) v e h p = absurd (omega arith)

level_test :
    (l : RecordLevelId) (mode : ℕ)
    → is_group l ≡ false
    → not (bit_and (level_value l) mode == 0) ≡ has_bit mode (level_index l)
unfolding level_value is_group
level_test emergency mode h =
    test_of_mask (bit_and 1 mode) (mode / 1 % 2) 1
      (omega (arith, bit_and_comm 1 mode, bit_and_1 mode)) (omega arith) (omega arith)
level_test alert mode h =
    test_of_mask (bit_and 2 mode) (mode / 2 % 2) 2
      (omega (arith, bit_and_comm 2 mode, bit_and_2 mode)) (omega arith) (omega arith)
level_test critical mode h =
    test_of_mask (bit_and 4 mode) (mode / 4 % 2) 4
      (omega (arith, bit_and_comm 4 mode, bit_and_4 mode)) (omega arith) (omega arith)
level_test error mode h =
    test_of_mask (bit_and 8 mode) (mode / 8 % 2) 8
      (omega (arith, bit_and_comm 8 mode, bit_and_8 mode)) (omega arith) (omega arith)
level_test warning mode h =
    test_of_mask (bit_and 16 mode) (mode / 16 % 2) 16
      (omega (arith, bit_and_comm 16 mode, bit_and_16 mode)) (omega arith) (omega arith)
level_test notice mode h =
    test_of_mask (bit_and 32 mode) (mode / 32 % 2) 32
      (omega (arith, bit_and_comm 32 mode, bit_and_32 mode)) (omega arith) (omega arith)
level_test info mode h =
    test_of_mask (bit_and 64 mode) (mode / 64 % 2) 64
      (omega (arith, bit_and_comm 64 mode, bit_and_64 mode)) (omega arith) (omega arith)
level_test debug mode h =
    test_of_mask (bit_and 128 mode) (mode / 128 % 2) 128
      (omega (arith, bit_and_comm 128 mode, bit_and_128 mode)) (omega arith) (omega arith)
level_test function mode h =
    test_of_mask (bit_and 256 mode) (mode / 256 % 2) 256
      (omega (arith, bit_and_comm 256 mode, bit_and_256 mode)) (omega arith) (omega arith)
level_test modul mode h =
    test_of_mask (bit_and 512 mode) (mode / 512 % 2) 512
      (omega (arith, bit_and_comm 512 mode, bit_and_512 mode)) (omega arith) (omega arith)
level_test object mode h =
    test_of_mask (bit_and 1024 mode) (mode / 1024 % 2) 1024
      (omega (arith, bit_and_comm 1024 mode, bit_and_1024 mode)) (omega arith) (omega arith)
level_test logs mode h = cc
level_test problems mode h = cc
level_test traces mode h = cc
level_test units mode h = cc
level_test all mode h = cc

-- A record whose level is no group is written if the level's bit is set in the lower half of the
-- mode, and then buffered if it is also set in the upper half.
pub write_decision-bits :
    (l : RecordLevelId) (mode : ℕ)
    → is_group l ≡ false
    → write_decision l mode ≡ (
        if has_bit mode (level_index l)
        then some (has_bit (mode / 2 ^ 16) (level_index l))
        else none)
unfolding write_decision
write_decision-bits l mode h = ground (arith, level_test l mode h, level_test l (mode / 2 ^ 16) h)
