-- ===== src/Record.antt =====
-- src/record/mod.rs: what triggers a record, the record levels with their bit masks, and the map
-- of level descriptions.
pub mod Levels
pub mod Data
use coaly.Prelude.{
  ℕ, zero, suc, ◌*◌, ◌%◌, ◌^◌, Bool, true, false, Option, none, some, List, [], ◌∷◌, leb, ltb, ◌==◌,
  not, if◌then◌else◌, bit_and, ◌+◌, ◌/◌, ◌||◌, ◌++◌,
}

pub data RecordTrigger : Type 0 where
  message observer_created observer_dropped all_triggers : RecordTrigger

unfoldable pub trigger_value : RecordTrigger → ℕ
trigger_value message = 0b001
trigger_value observer_created = 0b010
trigger_value observer_dropped = 0b100
trigger_value all_triggers = 0b111

unfoldable pub trigger_from : ℕ → RecordTrigger
unfolding trigger_value
trigger_from trigger =
    if trigger == trigger_value all_triggers
    then all_triggers
    else if trigger == trigger_value message
    then message
    else if trigger == trigger_value observer_created
    then observer_created
    else observer_dropped

pub data RecordLevelId : Type 0 where
  emergency alert critical error warning notice info debug : RecordLevelId
  function modul object : RecordLevelId
  logs problems traces units all : RecordLevelId

-- The cast `as u32`.
unfoldable pub level_value : RecordLevelId → ℕ
level_value emergency = 0b000000000001
level_value alert = 0b000000000010
level_value critical = 0b000000000100
level_value error = 0b000000001000
level_value warning = 0b000000010000
level_value notice = 0b000000100000
level_value info = 0b000001000000
level_value debug = 0b000010000000
level_value function = 0b000100000000
level_value modul = 0b001000000000
level_value object = 0b010000000000
level_value logs = 0b000001111111
level_value problems = 0b000000011111
level_value traces = 0b011110000000
level_value units = 0b001100000000
level_value all = 0b011111111111

-- `u32::count_ones`, over `w` digits.
abbrev count_ones : ℕ → ℕ → ℕ
count_ones zero x = 0
count_ones (suc w) x = x % 2 + count_ones w (x / 2)

unfoldable pub is_group : RecordLevelId → Bool
unfolding level_value
is_group l = ltb 1 (count_ones 32 (level_value l))

-- `From<u32>`: the lowest bit that is set decides.
unfoldable pub level_from : ℕ → RecordLevelId
level_from m =
    if not (bit_and m 1 == 0)
    then emergency
    else if not (bit_and m 2 == 0)
    then alert
    else if not (bit_and m 4 == 0)
    then critical
    else if not (bit_and m 8 == 0)
    then error
    else if not (bit_and m 16 == 0)
    then warning
    else if not (bit_and m 32 == 0)
    then notice
    else if not (bit_and m 64 == 0)
    then info
    else if not (bit_and m 128 == 0)
    then debug
    else if not (bit_and m 256 == 0)
    then function
    else if not (bit_and m 512 == 0)
    then modul
    else object

-- The `while` loop of `essential_ids_in`, on fuel; `bit` doubles in each round.
unfoldable pub ids_from : ℕ → ℕ → ℕ → List RecordLevelId
unfolding level_from
ids_from zero levels_mask bit = []
ids_from (suc fuel) levels_mask bit =
    let rest = ids_from fuel levels_mask (bit * 2 % 2 ^ 32) in
    if leb bit 0b010000000000
    then (if not (bit_and levels_mask bit == 0) then level_from bit ∷ rest else rest)
    else []

unfoldable pub essential_ids_in : ℕ → List RecordLevelId
unfolding ids_from
essential_ids_in levels_mask = ids_from 12 levels_mask 1
