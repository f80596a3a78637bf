-- ===== src/Record/Levels.antt =====
-- The record level masks of src/record/mod.rs and the lists of levels.
use coaly.Prelude.{
  ℕ, zero, suc, ◌+◌, ◌*◌, ◌/◌, ◌%◌, ◌^◌, ◌<◌, ◌≡◌, refl, true, false, List, [], ◌∷◌, arith, bit_and,
  ◌==◌, leb, if◌then◌else◌,
}
use coaly.Prelude.Bits.{
  bit_and_1, bit_and_2, bit_and_4, bit_and_8, bit_and_16, bit_and_32, bit_and_64, bit_and_128,
  bit_and_256, bit_and_512, bit_and_1024,
}
use coaly.Record.{
  RecordTrigger, message, observer_created, observer_dropped, all_triggers, trigger_value,
  trigger_from, RecordLevelId, emergency, alert, critical, error, warning, notice, info, debug,
  function, modul, object, logs, problems, traces, units, all, level_value, level_from, is_group,
  essential_ids_in, ids_from,
}

-- A trigger is read back from its number.
pub trigger_from-trigger_value : (t : RecordTrigger) → trigger_from (trigger_value t) ≡ t
unfolding trigger_from
trigger_from-trigger_value message = refl
trigger_from-trigger_value observer_created = refl
trigger_from-trigger_value observer_dropped = refl
trigger_from-trigger_value all_triggers = refl

-- A level that is no group is read back from its bit.
pub level_from-level_value :
    (l : RecordLevelId) → is_group l ≡ false → level_from (level_value l) ≡ l
unfolding is_group level_from
level_from-level_value emergency h = refl
level_from-level_value alert h = refl
level_from-level_value critical h = refl
level_from-level_value error h = refl
level_from-level_value warning h = refl
level_from-level_value notice h = refl
level_from-level_value info h = refl
level_from-level_value debug h = refl
level_from-level_value function h = refl
level_from-level_value modul h = refl
level_from-level_value object h = refl
level_from-level_value logs h = cc
level_from-level_value problems h = cc
level_from-level_value traces h = cc
level_from-level_value units h = cc
level_from-level_value all h = cc

pub total : List RecordLevelId → ℕ
total [] = 0
total (l ∷ ls) = level_value l + total ls

-- One round of the loop adds the value of the mask at its bit.
total-ids_from :
    (fuel mask bit : ℕ)
    → leb bit 0b010000000000 ≡ true
    → level_value (level_from bit) ≡ bit
    → total (ids_from (suc fuel) mask bit)
      ≡ (if bit_and mask bit == 0 then 0 else bit) + total (ids_from fuel mask (bit * 2 % 2 ^ 32))
unfolding ids_from total
total-ids_from fuel mask bit h e = rw (h, ids_from) (ground arith)

pub digit_of_mask : (x b d : ℕ) → x ≡ d * b → d < 2 → 0 < b → (if x == 0 then 0 else b) ≡ d * b
digit_of_mask x b zero e h p = ground arith
digit_of_mask x b (suc zero) e h p = ground arith
digit_of_mask x b (suc (suc d)) e h p = absurd (omega arith)

last_round : (mask : ℕ) → total (ids_from 1 mask 2048) ≡ 0
unfolding ids_from total
last_round mask = refl

-- The levels of a mask have exactly the mask's lowest eleven bits as their sum.
pub total-essential_ids_in : (mask : ℕ) → total (essential_ids_in mask) ≡ mask % 2048
unfolding essential_ids_in level_from level_value
total-essential_ids_in mask = omega (
  arith,
  total-ids_from 11 mask 1 refl refl,
  total-ids_from 10 mask 2 refl refl,
  total-ids_from 9 mask 4 refl refl,
  total-ids_from 8 mask 8 refl refl,
  total-ids_from 7 mask 16 refl refl,
  total-ids_from 6 mask 32 refl refl,
  total-ids_from 5 mask 64 refl refl,
  total-ids_from 4 mask 128 refl refl,
  total-ids_from 3 mask 256 refl refl,
  total-ids_from 2 mask 512 refl refl,
  total-ids_from 1 mask 1024 refl refl,
  last_round mask,
  digit_of_mask (bit_and mask 1) 1 (mask % 2) (omega (arith, bit_and_1 mask)) (omega arith)
      (omega arith),
  digit_of_mask (bit_and mask 2) 2 (mask / 2 % 2) (bit_and_2 mask) (omega arith) (omega arith),
  digit_of_mask (bit_and mask 4) 4 (mask / 4 % 2) (bit_and_4 mask) (omega arith) (omega arith),
  digit_of_mask (bit_and mask 8) 8 (mask / 8 % 2) (bit_and_8 mask) (omega arith) (omega arith),
  digit_of_mask (bit_and mask 16) 16 (mask / 16 % 2) (bit_and_16 mask) (omega arith) (omega arith),
  digit_of_mask (bit_and mask 32) 32 (mask / 32 % 2) (bit_and_32 mask) (omega arith) (omega arith),
  digit_of_mask (bit_and mask 64) 64 (mask / 64 % 2) (bit_and_64 mask) (omega arith) (omega arith),
  digit_of_mask (bit_and mask 128) 128 (mask / 128 % 2) (bit_and_128 mask) (omega arith)
      (omega arith),
  digit_of_mask (bit_and mask 256) 256 (mask / 256 % 2) (bit_and_256 mask) (omega arith)
      (omega arith),
  digit_of_mask (bit_and mask 512) 512 (mask / 512 % 2) (bit_and_512 mask) (omega arith)
      (omega arith),
  digit_of_mask (bit_and mask 1024) 1024 (mask / 1024 % 2) (bit_and_1024 mask) (omega arith)
      (omega arith),
)
