-- ===== src/ModeChange.antt =====
-- src/modechange.rs: the descriptors of output mode changes, their lists, and the map of the
-- changes that are active. A mode holds the enabled levels in its lower and the buffered levels in
-- its upper 16 bits. The type of regular expressions and their test are parameters.
pub mod Lookup
pub mod Active
use coaly.Prelude.{
  ℕ, ◌+◌, ◌*◌, ◌%◌, ◌^◌, Bool, true, false, Option, none, some, List, [], ◌∷◌, ◌++◌, leb, length,
  if◌then◌else◌, u32_max, low_half,
}
use coaly.Prelude.OrderedMap.{OrderedMap, insert, remove, last_value}
use coaly.Observer.{Text, ObserverKind, function, modul, object}

pub data ModeChangeScope : Type 0 where
  process thread : ModeChangeScope

pub record ModeChangeDesc (Regex : Type 0) : Type 0 where
  pub scope : ModeChangeScope
  pub observer_kind : ObserverKind
  pub observer_name : Option Regex
  pub observer_value : Option Regex
  pub enabled_levels : ℕ
  pub buffered_levels : ℕ

pub record ModeChangeDescList (Regex : Type 0) : Type 0 where
  pub global_obj_descs : List (ModeChangeDesc Regex)
  pub local_obj_descs : List (ModeChangeDesc Regex)
  pub local_unit_descs : List (ModeChangeDesc Regex)

module _ {Regex : Type 0} where
  unfoldable pub for_unit : ObserverKind → Option Regex → ℕ → ℕ → ModeChangeDesc Regex
  for_unit kind name enabled buffered = record {
    scope = thread;
    observer_kind = kind;
    observer_name = name;
    observer_value = none;
    enabled_levels = enabled;
    buffered_levels = buffered;
  }

  unfoldable pub for_object :
      ModeChangeScope → Option Regex → Option Regex → ℕ → ℕ → ModeChangeDesc Regex
  for_object scope name value enabled buffered = record {
    scope = scope;
    observer_kind = object;
    observer_name = name;
    observer_value = value;
    enabled_levels = enabled;
    buffered_levels = buffered;
  }

  abbrev push_object :
      ModeChangeScope → ModeChangeDesc Regex → ModeChangeDescList Regex → ModeChangeDescList Regex
  push_object process desc l = record l { global_obj_descs = l.global_obj_descs ++ desc ∷ [] }
  push_object thread desc l = record l { local_obj_descs = l.local_obj_descs ++ desc ∷ [] }

  abbrev push_for :
      ObserverKind → ModeChangeDesc Regex → ModeChangeDescList Regex → ModeChangeDescList Regex
  push_for object desc l = push_object desc.scope desc l
  push_for function desc l = record l { local_unit_descs = l.local_unit_descs ++ desc ∷ [] }
  push_for modul desc l = record l { local_unit_descs = l.local_unit_descs ++ desc ∷ [] }

  unfoldable pub push : ModeChangeDescList Regex → ModeChangeDesc Regex → ModeChangeDescList Regex
  push l desc = push_for desc.observer_kind desc l

module _ {Regex : Type 0} (is_match : Regex → Text → Bool) where
  -- `is_match` on what the observer has; an observer without a name or value does not match.
  abbrev matches_option : Regex → Option Text → Bool
  matches_option pattern none = false
  matches_option pattern (some text) = is_match pattern text

  -- An absent pattern asks for nothing.
  abbrev matches_pattern : Option Regex → Option Text → Bool
  matches_pattern none text = true
  matches_pattern (some pattern) text = matches_option pattern text

  unfoldable pub applies_to : ModeChangeDesc Regex → Option Text → Option Text → Bool
  applies_to desc name value =
      if matches_pattern desc.observer_name name
      then matches_pattern desc.observer_value value
      else false

  unfoldable pub mode_for : List (ModeChangeDesc Regex) → Option Text → Option Text → ℕ
  mode_for [] name value = u32_max
  mode_for (desc ∷ descs) name value =
      if applies_to desc name value
      then desc.buffered_levels * 2 ^ 16 % 2 ^ 32 + low_half desc.enabled_levels
      else mode_for descs name value

  unfoldable pub global_mode_for_obj : ModeChangeDescList Regex → Option Text → Option Text → ℕ
  global_mode_for_obj l name value = mode_for l.global_obj_descs name value

  unfoldable pub local_mode_for_obj : ModeChangeDescList Regex → Option Text → Option Text → ℕ
  local_mode_for_obj l name value = mode_for l.local_obj_descs name value

  unfoldable pub local_mode_for_unit : ModeChangeDescList Regex → Option Text → ℕ
  local_mode_for_unit l name = mode_for l.local_unit_descs name none

pub record OverrideModeMap : Type 0 where
  pub active_changes : OrderedMap ℕ
  pub size_limit : ℕ

unfoldable pub new : ℕ → OverrideModeMap
new size_limit = record { active_changes = []; size_limit = size_limit }

-- `u32::MAX` if no change is active.
abbrev mode_or_max : Option ℕ → ℕ
mode_or_max none = u32_max
mode_or_max (some mode) = mode

unfoldable pub active_mode : OverrideModeMap → ℕ
active_mode m = mode_or_max (last_value m.active_changes)

unfoldable pub matching_observer_created : OverrideModeMap → ℕ → ℕ → OverrideModeMap × ℕ
matching_observer_created m observer_id mode =
    if leb m.size_limit (length m.active_changes)
    then (m, active_mode m)
    else (record m { active_changes = insert observer_id mode m.active_changes }, mode)

unfoldable pub matching_observer_dropped : OverrideModeMap → ℕ → OverrideModeMap × ℕ
matching_observer_dropped m observer_id =
    (record m { active_changes = remove observer_id m.active_changes }, active_mode m)
