-- ===== src/ModeChange/Active.antt =====
-- The map of active mode changes of src/modechange.rs.
use coaly.Prelude.{ℕ, suc, ◌≡◌, arith, length, ltb, if◌then◌else◌}
use coaly.Prelude.OrderedMap.{
  Below, Below-mono, insert-Below, remove-insert-Below, remove-Below, last_value-insert-Below,
}
use coaly.ModeChange.{
  OverrideModeMap, active_mode, matching_observer_created, matching_observer_dropped,
}

-- All observers whose changes are active were created before the observer `id`.
abbrev pub IsNew : ℕ → OverrideModeMap → Type 0
IsNew id m = Below id m.active_changes

-- A change that a new observer triggers decides at once if there is room for it, and nothing
-- changes otherwise.
pub active_mode-created :
    (m : OverrideModeMap) (id mode : ℕ)
    → IsNew id m
    → active_mode (matching_observer_created m id mode).0
      ≡ (if ltb (length m.active_changes) m.size_limit then mode else active_mode m)
unfolding active_mode matching_observer_created
active_mode-created m id mode h = ground (arith, last_value-insert-Below id mode m.active_changes h)

-- Dropping a new observer undoes its creation in the map of active mode changes, also where the map
-- was full.
pub dropped-created :
    (m : OverrideModeMap) (id mode : ℕ)
    → IsNew id m
    → (matching_observer_dropped (matching_observer_created m id mode).0 id).0 ≡ m
unfolding matching_observer_dropped matching_observer_created
dropped-created m id mode h =
    ground
      (arith, remove-insert-Below id mode m.active_changes h, remove-Below id m.active_changes h)

-- The observer is new no longer, but any later one is.
pub created-IsNew :
    (m : OverrideModeMap) (id mode : ℕ)
    → IsNew id m
    → IsNew (suc id) (matching_observer_created m id mode).0
unfolding matching_observer_created
created-IsNew m id mode h = ground (
  arith,
  Below-mono id (suc id) m.active_changes (omega arith) h,
  insert-Below id (suc id) mode m.active_changes (omega arith),
)
