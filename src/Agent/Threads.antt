-- ===== src/Agent/Threads.antt =====
-- The status of a thread, src/agent/threadstatus.rs: when it has a mode, and what undoes what.
use coaly.Prelude.{
  ℕ, suc, ◌<◌, ◌≡◌, refl, ap, Option, some, length, arith, inl, inr, Bool-cases, ◌==◌, u32_max,
}
use coaly.Collections
use coaly.Collections.Stack
use coaly.Collections.Stack.{IsValid, push-IsValid, pop-push, last-total, push_nonempty}
use coaly.ModeChange
use coaly.Prelude.OrderedMap.{Below-mono}
use coaly.ModeChange.Active.{IsNew, created-IsNew, dropped-created}
use coaly.Agent.{
  ThreadStatus, Configuration, new_status, active_mode, unit_entered, unit_left, object_created,
  object_dropped, override,
}

-- The thread's stack is sound and has a mode, and the changes that objects of this thread have
-- made come from observers with smaller IDs than `id`.
pub record IsReady (id : ℕ) (ts : ThreadStatus) : Type 0 where
  pub stack : IsValid ts.unit_mode_stack
  pub nonempty : 0 < length ts.unit_mode_stack.items
  pub fresh : IsNew id ts.obj_mode_map

-- A new thread is ready for every observer, if the configured stack has room for one mode.
pub new_status-IsReady :
    {Regex : Type 0} (config : Configuration Regex) (id : ℕ)
    → 0 < config.change_stack_size
    → IsReady id (new_status config)
unfolding new_status ModeChange.new
new_status-IsReady config id h = record {
  stack = push-IsValid _ _ (Stack.new-IsValid config.change_stack_size 256);
  nonempty = ground arith;
  fresh = tt;
}

-- A ready thread has a mode: `unwrap` does not panic.
pub active_mode-total :
    (id : ℕ) (ts : ThreadStatus) → IsReady id ts → (mode : ℕ) × (active_mode ts ≡ some mode)
unfolding active_mode
active_mode-total id ts h = elim (Bool-cases (ModeChange.active_mode ts.obj_mode_map == u32_max)) [
  | inl open_mode ↦ rw open_mode (last-total ts.unit_mode_stack h.nonempty)
  | inr fixed ↦ rw fixed (ModeChange.active_mode ts.obj_mode_map, refl)
]

-- What a thread's status is after a unit was entered or an object was created.
pub record Entered (id : ℕ) (ts : ThreadStatus) (undo : ThreadStatus → ThreadStatus)
    (result : Option (ℕ × ThreadStatus)) : Type 0 where
  pub mode : ℕ
  pub after : ThreadStatus
  pub returns : result ≡ some (mode, after)
  pub ready : IsReady (suc id) after
  pub undone : undo after ≡ ts

pub IsReady-later : (id : ℕ) (ts : ThreadStatus) → IsReady id ts → IsReady (suc id) ts
IsReady-later id ts h = record {
  stack = h.stack;
  nonempty = h.nonempty;
  fresh = Below-mono id (suc id) ts.obj_mode_map.active_changes (omega arith) h.fresh;
}

-- A ready thread can enter a unit, and leaving it restores the status.
pub unit_entered-Entered :
    (id : ℕ) (ts : ThreadStatus) (mode : ℕ)
    → IsReady id ts
    → Entered id ts unit_left (unit_entered ts mode)
unfolding unit_entered unit_left
unit_entered-Entered id ts mode h =
    let (curr, e) = active_mode-total id ts h in
    let new_mode : ℕ = override curr mode in
    let after : ThreadStatus = record ts {
      unit_mode_stack = (Collections.push ts.unit_mode_stack new_mode).0;
    } in
    record {
      mode = new_mode;
      after = after;
      returns = rw e;
      ready = record {
        stack = push-IsValid ts.unit_mode_stack new_mode h.stack;
        nonempty = push_nonempty ts.unit_mode_stack new_mode h.nonempty;
        fresh = (IsReady-later id ts h).fresh;
      };
      undone =
          ap (λ s. record ts { unit_mode_stack = s })
            (pop-push ts.unit_mode_stack new_mode h.stack);
    }

-- A ready thread can register a new object, and dropping it restores the status.
pub object_created-Entered :
    (id : ℕ) (ts : ThreadStatus) (mode : ℕ)
    → IsReady id ts
    → Entered id ts (λ after. object_dropped after id) (object_created ts id mode)
unfolding object_created object_dropped
object_created-Entered id ts mode h =
    let (curr, e) = active_mode-total id ts h in
    let new_mode : ℕ = override curr mode in
    let after : ThreadStatus = record ts {
      obj_mode_map = (ModeChange.matching_observer_created ts.obj_mode_map id new_mode).0;
    } in
    record {
      mode = new_mode;
      after = after;
      returns = rw e;
      ready = record {
        stack = h.stack;
        nonempty = h.nonempty;
        fresh = created-IsNew ts.obj_mode_map id new_mode h.fresh;
      };
      undone =
          ap (λ m. record ts { obj_mode_map = m })
            (dropped-created ts.obj_mode_map id new_mode h.fresh);
    }
