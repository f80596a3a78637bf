-- ===== src/Agent/Openings.antt =====
-- The output modes of src/agent/worker.rs when an observer comes, and what its drop makes of them.
use coaly.Prelude.{
  ℕ, suc, ◌≡◌, refl, ap, ap₂, Bool, true, false, Option, some, arith, inl, inr, Bool-cases, not,
  ◌==◌, u32_max, if◌then◌else◌,
}
use coaly.Prelude.OrderedMap.{Below-mono}
use coaly.Observer.{Text}
use coaly.Record.Data.{CommonRecordData}
use coaly.ModeChange.{OverrideModeMap, ModeChangeDescList}
use coaly.ModeChange
use coaly.ModeChange.Active.{IsNew, created-IsNew, dropped-created}
use coaly.Agent.{
  ThreadStatus, Modes, created_object, created_unit, dropped_object, dropped_unit, glob_mode_of,
  loc_mode_of, unit_mode_of, enter_local,
}
use coaly.Agent.Threads.{IsReady, IsReady-later, unit_entered-Entered, object_created-Entered}

-- Process and thread are sound, and all active changes come from observers before `id`.
pub record Ready (id : ℕ) (glob : OverrideModeMap) (ts : ThreadStatus) : Type 0 where
  pub thread : IsReady id ts
  pub global : IsNew id glob

Ready-later :
    (id : ℕ) (glob : OverrideModeMap) (ts : ThreadStatus)
    → Ready id glob ts
    → Ready (suc id) glob ts
Ready-later id glob ts h = record {
  thread = IsReady-later id ts h.thread;
  global = Below-mono id (suc id) glob.active_changes (omega arith) h.global;
}

module _ {Regex : Type 0} (is_match : Regex → Text → Bool) (descs : ModeChangeDescList Regex) where
  -- What has happened after a creation, and what the drop of the same observer makes of it.
  pub record Opened (r : CommonRecordData) (glob : OverrideModeMap) (ts : ThreadStatus)
      (drop_it : ℕ → OverrideModeMap → ThreadStatus → CommonRecordData → Modes)
      (result : Option Modes) : Type 0 where
    pub mode : ℕ
    pub glob1 : OverrideModeMap
    pub ts1 : ThreadStatus
    pub returns : result ≡ some (mode, glob1, ts1)
    pub ready : Ready (suc r.observer_id) glob1 ts1
    pub undone : (m : ℕ) → drop_it m glob1 ts1 r ≡ (m, glob, ts)

  pub created_unit-Opened :
      (mode : ℕ) (glob : OverrideModeMap) (ts : ThreadStatus) (r : CommonRecordData)
      → Ready r.observer_id glob ts
      → Opened r glob ts (dropped_unit is_match descs) (created_unit is_match descs mode glob ts r)
  unfolding created_unit dropped_unit
  created_unit-Opened mode glob ts r h =
      elim (Bool-cases (unit_mode_of is_match descs r == u32_max)) [
        | inl open_mode ↦ record {
          mode = mode;
          glob1 = glob;
          ts1 = ts;
          returns = rw (open_mode, created_unit);
          ready = Ready-later r.observer_id glob ts h;
          undone = λ m. rw (open_mode, dropped_unit);
        }
        | inr changes ↦
            let e =
              unit_entered-Entered r.observer_id ts (unit_mode_of is_match descs r) h.thread in
            record {
              mode = if mode == u32_max then e.mode else mode;
              glob1 = glob;
              ts1 = e.after;
              returns = rw (changes, created_unit) (ap (enter_local mode glob ts) e.returns);
              ready = record {
                thread = e.ready;
                global = (Ready-later r.observer_id glob ts h).global;
              };
              undone = λ m. rw (changes, dropped_unit) (ap (λ t. (m, glob, t)) e.undone);
            }
      ]

  -- The process wide part of an object's creation and of its drop.
  abbrev open_glob : Bool → OverrideModeMap → CommonRecordData → OverrideModeMap
  open_glob changes glob r =
      if changes
      then (ModeChange.matching_observer_created glob r.observer_id
          (glob_mode_of is_match descs r)).0
      else glob

  abbrev close_glob : Bool → OverrideModeMap → CommonRecordData → OverrideModeMap
  close_glob changes glob r =
      if changes then (ModeChange.matching_observer_dropped glob r.observer_id).0 else glob

  open_glob-IsNew :
      (b : Bool) (glob : OverrideModeMap) (r : CommonRecordData)
      → IsNew r.observer_id glob
      → IsNew (suc r.observer_id) (open_glob b glob r)
  open_glob-IsNew true glob r h = created-IsNew glob r.observer_id _ h
  open_glob-IsNew false glob r h =
      Below-mono r.observer_id (suc r.observer_id) glob.active_changes (omega arith) h

  close_glob-open_glob :
      (b : Bool) (glob : OverrideModeMap) (r : CommonRecordData)
      → IsNew r.observer_id glob
      → close_glob b (open_glob b glob r) r ≡ glob
  close_glob-open_glob true glob r h = dropped-created glob r.observer_id _ h
  close_glob-open_glob false glob r h = refl

  pub created_object-Opened :
      (mode : ℕ) (glob : OverrideModeMap) (ts : ThreadStatus) (r : CommonRecordData)
      → Ready r.observer_id glob ts
      → Opened r glob ts
          (dropped_object is_match descs)
          (created_object is_match descs mode glob ts r)
  unfolding created_object dropped_object
  created_object-Opened mode glob ts r h =
      let b = not (glob_mode_of is_match descs r == u32_max) in
      let mode1 = if b then glob_mode_of is_match descs r else mode in
      let glob1 = open_glob b glob r in
      elim (Bool-cases (loc_mode_of is_match descs r == u32_max)) [
        | inl open_mode ↦ record {
          mode = mode1;
          glob1 = glob1;
          ts1 = ts;
          returns = rw (open_mode, created_object);
          ready = record {
            thread = IsReady-later r.observer_id ts h.thread;
            global = open_glob-IsNew b glob r h.global;
          };
          undone = λ m.
              rw (open_mode, dropped_object)
                (ap (λ g. (m, g, ts)) (close_glob-open_glob b glob r h.global));
        }
        | inr changes ↦
            let e =
              object_created-Entered r.observer_id ts (loc_mode_of is_match descs r) h.thread in
            record {
              mode = if mode1 == u32_max then e.mode else mode1;
              glob1 = glob1;
              ts1 = e.after;
              returns = rw (changes, created_object) (ap (enter_local mode1 glob1 ts) e.returns);
              ready = record { thread = e.ready; global = open_glob-IsNew b glob r h.global };
              undone = λ m.
                  rw (changes, dropped_object)
                    (ap₂ (λ g t. (m, g, t)) (close_glob-open_glob b glob r h.global) e.undone);
            }
      ]
