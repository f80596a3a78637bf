-- ===== src/Agent/Modes.antt =====
-- The output modes of src/agent/worker.rs while observers come and go.
use coaly.Prelude.{
  ℕ, suc, ◌≡◌, refl, ap, ◌∙◌, Bool, List, [], ◌∷◌, Option, some, inl, inr, Bool-cases, ◌==◌,
  u32_max, if◌then◌else◌,
}
use coaly.Observer.{Text, ObserverData}
use coaly.Record.{observer_created, observer_dropped}
use coaly.Record.Data.{CommonRecordData, Moment, for_create, for_drop}
use coaly.ModeChange.{OverrideModeMap, ModeChangeDescList}
use coaly.ModeChange
use coaly.Agent.{
  ThreadStatus, ◌>>=◌, is_object, created_object, created_unit, dropped_object, dropped_unit,
  settled, changes_for, determine_mode,
}
use coaly.Agent.Openings.{Ready, created_unit-Opened, created_object-Opened}
use coaly.Agent.Threads.{IsReady, active_mode-total}

module _ {Regex : Type 0} (is_match : Regex → Text → Bool) (descs : ModeChangeDescList Regex) where
  -- `settled` cannot panic while the thread is ready.
  settled-total :
      (mode id : ℕ) (ts : ThreadStatus)
      → IsReady id ts
      → (m : ℕ) × (settled is_match descs mode ts ≡ some m)
  unfolding settled
  settled-total mode id ts h = elim (Bool-cases (mode == u32_max)) [
    | inl open_mode ↦ rw open_mode (active_mode-total id ts h)
    | inr fixed ↦ rw fixed (mode, refl)
  ]

  -- The maps and the thread's status after a record.
  unfoldable pub after_record :
      OverrideModeMap → ThreadStatus → CommonRecordData → Option (OverrideModeMap × ThreadStatus)
  after_record glob ts r = do
    (mode, glob1, ts1) ← determine_mode is_match descs glob ts r
    some (glob1, ts1)

  unfoldable pub after_records :
      OverrideModeMap
      → ThreadStatus
      → List CommonRecordData
      → Option (OverrideModeMap × ThreadStatus)
  after_records glob ts [] = some (glob, ts)
  after_records glob ts (r ∷ rs) = do
    (glob1, ts1) ← after_record glob ts r
    after_records glob1 ts1 rs

  -- What a creation leaves behind, and that the drop takes it back.
  pub record Created (o : ObserverData) (glob : OverrideModeMap) (ts : ThreadStatus)
      (result : Option (OverrideModeMap × ThreadStatus)) : Type 0 where
    pub glob1 : OverrideModeMap
    pub ts1 : ThreadStatus
    pub returns : result ≡ some (glob1, ts1)
    pub ready : Ready (suc o.id) glob1 ts1
    pub undone : (at : Moment) → after_record glob1 ts1 (for_drop at o) ≡ some (glob, ts)

  pub after_record-eq :
      (id m : ℕ) (glob g1 : OverrideModeMap) (ts t1 : ThreadStatus) (r : CommonRecordData)
      → changes_for is_match descs r.trigger (ModeChange.active_mode glob) glob ts r
        ≡ some (m, g1, t1)
      → IsReady id t1
      → after_record glob ts r ≡ some (g1, t1)
  unfolding after_record determine_mode
  after_record-eq id m glob g1 ts t1 r e h =
      let (f, ef) = settled-total m id t1 h in rw (e, ◌>>=◌) (rw (ef, ◌>>=◌))

  created-changes :
      (glob : OverrideModeMap) (ts : ThreadStatus) (r : CommonRecordData)
      → r.trigger ≡ observer_created
      → changes_for is_match descs r.trigger (ModeChange.active_mode glob) glob ts r ≡ (
          if is_object r.level
          then created_object is_match descs (ModeChange.active_mode glob) glob ts r
          else created_unit is_match descs (ModeChange.active_mode glob) glob ts r)
  unfolding changes_for
  created-changes glob ts r e = rw e

  dropped-changes :
      (id : ℕ) (glob : OverrideModeMap) (ts : ThreadStatus) (r : CommonRecordData)
      → IsReady id ts
      → r.trigger ≡ observer_dropped
      → (m : ℕ) × (changes_for is_match descs r.trigger (ModeChange.active_mode glob) glob ts r
          ≡ some (
              if is_object r.level
              then dropped_object is_match descs m glob ts r
              else dropped_unit is_match descs m glob ts r))
  unfolding changes_for
  dropped-changes id glob ts r h e =
      let (m, em) = settled-total (ModeChange.active_mode glob) id ts h in
      (m, rw e (rw (em, ◌>>=◌)))

  -- The creation of an observer that is new succeeds, and its drop restores what was before.
  pub for_create-Created :
      (at : Moment) (o : ObserverData) (line : ℕ) (glob : OverrideModeMap) (ts : ThreadStatus)
      → Ready o.id glob ts
      → Created o glob ts (after_record glob ts (for_create at o line))
  unfolding for_create for_drop created_object dropped_object dropped_unit
  for_create-Created at o line glob ts h =
      let r = for_create at o line in
      elim (Bool-cases (is_object r.level)) [
        | inl obj ↦
            let c =
              created_object-Opened is_match descs (ModeChange.active_mode glob) glob ts r h in
            record {
              glob1 = c.glob1;
              ts1 = c.ts1;
              returns =
                  after_record-eq (suc o.id) c.mode glob c.glob1 ts c.ts1 r
                    (created-changes glob ts r refl ∙ rw obj c.returns) c.ready.thread;
              ready = c.ready;
              undone = λ at'.
                  let (m, em) =
                    dropped-changes (suc o.id) c.glob1 c.ts1 (for_drop at' o) c.ready.thread refl in
                  after_record-eq o.id m c.glob1 glob c.ts1 ts (for_drop at' o)
                    (em ∙ rw obj (ap some (c.undone m))) h.thread;
            }
        | inr unit ↦
            let c = created_unit-Opened is_match descs (ModeChange.active_mode glob) glob ts r h in
            record {
              glob1 = c.glob1;
              ts1 = c.ts1;
              returns =
                  after_record-eq (suc o.id) c.mode glob c.glob1 ts c.ts1 r
                    (created-changes glob ts r refl ∙ rw unit c.returns) c.ready.thread;
              ready = c.ready;
              undone = λ at'.
                  let (m, em) =
                    dropped-changes (suc o.id) c.glob1 c.ts1 (for_drop at' o) c.ready.thread refl in
                  after_record-eq o.id m c.glob1 glob c.ts1 ts (for_drop at' o)
                    (em ∙ rw unit (ap some (c.undone m))) h.thread;
            }
      ]
