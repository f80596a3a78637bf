-- ===== src/Agent/Scopes.antt =====
-- Nested observers of one thread, as src/agent/worker.rs sees them: functions, modules and objects
-- live in scopes, and records are written inside.
use coaly.Prelude.{
  ℕ, suc, ◌≤◌, ◌≡◌, refl, ◌∙◌, Bool, List, [], ◌∷◌, ◌++◌, some, arith, Option-cases, inl, inr,
}
use coaly.Prelude.OrderedMap.{Below-mono}
use coaly.Observer.{Text, ObserverData}
use coaly.Record.{RecordLevelId}
use coaly.Record.Data.{CommonRecordData, Moment, for_write, for_create, for_drop}
use coaly.ModeChange
use coaly.ModeChange.{OverrideModeMap, ModeChangeDescList}
use coaly.Agent.{ThreadStatus, ◌>>=◌, changes_for}
use coaly.Agent.Openings.{Ready}
use coaly.Agent.Modes.{after_record, after_records, after_record-eq, for_create-Created}

pub data Scopes : Type 0 where
  done : Scopes
  write : Moment → RecordLevelId → ℕ → Text → Scopes → Scopes
  observe : Moment → Moment → ℕ → ObserverData → Scopes → Scopes → Scopes

-- The records in the order in which they are sent to the worker.
abbrev pub records : Scopes → List CommonRecordData
records done = []
records (write at level line msg next) = for_write at level line msg ∷ records next
records (observe at at' line o inner next) =
    for_create at o line ∷ (records inner ++ for_drop at' o ∷ records next)

-- Each observer has a larger ID than those created before it; the smallest is `n` at least.
abbrev pub Ascending : ℕ → Scopes → Type 0
Ascending n done = Unit {0}
Ascending n (write at level line msg next) = Ascending n next
Ascending n (observe at at' line o inner next) =
    (n ≤ o.id) × Ascending (suc o.id) inner × Ascending (suc o.id) next

Ready-mono :
    (n k : ℕ) (glob : OverrideModeMap) (ts : ThreadStatus)
    → n ≤ k
    → Ready n glob ts
    → Ready k glob ts
Ready-mono n k glob ts h r = record {
  thread = record {
    stack = r.thread.stack;
    nonempty = r.thread.nonempty;
    fresh = Below-mono n k ts.obj_mode_map.active_changes h r.thread.fresh;
  };
  global = Below-mono n k glob.active_changes h r.global;
}

module _ {Regex : Type 0} (is_match : Regex → Text → Bool) (descs : ModeChangeDescList Regex) where
  after_records-append :
      (glob : OverrideModeMap) (ts : ThreadStatus) (rs qs : List CommonRecordData)
      → after_records is_match descs glob ts (rs ++ qs)
        ≡ (after_records is_match descs glob ts rs >>= λ s. after_records is_match descs s.0 s.1 qs)
  unfolding after_records
  after_records-append glob ts [] qs = refl
  after_records-append glob ts (r ∷ rs) qs =
      elim (Option-cases (after_record is_match descs glob ts r)) [
        | inl e ↦ rw (e, ◌>>=◌)
        | inr ((glob1, ts1), e) ↦ rw (e, ◌>>=◌) (after_records-append glob1 ts1 rs qs)
      ]

  written :
      (n : ℕ) (glob : OverrideModeMap) (ts : ThreadStatus) (at : Moment) (level : RecordLevelId)
      (line : ℕ) (msg : Text)
      → Ready n glob ts
      → after_record is_match descs glob ts (for_write at level line msg) ≡ some (glob, ts)
  unfolding changes_for for_write
  written n glob ts at level line msg h =
      after_record-eq is_match descs n (ModeChange.active_mode glob) glob glob ts ts _ refl h.thread

  -- Whatever the configured mode changes are, when all observers of nested scopes with ascending
  -- IDs have been dropped, process and thread are in the state in which they were before, if they
  -- were sound, and no record on the way makes the worker panic.
  pub records-restore :
      (n : ℕ) (glob : OverrideModeMap) (ts : ThreadStatus) (t : Scopes)
      → Ready n glob ts
      → Ascending n t
      → after_records is_match descs glob ts (records t) ≡ some (glob, ts)
  unfolding after_records
  records-restore n glob ts done h a = refl
  records-restore n glob ts (write at level line msg next) h a =
      rw (written n glob ts at level line msg h, ◌>>=◌) (records-restore n glob ts next h a)
  records-restore n glob ts (observe at at' line o inner next) h a =
      let c =
        for_create-Created is_match descs at o line glob ts (Ready-mono n o.id glob ts a.0 h) in
      rw (c.returns, ◌>>=◌)
        (after_records-append c.glob1 c.ts1 (records inner) (for_drop at' o ∷ records next)
          ∙ rw (records-restore (suc o.id) c.glob1 c.ts1 inner c.ready a.1, ◌>>=◌)
              (rw (c.undone at', ◌>>=◌)
                (records-restore (suc o.id) glob ts next
                  (Ready-mono n (suc o.id) glob ts (omega arith) h) a.2)))
