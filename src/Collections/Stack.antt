-- ===== src/Collections/Stack.antt =====
-- The mode change stack of src/collections.rs under nested calls.
use coaly.Prelude.{
  ℕ, ◌≤◌, ◌<◌, ◌≡◌, refl, ap, ◌∙◌, some, List, [], ◌∷◌, ◌++◌, length, arith, if◌then◌else◌, ltb,
}
use coaly.Collections.{RecoverableStack, new, push, pop, last, top}

-- Pushes are counted only while the vector is full.
pub record IsValid {ℓ} {T : Type ℓ} (s : RecoverableStack T) : Type ℓ where
  pub bounded : length s.items ≤ s.max_capacity
  pub full : 0 < s.overflow_count → length s.items ≡ s.max_capacity

-- A function or module is entered with a value, or left.
pub data Call {ℓ} (T : Type ℓ) : Type ℓ where
  enter : T → Call T
  leave : Call T

-- What a thread calls: nothing, or a unit with the calls inside it and the calls after it.
pub data CallTree {ℓ} (T : Type ℓ) : Type ℓ where
  done : CallTree T
  call : T → CallTree T → CallTree T → CallTree T

module _ {T : Type 0} where
  abbrev pub calls : CallTree T → List (Call T)
  calls done = []
  calls (call v inner next) = enter v ∷ calls inner ++ leave ∷ calls next

  abbrev pub apply : RecoverableStack T → Call T → RecoverableStack T
  apply s (enter v) = (push s v).0
  apply s leave = (pop s).0

  abbrev pub run : RecoverableStack T → List (Call T) → RecoverableStack T
  run s [] = s
  run s (c ∷ cs) = run (apply s c) cs

  run-append :
      (s : RecoverableStack T) (cs ds : List (Call T)) → run s (cs ++ ds) ≡ run (run s cs) ds
  run-append s [] ds = refl
  run-append s (c ∷ cs) ds = run-append (apply s c) cs ds

  -- A new stack satisfies the invariant.
  pub new-IsValid : (cap initial : ℕ) → IsValid (new {T = T} cap initial)
  unfolding new
  new-IsValid cap initial = record { bounded = omega arith; full = λ h. omega arith }

  -- A push keeps the invariant.
  pub push-IsValid : (s : RecoverableStack T) (v : T) → IsValid s → IsValid (push s v).0
  unfolding push
  push-IsValid s v h = ground arith

  -- A pop undoes a push.
  pub pop-push : (s : RecoverableStack T) (v : T) → IsValid s → (pop (push s v).0).0 ≡ s
  unfolding push pop
  pop-push s v h = ground arith

  -- However deep calls nest, also beyond the capacity, a thread that has left all units that it
  -- entered finds the mode change stack as it was before, if the stack satisfied the invariant.
  pub run-calls : (t : CallTree T) (s : RecoverableStack T) → IsValid s → run s (calls t) ≡ s
  run-calls done s h = refl
  run-calls (call v inner next) s h =
      run-append (push s v).0 (calls inner) (leave ∷ calls next)
      ∙ ap (λ q. run (pop q).0 (calls next)) (run-calls inner (push s v).0 (push-IsValid s v h))
      ∙ ap (λ q. run q (calls next)) (pop-push s v h)
      ∙ run-calls next s h

  -- Inside a unit, between its complete inner calls, the stack shows the unit's value if there was
  -- room for it, and what it showed outside otherwise.
  pub last-inside :
      (s : RecoverableStack T) (v : T) (inner : CallTree T)
      → IsValid s
      → last (run (push s v).0 (calls inner))
        ≡ (if ltb (length s.items) s.max_capacity then some v else last s)
  unfolding push last
  last-inside s v inner h =
      ap last (run-calls inner (push s v).0 (push-IsValid s v h)) ∙ (ground arith)

  items-total : (xs : List T) → 0 < length xs → (v : T) × (top xs ≡ some v)
  items-total [] h = absurd (omega arith)
  items-total (x ∷ xs) h = (x, refl)

  pub last-total : (s : RecoverableStack T) → 0 < length s.items → (v : T) × (last s ≡ some v)
  unfolding last
  last-total s h = items-total s.items h

  pub push_nonempty :
      (s : RecoverableStack T) (v : T) → 0 < length s.items → 0 < length (push s v).0.items
  unfolding push
  push_nonempty s v h = ground arith
