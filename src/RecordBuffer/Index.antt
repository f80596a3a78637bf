-- ===== src/RecordBuffer/Index.antt =====
-- The circular index table of src/output/recordbuffer.rs: the entries from one index on.
use coaly.Prelude.{
  ℕ, zero, suc, ◌+◌, ◌-◌, ◌≤◌, ◌≡◌, refl, ap, ap₂, ◌∙◌, List, [], ◌∷◌, ◌++◌, length, get_or, set,
  arith, leb, if◌then◌else◌, get_or-set_self, get_or-set_ne,
}
use coaly.RecordBuffer.{next_index}

module _ (top : ℕ) where
  -- The index `n` steps behind `i`.
  unfoldable pub ahead : ℕ → ℕ → ℕ
  ahead i zero = i
  ahead i (suc n) = ahead (next_index top i) n

  -- The `n` entries from index `i` on.
  unfoldable pub window : List ℕ → ℕ → ℕ → List ℕ
  window table i zero = []
  window table i (suc n) = get_or table i 0 ∷ window table (next_index top i) n

  pub ahead-eq :
      (i n : ℕ)
      → i ≤ top
      → n ≤ top
      → ahead i n ≡ (if leb (i + n) top then i + n else i + n - (top + 1))
  unfolding ahead
  ahead-eq i zero h k = ground arith
  ahead-eq i (suc n) h k = ground (arith, ahead-eq (next_index top i) n)

  pub ahead-suc : (i n : ℕ) → ahead i (suc n) ≡ next_index top (ahead i n)
  unfolding ahead
  ahead-suc i zero = refl
  ahead-suc i (suc n) = ahead-suc (next_index top i) n

  pub next_index-le : (i : ℕ) → i ≤ top → next_index top i ≤ top
  next_index-le i h = ground arith

  pub ahead-le : (i n : ℕ) → i ≤ top → ahead i n ≤ top
  unfolding ahead
  ahead-le i zero h = h
  ahead-le i (suc n) h = ahead-le (next_index top i) n (next_index-le i h)

  -- The entry at the end of a window.
  pub window-suc :
      (table : List ℕ) (i n : ℕ)
      → window table i (suc n) ≡ window table i n ++ get_or table (ahead i n) 0 ∷ []
  unfolding window ahead
  window-suc table i zero = refl
  window-suc table i (suc n) =
      ap (λ l. get_or table i 0 ∷ l) (window-suc table (next_index top i) n)

  -- Entries up to `n` steps ahead of `i`, when the one further is written.
  window-set_from :
      (table : List ℕ) (i j k n v : ℕ)
      → i ≤ top
      → j ≡ ahead i k
      → n ≤ k
      → k ≤ top
      → window (set table j v) i n ≡ window table i n
  unfolding window
  window-set_from table i j k zero v h e p q = refl
  window-set_from table i j zero (suc n) v h e p q = absurd (omega arith)
  window-set_from table i j (suc k) (suc n) v h e p q =
      ap₂ ◌∷◌ (get_or-set_ne table j i v 0 (ground (arith, ahead-eq i (suc k)))) (
        window-set_from table (next_index top i) j k n v (next_index-le i h)
          (e ∙ unfold ahead in refl) (omega arith) (omega arith))

  -- Writing the entry behind a window prolongs it.
  pub window-set :
      (table : List ℕ) (i n v : ℕ)
      → length table ≡ top + 1
      → i ≤ top
      → n ≤ top
      → window (set table (ahead i n) v) i (suc n) ≡ window table i n ++ v ∷ []
  window-set table i n v s h k =
      window-suc (set table (ahead i n) v) i n
      ∙ ap₂ (λ l x. l ++ x ∷ []) (window-set_from table i (ahead i n) n n v h refl (omega arith) k)
          (get_or-set_self table (ahead i n) v 0 (omega (arith, ahead-le i n h)))
