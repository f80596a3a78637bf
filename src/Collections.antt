-- ===== src/Collections.antt =====
-- src/collections.rs: the stack with an overflow counter, and the two containers with a default
-- element.
pub mod Stack
pub mod Defaults
use coaly.Prelude.{
  ℕ, ◌+◌, ◌-◌, ◌≡◌, Bool, true, false, Option, none, some, List, [], ◌∷◌, ◌++◌, leb, ◌==◌,
  if◌then◌else◌, length,
}

-- The head of `items` is the back of the source's vector.
pub record RecoverableStack {ℓ} (T : Type ℓ) : Type ℓ where
  pub items : List T
  pub overflow_count : ℕ
  pub max_capacity : ℕ

module _ {ℓ} {T : Type ℓ} where
  abbrev top : List T → Option T
  top [] = none
  top (x ∷ xs) = some x

  abbrev pop_items : List T → List T
  pop_items [] = []
  pop_items (x ∷ xs) = xs

  -- The initial capacity only reserves memory.
  unfoldable pub new : ℕ → ℕ → RecoverableStack T
  new max_capacity initial_capacity = record {
    items = [];
    overflow_count = 0;
    max_capacity = max_capacity;
  }

  unfoldable pub push : RecoverableStack T → T → RecoverableStack T × Bool
  push s value =
      if leb s.max_capacity (length s.items)
      then (record s { overflow_count = s.overflow_count + 1 }, false)
      else (record s { items = value ∷ s.items }, true)

  unfoldable pub pop : RecoverableStack T → RecoverableStack T × Option T
  pop s =
      if s.overflow_count == 0
      then (record s { items = pop_items s.items }, top s.items)
      else (record s { overflow_count = s.overflow_count - 1 }, none)

  unfoldable pub last : RecoverableStack T → Option T
  last s = top s.items
