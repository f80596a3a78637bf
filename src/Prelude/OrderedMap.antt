-- ===== src/Prelude/OrderedMap.antt =====
-- A `BTreeMap` with number keys: its entries in ascending order of their keys.
use Prim.Native.Nat.{ℕ, ◌<◌, ◌≤◌}
use mathlib.Core.Path.{◌≡◌, refl}
use mathlib.Core.Logic.{◌≢◌}
use mathlib.Core.Option.{Option, none, some}
use mathlib.Core.List.{List, [], ◌∷◌}
use native.Mathlib.Omega.{arith}
use coaly.Prelude.Tests.{ltb, ◌==◌, if◌then◌else◌}

abbrev pub OrderedMap {ℓ} : Type ℓ → Type ℓ
OrderedMap V = List (ℕ × V)

module _ {V : Type 0} where
  unfoldable pub insert : ℕ → V → OrderedMap V → OrderedMap V
  insert k v [] = (k, v) ∷ []
  insert k v ((j, w) ∷ m) =
      if ltb k j then (k, v) ∷ (j, w) ∷ m else if k == j then (k, v) ∷ m else (j, w) ∷ insert k v m

  unfoldable pub remove : ℕ → OrderedMap V → OrderedMap V
  remove k [] = []
  remove k ((j, w) ∷ m) = if k == j then m else (j, w) ∷ remove k m

  unfoldable pub lookup : ℕ → OrderedMap V → Option V
  lookup k [] = none
  lookup k ((j, w) ∷ m) = if k == j then some w else lookup k m

  -- The value of `iter().last()`.
  unfoldable pub last_value : OrderedMap V → Option V
  last_value [] = none
  last_value ((j, w) ∷ []) = some w
  last_value ((j, w) ∷ e ∷ m) = last_value (e ∷ m)

  -- All keys lie below `k`.
  abbrev pub Below : ℕ → OrderedMap V → Type 0
  Below k [] = Unit {0}
  Below k ((j, w) ∷ m) = (j < k) × Below k m

  pub Below-mono : (j k : ℕ) (m : OrderedMap V) → j ≤ k → Below j m → Below k m
  Below-mono j k [] h b = tt
  Below-mono j k ((i, w) ∷ m) h b = (omega arith, Below-mono j k m h b.1)

  pub remove-insert-Below :
      (k : ℕ) (v : V) (m : OrderedMap V) → Below k m → remove k (insert k v m) ≡ m
  unfolding remove insert
  remove-insert-Below k v [] b = ground arith
  remove-insert-Below k v ((j, w) ∷ m) b = ground (arith, remove-insert-Below k v m b.1)

  pub remove-Below : (k : ℕ) (m : OrderedMap V) → Below k m → remove k m ≡ m
  unfolding remove
  remove-Below k [] b = refl
  remove-Below k ((j, w) ∷ m) b = ground (arith, remove-Below k m b.1)

  insert-ne-nil : (k : ℕ) (v : V) (m : OrderedMap V) → insert k v m ≢ []
  unfolding insert
  insert-ne-nil k v [] e = cc
  insert-ne-nil k v ((j, w) ∷ m) e = ground arith

  last_value-cons :
      (j : ℕ) (w : V) (m : OrderedMap V) → m ≢ [] → last_value ((j, w) ∷ m) ≡ last_value m
  unfolding last_value
  last_value-cons j w [] h = absurd (h refl)
  last_value-cons j w (e ∷ m) h = refl

  pub last_value-insert-Below :
      (k : ℕ) (v : V) (m : OrderedMap V) → Below k m → last_value (insert k v m) ≡ some v
  unfolding insert
  last_value-insert-Below k v [] b = unfold last_value in refl
  last_value-insert-Below k v ((j, w) ∷ m) b = ground (
    arith,
    last_value-insert-Below k v m b.1,
    last_value-cons j w (insert k v m) (insert-ne-nil k v m),
  )

  pub insert-Below :
      (i k : ℕ) (v : V) (m : OrderedMap V) → i < k → Below k m → Below k (insert i v m)
  unfolding insert
  insert-Below i k v [] h b = (h, tt)
  insert-Below i k v ((j, w) ∷ m) h b = ground (arith, insert-Below i k v m h b.1)

  pub lookup-insert :
      (k j : ℕ) (v : V) (m : OrderedMap V)
      → lookup j (insert k v m) ≡ (if j == k then some v else lookup j m)
  unfolding lookup insert
  lookup-insert k j v [] = refl
  lookup-insert k j v ((i, w) ∷ m) = ground (arith, lookup-insert k j v m)
