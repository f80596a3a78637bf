-- ===== src/Prelude/Texts.antt =====
-- Texts as lists of bytes: equality, order and a `BTreeMap` with texts as keys, its entries in
-- ascending order.
use Prim.Native.Nat.{ℕ}
use Prim.Native.Char.{code}
use Prim.Native.String.{String}
use mathlib.Core.Path.{◌≡◌, refl, ap₂}
use mathlib.Core.Bool.{Bool, true, false}
use mathlib.Core.List.{List, [], ◌∷◌, ◌++◌}
use native.Mathlib.Omega.{arith}
use mathlib.Core.Logic.{inl, inr}
use coaly.Prelude.Tests.{ltb, ◌==◌, if◌then◌else◌, Bool-cases, ==→eq}

abbrev pub Text : Type 0
Text = List ℕ

-- The bytes of a text in ASCII.
abbrev pub codes : String → Text
codes String.[] = []
codes (String.◌∷◌ c s) = code c ∷ codes s

abbrev pub same_text : Text → Text → Bool
same_text [] [] = true
same_text [] (d ∷ ds) = false
same_text (c ∷ cs) [] = false
same_text (c ∷ cs) (d ∷ ds) = if c == d then same_text cs ds else false

-- `Ord` of `str`: by bytes, from the front.
unfoldable pub text_lt : Text → Text → Bool
text_lt [] [] = false
text_lt [] (d ∷ ds) = true
text_lt (c ∷ cs) [] = false
text_lt (c ∷ cs) (d ∷ ds) = if c == d then text_lt cs ds else ltb c d

pub same_text_refl : (k : Text) → same_text k k ≡ true
same_text_refl [] = refl
same_text_refl (c ∷ cs) = let e : (c == c) ≡ true = ground arith in rw e (same_text_refl cs)

pub same_text→eq : (a b : Text) → same_text a b ≡ true → a ≡ b
same_text→eq [] [] h = refl
same_text→eq [] (d ∷ ds) h = absurd cc
same_text→eq (c ∷ cs) [] h = absurd cc
same_text→eq (c ∷ cs) (d ∷ ds) h = elim (Bool-cases (c == d)) [
  | inl e ↦ ap₂ (λ x xs. x ∷ xs) (==→eq c d e) (same_text→eq cs ds (ground arith))
  | inr e ↦ absurd (ground arith)
]

pub same_text-ne : (a b : Text) → ¬ (a ≡ b) → same_text a b ≡ false
same_text-ne a b h = elim (Bool-cases (same_text a b)) [
  | inl e ↦ absurd (h (same_text→eq a b e))
  | inr e ↦ e
]

pub text_lt-asymm : (a b : Text) → text_lt a b ≡ true → text_lt b a ≡ false
unfolding text_lt
text_lt-asymm [] [] h = refl
text_lt-asymm [] (d ∷ ds) h = refl
text_lt-asymm (c ∷ cs) [] h = cc
text_lt-asymm (c ∷ cs) (d ∷ ds) h = ground (arith, text_lt-asymm cs ds)

pub text_lt-ne : (a b : Text) → text_lt a b ≡ true → same_text b a ≡ false
unfolding text_lt
text_lt-ne [] [] h = cc
text_lt-ne [] (d ∷ ds) h = refl
text_lt-ne (c ∷ cs) [] h = refl
text_lt-ne (c ∷ cs) (d ∷ ds) h = ground (arith, text_lt-ne cs ds)

abbrev pub TextMap {ℓ} : Type ℓ → Type ℓ
TextMap V = List (Text × V)

module _ {ℓ} {V : Type ℓ} where
  unfoldable pub insert : Text → V → TextMap V → TextMap V
  insert k v [] = (k, v) ∷ []
  insert k v ((j, w) ∷ m) =
      if text_lt k j
      then (k, v) ∷ (j, w) ∷ m
      else if same_text k j
      then (k, v) ∷ m
      else (j, w) ∷ insert k v m

  -- All keys lie below `k`.
  abbrev pub Below : Text → TextMap V → Type 0
  Below k [] = Unit {0}
  Below k ((j, w) ∷ m) = (text_lt j k ≡ true) × Below k m

  -- Each key lies above `below` and those before it.
  pub insert-Below :
      (k : Text) (v : V) (m : TextMap V) → Below k m → insert k v m ≡ m ++ (k, v) ∷ []
  unfolding insert
  insert-Below k v [] b = refl
  insert-Below k v ((j, w) ∷ m) b =
      rw (text_lt-asymm j k b.0, text_lt-ne j k b.0, insert-Below k v m b.1) refl
