-- ===== src/ModeChange/Lookup.antt =====
-- Which mode change descriptor of src/modechange.rs decides for an observer.
use coaly.Prelude.{
  ℕ, ◌+◌, ◌*◌, ◌%◌, ◌^◌, ◌≡◌, refl, ap, ◌∙◌, Bool, true, false, Option, List, [], ◌∷◌, ◌++◌, ◌⊎◌,
  inl, inr, Bool-cases, arith, All, low_half, high_half, u32_max, if◌then◌else◌, ◌||◌,
}
use coaly.Observer.{Text}
use coaly.ModeChange.{ModeChangeDesc, applies_to, mode_for}

-- The mode that a descriptor stands for.
abbrev pub mode_of : {Regex : Type 0} → ModeChangeDesc Regex → ℕ
mode_of d = d.buffered_levels * 2 ^ 16 % 2 ^ 32 + low_half d.enabled_levels

module _ {Regex : Type 0} (is_match : Regex → Text → Bool) (name value : Option Text) where
  abbrev pub Skips : ModeChangeDesc Regex → Type 0
  Skips d = applies_to is_match d name value ≡ false

  -- `d` is the first descriptor of `descs` that applies.
  pub record IsFirst (descs : List (ModeChangeDesc Regex)) (d : ModeChangeDesc Regex) : Type 0 where
    pub before : List (ModeChangeDesc Regex)
    pub after : List (ModeChangeDesc Regex)
    pub splits : descs ≡ before ++ d ∷ after
    pub skipped : All Skips before
    pub applies : applies_to is_match d name value ≡ true

  IsFirst-later :
      (e : ModeChangeDesc Regex) {ds : List (ModeChangeDesc Regex)} {d : ModeChangeDesc Regex}
      → Skips e
      → IsFirst ds d
      → IsFirst (e ∷ ds) d
  IsFirst-later e h f = record {
    before = e ∷ f.before;
    after = f.after;
    splits = ap (λ l. e ∷ l) f.splits;
    skipped = (h, f.skipped);
    applies = f.applies;
  }

  -- The lookup returns the mode of the first descriptor that applies, and `u32::MAX` if all
  -- descriptors are skipped.
  pub mode_for-IsFirst :
      (descs : List (ModeChangeDesc Regex))
      → ((d : ModeChangeDesc Regex) × IsFirst descs d
          × (mode_for is_match descs name value ≡ mode_of d))
        ⊎ (All Skips descs × (mode_for is_match descs name value ≡ u32_max))
  unfolding mode_for
  mode_for-IsFirst [] = inr (tt, refl)
  mode_for-IsFirst (d ∷ ds) = elim (Bool-cases (applies_to is_match d name value)) [
    | inl hit ↦ inl (
      d,
      record { before = []; after = ds; splits = refl; skipped = tt; applies = hit },
      rw (hit, mode_for),
    )
    | inr miss ↦ elim (mode_for-IsFirst ds) [
      | inl (e, first, found) ↦ inl (e, IsFirst-later d miss first, rw (miss, mode_for) found)
      | inr (skips, absent) ↦ inr ((miss, skips), rw (miss, mode_for) absent)
    ]
  ]

  abbrev any_applies : List (ModeChangeDesc Regex) → Bool
  any_applies [] = false
  any_applies (d ∷ ds) = applies_to is_match d name value || any_applies ds

  mode_for-append :
      (xs ys : List (ModeChangeDesc Regex))
      → mode_for is_match (xs ++ ys) name value ≡ (
          if any_applies xs
          then mode_for is_match xs name value
          else mode_for is_match ys name value)
  unfolding mode_for
  mode_for-append [] ys = refl
  mode_for-append (d ∷ xs) ys = ground (arith, mode_for-append xs ys)

  mode_for-append_one :
      (xs : List (ModeChangeDesc Regex)) (d : ModeChangeDesc Regex)
      → mode_for is_match (xs ++ d ∷ []) name value ≡ (
          if any_applies xs
          then mode_for is_match xs name value
          else if applies_to is_match d name value
          then mode_of d
          else u32_max)
  mode_for-append_one xs d = mode_for-append xs (d ∷ []) ∙ unfold mode_for in refl

-- The mode of a descriptor keeps the lower halves of its two level masks apart.
pub mode_of-halves :
    {Regex : Type 0} (d : ModeChangeDesc Regex)
    → (low_half (mode_of d) ≡ low_half d.enabled_levels)
      × (high_half (mode_of d) ≡ low_half d.buffered_levels * 2 ^ 16)
mode_of-halves d = omega arith
