-- ===== src/Datetime/Anchors.antt =====
-- The anchors that a text of the configuration describes.
use coaly.Prelude.{ℕ, ◌≤◌, ◌<◌, ◌≡◌, refl, arith, Option, none, some, subst}
use coaly.Prelude.Texts.{Text}
use coaly.Datetime.{TimeSpanUnit, TimeStampAnchor, WeekDay, week_day_number}
use coaly.Datetime.Names.{
  Configured, valid, warned, panicked, Captures, captured, if_some, hour_and_minute, in_limit,
  u32_from_str, for_unit, week_day_from_str, day_of_month, Pattern,
}
use coaly.Datetime.Matches.{IsAnchor}

-- What `for_unit` ensures of an anchor: the ranges of its parts, for a unit that can have one.
abbrev pub IsAnchorFor : TimeSpanUnit → TimeStampAnchor → Type 0
IsAnchorFor TimeSpanUnit.hour a = IsAnchor a
IsAnchorFor TimeSpanUnit.day a = IsAnchor a
IsAnchorFor TimeSpanUnit.week a = IsAnchor a
IsAnchorFor TimeSpanUnit.month a = IsAnchor a × ((1 ≤ a.day_of_month) × (a.day_of_month ≤ 31))
IsAnchorFor _ a = ⊥

-- The value that was configured, if there is one, satisfies `P`.
abbrev pub Ensures {ℓ} : {A : Type ℓ} → (A → Type 0) → Configured A → Type 0
Ensures P (valid a) = P a
Ensures P (warned w s) = Unit {0}
Ensures P panicked = Unit {0}

pub Ensures-valid {ℓ} :
    {A : Type ℓ} (P : A → Type 0) (r : Configured A) (a : A) → Ensures P r → r ≡ valid a → P a
Ensures-valid P (valid b) a h e = let same : b ≡ a = cc in subst P same h
Ensures-valid P (warned w s) a h e = absurd cc
Ensures-valid P panicked a h e = absurd cc

module _ {ℓ} {A : Type ℓ} (P : A → Type 0) where
  pub captured-Ensures :
      (o : Option Text) (k : Text → Configured A)
      → ((t : Text) → Ensures P (k t))
      → Ensures P (captured o k)
  captured-Ensures none k h = tt
  captured-Ensures (some t) k h = h t

  limited : (limit : ℕ) (o : Option ℕ) (n : ℕ) → in_limit limit o ≡ some n → n ≤ limit
  limited limit none n e = cc
  limited limit (some m) n e = ground arith

  pub if_some-Ensures {κ} :
      {X : Type κ} (o : Option X) (refused : Configured A) (k : X → Configured A)
      → Ensures P refused
      → ((x : X) → o ≡ some x → Ensures P (k x))
      → Ensures P (if_some o refused k)
  if_some-Ensures none refused k r good = r
  if_some-Ensures (some x) refused k r good = good x refl

  hour_and_minute-Ensures :
      (h m : Text) (refused : Configured A) (k : ℕ → ℕ → Configured A)
      → Ensures P refused
      → ((hour minute : ℕ) → hour ≤ 23 → minute ≤ 59 → Ensures P (k hour minute))
      → Ensures P (hour_and_minute h m refused k)
  hour_and_minute-Ensures h m refused k r good =
      if_some-Ensures (in_limit 23 (u32_from_str h)) refused _ r λ hour e.
        if_some-Ensures (in_limit 59 (u32_from_str m)) refused _ r λ minute e1.
          good hour minute (limited 23 (u32_from_str h) hour e)
            (limited 59 (u32_from_str m) minute e1)

week_day_number-lt : (d : WeekDay) → week_day_number d < 7
week_day_number-lt d = ground arith

day_of_month-Between : (spec : Text) (n : ℕ) → day_of_month spec ≡ some n → (1 ≤ n) × (n ≤ 31)
day_of_month-Between spec n e = ground arith

module _ (captures : Captures) where
  pub for_unit-Ensures :
      (s : Text) (unit : TimeSpanUnit) → Ensures (IsAnchorFor unit) (for_unit captures s unit)
  unfolding for_unit
  for_unit-Ensures s TimeSpanUnit.hour =
      if_some-Ensures IsAnchor (in_limit 59 (u32_from_str s)) _ _ tt λ minute e. record {
        minute_in = omega (arith, limited IsAnchor 59 (u32_from_str s) minute e);
        hour_in = omega arith;
        weekday_in = omega arith;
      }
  for_unit-Ensures s TimeSpanUnit.day =
      if_some-Ensures IsAnchor (captures Pattern.anchor_hour s) _ _ tt λ get e.
        captured-Ensures IsAnchor (get 1) _ λ h. captured-Ensures IsAnchor (get 2) _ λ m.
          hour_and_minute-Ensures IsAnchor h m _ _ tt λ hour minute low low1. record {
            minute_in = omega arith;
            hour_in = omega arith;
            weekday_in = omega arith;
          }
  for_unit-Ensures s TimeSpanUnit.week =
      if_some-Ensures IsAnchor (captures Pattern.anchor_dow s) _ _ tt λ get e.
        captured-Ensures IsAnchor (get 1) _ λ d. captured-Ensures IsAnchor (get 2) _ λ h.
          captured-Ensures IsAnchor (get 3) _ λ m.
            if_some-Ensures IsAnchor (week_day_from_str d) _ _ tt λ dow e1.
              hour_and_minute-Ensures IsAnchor h m _ _ tt λ hour minute low low1. record {
                minute_in = omega arith;
                hour_in = omega arith;
                weekday_in = week_day_number-lt dow;
              }
  for_unit-Ensures s TimeSpanUnit.month =
      if_some-Ensures (IsAnchorFor TimeSpanUnit.month) (captures Pattern.anchor_dom s) _ _ tt
        λ get e. captured-Ensures (IsAnchorFor TimeSpanUnit.month) (get 1) _ λ d.
          captured-Ensures (IsAnchorFor TimeSpanUnit.month) (get 2) _ λ h.
            captured-Ensures (IsAnchorFor TimeSpanUnit.month) (get 3) _ λ m.
              if_some-Ensures (IsAnchorFor TimeSpanUnit.month) (day_of_month d) _ _ tt λ dom e1.
                hour_and_minute-Ensures (IsAnchorFor TimeSpanUnit.month) h m _ _ tt
                  λ hour minute low low1. (
                    record {
                      minute_in = omega arith;
                      hour_in = omega arith;
                      weekday_in = omega arith;
                    },
                    day_of_month-Between d dom e1,
                  )
  for_unit-Ensures s _ = tt
