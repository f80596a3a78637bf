-- ===== src/Policies/Conditions.antt =====
-- Conditions for rollover that the configuration describes by a text.
use coaly.Prelude.{◌≡◌, subst, Option, none, some, ℕ, Bool, true, false, if◌then◌else◌}
use coaly.Prelude.Texts.{Text}
use coaly.Datetime.{TimeSpan, TimeStampAnchor, Interval}
use coaly.Datetime.Names.{
  Configured, valid, warned, panicked, Captures, for_unit, u32_from_str, unit_from_str, Pattern,
}
use coaly.Datetime.Anchors.{
  IsAnchorFor, Ensures, Ensures-valid, captured-Ensures, if_some-Ensures, for_unit-Ensures,
}
use coaly.Policies.{
  RolloverCondition, time_elapsed, never, interval_value, with_anchor, first_match, parse_size_str,
  condition_from_str,
}

-- The anchor of an interval, if it has one, is valid.
abbrev pub HasAnchor : RolloverCondition → Type 0
HasAnchor (time_elapsed i) =
    (a : TimeStampAnchor) → i.anchor ≡ some a → IsAnchorFor i.time_span.unit a
HasAnchor _ = Unit {0}

with_anchor-HasAnchor :
    (to_lowercase trim : Text → Text) (captures : Captures) (span : TimeSpan)
    (r : Configured TimeStampAnchor)
    → Ensures (IsAnchorFor span.unit) r
    → Ensures HasAnchor (with_anchor to_lowercase trim captures span r)
with_anchor-HasAnchor l t c span (valid a) h =
    λ b e. let same : a ≡ b = cc in subst (IsAnchorFor span.unit) same h
with_anchor-HasAnchor l t c span (warned w s) h = tt
with_anchor-HasAnchor l t c span panicked h = tt

module _ (to_lowercase trim : Text → Text) (captures : Captures) where
  interval_value-Ensures :
      (o : Option Text) (k : ℕ → Configured RolloverCondition)
      → ((n : ℕ) → Ensures HasAnchor (k n))
      → Ensures HasAnchor (interval_value to_lowercase trim captures o k)
  interval_value-Ensures none k h = h 1
  interval_value-Ensures (some spec) k h =
      if_some-Ensures HasAnchor (u32_from_str (trim spec)) _ k tt λ n e. h n

  first_match-Ensures :
      (o : Option (ℕ → Option Text)) (k : (ℕ → Option Text) → Configured RolloverCondition)
      (other : Configured RolloverCondition)
      → ((get : ℕ → Option Text) → Ensures HasAnchor (k get))
      → Ensures HasAnchor other
      → Ensures HasAnchor (first_match to_lowercase trim captures o k other)
  first_match-Ensures none k other h r = r
  first_match-Ensures (some get) k other h r = h get

  if-Ensures :
      (b : Bool) (other : Configured RolloverCondition)
      → Ensures HasAnchor other
      → Ensures HasAnchor (if b then valid never else other)
  if-Ensures true other h = tt
  if-Ensures false other h = h

  condition_from_str-HasAnchor :
      (s : Text) → Ensures HasAnchor (condition_from_str to_lowercase trim captures s)
  unfolding condition_from_str
  condition_from_str-HasAnchor s = if-Ensures _ _ (
      first_match-Ensures (captures Pattern.rovr_cond_size (to_lowercase s)) _ _
        (λ get.
          captured-Ensures HasAnchor (get 1) _
            λ d. if_some-Ensures HasAnchor (parse_size_str captures d) _ _ tt λ n e. tt)
        (first_match-Ensures (captures Pattern.rovr_cond_intvl (to_lowercase s)) _ _
          (λ get. interval_value-Ensures (get 1) _ λ n.
            captured-Ensures HasAnchor (get 2) _
              λ u. if_some-Ensures HasAnchor (unit_from_str u) _ _ tt λ v e. λ a e1. absurd cc)
          (first_match-Ensures (captures Pattern.rovr_cond_intvl_at (to_lowercase s)) _ _
            (λ get. interval_value-Ensures (get 1) _ λ n. captured-Ensures HasAnchor (get 2) _ λ u.
              if_some-Ensures HasAnchor (unit_from_str u) _ _ tt λ v e.
                captured-Ensures HasAnchor (get 3) _ λ spec.
                  with_anchor-HasAnchor to_lowercase trim captures _ (for_unit captures spec v)
                    (for_unit-Ensures captures spec v))
            tt)))

  -- Whatever text the configuration has for a rollover condition, and whatever the patterns
  -- capture: an interval that is read with an anchor counts hours, days, weeks or months, and the
  -- anchor has a minute below 60, an hour below 24, a weekday below 7, and with months a day from 1
  -- to 31.
  pub condition_from_str-IsAnchorFor :
      (s : Text) (i : Interval) (a : TimeStampAnchor)
      → condition_from_str to_lowercase trim captures s ≡ valid (time_elapsed i)
      → i.anchor ≡ some a
      → IsAnchorFor i.time_span.unit a
  condition_from_str-IsAnchorFor s i a e at =
      Ensures-valid HasAnchor _ (time_elapsed i) (condition_from_str-HasAnchor s) e a at
