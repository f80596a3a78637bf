-- ===== src/Datetime/Months.antt =====
-- Durations in months, against the lengths of the months in a row.
use coaly.Prelude.{
  ℕ, zero, suc, ◌+◌, ◌-◌, ◌*◌, ◌/◌, ◌%◌, ◌^◌, ◌<◌, ◌≤◌, ◌≡◌, refl, sym, ap, ap₂, ◌∙◌, arith, min,
  ltb, ltb→lt, Bool-cases, inl, inr,
}
use coaly.Datetime.{
  TimeSpanUnit, Clock, max_duration, days_in_month, following, pass_months, month_days, duration,
}

-- The month and the year of a month that is counted through the years, and its days.
abbrev pub month_at : ℕ → ℕ × ℕ
month_at n = (n % 12 + 1, n / 12)

unfoldable pub month_length : ℕ → ℕ
unfolding days_in_month
month_length n = days_in_month (n % 12 + 1) (n / 12)

-- The days of some months in a row.
unfoldable pub months_length : ℕ → ℕ → ℕ
unfolding month_length
months_length n zero = 0
months_length n (suc k) = month_length n + months_length (suc n) k

month_length-le : (n : ℕ) → month_length n ≤ 31
unfolding month_length
month_length-le n = ground arith

months_length-le : (n k : ℕ) → months_length n k ≤ 31 * k
unfolding months_length
months_length-le n zero = omega arith
months_length-le n (suc k) = omega (arith, month_length-le n, months_length-le (suc n) k)

following-month_at : (n : ℕ) → following (month_at n) ≡ month_at (suc n)
following-month_at n = elim (Bool-cases (ltb (n % 12 + 1) 12)) [
  | inl e ↦ rw e (
      ap₂ (λ m y. (m, y)) (omega (arith, ltb→lt (n % 12 + 1) 12 e))
        (omega (arith, ltb→lt (n % 12 + 1) 12 e)))
  | inr e ↦
      let last : n % 12 ≡ 11 = ground arith in
      rw e (ap₂ (λ m y. (m, y)) (omega arith) (omega arith))
]

pass_months-eq :
    (n k day_count : ℕ)
    → day_count + 31 * k < 2 ^ 32
    → pass_months k day_count (month_at n) ≡ (day_count + months_length n k, month_at (n + k))
unfolding pass_months months_length month_length
pass_months-eq n zero day_count small = ap₂ (λ x m. (x, month_at m)) (omega arith) (omega arith)
pass_months-eq n (suc k) day_count small =
    let few = month_length-le n in
    let counted : (day_count + month_length n) % 2 ^ 32 ≡ day_count + month_length n =
      omega arith in
    ap₂ (pass_months k) counted (following-month_at n)
    ∙ pass_months-eq (suc n) k (day_count + month_length n) (omega arith)
    ∙ ap₂ (λ x m. (x, month_at m)) (omega arith) (omega arith)

-- From a day of a month, the days to the same day some months later, or to that month's last day.
month_days-eq :
    (n k d : ℕ)
    → k < 2 ^ 26
    → d ≤ month_length n
    → month_days (suc k) (n / 12) (n % 12 + 1) d
      ≡ months_length n (suc k) + min (month_length (n + suc k)) d - d
unfolding month_days months_length month_length
month_days-eq n k d small inside =
    let few = month_length-le n in
    let passed =
      ap₂ (pass_months k) refl (following-month_at n)
      ∙ pass_months-eq (suc n) k (month_length n - d) (omega arith) in
    let same : suc n + k ≡ n + suc k = omega arith in
    let to_day = λ (r : ℕ × (ℕ × ℕ)). (r.0 + min (days_in_month r.1.0 r.1.1) d) % 2 ^ 32 in
    let rounds : suc k - 1 ≡ k = omega arith in
    ap (λ j. to_day (pass_months j (month_length n - d) (following (month_at n)))) rounds
    ∙ ap to_day passed
    ∙ rw (ap month_length same) (omega (arith, months_length-le (suc n) k))

-- A duration in months, from a day of the calendar's month with the number `n`, is the time to the
-- same day as many months later, or to the last day of that month where it is shorter, but one
-- leap year at most; there are to be fewer months than 67108865, and one at least.
pub duration-months :
    (c : Clock) (from n k : ℕ)
    → month_at n ≡ (c.month_of from, c.year_of from)
    → c.day_of from ≤ month_length n
    → k < 2 ^ 26
    → duration c (record { unit = TimeSpanUnit.month; value = suc k }) from
      ≡ min
          ((months_length n (suc k)
              + min (month_length (n + suc k)) (c.day_of from)
              - c.day_of from)
            * 86400)
          max_duration
unfolding duration
duration-months c from n k at inside small =
    let counted =
      ap₂ (λ m y. month_days (suc k) y m (c.day_of from)) (sym (ap (λ (x : ℕ × ℕ). x.0) at))
        (sym (ap (λ (x : ℕ × ℕ). x.1) at))
      ∙ month_days-eq n k (c.day_of from) small inside in
    ap (λ days. min (days * 86400) max_duration) counted
