-- ===== src/Rollover/Names.antt =====
-- The names of rollover files: different numbers have different names.
use coaly.Prelude.{
  ℕ, zero, suc, ◌+◌, ◌-◌, ◌*◌, ◌/◌, ◌%◌, ◌^◌, ◌<◌, ◌≡◌, refl, sym, ap, ◌∙◌, arith, false, [], ◌∷◌,
  ◌++◌, length, length-append, append_cancel_left, append_cancel_right, ltb, Bool-cases, inl, inr,
}
use coaly.Prelude.Texts.{Text, same_text, same_text-ne}
use coaly.Policies.Sizes.{decimal}
use coaly.Rollover.{digits, dot_number}

-- The numbers with so many digits.
abbrev pub capacity : ℕ → ℕ
capacity zero = 1
capacity (suc n) = 10 * capacity n

decimal-append :
    (n : ℕ) (cs : Text) (c : ℕ) → decimal n (cs ++ c ∷ []) ≡ 10 * decimal n cs + (c - b'0')
decimal-append n [] c = refl
decimal-append n (d ∷ cs) c = decimal-append (10 * n + (d - b'0')) cs c

-- The digits of a number are read as the number.
pub decimal-digits : (more n : ℕ) → n < capacity more → decimal 0 (digits more n) ≡ n
unfolding digits
decimal-digits zero n h = omega arith
decimal-digits (suc more) n h = elim (Bool-cases (ltb n 10)) [
  | inl e ↦ rw e (omega arith)
  | inr e ↦ rw e (
      decimal-append 0 (digits more (n / 10)) (b'0' + n % 10)
      ∙ omega (arith, decimal-digits more (n / 10) (omega arith)))
]

pub digits_injective : (n m : ℕ) → n < 2 ^ 64 → m < 2 ^ 64 → digits 20 n ≡ digits 20 m → n ≡ m
digits_injective n m hn hm e =
    sym (decimal-digits 20 n (omega arith)) ∙ ap (decimal 0) e ∙ decimal-digits 20 m (omega arith)

-- The name of the rollover file with a number.
abbrev pub slot : Text → Text → ℕ → Text
slot stem ext n = stem ++ dot_number n ++ ext

pub slot_injective :
    (stem ext : Text) (n m : ℕ)
    → n < 2 ^ 64
    → m < 2 ^ 64
    → slot stem ext n ≡ slot stem ext m
    → n ≡ m
slot_injective stem ext n m hn hm e =
    let front = append_cancel_right (stem ++ dot_number n) (stem ++ dot_number m) ext e in
    let numbers = append_cancel_left stem (dot_number n) (dot_number m) front in
    digits_injective n m hn hm (append_cancel_left (b'.' ∷ []) (digits 20 n) (digits 20 m) numbers)

pub slot-other :
    (stem ext : Text) (n m : ℕ)
    → n < 2 ^ 64
    → m < 2 ^ 64
    → ¬ (n ≡ m)
    → same_text (slot stem ext n) (slot stem ext m) ≡ false
slot-other stem ext n m hn hm ne = same_text-ne _ _ λ e. ne (slot_injective stem ext n m hn hm e)

-- The active file has no number.
pub slot-stem : (stem ext : Text) (n : ℕ) → same_text stem (slot stem ext n) ≡ false
slot-stem stem ext n = same_text-ne stem (slot stem ext n) λ e. absurd (
    omega (
      arith,
      ap length e,
      length-append (stem ++ dot_number n) ext,
      length-append stem (dot_number n),
    ))

pub slot-longer : (stem ext : Text) (n : ℕ) → same_text (slot stem ext n) stem ≡ false
slot-longer stem ext n = same_text-ne (slot stem ext n) stem λ e. absurd (
    omega (
      arith,
      ap length e,
      length-append (stem ++ dot_number n) ext,
      length-append stem (dot_number n),
    ))
