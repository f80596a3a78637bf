-- ===== src/RecordBuffer/Splitting.antt =====
-- Where src/output/recordbuffer.rs cuts a text: at characters, and how far from the wanted place.
use coaly.Prelude.{
  ℕ, ◌+◌, ◌-◌, ◌/◌, ◌≤◌, ◌≡◌, refl, sym, ap, ap₂, ◌∙◌, false, Option, some, [], ◌∷◌, ◌++◌, ltb,
  if◌then◌else◌, length, length-append, arith, append-nil, append_assoc, Bool-cases, inl, inr,
  ltb→lt, subst,
}
use mathlib.Core.List.{reverse, reverse-cons, reverse-reverse}
use coaly.RecordBuffer.Characters.{
  Chars, IsText, bytes, back_to, forward_to, split_pos, split_rec, ◌>>=◌,
}
use coaly.RecordBuffer.Truncating.{
  Prefix, length-bytes_snoc, reverse-shift, length-reverse_cons, take-Prefix, drop-Prefix,
}

-- What a loop finds: whole characters, and a position past the wanted one by less than the last
-- character that was read.
record Cut (rec : Chars) (desired : ℕ) (result : Option ℕ) : Type 0 where
  n : ℕ
  returns : result ≡ some n
  cut : Prefix rec n
  reaches : desired ≤ n
  near : n ≤ desired + 3

forward_to-Cut :
    (all kept rest : Chars) (pos desired : ℕ)
    → all ≡ kept ++ rest
    → pos ≡ length (bytes kept)
    → IsText rest
    → desired ≤ pos + length (bytes rest)
    → pos ≤ desired + 3
    → Cut all desired (forward_to rest pos desired)
unfolding forward_to
forward_to-Cut all kept [] pos desired s e w h near = record {
  n = pos;
  returns = ground arith;
  cut = record { kept = kept; dropped = []; splits = s; size = e };
  reaches = omega arith;
  near = near;
}
forward_to-Cut all kept (c ∷ cs) pos desired s e w h near = elim (Bool-cases (ltb pos desired)) [
  | inl more ↦ rw more (
      forward_to-Cut all (kept ++ c ∷ []) cs (pos + length c) desired
        (s ∙ sym (append_assoc kept (c ∷ []) cs)) (omega (arith, length-bytes_snoc kept c)) w.1
        (omega (arith, length-append c (bytes cs))) (omega (arith, ltb→lt pos desired more)))
  | inr reached ↦ rw reached (record {
    n = pos;
    returns = refl;
    cut = record { kept = kept; dropped = c ∷ cs; splits = s; size = e };
    reaches = ground arith;
    near = near;
  })
]

-- What is behind the position of the loop from the back: the last character read, if there is one.
abbrev LastRead : ℕ → ℕ → ℕ → Chars → Type 0
LastRead pos desired last_len [] = desired ≤ pos
LastRead pos desired last_len (c ∷ cs) =
    (last_len ≡ length c) × (desired ≤ pos + length c) × (length c ≤ 4)

abbrev adjusted : ℕ → Option (ℕ × ℕ) → Option ℕ
adjusted desired result = result >>= λ r. some (if ltb r.0 desired then r.0 + r.1 else r.0)

-- Where the loop from the back stops.
back_stop :
    (all rs rest : Chars) (pos last_len desired : ℕ)
    → all ≡ reverse rs ++ rest
    → pos ≡ length (bytes (reverse rs))
    → LastRead pos desired last_len rest
    → pos ≤ desired
    → Cut all desired (some (if ltb pos desired then pos + last_len else pos))
back_stop all rs [] pos last_len desired s e l h = record {
  n = pos;
  returns = ground arith;
  cut = record { kept = reverse rs; dropped = []; splits = s; size = e };
  reaches = l;
  near = omega arith;
}
back_stop all rs (c ∷ cs) pos last_len desired s e l h = elim (Bool-cases (ltb pos desired)) [
  | inl short ↦ rw short (record {
    n = pos + last_len;
    returns = refl;
    cut = record {
      kept = reverse rs ++ c ∷ [];
      dropped = cs;
      splits = s ∙ sym (append_assoc (reverse rs) (c ∷ []) cs);
      size = omega (arith, length-bytes_snoc (reverse rs) c);
    };
    reaches = omega arith;
    near = omega (arith, ltb→lt pos desired short);
  })
  | inr exact ↦ rw exact (record {
    n = pos;
    returns = refl;
    cut = record { kept = reverse rs; dropped = c ∷ cs; splits = s; size = e };
    reaches = ground arith;
    near = omega arith;
  })
]

back_to-Cut :
    (all rs rest : Chars) (pos last_len desired : ℕ)
    → all ≡ reverse rs ++ rest
    → pos ≡ length (bytes (reverse rs))
    → IsText rs
    → LastRead pos desired last_len rest
    → Cut all desired (adjusted desired (back_to rs pos last_len desired))
unfolding back_to
back_to-Cut all [] rest pos last_len desired s e w l =
    let stop : pos ≤ desired = omega arith in
    let done : ltb desired pos ≡ false = ground arith in
    rw done (back_stop all [] rest pos last_len desired s e l stop)
back_to-Cut all (c ∷ rs) rest pos last_len desired s e w l = elim (Bool-cases (ltb desired pos)) [
  | inl over ↦ rw over (
      back_to-Cut all rs (c ∷ rest) (pos - length c) (length c) desired
        (s ∙ reverse-shift c rs rest) (omega (arith, length-reverse_cons c rs)) w.1
        (refl, omega (arith, length-reverse_cons c rs, ltb→lt desired pos over), w.0.1))
  | inr stop ↦ rw stop (back_stop all (c ∷ rs) rest pos last_len desired s e l (ground arith))
]

IsText-append : (xs ys : Chars) → IsText xs → IsText ys → IsText (xs ++ ys)
IsText-append [] ys a b = b
IsText-append (c ∷ xs) ys a b = (a.0, IsText-append xs ys a.1 b)

reverse-IsText : (rec : Chars) → IsText rec → IsText (reverse rec)
reverse-IsText [] w = tt
reverse-IsText (c ∷ cs) w =
    subst IsText (sym (reverse-cons c cs))
      (IsText-append (reverse cs) (c ∷ []) (reverse-IsText cs w.1) (w.0, tt))

split_pos-Cut :
    (rec : Chars) (desired : ℕ)
    → IsText rec
    → desired ≤ length (bytes rec)
    → Cut rec desired (split_pos rec desired)
unfolding split_pos
split_pos-Cut rec desired w h = elim (Bool-cases (ltb (length (bytes rec) / 2) desired)) [
  | inl back ↦ rw back (
      back_to-Cut rec (reverse rec) [] (length (bytes rec)) 0 desired
        (sym (append-nil _ ∙ reverse-reverse rec))
        (ap (λ l. length (bytes l)) (sym (reverse-reverse rec))) (reverse-IsText rec w) h)
  | inr front ↦
      rw front (forward_to-Cut rec [] rec 0 desired refl refl w (omega arith) (omega arith))
]

-- `split_rec` of a text in valid encoding does not panic if the wanted place is inside the text; it
-- cuts between two characters, at the wanted place or up to three bytes behind it, and the two
-- parts join to the text.
pub split_rec_lem :
    (rec : Chars) (desired : ℕ)
    → IsText rec
    → desired ≤ length (bytes rec)
    → (n : ℕ) × (p : Prefix rec n) × (split_rec rec desired ≡ some (bytes p.kept, bytes p.dropped))
      × (desired ≤ n)
      × (n ≤ desired + 3)
unfolding split_rec
split_rec_lem rec desired w h =
    let c = split_pos-Cut rec desired w h in
    (
      c.n,
      c.cut,
      rw (c.returns, ◌>>=◌)
          (ap₂ (λ a b. some (a, b)) (take-Prefix rec c.n c.cut) (drop-Prefix rec c.n c.cut)),
      c.reaches,
      c.near,
    )
