-- ===== src/RecordBuffer/Truncating.antt =====
-- Where src/output/recordbuffer.rs truncates a text: at characters, and as late as it may.
use coaly.Prelude.{
  ℕ, ◌+◌, ◌-◌, ◌≤◌, ◌<◌, ◌≡◌, refl, sym, ap, ◌∙◌, Option, some, List, [], ◌∷◌, ◌++◌, ltb, length,
  length-append, take, drop, arith, append-nil, append_assoc, Bool-cases, inl, inr, ltb→lt,
}
use mathlib.Core.List.{reverse, reverse-cons, reverse-reverse}
use coaly.RecordBuffer.Characters.{Chars, bytes, truncate_len, truncate_rec, ◌>>=◌}

pub bytes-append : (xs ys : Chars) → bytes (xs ++ ys) ≡ bytes xs ++ bytes ys
bytes-append [] ys = refl
bytes-append (c ∷ cs) ys = rw (bytes-append cs ys) (sym (append_assoc c (bytes cs) (bytes ys)))

pub take-append : (xs ys : List ℕ) (n : ℕ) → n ≡ length xs → take n (xs ++ ys) ≡ xs
take-append [] ys n e = let e' : n ≡ 0 = e in rw e'
take-append (x ∷ xs) ys n e = rw e (ap (λ l. x ∷ l) (take-append xs ys (length xs) refl))

pub drop-append : (xs ys : List ℕ) (n : ℕ) → n ≡ length xs → drop n (xs ++ ys) ≡ ys
drop-append [] ys n e = let e' : n ≡ 0 = e in rw e'
drop-append (x ∷ xs) ys n e = rw e (drop-append xs ys (length xs) refl)

pub length-bytes_snoc :
    (xs : Chars) (c : List ℕ) → length (bytes (xs ++ c ∷ [])) ≡ length (bytes xs) + length c
length-bytes_snoc xs c = omega (
  arith,
  ap length (bytes-append xs (c ∷ [])),
  length-append (bytes xs) (c ++ []),
  length-append c [],
)

-- A prefix of whole characters that has `n` bytes.
pub record Prefix (rec : Chars) (n : ℕ) : Type 0 where
  pub kept : Chars
  pub dropped : Chars
  pub splits : rec ≡ kept ++ dropped
  pub size : n ≡ length (bytes kept)

-- The next character does not fit into `limit` bytes.
abbrev pub Overruns : ℕ → ℕ → Chars → Type 0
Overruns limit n [] = Unit {0}
Overruns limit n (c ∷ cs) = limit < n + length c

record Truncated (rec : Chars) (max_len : ℕ) (result : Option ℕ) : Type 0 where
  n : ℕ
  returns : result ≡ some n
  cut : Prefix rec n
  fits : n ≤ max_len
  overruns : Overruns max_len n cut.dropped

pub reverse-shift :
    (c : List ℕ) (rs rest : Chars) → reverse (c ∷ rs) ++ rest ≡ reverse rs ++ c ∷ rest
reverse-shift c rs rest =
    ap (λ l. l ++ rest) (reverse-cons c rs) ∙ append_assoc (reverse rs) (c ∷ []) rest

pub length-reverse_cons :
    (c : List ℕ) (rs : Chars)
    → length (bytes (reverse (c ∷ rs))) ≡ length (bytes (reverse rs)) + length c
length-reverse_cons c rs =
    ap (λ l. length (bytes l)) (reverse-cons c rs) ∙ length-bytes_snoc (reverse rs) c

truncate_len-Truncated :
    (all rs rest : Chars) (pos max_len : ℕ)
    → all ≡ reverse rs ++ rest
    → pos ≡ length (bytes (reverse rs))
    → Overruns max_len pos rest
    → Truncated all max_len (truncate_len rs pos max_len)
unfolding truncate_len
truncate_len-Truncated all [] rest pos max_len s e o = record {
  n = pos;
  returns = ground arith;
  cut = record { kept = []; dropped = rest; splits = s; size = e };
  fits = omega arith;
  overruns = o;
}
truncate_len-Truncated all (c ∷ rs) rest pos max_len s e o = elim (Bool-cases (ltb max_len pos)) [
  | inl over ↦ rw over (
      truncate_len-Truncated all rs (c ∷ rest) (pos - length c) max_len
        (s ∙ reverse-shift c rs rest) (omega (arith, length-reverse_cons c rs))
        (omega (arith, length-reverse_cons c rs, ltb→lt max_len pos over)))
  | inr fits ↦ rw fits (record {
    n = pos;
    returns = refl;
    cut = record { kept = reverse (c ∷ rs); dropped = rest; splits = s; size = e };
    fits = ground arith;
    overruns = o;
  })
]

pub take-Prefix : (rec : Chars) (n : ℕ) (p : Prefix rec n) → take n (bytes rec) ≡ bytes p.kept
take-Prefix rec n p =
    ap (λ l. take n (bytes l)) p.splits
    ∙ ap (take n) (bytes-append p.kept p.dropped)
    ∙ take-append (bytes p.kept) (bytes p.dropped) n p.size

pub drop-Prefix : (rec : Chars) (n : ℕ) (p : Prefix rec n) → drop n (bytes rec) ≡ bytes p.dropped
drop-Prefix rec n p =
    ap (λ l. drop n (bytes l)) p.splits
    ∙ ap (drop n) (bytes-append p.kept p.dropped)
    ∙ drop-append (bytes p.kept) (bytes p.dropped) n p.size

-- `truncate_rec` does not panic; it returns the bytes of whole characters from the front, no more
-- than allowed, and the next character, if there is one, would be too much.
pub truncate_rec_lem :
    (rec : Chars) (max_len : ℕ)
    → (n : ℕ) × (p : Prefix rec n) × (truncate_rec rec max_len ≡ some (bytes p.kept))
      × (n ≤ max_len)
      × Overruns max_len n p.dropped
unfolding truncate_rec
truncate_rec_lem rec max_len =
    let t =
      truncate_len-Truncated rec (reverse rec) [] (length (bytes rec)) max_len
        (sym (append-nil _ ∙ reverse-reverse rec))
        (ap (λ l. length (bytes l)) (sym (reverse-reverse rec))) tt in
    (t.n, t.cut, rw (t.returns, ◌>>=◌) (ap some (take-Prefix rec t.n t.cut)), t.fits, t.overruns)
