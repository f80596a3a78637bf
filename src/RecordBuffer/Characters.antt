-- ===== src/RecordBuffer/Characters.antt =====
-- The truncation and splitting of text at characters, from src/output/recordbuffer.rs.
use coaly.Prelude.{
  ℕ, ◌+◌, ◌-◌, ◌/◌, ◌≤◌, Option, none, some, List, [], ◌∷◌, ◌++◌, ltb, if◌then◌else◌, length, take,
  drop, All,
}
use mathlib.Core.List.{reverse}

infixl 5 ◌>>=◌
abbrev pub ◌>>=◌ : {A B : Type 0} → Option A → (A → Option B) → Option B
none >>= f = none
some a >>= f = f a

-- A text as its characters, and each character as the bytes of its encoding.
abbrev pub Chars : Type 0
Chars = List (List ℕ)

-- An encoding takes one to four bytes.
abbrev pub IsText : Chars → Type 0
IsText = All (λ c. (1 ≤ length c) × (length c ≤ 4))

abbrev pub bytes : Chars → List ℕ
bytes [] = []
bytes (c ∷ cs) = c ++ bytes cs

-- The loop of `truncate_rec` over the characters from the back; `none` is the panic of `unwrap`.
unfoldable pub truncate_len : Chars → ℕ → ℕ → Option ℕ
truncate_len [] trunc_len max_len = if ltb max_len trunc_len then none else some trunc_len
truncate_len (c ∷ cs) trunc_len max_len =
    let rest = truncate_len cs (trunc_len - length c) max_len in
    if ltb max_len trunc_len then rest else some trunc_len

unfoldable pub truncate_rec : Chars → ℕ → Option (List ℕ)
truncate_rec rec max_encoded_length = do
  n ← truncate_len (reverse rec) (length (bytes rec)) max_encoded_length
  some (take n (bytes rec))

-- The loop from the back, which returns the position and the length of the last character read.
unfoldable pub back_to : Chars → ℕ → ℕ → ℕ → Option (ℕ × ℕ)
back_to [] pos last_len desired = if ltb desired pos then none else some (pos, last_len)
back_to (c ∷ cs) pos last_len desired =
    let rest = back_to cs (pos - length c) (length c) desired in
    if ltb desired pos then rest else some (pos, last_len)

-- The loop from the front.
unfoldable pub forward_to : Chars → ℕ → ℕ → Option ℕ
forward_to [] pos desired = if ltb pos desired then none else some pos
forward_to (c ∷ cs) pos desired =
    let rest = forward_to cs (pos + length c) desired in if ltb pos desired then rest else some pos

unfoldable pub split_pos : Chars → ℕ → Option ℕ
split_pos rec desired =
    if ltb (length (bytes rec) / 2) desired
    then (do
      (pos, last_len) ← back_to (reverse rec) (length (bytes rec)) 0 desired
      some (if ltb pos desired then pos + last_len else pos))
    else forward_to rec 0 desired

unfoldable pub split_rec : Chars → ℕ → Option (List ℕ × List ℕ)
split_rec rec desired_split_pos = do
  n ← split_pos rec desired_split_pos
  some (take n (bytes rec), drop n (bytes rec))
