-- ===== src/RecordBuffer/Layout.antt =====
-- Where the records lie in the buffer of src/output/recordbuffer.rs, and what `chunk` returns.
use coaly.Prelude.{
  ℕ, suc, ◌+◌, ◌-◌, ◌≤◌, ◌<◌, ◌≡◌, refl, sym, ap, ap₂, ◌∙◌, ◌⊎◌, ◌^◌, true, Option, none, some,
  List, [], ◌∷◌, ◌++◌, length, length-append, All, arith, ltb, if◌then◌else◌, get_or,
}
use native.Mathlib.Decide.{dec_lt}
use coaly.RecordBuffer.Characters.{bytes}
use coaly.RecordBuffer.Storage.{slice}
use coaly.RecordBuffer.Index.{ahead, window, window-suc}
use coaly.RecordBuffer.{RecordBuffer, oldest, ins, chunk, free_space}

-- A position `d` bytes behind the oldest record, which begins at `o`. The upper part of the buffer
-- ends `extra` bytes behind the content size `cs`.
abbrev pub place : ℕ → ℕ → ℕ → ℕ → ℕ
place cs o extra d = if ltb (o + d) cs then o + d else o + d - (cs + extra)

-- The positions of the records and of the first free byte, from `d` on.
abbrev pub places : ℕ → ℕ → ℕ → ℕ → List (List ℕ) → List ℕ
places cs o extra d [] = place cs o extra d ∷ []
places cs o extra d (r ∷ rs) = place cs o extra d ∷ places cs o extra (d + length r) rs

-- No record begins in the extra bytes.
abbrev pub IsAligned : ℕ → ℕ → ℕ → ℕ → List (List ℕ) → Type 0
IsAligned cs o extra d [] = (o + d < cs) ⊎ (cs + extra ≤ o + d)
IsAligned cs o extra d (r ∷ rs) =
    ((o + d < cs) ⊎ (cs + extra ≤ o + d)) × IsAligned cs o extra (d + length r) rs

-- The buffer holds the records, the oldest first: their bytes fill the upper part from the oldest
-- record on, and then the lower part. In a file there is room for the administrative data behind
-- them, and positions have 14 digits at most.
pub record Holds (b : RecordBuffer) (recs : List (List ℕ)) : Type 0 where
  pub admin : b.mapped ≡ true → (b.content_size + 32 ≤ b.buffer_size) × (b.content_size < 10 ^ 14)
  pub allocated : b.content_size + 4 ≤ b.buffer_size
  pub limited : b.max_rec_len ≤ b.content_size
  pub table : length b.records ≡ b.max_rec_index + 1
  pub first : b.oldest_rec_index ≤ b.max_rec_index
  pub last : b.ins_index ≡ ahead b.max_rec_index b.oldest_rec_index b.record_count
  pub count : b.record_count ≡ length recs
  pub room : length recs ≤ b.max_rec_index
  pub start : ℕ
  pub start_at : oldest b ≡ start
  pub inside : start < b.content_size
  pub positions :
      window b.max_rec_index b.records b.oldest_rec_index (suc (length recs))
      ≡ places b.content_size start b.extra_bytes 0 recs
  pub aligned : IsAligned b.content_size start b.extra_bytes 0 recs
  pub nonempty : All (λ r. 0 < length r) recs
  pub unused : length recs ≡ 0 → start ≡ 0
  pub upper : List ℕ
  pub lower : List ℕ
  pub text : bytes recs ≡ upper ++ lower
  pub phase :
      ((length lower ≡ 0) × (start + length upper < b.content_size) × (b.extra_bytes ≡ 0))
      ⊎ ((start + length upper ≡ b.content_size + b.extra_bytes)
          × (length lower ≤ start)
          × (b.extra_bytes ≤ 3))
  pub upper_stored : slice b.memory start (length upper) ≡ upper
  pub lower_stored : slice b.memory 0 (length lower) ≡ lower

abbrev final : List ℕ → ℕ
final [] = 0
final (x ∷ []) = x
final (x ∷ y ∷ ys) = final (y ∷ ys)

final-snoc : (xs : List ℕ) (v : ℕ) → final (xs ++ v ∷ []) ≡ v
final-snoc [] v = refl
final-snoc (x ∷ []) v = refl
final-snoc (x ∷ y ∷ ys) v = final-snoc (y ∷ ys) v

final-places :
    (cs o extra d t : ℕ) (recs : List (List ℕ))
    → t ≡ d + length (bytes recs)
    → final (places cs o extra d recs) ≡ place cs o extra t
final-places cs o extra d t [] e = let e' : d ≡ t = omega arith in rw e'
final-places cs o extra d t (r ∷ []) e = ap (place cs o extra) (omega (arith, length-append r []))
final-places cs o extra d t (r ∷ q ∷ rs) e =
    final-places cs o extra (d + length r) t (q ∷ rs)
      (omega (arith, length-append r (bytes (q ∷ rs))))

bytes_nonempty :
    (recs : List (List ℕ))
    → All (λ r. 0 < length r) recs
    → 0 < length recs
    → 0 < length (bytes recs)
bytes_nonempty [] a p = absurd (omega arith)
bytes_nonempty (r ∷ rs) a p = omega (arith, length-append r (bytes rs))

pub nil-of_length {ℓ} : {A : Type ℓ} (xs : List A) → length xs ≡ 0 → xs ≡ []
nil-of_length [] e = refl
nil-of_length (x ∷ xs) e = absurd (omega arith)

abbrev pub chunk_text : Option (List ℕ) → List ℕ
chunk_text none = []
chunk_text (some text) = text

module _ {b : RecordBuffer} {recs : List (List ℕ)} (h : Holds b recs) where
  -- The number of bytes that the buffer holds.
  pub length-text : length (bytes recs) ≡ length h.upper + length h.lower
  length-text = ap length h.text ∙ length-append h.upper h.lower

  -- A record has a byte, and it lies in the upper part.
  pub upper_nonempty : 0 < length recs → 0 < length h.upper
  upper_nonempty p =
      ground (arith, h.phase, h.inside, length-text, bytes_nonempty recs h.nonempty p)

  ins-place : ins b ≡ place b.content_size h.start b.extra_bytes (length (bytes recs))
  ins-place =
      let n : ℕ = length recs in
      let top : ℕ = b.max_rec_index in
      let from : ℕ = b.oldest_rec_index in
      ap (λ i. get_or b.records i 0) (h.last ∙ ap (ahead top from) h.count)
      ∙ sym (final-snoc (window top b.records from n) (get_or b.records (ahead top from n) 0))
      ∙ ap final (sym (window-suc top b.records from n))
      ∙ ap final h.positions
      ∙ final-places b.content_size h.start b.extra_bytes 0 (length (bytes recs)) recs (omega arith)

  -- The position of the first free byte, in both phases.
  pub ins-eq : ins b ≡ (
      if ltb (h.start + length h.upper) b.content_size
      then h.start + length h.upper
      else length h.lower)
  ins-eq = ground (arith, ins-place, length-text, h.phase)

  pub ins-lt : ins b < b.content_size
  ins-lt = ground (arith, ins-eq, h.phase, h.inside)

  -- The free space is what the content size leaves beside the bytes below the tail.
  pub free_space-eq :
      0 < length recs
      → free_space b ≡ (
          if ltb (h.start + length h.upper) b.content_size
          then b.content_size - length h.upper
          else h.start - length h.lower)
  unfolding free_space
  free_space-eq p = ground (arith, ins-eq, h.phase, h.start_at, h.count, upper_nonempty p)

  pub free_space_empty : length recs ≡ 0 → free_space b ≡ b.content_size
  unfolding free_space
  free_space_empty e = ground (arith, h.count)

  upper_slice : (o n : ℕ) → o ≡ h.start → n ≡ length h.upper → slice b.memory o n ≡ h.upper
  upper_slice o n p q = rw (p, q) h.upper_stored

  lower_slice : (n : ℕ) → n ≡ length h.lower → slice b.memory 0 n ≡ h.lower
  lower_slice n q = rw q h.lower_stored

  chunk_upper : 0 < length recs → chunk b 0 ≡ some h.upper
  unfolding chunk
  chunk_upper p = ground (
    arith,
    ins-eq,
    h.phase,
    h.start_at,
    h.count,
    h.inside,
    upper_nonempty p,
    upper_slice (oldest b) (ins b - oldest b) h.start_at,
    upper_slice (oldest b) (b.content_size - oldest b + b.extra_bytes) h.start_at,
  )

  chunk_lower : 0 < length recs → chunk_text (chunk b 1) ≡ h.lower
  unfolding chunk
  chunk_lower p = ground (
    arith,
    ins-eq,
    h.phase,
    h.start_at,
    h.count,
    h.inside,
    upper_nonempty p,
    lower_slice (ins b),
    nil-of_length h.lower,
  )

  -- The two chunks of a buffer join to the records that it holds, the oldest first.
  pub chunks-text : chunk_text (chunk b 0) ++ chunk_text (chunk b 1) ≡ bytes recs
  unfolding chunk
  chunks-text = elim (dec_lt 0 (length recs)) [
    | yes p ↦ ap₂ (λ x y. chunk_text x ++ y) (chunk_upper p) (chunk_lower p) ∙ sym h.text
    | no p ↦
        let e : recs ≡ [] = nil-of_length recs (omega arith) in
        let none_left : b.record_count ≡ 0 = omega (arith, h.count) in rw e (ground arith)
  ]
