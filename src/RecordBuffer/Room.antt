-- ===== src/RecordBuffer/Room.antt =====
-- How `create_free_space` of src/output/recordbuffer.rs makes room for a record.
use coaly.Prelude.{
  ℕ, ◌+◌, ◌-◌, ◌≤◌, ◌<◌, ◌≡◌, refl, ◌⊎◌, inl, inr, true, false, List, [], ◌∷◌, length,
  length-append, arith, ltb, leb, Bool-cases,
}
use coaly.RecordBuffer.Characters.{bytes}
use coaly.RecordBuffer.Layout.{Holds, free_space-eq, free_space_empty, length-text}
use coaly.RecordBuffer.Evict.{
  clear-Holds, second, second-eq, size, rest_of, IsAligned-head, tail-Holds_near,
  tail-Holds_wrapped,
}
use coaly.RecordBuffer.{RecordBuffer, oldest, free_space, clear, remove_oldest_record}

-- In a buffer that is not empty, the free space and the bytes of the records add up to the content
-- size and the extra bytes.
pub free_space-text :
    {b : RecordBuffer} {recs : List (List ℕ)}
    → Holds b recs
    → 0 < length recs
    → free_space b + length (bytes recs) ≡ b.content_size + b.extra_bytes
free_space-text h p = ground (arith, free_space-eq h p, length-text h, h.phase, h.inside)

-- The oldest record is removed, and the free space grows by what is said to be freed, or it holds
-- the longest record.
pub record Removes (b : RecordBuffer) (rs : List (List ℕ)) (result : RecordBuffer × ℕ)
    : Type 0 where
  pub holds : Holds result.0 rs
  pub same : result.0.max_rec_len ≡ b.max_rec_len
  pub table : result.0.max_rec_index ≡ b.max_rec_index
  pub content : result.0.content_size ≡ b.content_size
  pub freed :
      (free_space b + result.1 ≤ free_space result.0) ⊎ (b.max_rec_len ≤ free_space result.0)
  pub enough : length rs ≡ 0 → b.max_rec_len ≤ result.1

remove_last :
    {b : RecordBuffer} {rs : List (List ℕ)} {r : List ℕ}
    → Holds b (r ∷ rs)
    → length rs ≡ 0
    → Removes b [] (remove_oldest_record b)
unfolding remove_oldest_record clear
remove_last {b} h single =
    let one : leb b.record_count 1 ≡ true = ground (arith, h.count) in
    let empty = clear-Holds h in
    let space : free_space (clear b) ≡ b.content_size = free_space_empty empty refl in
    rw one (record {
      holds = empty;
      same = refl;
      table = refl;
      content = refl;
      freed = inr (omega (arith, space, h.limited));
      enough = λ e. omega arith;
    })

module _ {b : RecordBuffer} {r : List ℕ} {rs : List (List ℕ)} (h : Holds b (r ∷ rs))
    (more : 0 < length rs) where
  several : leb b.record_count 1 ≡ false
  several = ground (arith, h.count)

  text-cons : length (bytes (r ∷ rs)) ≡ length r + length (bytes rs)
  text-cons = length-append r (bytes rs)

  freed_near :
      h.start + length r < b.content_size
      → free_space (rest_of h b.extra_bytes) + length (bytes rs) ≡ b.content_size + b.extra_bytes
      → free_space b + (second h - oldest b) ≤ free_space (rest_of h b.extra_bytes)
  freed_near near e =
      ground (arith, free_space-text h (omega arith), second-eq h, h.start_at, text-cons)

  freed_far :
      b.content_size ≤ h.start + length r
      → free_space (rest_of h 0) + length (bytes rs) ≡ b.content_size + 0
      → free_space b + (b.content_size - oldest b + second h) ≤ free_space (rest_of h 0)
  freed_far far e =
      let whole =
        IsAligned-head b.content_size h.start b.extra_bytes (0 + length r) rs h.aligned.1 in
      ground (
        arith,
        free_space-text h (omega arith),
        second-eq h,
        h.start_at,
        h.inside,
        text-cons,
        whole,
      )

  remove_near : h.start + length r < b.content_size → Removes b rs (remove_oldest_record b)
  unfolding remove_oldest_record
  remove_near near =
      let t = tail-Holds_near h more near in
      let up : ltb (oldest b) (second h) ≡ true =
        ground (arith, second-eq h, h.start_at, h.nonempty.0) in
      rw (several, up)
        (record {
          holds = t;
          same = refl;
          table = refl;
          content = refl;
          freed = inl (freed_near near (free_space-text t more));
          enough = λ e. absurd (omega arith);
        })

  remove_far : b.content_size ≤ h.start + length r → Removes b rs (remove_oldest_record b)
  unfolding remove_oldest_record
  remove_far far =
      let t = tail-Holds_wrapped h more far in
      let down : ltb (oldest b) (second h) ≡ false =
        ground (arith, second-eq h, h.start_at, size h, h.phase) in
      rw (several, down)
        (record {
          holds = t;
          same = refl;
          table = refl;
          content = refl;
          freed = inl (freed_far far (free_space-text t more));
          enough = λ e. absurd (omega arith);
        })

-- Of a buffer that holds a record and others, `remove_oldest_record` removes the oldest record and
-- keeps the others; the free space grows by the returned number of bytes at least, or it then holds
-- any record up to the maximum length.
pub remove-Removes :
    {b : RecordBuffer} {r : List ℕ} (rs : List (List ℕ))
    → Holds b (r ∷ rs)
    → Removes b rs (remove_oldest_record b)
remove-Removes [] h = remove_last h refl
remove-Removes {b} {r} (q ∷ rs) h = elim (Bool-cases (ltb (h.start + length r) b.content_size)) [
  | inl near ↦ remove_near h (omega arith) (ground arith)
  | inr far ↦ remove_far h (omega arith) (ground arith)
]
