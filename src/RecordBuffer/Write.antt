-- ===== src/RecordBuffer/Write.antt =====
-- A record is appended by `push_str` and `push_slice` of src/output/recordbuffer.rs.
use coaly.Prelude.{
  ℕ, ◌+◌, ◌-◌, ◌≤◌, ◌<◌, ◌≡◌, refl, sym, ap, ◌∙◌, false, Option, some, List, [], ◌∷◌, ◌++◌, length,
  length-append, length-take, take-append-drop, arith, ltb, take, drop,
}
use coaly.RecordBuffer.Characters.{Chars, IsText, bytes, split_rec, ◌>>=◌}
use coaly.RecordBuffer.Splitting.{split_rec_lem}
use coaly.RecordBuffer.Truncating.{bytes-append}
use coaly.RecordBuffer.Layout.{Holds}
use coaly.RecordBuffer.Append.{append-Holds}
use coaly.RecordBuffer.Admin.{Stays, finish-Stays}
use coaly.RecordBuffer.Push.{Pushes, parts-Pushes, IsUpper, placed}
use coaly.RecordBuffer.{
  RecordBuffer, ins, append_index, free_space, push_chunk, push_parts, push_whole, push_str,
  push_slice, clipped, finish,
}

module _ {b : RecordBuffer} {recs : List (List ℕ)} (h : Holds b recs) where
  -- The buffer after a record was appended.
  abbrev pub Appends : Option RecordBuffer → List ℕ → Type 0
  Appends result r = Stays result b (recs ++ r ∷ [])

  finished :
      (done : RecordBuffer → Option RecordBuffer) (r : List ℕ) (result : Option (RecordBuffer × ℕ))
      → ((x : RecordBuffer) → Holds x (recs ++ r ∷ []) → Stays (done x) x (recs ++ r ∷ []))
      → 0 < length r
      → length recs < b.max_rec_index
      → Pushes h r result
      → Appends (result >>= λ x. done (append_index x.0 x.1)) r
  unfolding append_index
  finished done r result stays pos room k =
      let (b', returns, same, holds) =
        stays (append_index (record b { memory = k.memory; extra_bytes = k.extra }) k.p)
          (append-Holds h r k.memory k.extra k.p pos room k.stored) in
      (b', rw (k.returns, ◌>>=◌) returns, same, holds)

  whole_text :
      (rec : Chars)
      → length (bytes rec) ≤ b.max_rec_len
      → push_whole b rec ≡ push_chunk b (ins b) (bytes rec)
  unfolding clipped
  whole_text rec short =
      let fits : ltb b.max_rec_len (length (bytes rec)) ≡ false = ground arith in
      rw (fits, ◌>>=◌) refl

  split_text :
      (rec : Chars)
      → IsText rec
      → IsUpper h []
      → b.content_size < ins b + length (bytes rec)
      → ins b ≤ b.content_size
      → length (bytes rec) + ins b ≤ b.content_size + h.start
      → Pushes h (bytes rec) (push_parts b (split_rec rec (b.content_size - ins b)))
  split_text rec w u over inside fits =
      let (n, cut, returns, reaches, near) =
        split_rec_lem rec (b.content_size - ins b) w (omega arith) in
      let text : bytes rec ≡ bytes cut.kept ++ bytes cut.dropped =
        ap bytes cut.splits ∙ bytes-append cut.kept cut.dropped in
      let size : length (bytes rec) ≡ length (bytes cut.kept) + length (bytes cut.dropped) =
        ap length text ∙ length-append (bytes cut.kept) (bytes cut.dropped) in
      rw returns (
        parts-Pushes h (bytes rec) (bytes cut.kept) (bytes cut.dropped) text u
          (omega (arith, cut.size)) (omega (arith, cut.size)) (omega (arith, cut.size, size)))

  -- A record in valid encoding, not longer than the maximum record length and the free space, is
  -- appended without a fault, and all records before it stay.
  pub push_str-Holds :
      (rec : Chars)
      → IsText rec
      → 0 < length (bytes rec)
      → length (bytes rec) ≤ b.max_rec_len
      → length (bytes rec) ≤ free_space b
      → length recs < b.max_rec_index
      → Appends (push_str b rec) (bytes rec)
  unfolding push_str
  push_str-Holds rec w pos short fits room =
      finished finish (bytes rec) _ (λ x. finish-Stays) pos room
        (placed h (bytes rec) (push_whole b rec)
          (push_parts b (split_rec rec (b.content_size - ins b))) (whole_text rec short)
          (split_text rec w) fits)

  split_slice :
      (r : List ℕ)
      → IsUpper h []
      → b.content_size < ins b + length r
      → ins b ≤ b.content_size
      → length r + ins b ≤ b.content_size + h.start
      → Pushes h r
          (push_parts b (some (take (b.content_size - ins b) r, drop (b.content_size - ins b) r)))
  split_slice r u over inside fits =
      let gap : ℕ = b.content_size - ins b in
      let first : length (take gap r) ≡ gap = omega (arith, length-take gap r) in
      let size : length r ≡ length (take gap r) + length (drop gap r) =
        ap length (sym (take-append-drop gap r)) ∙ length-append (take gap r) (drop gap r) in
      parts-Pushes h r (take gap r) (drop gap r) (sym (take-append-drop gap r)) u
        (omega (arith, first)) (omega (arith, first)) (omega (arith, first, size))

  -- The same holds of bytes.
  pub push_slice-Holds :
      (r : List ℕ)
      → 0 < length r
      → length r ≤ free_space b
      → length recs < b.max_rec_index
      → Appends (push_slice b r) r
  unfolding push_slice
  push_slice-Holds r pos fits room =
      finished some r _ (λ x k. (x, refl, refl, k)) pos room
        (placed h r (push_chunk b (ins b) r) _ refl (split_slice r) fits)
