-- ===== src/RecordBuffer/Push.antt =====
-- What `push_chunk`, `push_str` and `push_slice` of src/output/recordbuffer.rs do with a record for
-- which there is room.
use coaly.Prelude.{
  ℕ, ◌+◌, ◌-◌, ◌≤◌, ◌<◌, ◌≡◌, refl, sym, ap, ap₂, ◌∙◌, inl, inr, true, Option, some, List, [], ◌++◌,
  length, length-append, arith, ltb, leb, if◌then◌else◌, append-nil, append_assoc, Bool-cases,
}
use native.Mathlib.Decide.{dec_lt}
use coaly.RecordBuffer.Characters.{bytes, ◌>>=◌}
use coaly.RecordBuffer.Storage.{
  Memory, slice, write_bytes, slice-write_behind, slice-write, slice-write_next,
}
use coaly.RecordBuffer.Layout.{
  Holds, length-text, ins-eq, free_space-eq, nil-of_length, free_space_empty, upper_nonempty,
}
use coaly.RecordBuffer.Append.{Stored, places-below, IsAligned-below}
use coaly.RecordBuffer.{RecordBuffer, oldest, ins, free_space, push_chunk, push_parts}

module _ {b : RecordBuffer} {recs : List (List ℕ)} (h : Holds b recs) (r : List ℕ) where
  -- The record was stored, and the position behind it returned.
  pub record Pushes (result : Option (RecordBuffer × ℕ)) : Type 0 where
    pub memory : Memory
    pub extra : ℕ
    pub p : ℕ
    pub returns : result ≡ some (record b { memory = memory; extra_bytes = extra }, p)
    pub stored : Stored b recs h r memory extra p

  abbrev pub IsUpper : Type 0
  IsUpper = (length h.lower ≡ 0) × (h.start + length h.upper < b.content_size) × (b.extra_bytes ≡ 0)

  abbrev IsWrapped : Type 0
  IsWrapped =
      (h.start + length h.upper ≡ b.content_size + b.extra_bytes)
      × (length h.lower ≤ h.start)
      × (b.extra_bytes ≤ 3)

  below_tail : IsUpper → h.start + 0 + length (bytes recs) < b.content_size
  below_tail u = omega (arith, length-text h)

  upper-Pushes : IsUpper → ins b + length r ≤ b.content_size → Pushes (push_chunk b (ins b) r)
  unfolding push_chunk
  upper-Pushes u fits =
      let at : ins b ≡ h.start + length h.upper = ground (arith, ins-eq h) in
      let lower_nil : h.lower ≡ [] = nil-of_length h.lower u.0 in
      let size : length (h.upper ++ r) ≡ length h.upper + length r = length-append h.upper r in
      record {
        memory = write_bytes b.memory (ins b) r;
        extra = b.extra_bytes;
        p = if ltb (ins b + length r) b.content_size then ins b + length r else 0;
        returns = ground (arith, h.allocated);
        stored = record {
          upper = h.upper ++ r;
          lower = [];
          text =
              ap (λ l. l ++ r) (h.text ∙ ap (λ l. h.upper ++ l) lower_nil ∙ append-nil h.upper)
              ∙ sym (append-nil (h.upper ++ r));
          same = refl;
          aligned = h.aligned;
          phase = ground (arith, size, at);
          upper_stored =
              slice-write_next b.memory r h.start (length h.upper) (ins b) (length (h.upper ++ r))
                at size
              ∙ ap (λ l. l ++ r) h.upper_stored;
          lower_stored = unfold slice in refl;
          at_end = ground (arith, size, at);
        };
      }

  wrapped-Pushes : IsWrapped → ins b + length r ≤ h.start → Pushes (push_chunk b (ins b) r)
  unfolding push_chunk
  wrapped-Pushes u fits =
      let at : ins b ≡ length h.lower = ground (arith, ins-eq h) in
      let size : length (h.lower ++ r) ≡ length h.lower + length r = length-append h.lower r in
      record {
        memory = write_bytes b.memory (ins b) r;
        extra = b.extra_bytes;
        p = ins b + length r;
        returns = ground (arith, h.allocated, h.inside);
        stored = record {
          upper = h.upper;
          lower = h.lower ++ r;
          text = ap (λ l. l ++ r) h.text ∙ append_assoc h.upper h.lower r;
          same = refl;
          aligned = h.aligned;
          phase = inr (u.0, omega arith, u.2);
          upper_stored =
              slice-write_behind b.memory (ins b) r h.start (length h.upper) fits ∙ h.upper_stored;
          lower_stored =
              slice-write_next b.memory r 0 (length h.lower) (ins b) (length (h.lower ++ r))
                (omega arith) size
              ∙ ap (λ l. l ++ r) h.lower_stored;
          at_end = ground (arith, size, at);
        };
      }

  -- The first part goes to the tail or up to three bytes past it, the second to the head.
  module _ (d1 d2 : List ℕ) (parts : r ≡ d1 ++ d2) (u : IsUpper)
      (reaches : b.content_size ≤ ins b + length d1) (near : ins b + length d1 ≤ b.content_size + 3)
      (fits : length d2 ≤ h.start) where
    extra' : ℕ
    extra' = ins b + length d1 - b.content_size

    first_part :
        push_chunk b (ins b) d1
        ≡ some (record b { memory = write_bytes b.memory (ins b) d1; extra_bytes = extra' }, 0)
    unfolding push_chunk extra'
    first_part = ground (arith, h.allocated)

    second_part :
        push_parts b (some (d1, d2))
        ≡ some (
          record b {
            memory = write_bytes (write_bytes b.memory (ins b) d1) 0 d2;
            extra_bytes = extra';
          },
          length d2,
        )
    unfolding push_chunk
    second_part = rw (first_part, ◌>>=◌) (ground (arith, h.allocated, h.inside))

    pub parts-Pushes : Pushes (push_parts b (some (d1, d2)))
    unfolding extra'
    parts-Pushes =
        let at : ins b ≡ h.start + length h.upper = ground (arith, ins-eq h) in
        let lower_nil : h.lower ≡ [] = nil-of_length h.lower u.0 in
        let size : length (h.upper ++ d1) ≡ length h.upper + length d1 = length-append h.upper d1 in
        record {
          memory = write_bytes (write_bytes b.memory (ins b) d1) 0 d2;
          extra = extra';
          p = length d2;
          returns = second_part;
          stored = record {
            upper = h.upper ++ d1;
            lower = d2;
            text =
                ap₂ ◌++◌ (h.text ∙ ap (λ l. h.upper ++ l) lower_nil ∙ append-nil h.upper) parts
                ∙ sym (append_assoc h.upper d1 d2);
            same = places-below b.content_size h.start b.extra_bytes extra' 0 recs (below_tail u);
            aligned = IsAligned-below b.content_size h.start extra' 0 recs (below_tail u);
            phase = inr (omega (arith, size), fits, omega arith);
            upper_stored =
                slice-write_behind (write_bytes b.memory (ins b) d1) 0 d2 h.start
                  (length (h.upper ++ d1)) (omega arith)
                ∙ slice-write_next b.memory d1 h.start (length h.upper) (ins b)
                    (length (h.upper ++ d1)) at size
                ∙ ap (λ l. l ++ d1) h.upper_stored;
            lower_stored = slice-write (write_bytes b.memory (ins b) d1) 0 d2;
            at_end = ground (arith, size, at);
          };
        }

  room_upper : IsUpper → length r ≤ free_space b → length r + length h.upper ≤ b.content_size
  room_upper u fits = elim (dec_lt 0 (length recs)) [
    | yes p ↦ ground (arith, free_space-eq h p)
    | no p ↦
        let empty_text : length (bytes recs) ≡ 0 =
          ap (λ l. length (bytes l)) (nil-of_length recs (omega arith)) in
        omega (arith, free_space_empty h (omega arith), length-text h)
  ]

  room_wrapped : IsWrapped → length r ≤ free_space b → length r + length h.lower ≤ h.start
  room_wrapped u fits = elim (dec_lt 0 (length recs)) [
    | yes p ↦ ground (arith, free_space-eq h p)
    | no p ↦
        let empty_text : length (bytes recs) ≡ 0 =
          ap (λ l. length (bytes l)) (nil-of_length recs (omega arith)) in
        absurd (omega (arith, h.inside, length-text h))
  ]

  -- Before the oldest record and up to the tail a record is stored whole; `parts` is what is done
  -- where neither has room.
  pub placed :
      (whole parts : Option (RecordBuffer × ℕ))
      → whole ≡ push_chunk b (ins b) r
      → (IsUpper
          → b.content_size < ins b + length r
          → ins b ≤ b.content_size
          → length r + ins b ≤ b.content_size + h.start
          → Pushes parts)
      → length r ≤ free_space b
      → Pushes (
          if leb (ins b) (oldest b)
          then whole
          else if leb (length r) (b.content_size - ins b)
          then whole
          else parts)
  placed whole parts e split fits = elim h.phase [
    | inl u ↦ elim (Bool-cases (leb (ins b) (oldest b))) [
      | inl before ↦
          rw (before, e)
            (upper-Pushes u
              (ground (arith, ins-eq h, h.start_at, room_upper u fits, h.unused, upper_nonempty h)))
      | inr behind ↦ elim (Bool-cases (leb (length r) (b.content_size - ins b))) [
        | inl below ↦ rw (behind, below, e) (upper-Pushes u (ground (arith, ins-eq h)))
        | inr past ↦
            rw (behind, past)
              (split u (ground (arith, ins-eq h)) (ground (arith, ins-eq h))
                (ground (arith, ins-eq h, room_upper u fits)))
      ]
    ]
    | inr w ↦
        let before : leb (ins b) (oldest b) ≡ true = ground (arith, ins-eq h, h.start_at) in
        rw (before, e) (wrapped-Pushes w (ground (arith, ins-eq h, room_wrapped w fits)))
  ]
