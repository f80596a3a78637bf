-- ===== src/RecordBuffer/Evict.antt =====
-- `clear` and `remove_oldest_record` of src/output/recordbuffer.rs.
use coaly.Prelude.{
  ℕ, zero, suc, ◌+◌, ◌-◌, ◌≤◌, ◌<◌, ◌≡◌, refl, sym, ap, ap₂, ◌∙◌, ◌⊎◌, inl, List, [], ◌∷◌, ◌++◌,
  length, length-append, append-nil, length-drop, length-set, arith, drop, get_or, get_or-set_self,
  set,
}
use coaly.RecordBuffer.Characters.{bytes}
use coaly.RecordBuffer.Storage.{Memory, slice}
use coaly.RecordBuffer.Index.{ahead, window, next_index-le}
use coaly.RecordBuffer.Truncating.{drop-append}
use coaly.RecordBuffer.Layout.{Holds, place, places, IsAligned, length-text}
use coaly.RecordBuffer.Append.{IsAligned-below}
use coaly.RecordBuffer.{RecordBuffer, next_index, clear}

drop-append_left : (n : ℕ) (xs ys : List ℕ) → n ≤ length xs → drop n (xs ++ ys) ≡ drop n xs ++ ys
drop-append_left zero xs ys h = refl
drop-append_left (suc n) [] ys h = absurd (omega arith)
drop-append_left (suc n) (x ∷ xs) ys h = drop-append_left n xs ys (omega arith)

drop-append_right : (n k : ℕ) (xs ys : List ℕ) → n ≡ length xs + k → drop n (xs ++ ys) ≡ drop k ys
drop-append_right n k [] ys e = let e' : n ≡ k = omega arith in rw e'
drop-append_right zero k (x ∷ xs) ys e = absurd (omega arith)
drop-append_right (suc n) k (x ∷ xs) ys e = drop-append_right n k xs ys (omega arith)

drop-slice :
    (m : Memory) (o o' n k j : ℕ) → o' ≡ o + k → n ≡ k + j → drop k (slice m o n) ≡ slice m o' j
unfolding slice
drop-slice m o o' n zero j p e = ap₂ (slice m) (omega arith) (omega arith)
drop-slice m o o' zero (suc k) j p e = absurd (omega arith)
drop-slice m o o' (suc n) (suc k) j p e = drop-slice m (o + 1) o' n k j (omega arith) (omega arith)

module _ (cs o extra k : ℕ) where
  places-shift :
      (d d' : ℕ) (recs : List (List ℕ))
      → d' ≡ k + d
      → places cs o extra d' recs ≡ places cs (o + k) extra d recs
  places-shift d d' [] e = ground arith
  places-shift d d' (r ∷ rs) e =
      ap₂ ◌∷◌ (ground arith) (places-shift (d + length r) (d' + length r) rs (omega arith))

  IsAligned-shift :
      (d d' : ℕ) (recs : List (List ℕ))
      → d' ≡ k + d
      → IsAligned cs o extra d' recs
      → IsAligned cs (o + k) extra d recs
  IsAligned-shift d d' [] e a = ground arith
  IsAligned-shift d d' (r ∷ rs) e a =
      (ground arith, IsAligned-shift (d + length r) (d' + length r) rs (omega arith) a.1)

  -- Behind the upper part, the positions are those from the begin of the buffer on.
  places-wrap :
      (o' d d' : ℕ) (recs : List (List ℕ))
      → d' ≡ k + d
      → o + k ≡ o' + (cs + extra)
      → o' + d + length (bytes recs) < cs
      → places cs o extra d' recs ≡ places cs o' 0 d recs
  places-wrap o' d d' [] e w h = ground arith
  places-wrap o' d d' (r ∷ rs) e w h = ap₂ ◌∷◌ (ground (arith, length-append r (bytes rs))) (
      places-wrap o' (d + length r) (d' + length r) rs (omega arith) w
        (omega (arith, length-append r (bytes rs))))

places-head :
    (cs o extra d : ℕ) (recs : List (List ℕ))
    → get_or (places cs o extra d recs) 0 0 ≡ place cs o extra d
places-head cs o extra d [] = refl
places-head cs o extra d (r ∷ rs) = refl

pub IsAligned-head :
    (cs o extra d : ℕ) (recs : List (List ℕ))
    → IsAligned cs o extra d recs
    → (o + d < cs) ⊎ (cs + extra ≤ o + d)
IsAligned-head cs o extra d [] a = a
IsAligned-head cs o extra d (r ∷ rs) a = a.0

pub clear-Holds : {b : RecordBuffer} {recs : List (List ℕ)} → Holds b recs → Holds (clear b) []
unfolding clear window ahead slice
clear-Holds {b} h =
    let first : get_or (set b.records 0 0) 0 0 ≡ 0 =
      get_or-set_self b.records 0 0 0 (omega (arith, h.table)) in
    let inside : 0 < b.content_size = omega (arith, h.inside) in
    record {
      admin = h.admin;
      allocated = h.allocated;
      limited = h.limited;
      table = length-set b.records 0 0 ∙ h.table;
      first = omega arith;
      last = refl;
      count = refl;
      room = omega arith;
      start = 0;
      start_at = first;
      inside = inside;
      positions = ap (λ x. x ∷ []) (ground (arith, first, inside));
      aligned = inl inside;
      nonempty = tt;
      unused = λ e. refl;
      upper = [];
      lower = [];
      text = refl;
      phase = inl (refl, inside, refl);
      upper_stored = refl;
      lower_stored = refl;
    }

module _ {b : RecordBuffer} {r : List ℕ} {rs : List (List ℕ)} (h : Holds b (r ∷ rs)) where
  abbrev pub second : ℕ
  second = get_or b.records (next_index b.max_rec_index b.oldest_rec_index) 0

  positions_tail :
      window b.max_rec_index b.records
        (next_index b.max_rec_index b.oldest_rec_index)
        (suc (length rs))
      ≡ places b.content_size h.start b.extra_bytes (0 + length r) rs
  unfolding window
  positions_tail = ap (drop 1) h.positions

  pub second-eq : second ≡ place b.content_size h.start b.extra_bytes (length r)
  unfolding window
  second-eq =
      ap (λ l. get_or l 0 0) positions_tail
      ∙ places-head b.content_size h.start b.extra_bytes (0 + length r) rs
      ∙ ap (place b.content_size h.start b.extra_bytes) (omega arith)

  text_tail : bytes rs ≡ drop (length r) (h.upper ++ h.lower)
  text_tail = sym (drop-append r (bytes rs) (length r) refl) ∙ ap (drop (length r)) h.text

  pub size : length r + length (bytes rs) ≡ length h.upper + length h.lower
  size = sym (length-append r (bytes rs)) ∙ length-text h

  -- The buffer without its oldest record.
  abbrev pub rest_of : ℕ → RecordBuffer
  rest_of extra = record b {
    oldest_rec_index = next_index b.max_rec_index b.oldest_rec_index;
    record_count = b.record_count - 1;
    extra_bytes = extra;
  }

  rest_last :
      0 < length rs
      → b.ins_index
        ≡ ahead b.max_rec_index (next_index b.max_rec_index b.oldest_rec_index) (b.record_count - 1)
  unfolding ahead
  rest_last more =
      let same : b.record_count ≡ suc (b.record_count - 1) = omega (arith, h.count) in
      h.last ∙ ap (ahead b.max_rec_index b.oldest_rec_index) same

  -- The next record begins further up.
  pub tail-Holds_near :
      0 < length rs → h.start + length r < b.content_size → Holds (rest_of b.extra_bytes) rs
  tail-Holds_near more near =
      let kept : length r ≤ length h.upper = ground (arith, size, h.phase) in
      let left : length (drop (length r) h.upper) ≡ length h.upper - length r =
        length-drop (length r) h.upper in
      record {
        admin = h.admin;
        allocated = h.allocated;
        limited = h.limited;
        table = h.table;
        first = next_index-le b.max_rec_index b.oldest_rec_index h.first;
        last = rest_last more;
        count = omega (arith, h.count);
        room = omega (arith, h.room);
        start = h.start + length r;
        start_at = second-eq ∙ ground arith;
        inside = near;
        positions =
            positions_tail
            ∙ places-shift b.content_size h.start b.extra_bytes (length r) 0 (0 + length r) rs
                (omega arith);
        aligned =
            IsAligned-shift b.content_size h.start b.extra_bytes (length r) 0 (0 + length r) rs
              (omega arith) h.aligned.1;
        nonempty = h.nonempty.1;
        unused = λ e. absurd (omega arith);
        upper = drop (length r) h.upper;
        lower = h.lower;
        text = text_tail ∙ drop-append_left (length r) h.upper h.lower kept;
        phase = ground (arith, h.phase, left);
        upper_stored =
            sym (
              drop-slice b.memory h.start (h.start + length r) (length h.upper) (length r)
                (length (drop (length r) h.upper)) refl (omega arith))
            ∙ ap (drop (length r)) h.upper_stored;
        lower_stored = h.lower_stored;
      }

  -- The next record begins in the lower part, which becomes the upper part.
  pub tail-Holds_wrapped :
      0 < length rs → b.content_size ≤ h.start + length r → Holds (rest_of 0) rs
  unfolding slice
  tail-Holds_wrapped more wraps =
      let inside : second ≤ length h.lower = ground (arith, second-eq, size, h.phase, h.inside) in
      let whole =
        IsAligned-head b.content_size h.start b.extra_bytes (0 + length r) rs h.aligned.1 in
      let over : length r ≡ length h.upper + second =
        ground (arith, second-eq, size, h.phase, whole, h.inside) in
      let left : length (drop second h.lower) ≡ length h.lower - second =
        length-drop second h.lower in
      let below : second + 0 + length (bytes rs) < b.content_size =
        ground (arith, size, h.phase, h.inside) in
      record {
        admin = h.admin;
        allocated = h.allocated;
        limited = h.limited;
        table = h.table;
        first = next_index-le b.max_rec_index b.oldest_rec_index h.first;
        last = rest_last more;
        count = omega (arith, h.count);
        room = omega (arith, h.room);
        start = second;
        start_at = refl;
        inside = omega arith;
        positions =
            positions_tail
            ∙ places-wrap b.content_size h.start b.extra_bytes (length r) second 0 (0 + length r) rs
                (omega arith) (ground (arith, h.phase, size)) below;
        aligned = IsAligned-below b.content_size second 0 0 rs below;
        nonempty = h.nonempty.1;
        unused = λ e. absurd (omega arith);
        upper = drop second h.lower;
        lower = [];
        text =
            text_tail
            ∙ drop-append_right (length r) second h.upper h.lower over
            ∙ sym (append-nil (drop second h.lower));
        phase = inl (refl, ground (arith, h.phase, left, h.inside), refl);
        upper_stored =
            sym (
              drop-slice b.memory 0 second (length h.lower) second (length (drop second h.lower))
                (omega arith) (omega arith))
            ∙ ap (drop second) h.lower_stored;
        lower_stored = refl;
      }
