-- ===== src/RecordBuffer/Append.antt =====
-- A record is appended to the buffer of src/output/recordbuffer.rs: in one part or in two.
use coaly.Prelude.{
  ℕ, suc, ◌+◌, ◌≤◌, ◌<◌, ◌≡◌, sym, ap, ap₂, ◌∙◌, ◌⊎◌, inl, List, [], ◌∷◌, ◌++◌, length,
  length-append, length-set, All, arith, ltb, if◌then◌else◌, set, append-nil, get_or-set_ne,
}
use coaly.RecordBuffer.Characters.{bytes}
use coaly.RecordBuffer.Truncating.{bytes-append}
use coaly.RecordBuffer.Storage.{Memory, slice}
use coaly.RecordBuffer.Index.{ahead, ahead-eq, ahead-suc, window, window-set}
use coaly.RecordBuffer.Layout.{Holds, place, places, IsAligned}
use coaly.RecordBuffer.{RecordBuffer, next_index, append_index}

module _ (cs o extra : ℕ) where
  places-snoc :
      (d t : ℕ) (recs : List (List ℕ)) (r : List ℕ)
      → t ≡ d + length (bytes recs) + length r
      → places cs o extra d (recs ++ r ∷ []) ≡ places cs o extra d recs ++ place cs o extra t ∷ []
  places-snoc d t [] r e = let e' : t ≡ d + length r = omega arith in rw e'
  places-snoc d t (q ∷ rs) r e =
      ap (λ l. place cs o extra d ∷ l)
        (places-snoc (d + length q) t rs r (omega (arith, length-append q (bytes rs))))

  IsAligned-snoc :
      (d t : ℕ) (recs : List (List ℕ)) (r : List ℕ)
      → t ≡ d + length (bytes recs) + length r
      → IsAligned cs o extra d recs
      → (o + t < cs) ⊎ (cs + extra ≤ o + t)
      → IsAligned cs o extra d (recs ++ r ∷ [])
  IsAligned-snoc d t [] r e a k = let e' : d + length r ≡ t = omega arith in (a, rw e' k)
  IsAligned-snoc d t (q ∷ rs) r e a k =
      (a.0, IsAligned-snoc (d + length q) t rs r (omega (arith, length-append q (bytes rs))) a.1 k)

  -- While all bytes lie below the tail, the extra bytes do not matter.
  pub places-below :
      (extra' d : ℕ) (recs : List (List ℕ))
      → o + d + length (bytes recs) < cs
      → places cs o extra' d recs ≡ places cs o extra d recs
  places-below extra' d [] h = ground arith
  places-below extra' d (q ∷ rs) h =
      ap₂ ◌∷◌ (ground (arith, length-append q (bytes rs)))
        (places-below extra' (d + length q) rs (omega (arith, length-append q (bytes rs))))

  pub IsAligned-below :
      (d : ℕ) (recs : List (List ℕ))
      → o + d + length (bytes recs) < cs
      → IsAligned cs o extra d recs
  IsAligned-below d [] h = inl (omega arith)
  IsAligned-below d (q ∷ rs) h = (
    inl (omega (arith, length-append q (bytes rs))),
    IsAligned-below (d + length q) rs (omega (arith, length-append q (bytes rs))),
  )

nonempty-snoc :
    (recs : List (List ℕ)) (r : List ℕ)
    → All (λ q. 0 < length q) recs
    → 0 < length r
    → All (λ q. 0 < length q) (recs ++ r ∷ [])
nonempty-snoc [] r a p = (p, tt)
nonempty-snoc (q ∷ rs) r a p = (a.0, nonempty-snoc rs r a.1 p)

length-snoc : {A : Type 0} (xs : List A) (x : A) → length (xs ++ x ∷ []) ≡ suc (length xs)
length-snoc xs x = omega (arith, length-append xs (x ∷ []))

bytes-snoc : (recs : List (List ℕ)) (r : List ℕ) → bytes (recs ++ r ∷ []) ≡ bytes recs ++ r
bytes-snoc recs r = bytes-append recs (r ∷ []) ∙ ap (λ l. bytes recs ++ l) (append-nil r)

-- The memory, the extra bytes and the two parts after a record was stored.
pub record Stored (b : RecordBuffer) (recs : List (List ℕ)) (h : Holds b recs) (r : List ℕ)
    (memory : Memory) (extra p : ℕ) : Type 0 where
  pub upper : List ℕ
  pub lower : List ℕ
  pub text : bytes recs ++ r ≡ upper ++ lower
  pub same :
      places b.content_size h.start extra 0 recs
      ≡ places b.content_size h.start b.extra_bytes 0 recs
  pub aligned : IsAligned b.content_size h.start extra 0 recs
  pub phase :
      ((length lower ≡ 0) × (h.start + length upper < b.content_size) × (extra ≡ 0))
      ⊎ ((h.start + length upper ≡ b.content_size + extra) × (length lower ≤ h.start) × (extra ≤ 3))
  pub upper_stored : slice memory h.start (length upper) ≡ upper
  pub lower_stored : slice memory 0 (length lower) ≡ lower
  pub at_end : p ≡ (
      if ltb (h.start + length upper) b.content_size then h.start + length upper else length lower)

pub append-Holds :
    {b : RecordBuffer} {recs : List (List ℕ)} (h : Holds b recs) (r : List ℕ) (memory : Memory)
    (extra p : ℕ)
    → 0 < length r
    → length recs < b.max_rec_index
    → Stored b recs h r memory extra p
    → Holds (append_index (record b { memory = memory; extra_bytes = extra }) p) (recs ++ r ∷ [])
unfolding append_index
append-Holds {b} {recs} h r memory extra p pos room s =
    let n : ℕ = length recs in
    let top : ℕ = b.max_rec_index in
    let from : ℕ = b.oldest_rec_index in
    let t : ℕ = length (bytes recs) + length r in
    let size : t ≡ length s.upper + length s.lower =
      omega
        (arith, length-append (bytes recs) r, ap length s.text, length-append s.upper s.lower) in
    let at : next_index top b.ins_index ≡ ahead top from (suc n) =
      ap (next_index top) (h.last ∙ ap (ahead top from) h.count) ∙ sym (ahead-suc top from n) in
    record {
      admin = h.admin;
      allocated = h.allocated;
      limited = h.limited;
      table = length-set b.records (next_index top b.ins_index) p ∙ h.table;
      first = h.first;
      last = at ∙ ap (ahead top from) (omega (arith, h.count));
      count = omega (arith, h.count, length-snoc recs r);
      room = omega (arith, length-snoc recs r);
      start = h.start;
      start_at =
          get_or-set_ne b.records (next_index top b.ins_index) from p 0
            (rw at (ground (arith, ahead-eq top from (suc n) h.first)))
          ∙ h.start_at;
      inside = h.inside;
      positions =
          ap (λ k. window top (set b.records (next_index top b.ins_index) p) from (suc k))
            (length-snoc recs r)
          ∙ ap (λ j. window top (set b.records j p) from (suc (suc n))) at
          ∙ window-set top b.records from (suc n) p h.table h.first room
          ∙ ap₂ (λ l x. l ++ x ∷ []) (h.positions ∙ sym s.same) (place_eq size)
          ∙ sym (places-snoc b.content_size h.start extra 0 t recs r (omega arith));
      aligned =
          IsAligned-snoc b.content_size h.start extra 0 t recs r (omega arith) s.aligned
            (ground (arith, s.phase, size));
      nonempty = nonempty-snoc recs r h.nonempty pos;
      unused = λ e. absurd (omega (arith, length-snoc recs r));
      upper = s.upper;
      lower = s.lower;
      text = bytes-snoc recs r ∙ s.text;
      phase = s.phase;
      upper_stored = s.upper_stored;
      lower_stored = s.lower_stored;
    }
  where
    place_eq :
        length (bytes recs) + length r ≡ length s.upper + length s.lower
        → p ≡ place b.content_size h.start extra (length (bytes recs) + length r)
    place_eq size = ground (arith, s.phase, s.at_end)
