-- ===== src/RecordBuffer/Storage.antt =====
-- The memory behind a record buffer of src/output/recordbuffer.rs: bytes by their offset.
use coaly.Prelude.{
  ℕ, zero, suc, ◌+◌, ◌≤◌, ◌<◌, ◌≡◌, refl, ap, ap₂, ◌∙◌, List, [], ◌∷◌, ◌++◌, ◌==◌, if◌then◌else◌,
  length, arith, ne→==, ==_refl,
}

abbrev pub Memory : Type 0
Memory = ℕ → ℕ

abbrev store : Memory → ℕ → ℕ → Memory
store memory at byte i = if i == at then byte else memory i

-- The loop of `push_chunk`.
unfoldable pub write_bytes : Memory → ℕ → List ℕ → Memory
write_bytes memory at [] = memory
write_bytes memory at (b ∷ bs) = write_bytes (store memory at b) (at + 1) bs

-- `from_raw_parts`
unfoldable pub slice : Memory → ℕ → ℕ → List ℕ
slice memory start zero = []
slice memory start (suc n) = memory start ∷ slice memory (start + 1) n

write_bytes-below :
    (m : Memory) (at : ℕ) (bs : List ℕ) (i : ℕ) → i < at → write_bytes m at bs i ≡ m i
unfolding write_bytes
write_bytes-below m at [] i h = refl
write_bytes-below m at (b ∷ bs) i h =
    write_bytes-below (store m at b) (at + 1) bs i (omega arith) ∙ rw (ne→== i at (omega arith))

write_bytes-above :
    (m : Memory) (at : ℕ) (bs : List ℕ) (i : ℕ) → at + length bs ≤ i → write_bytes m at bs i ≡ m i
unfolding write_bytes
write_bytes-above m at [] i h = refl
write_bytes-above m at (b ∷ bs) i h =
    write_bytes-above (store m at b) (at + 1) bs i (omega arith) ∙ rw (ne→== i at (omega arith))

slice-agree :
    (m m' : Memory) (start n : ℕ)
    → ((i : ℕ) → start ≤ i → i < start + n → m i ≡ m' i)
    → slice m start n ≡ slice m' start n
unfolding slice
slice-agree m m' start zero h = refl
slice-agree m m' start (suc n) h =
    ap₂ ◌∷◌ (h start (omega arith) (omega arith))
      (slice-agree m m' (start + 1) n (λ i p q. h i (omega arith) (omega arith)))

-- A slice that ends before the bytes, or begins behind them, is not touched.
pub slice-write_before :
    (m : Memory) (at : ℕ) (bs : List ℕ) (start n : ℕ)
    → start + n ≤ at
    → slice (write_bytes m at bs) start n ≡ slice m start n
slice-write_before m at bs start n h =
    slice-agree (write_bytes m at bs) m start n (λ i p q. write_bytes-below m at bs i (omega arith))

pub slice-write_behind :
    (m : Memory) (at : ℕ) (bs : List ℕ) (start n : ℕ)
    → at + length bs ≤ start
    → slice (write_bytes m at bs) start n ≡ slice m start n
slice-write_behind m at bs start n h =
    slice-agree (write_bytes m at bs) m start n (λ i p q. write_bytes-above m at bs i (omega arith))

-- The bytes that were written are read back.
pub slice-write :
    (m : Memory) (at : ℕ) (bs : List ℕ) → slice (write_bytes m at bs) at (length bs) ≡ bs
unfolding slice write_bytes
slice-write m at [] = refl
slice-write m at (b ∷ bs) =
    ap₂ ◌∷◌ (write_bytes-below (store m at b) (at + 1) bs at (omega arith) ∙ rw (==_refl at))
      (slice-write (store m at b) (at + 1) bs)

-- A slice of `t` bytes is one of `n` bytes and one of the `k` bytes from `j` on.
pub slice-append :
    (m : Memory) (start n k j t : ℕ)
    → j ≡ start + n
    → t ≡ n + k
    → slice m start t ≡ slice m start n ++ slice m j k
unfolding slice
slice-append m start zero k j t p q =
    let p' : j ≡ start = omega arith in let q' : t ≡ k = omega arith in rw (p', q')
slice-append m start (suc n) k j t p q =
    let q' : t ≡ suc (n + k) = omega arith in
    rw q' (ap (λ l. m start ∷ l) (slice-append m (start + 1) n k j (n + k) (omega arith) refl))

-- Behind a slice, bytes that are written prolong it.
pub slice-write_next :
    (m : Memory) (bs : List ℕ) (start n at t : ℕ)
    → at ≡ start + n
    → t ≡ n + length bs
    → slice (write_bytes m at bs) start t ≡ slice m start n ++ bs
slice-write_next m bs start n at t p q =
    slice-append (write_bytes m at bs) start n (length bs) at t p q
    ∙ ap₂ ◌++◌ (slice-write_before m at bs start n (omega arith)) (slice-write m at bs)
