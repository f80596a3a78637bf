-- ===== src/RecordBuffer/Eviction.antt =====
-- How `create_free_space` of src/output/recordbuffer.rs makes room, and what `write` and `cache`
-- leave in the buffer.
use coaly.Prelude.{
  ℕ, zero, suc, ◌+◌, ◌≤◌, ◌<◌, ◌≡◌, refl, sym, ap, ◌∙◌, ◌⊎◌, inl, inr, true, false, Option, some,
  List, [], ◌∷◌, ◌++◌, append-nil, length, length-append, arith, ltb, leb, Bool-cases, min,
}
use coaly.RecordBuffer.Characters.{Chars, IsText, bytes, ◌>>=◌}
use coaly.RecordBuffer.Layout.{Holds, free_space_empty}
use coaly.RecordBuffer.Evict.{clear-Holds}
use coaly.RecordBuffer.Room.{remove-Removes}
use coaly.RecordBuffer.Write.{push_str-Holds, push_slice-Holds}
use coaly.RecordBuffer.{
  RecordBuffer, free_space, clear, remove_oldest_record, evict, create_free_space,
  can_lossless_hold, write, cache,
}

-- Some of the oldest records were removed, and there is room for the bytes needed.
pub record Evicts (b : RecordBuffer) (recs : List (List ℕ)) (needed : ℕ)
    (result : Option RecordBuffer) : Type 0 where
  pub buffer : RecordBuffer
  pub returns : result ≡ some buffer
  pub evicted : List (List ℕ)
  pub kept : List (List ℕ)
  pub joins : recs ≡ evicted ++ kept
  pub holds : Holds buffer kept
  pub fits : needed ≤ free_space buffer
  pub same : buffer.max_rec_len ≡ b.max_rec_len
  pub table : buffer.max_rec_index ≡ b.max_rec_index

stays :
    {b : RecordBuffer} {recs : List (List ℕ)} {needed : ℕ}
    → Holds b recs
    → needed ≤ free_space b
    → Evicts b recs needed (some b)
stays {b} {recs} h fits = record {
  buffer = b;
  returns = refl;
  evicted = [];
  kept = recs;
  joins = refl;
  holds = h;
  fits = fits;
  same = refl;
  table = refl;
}

evict-Evicts :
    (fuel : ℕ) {b : RecordBuffer} (recs : List (List ℕ)) (h : Holds b recs) (available needed : ℕ)
    → needed ≤ b.max_rec_len
    → (available ≤ free_space b) ⊎ (needed ≤ free_space b)
    → (length recs ≡ 0 → needed ≤ available)
    → length recs < fuel
    → Evicts b recs needed (evict fuel b available needed)
unfolding evict
evict-Evicts zero recs h available needed bound known enough fuel_left = absurd (omega arith)
evict-Evicts (suc fuel) [] h available needed bound known enough fuel_left =
    let last : ltb available needed ≡ false = ground (arith, enough refl) in
    rw last (stays h (ground (arith, enough refl)))
evict-Evicts (suc fuel) {b} (r ∷ rs) h available needed bound known enough fuel_left =
    elim (Bool-cases (ltb available needed)) [
      | inr done ↦ rw done (stays h (ground arith))
      | inl lacking ↦
          let x = remove-Removes rs h in
          let k =
            evict-Evicts fuel rs x.holds (available + (remove_oldest_record b).1) needed
              (omega (arith, x.same)) (ground (arith, x.freed)) (λ e. omega (arith, x.enough e))
              (omega arith) in
          rw lacking (record {
            buffer = k.buffer;
            returns = k.returns;
            evicted = r ∷ k.evicted;
            kept = k.kept;
            joins = ap (λ l. r ∷ l) k.joins;
            holds = k.holds;
            fits = k.fits;
            same = k.same ∙ x.same;
            table = k.table ∙ x.table;
          })
    ]

-- In a buffer that holds records, `create_free_space` for at most the maximum record length ends
-- within its fuel, removes only oldest records, and the free space then holds the bytes needed.
pub create_free_space-Evicts :
    {b : RecordBuffer} {recs : List (List ℕ)} (h : Holds b recs) (needed : ℕ)
    → needed ≤ b.max_rec_len
    → Evicts b recs needed (create_free_space b needed)
unfolding create_free_space clear
create_free_space-Evicts {b} {recs} h needed bound = elim (Bool-cases (leb b.content_size needed)) [
  | inl all ↦ rw all (record {
    buffer = clear b;
    returns = refl;
    evicted = recs;
    kept = [];
    joins = sym (append-nil recs);
    holds = clear-Holds h;
    fits = omega (arith, free_space_empty (clear-Holds h) refl, h.limited);
    same = refl;
    table = refl;
  })
  | inr part ↦ rw part (
      evict-Evicts (suc (suc b.record_count)) recs h (free_space b) needed bound (inl (omega arith))
        (λ e. omega (arith, free_space_empty h e, h.limited)) (omega (arith, h.count)))
]

-- The buffer after a record was stored: some of the oldest records are gone, the others stay, and
-- the new record follows them.
abbrev pub Keeps : (recs : List (List ℕ)) (r : List ℕ) → Option RecordBuffer → Type 0
Keeps recs r result =
    (b : RecordBuffer) × (evicted : List (List ℕ)) × (kept : List (List ℕ)) × (result ≡ some b)
    × (recs ≡ evicted ++ kept)
    × Holds b (kept ++ r ∷ [])

module _ {b : RecordBuffer} {recs : List (List ℕ)} (h : Holds b recs) where
  kept_room :
      {needed : ℕ} {result : Option RecordBuffer} (e : Evicts b recs needed result)
      → length recs < b.max_rec_index
      → length e.kept < e.buffer.max_rec_index
  kept_room e room = omega (arith, ap length e.joins, length-append e.evicted e.kept, e.table)

  short_text : (r : List ℕ) → length r ≤ b.max_rec_len → min b.max_rec_len (length r) ≡ length r
  short_text r short = omega arith

  -- In a buffer that holds records, in memory or in a file of less than 10 ^ 14 bytes with room for
  -- the administrative data, `write` of a text in valid encoding that has a byte and at most the
  -- maximum record length does not fault, if the index table has an entry left. It removes only
  -- oldest records, and the buffer then holds the others, in order, and the new one behind them.
  pub write-Holds :
      (rec : Chars)
      → IsText rec
      → 0 < length (bytes rec)
      → length (bytes rec) ≤ b.max_rec_len
      → length recs < b.max_rec_index
      → Keeps recs (bytes rec) (write b rec)
  unfolding write
  write-Holds [] w pos short room = absurd (omega arith)
  write-Holds (c ∷ cs) w pos short room =
      let e = create_free_space-Evicts h (length (bytes (c ∷ cs))) short in
      let (b', returns, same, holds) =
        push_str-Holds e.holds (c ∷ cs) w pos (omega (arith, e.same)) e.fits (kept_room e room) in
      (
        b',
        e.evicted,
        e.kept,
        rw (short_text (bytes (c ∷ cs)) short, e.returns, ◌>>=◌) returns,
        e.joins,
        holds,
      )

  -- In a buffer that holds records, in memory or in a file of less than 10 ^ 14 bytes with room for
  -- the administrative data, `cache` of bytes, at least one and at most as many as the maximum
  -- record length, does not fault, if the index table has an entry left. It removes only oldest
  -- records, and the buffer then holds the others, in order, and the new one behind them.
  pub cache-Holds :
      (r : List ℕ)
      → 0 < length r
      → length r ≤ b.max_rec_len
      → length recs < b.max_rec_index
      → Keeps recs r (cache b r)
  unfolding cache
  cache-Holds r pos short room =
      let e = create_free_space-Evicts h (length r) short in
      let (b', returns, same, holds) = push_slice-Holds e.holds r pos e.fits (kept_room e room) in
      (b', e.evicted, e.kept, rw (short_text r short, e.returns, ◌>>=◌) returns, e.joins, holds)

  -- If the buffer can hold a record without loss, making room for it changes nothing.
  pub create_free_space-lossless :
      (n : ℕ)
      → can_lossless_hold b n ≡ true
      → min b.max_rec_len n < b.content_size
      → create_free_space b (min b.max_rec_len n) ≡ some b
  unfolding create_free_space can_lossless_hold evict
  create_free_space-lossless n can part = ground arith
