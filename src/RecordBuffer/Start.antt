-- ===== src/RecordBuffer/Start.antt =====
-- A new buffer of src/output/recordbuffer.rs, and where its limits do not hold.
use coaly.Prelude.{
  ℕ, zero, suc, ◌+◌, ◌-◌, ◌≤◌, ◌<◌, ◌^◌, ◌≡◌, refl, ap, ◌∙◌, inl, inr, Bool, true, false, none,
  some, List, [], ◌∷◌, length, length-append, length-replicate, arith, ltb, leb, Bool-cases, min,
  max, get_or, replicate,
}
use coaly.RecordBuffer.Characters.{Chars, IsText, bytes, ◌>>=◌}
use coaly.RecordBuffer.Storage.{Memory, slice}
use coaly.RecordBuffer.Index.{ahead, window}
use coaly.RecordBuffer.Splitting.{split_rec_lem}
use coaly.RecordBuffer.Truncating.{bytes-append}
use coaly.RecordBuffer.Layout.{Holds}
use coaly.RecordBuffer.{
  RecordBuffer, oldest, ins, in_memory, backed_by_file, fresh, push_chunk, push_parts, push_str,
}

get_or-replicate : (n i : ℕ) → get_or {A = ℕ} (replicate n 0) i 0 ≡ 0
get_or-replicate zero i = refl
get_or-replicate (suc n) zero = refl
get_or-replicate (suc n) (suc i) = get_or-replicate n i

-- A buffer that was just made holds no records.
fresh-Holds :
    (mapped : Bool) (memory : Memory) (buffer_size content_size index_size max_rec_len : ℕ)
    → (mapped ≡ true → (content_size + 32 ≤ buffer_size) × (content_size < 10 ^ 14))
    → 0 < content_size
    → content_size + 4 ≤ buffer_size
    → 0 < index_size
    → max_rec_len ≤ content_size
    → Holds (fresh mapped memory buffer_size content_size index_size max_rec_len) []
unfolding window ahead slice
fresh-Holds mapped memory buffer_size content_size index_size max_rec_len admin some_bytes allocated
      some_entries limited =
    record {
      admin = admin;
      allocated = allocated;
      limited = limited;
      table = omega (arith, length-replicate {A = ℕ} index_size 0);
      first = omega arith;
      last = refl;
      count = refl;
      room = omega arith;
      start = 0;
      start_at = get_or-replicate index_size 0;
      inside = some_bytes;
      positions = ap (λ x. x ∷ []) (get_or-replicate index_size 0 ∙ ground arith);
      aligned = inl (omega arith);
      nonempty = tt;
      unused = λ e. refl;
      upper = [];
      lower = [];
      text = refl;
      phase = inl (refl, omega arith, refl);
      upper_stored = refl;
      lower_stored = refl;
    }

-- A buffer of more than four bytes in memory is created, and holds no records.
pub in_memory-Holds :
    (memory : Memory) (buf_size max_record_count max_record_len : ℕ)
    → 4 < buf_size
    → (b : RecordBuffer) × (in_memory memory buf_size max_record_count max_record_len ≡ some b)
      × Holds b []
unfolding in_memory
in_memory-Holds memory buf_size max_record_count max_record_len large =
    let enough : ltb buf_size 4 ≡ false = ground arith in
    (
      fresh false memory (max 20 buf_size) (buf_size - 4) (max 4 max_record_count)
          (min max_record_len (buf_size - 4)),
      rw enough refl,
      fresh-Holds false memory (max 20 buf_size) (buf_size - 4) (max 4 max_record_count)
          (min max_record_len (buf_size - 4)) (λ e. absurd cc) (omega arith) (omega arith)
          (omega arith) (omega arith),
    )

-- So is one over the mapping of a file.
pub backed_by_file-Holds :
    (memory : Memory) (buf_size max_record_count : ℕ)
    → buf_size < 10 ^ 14
    → (b : RecordBuffer) × (backed_by_file (some memory) buf_size max_record_count ≡ some b)
      × Holds b []
unfolding backed_by_file
backed_by_file-Holds memory buf_size max_record_count small =
    let size : ℕ = max 48 buf_size in
    (
      fresh true memory size (size - 32) (max 4 max_record_count) (size - 32),
      refl,
      fresh-Holds true memory size (size - 32) (max 4 max_record_count) (size - 32)
          (λ e. (omega arith, omega arith)) (omega arith) (omega arith) (omega arith) (omega arith),
    )

second_overruns :
    (b : RecordBuffer) (d1 d2 : List ℕ)
    → b.buffer_size < length d2
    → push_parts b (some (d1, d2)) ≡ none
unfolding push_chunk
second_overruns b d1 d2 long = elim (Bool-cases (ltb b.buffer_size (ins b + length d1))) [
  | inl over ↦ rw (over, ◌>>=◌) refl
  | inr fits ↦ rw fits (elim (Bool-cases (ltb (ins b + length d1) b.content_size)) [
    | inl below ↦ rw (below, ◌>>=◌) (ground arith)
    | inr past ↦ rw past (elim (Bool-cases (ltb b.content_size (ins b + length d1))) [
      | inl extra ↦ rw (extra, ◌>>=◌) (ground arith)
      | inr whole ↦ rw (whole, ◌>>=◌) (ground arith)
    ])
  ])
]

-- Where the oldest record begins before the first free byte, and this is not behind the tail, a
-- text in valid encoding that is longer than the gap between it and the tail by more than the
-- allocated memory and three bytes is written past the allocated memory, whatever the maximum
-- record length.
pub push_str-overruns :
    (b : RecordBuffer) (rec : Chars)
    → IsText rec
    → oldest b < ins b
    → ins b ≤ b.content_size
    → b.content_size - ins b + 3 + b.buffer_size < length (bytes rec)
    → push_str b rec ≡ none
unfolding push_str push_chunk
push_str-overruns b rec w behind inside long =
    let (n, cut, returns, reaches, near) =
      split_rec_lem rec (b.content_size - ins b) w (omega arith) in
    let size : length (bytes rec) ≡ length (bytes cut.kept) + length (bytes cut.dropped) =
      ap (λ t. length (bytes t)) cut.splits
      ∙ ap length (bytes-append cut.kept cut.dropped)
      ∙ length-append (bytes cut.kept) (bytes cut.dropped) in
    let before : leb (ins b) (oldest b) ≡ false = ground arith in
    let below : leb (length (bytes rec)) (b.content_size - ins b) ≡ false = ground arith in
    rw
      (
        before,
        below,
        returns,
        second_overruns b (bytes cut.kept) (bytes cut.dropped) (omega (arith, cut.size, size)),
        ◌>>=◌,
      )
      refl
