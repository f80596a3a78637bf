-- ===== src/RecordBuffer/Admin.antt =====
-- `update_admin_data` of src/output/recordbuffer.rs, which writes the positions of the records
-- behind the contents of a buffer that is backed by a file.
use coaly.Prelude.{
  ℕ, zero, suc, ◌+◌, ◌^◌, ◌-◌, ◌/◌, ◌%◌, ◌≤◌, ◌<◌, ◌≡◌, refl, ◌∙◌, true, false, Option, some, List,
  [], ◌∷◌, ◌++◌, length, length-append, length-replicate, arith, ltb, Bool-cases, inl, inr,
  replicate,
}
use coaly.RecordBuffer.Storage.{slice-write_before, write_bytes}
use coaly.RecordBuffer.Layout.{Holds, ins-lt}
use coaly.RecordBuffer.{RecordBuffer, oldest, ins, decimal, padded, update_admin_data, finish}

-- The buffer that results holds the records, with the same maximum record length.
abbrev pub Stays : Option RecordBuffer → RecordBuffer → List (List ℕ) → Type 0
Stays result b recs =
    (b' : RecordBuffer) × (result ≡ some b') × (b'.max_rec_len ≡ b.max_rec_len) × Holds b' recs

ge→ltb : (m n : ℕ) → n ≤ m → ltb m n ≡ false
ge→ltb m n h = ground arith

length-decimal : (fuel k n : ℕ) → n < 10 ^ (suc k) → length (decimal fuel n) ≤ suc k
length-decimal zero k n h = omega arith
length-decimal (suc fuel) zero n h =
    let one : ltb n 10 ≡ true = ground arith in rw one (omega arith)
length-decimal (suc fuel) (suc k) n h = elim (Bool-cases (ltb n 10)) [
  | inl one ↦ rw one (omega arith)
  | inr more ↦ rw more (
      omega (
        arith,
        length-append (decimal fuel (n / 10)) ((n % 10 + b'0') ∷ []),
        length-decimal fuel k (n / 10) (omega arith),
      ))
]

length-padded : (n : ℕ) → n < 10 ^ 14 → length (padded n) ≡ 14
length-padded n h = omega (
  arith,
  length-decimal 20 13 n h,
  length-append (replicate (14 - length (decimal 20 n)) b'0') (decimal 20 n),
  length-replicate {A = ℕ} (14 - length (decimal 20 n)) b'0',
)

module _ {b : RecordBuffer} {recs : List (List ℕ)} (h : Holds b recs) where
  -- Bytes that lie behind all bytes of the records leave them as they are.
  stored :
      (at : ℕ) (text : List ℕ)
      → b.content_size + 3 ≤ at
      → Holds (record b { memory = write_bytes b.memory at text }) recs
  stored at text behind = record {
    admin = h.admin;
    allocated = h.allocated;
    limited = h.limited;
    table = h.table;
    first = h.first;
    last = h.last;
    count = h.count;
    room = h.room;
    start = h.start;
    start_at = h.start_at;
    inside = h.inside;
    positions = h.positions;
    aligned = h.aligned;
    nonempty = h.nonempty;
    unused = h.unused;
    upper = h.upper;
    lower = h.lower;
    text = h.text;
    phase = h.phase;
    upper_stored =
        slice-write_before b.memory at text h.start (length h.upper) (ground (arith, h.phase))
        ∙ h.upper_stored;
    lower_stored =
        slice-write_before b.memory at text 0 (length h.lower) (ground (arith, h.phase, h.inside))
        ∙ h.lower_stored;
  }

  -- The data lie behind all bytes of the records, so that these stay.
  admin-Stays : b.mapped ≡ true → Stays (update_admin_data b) b recs
  unfolding update_admin_data
  admin-Stays m =
      let at : ℕ = b.content_size + 3 in
      let (room, small) = h.admin m in
      let text : List ℕ =
        ((b.extra_bytes % 256 + b'0') % 256) ∷ padded (oldest b) ++ padded (ins b) in
      let size : length text ≡ 29 = omega (
        arith,
        length-append (padded (oldest b)) (padded (ins b)),
        length-padded (oldest b) (omega (arith, h.start_at, h.inside)),
        length-padded (ins b) (omega (arith, ins-lt h)),
      ) in
      let enough : ltb b.buffer_size (at + length text) ≡ false =
        ge→ltb b.buffer_size (at + length text) (omega (arith, size)) in
      (
        record b { memory = write_bytes b.memory at text },
        rw enough refl,
        refl,
        stored at text (omega arith),
      )

  pub finish-Stays : Stays (finish b) b recs
  finish-Stays = elim (Bool-cases b.mapped) [
    | inl m ↦ let (b', returns, same, holds) = admin-Stays m in (b', simp m returns, same, holds)
    | inr m ↦ (b, simp m, refl, h)
  ]
