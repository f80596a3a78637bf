-- ===== src/RecordBuffer.antt =====
-- src/output/recordbuffer.rs: the cyclic buffer for records. Addresses are offsets from `head`, so
-- `head` is 0 and `tail` is the content size. A fault, `none`, is a write outside the allocated
-- memory, or the panic of an `unwrap`.
pub mod Characters
pub mod Storage
pub mod Truncating
pub mod Splitting
pub mod Index
pub mod Layout
pub mod Append
pub mod Admin
pub mod Push
pub mod Write
pub mod Evict
pub mod Room
pub mod Eviction
pub mod Start
use coaly.Prelude.{
  ℕ, zero, suc, ◌+◌, ◌-◌, ◌*◌, ◌/◌, ◌%◌, Bool, true, false, Option, none, some, List, [], ◌∷◌, ◌++◌,
  min, max, ltb, leb, ◌==◌, if◌then◌else◌, length, get_or, set, take, drop, replicate, ◌||◌,
}
use Characters.{Chars, bytes, truncate_rec, split_rec, ◌>>=◌}
use Storage.{Memory, write_bytes, slice}

pub record RecordBuffer : Type 0 where
  pub mapped : Bool
  pub records : List ℕ
  pub index_capacity : ℕ
  pub ins_index : ℕ
  pub oldest_rec_index : ℕ
  pub max_rec_index : ℕ
  pub record_count : ℕ
  pub buffer_size : ℕ
  pub content_size : ℕ
  pub max_rec_len : ℕ
  pub extra_bytes : ℕ
  pub memory : Memory

abbrev pub min_mem_buffer_size : ℕ
min_mem_buffer_size = 20

abbrev pub min_mapped_buffer_size : ℕ
min_mapped_buffer_size = 48

abbrev pub min_index_size : ℕ
min_index_size = 4

-- A fresh buffer over memory that may hold anything. The vector of record positions is allocated
-- for exactly its length.
abbrev pub fresh : Bool → Memory → ℕ → ℕ → ℕ → ℕ → RecordBuffer
fresh mapped memory buffer_size content_size index_size max_rec_len = record {
  mapped = mapped;
  records = replicate index_size 0;
  index_capacity = index_size;
  ins_index = 0;
  oldest_rec_index = 0;
  max_rec_index = index_size - 1;
  record_count = 0;
  buffer_size = buffer_size;
  content_size = content_size;
  max_rec_len = max_rec_len;
  extra_bytes = 0;
  memory = memory;
}

-- The subtraction of 4 panics below 4.
unfoldable pub in_memory : Memory → ℕ → ℕ → ℕ → Option RecordBuffer
in_memory memory buf_size max_record_count max_record_len =
    if ltb buf_size 4
    then none
    else some (
        fresh false memory (max min_mem_buffer_size buf_size) (buf_size - 4)
          (max min_index_size max_record_count) (min max_record_len (buf_size - 4)))

-- The file's mapping is given; where opening, resizing or mapping fails there is none.
unfoldable pub backed_by_file : Option Memory → ℕ → ℕ → Option RecordBuffer
backed_by_file none buf_size max_record_count = none
backed_by_file (some memory) buf_size max_record_count =
    let buffer_size = max min_mapped_buffer_size buf_size in
    some (
      fresh true memory buffer_size (buffer_size - 32) (max min_index_size max_record_count)
        (buffer_size - 32))

unfoldable pub clear : RecordBuffer → RecordBuffer
clear b = record b {
  record_count = 0;
  extra_bytes = 0;
  ins_index = 0;
  oldest_rec_index = 0;
  records = set b.records 0 0;
}

abbrev pub is_empty : RecordBuffer → Bool
is_empty b = b.record_count == 0

-- The positions that the index table holds for the oldest record and for the first free byte.
abbrev pub oldest : RecordBuffer → ℕ
oldest b = get_or b.records b.oldest_rec_index 0

abbrev pub ins : RecordBuffer → ℕ
ins b = get_or b.records b.ins_index 0

-- The index behind `i` in the circular table.
abbrev pub next_index : ℕ → ℕ → ℕ
next_index max_index i = if i == max_index then 0 else i + 1

unfoldable pub free_space : RecordBuffer → ℕ
free_space b =
    if is_empty b
    then b.content_size
    else if ltb (oldest b) (ins b)
    then oldest b + b.content_size - ins b
    else oldest b - ins b

unfoldable pub can_lossless_hold : RecordBuffer → ℕ → Bool
unfolding free_space
can_lossless_hold b no_of_bytes =
    if leb b.index_capacity b.record_count
    then false
    else leb (min b.max_rec_len no_of_bytes) (free_space b)

unfoldable pub chunk : RecordBuffer → ℕ → Option (List ℕ)
chunk b index =
    if is_empty b || ltb 1 index
    then none
    else if ltb (oldest b) (ins b)
    then (if index == 0 then some (slice b.memory (oldest b) (ins b - oldest b)) else none)
    else if index == 0
    then some (slice b.memory (oldest b) (b.content_size - oldest b + b.extra_bytes))
    else if ins b == 0
    then none
    else some (slice b.memory 0 (ins b))

-- Returns the buffer and the number of bytes that the removed record occupied.
unfoldable pub remove_oldest_record : RecordBuffer → RecordBuffer × ℕ
unfolding clear
remove_oldest_record b =
    let second_index = next_index b.max_rec_index b.oldest_rec_index in
    let second = get_or b.records second_index 0 in
    let b1 = record b { oldest_rec_index = second_index; record_count = b.record_count - 1 } in
    if leb b.record_count 1
    then (clear b, b.max_rec_len)
    else if ltb (oldest b) second
    then (b1, second - oldest b)
    else (record b1 { extra_bytes = 0 }, b.content_size - oldest b + second)

-- The `while` loop of `create_free_space`, on fuel; `none` also if the fuel runs out.
unfoldable pub evict : ℕ → RecordBuffer → ℕ → ℕ → Option RecordBuffer
evict zero b available needed = none
evict (suc fuel) b available needed =
    let (b1, freed) = remove_oldest_record b in
    let rest = evict fuel b1 (available + freed) needed in
    if ltb available needed then rest else some b

-- Each round removes a record, and the last one makes room for any record.
unfoldable pub create_free_space : RecordBuffer → ℕ → Option RecordBuffer
create_free_space b needed_space =
    if leb b.content_size needed_space
    then some (clear b)
    else evict (suc (suc b.record_count)) b (free_space b) needed_space

-- Returns the buffer and the position behind the bytes, `head` if that is the tail or past it.
unfoldable pub push_chunk : RecordBuffer → ℕ → List ℕ → Option (RecordBuffer × ℕ)
push_chunk b to from =
    let p = to + length from in
    let b1 = record b { memory = write_bytes b.memory to from } in
    if ltb b.buffer_size p
    then none
    else if ltb p b.content_size
    then some (b1, p)
    else if ltb b.content_size p
    then some (record b1 { extra_bytes = p - b.content_size }, 0)
    else some (b1, 0)

-- The position behind a record goes to the index table.
unfoldable pub append_index : RecordBuffer → ℕ → RecordBuffer
append_index b p =
    let new_ins_index = next_index b.max_rec_index b.ins_index in
    record b {
      records = set b.records new_ins_index p;
      ins_index = new_ins_index;
      record_count = b.record_count + 1;
    }

-- `format!("{:0>14}", n)` on a `usize`, which has 20 digits at most.
abbrev pub decimal : ℕ → ℕ → List ℕ
decimal zero n = []
decimal (suc fuel) n =
    if ltb n 10 then (n + b'0') ∷ [] else decimal fuel (n / 10) ++ (n % 10 + b'0') ∷ []

abbrev pub padded : ℕ → List ℕ
padded n = replicate (14 - length (decimal 20 n)) b'0' ++ decimal 20 n

unfoldable pub update_admin_data : RecordBuffer → Option RecordBuffer
update_admin_data b =
    let text = ((b.extra_bytes % 256 + b'0') % 256) ∷ padded (oldest b) ++ padded (ins b) in
    let at = b.content_size + 3 in
    if ltb b.buffer_size (at + length text)
    then none
    else some (record b { memory = write_bytes b.memory at text })

abbrev pub finish : RecordBuffer → Option RecordBuffer
finish b = if b.mapped then update_admin_data b else some b

-- The bytes of a record, truncated if there are too many.
unfoldable pub clipped : RecordBuffer → Chars → Option (List ℕ)
clipped b rec =
    if ltb b.max_rec_len (length (bytes rec))
    then truncate_rec rec b.max_rec_len
    else some (bytes rec)

abbrev push_whole : RecordBuffer → Chars → Option (RecordBuffer × ℕ)
push_whole b rec = do text ← clipped b rec; push_chunk b (ins b) text

abbrev push_parts : RecordBuffer → Option (List ℕ × List ℕ) → Option (RecordBuffer × ℕ)
push_parts b none = none
push_parts b (some (part1, part2)) = do (b1, p) ← push_chunk b (ins b) part1; push_chunk b1 0 part2

unfoldable pub push_str : RecordBuffer → Chars → Option RecordBuffer
push_str b rec = do
  let gap = b.content_size - ins b
  (b1, p) ←
      if leb (ins b) (oldest b)
      then push_whole b rec
      else if leb (length (bytes rec)) gap
      then push_whole b rec
      else push_parts b (split_rec rec gap)
  finish (append_index b1 p)

-- The same for bytes, which are neither truncated nor split at characters.
unfoldable pub push_slice : RecordBuffer → List ℕ → Option RecordBuffer
push_slice b rec = do
  let gap = b.content_size - ins b
  (b1, p) ←
      if leb (ins b) (oldest b)
      then push_chunk b (ins b) rec
      else if leb (length rec) gap
      then push_chunk b (ins b) rec
      else push_parts b (some (take gap rec, drop gap rec))
  some (append_index b1 p)

unfoldable pub write : RecordBuffer → Chars → Option RecordBuffer
write b [] = some b
write b (c ∷ cs) = do
  b1 ← create_free_space b (min b.max_rec_len (length (bytes (c ∷ cs))))
  push_str b1 (c ∷ cs)

unfoldable pub cache : RecordBuffer → List ℕ → Option RecordBuffer
cache b rec = do b1 ← create_free_space b (min b.max_rec_len (length rec)); push_slice b1 rec

-- The loop of `records`: each record as one part, or as two where it wraps.
unfoldable pub records_from : ℕ → ℕ → RecordBuffer → List (List ℕ × Option (List ℕ))
records_from zero i b = []
records_from (suc n) i b =
    let next = next_index b.max_rec_index i in
    let start = get_or b.records i 0 in
    let end = get_or b.records next 0 in
    (if ltb end start
      then (
        slice b.memory start (b.content_size - start + b.extra_bytes),
        some (slice b.memory 0 end),
      )
      else (slice b.memory start (end - start), none))
    ∷ records_from n next b

unfoldable pub all_records : RecordBuffer → List (List ℕ × Option (List ℕ))
unfolding records_from
all_records b = records_from b.record_count b.oldest_rec_index b
