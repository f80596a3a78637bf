-- ===== src/Tests/Buffers.antt =====
-- The record buffer of src/output/recordbuffer.rs at concrete inputs.
use coaly.Prelude.Texts.{codes}
use coaly.Prelude.{
  ℕ, ◌≤◌, ◌≡◌, refl, Bool, true, false, none, some, List, [], ◌∷◌, ◌++◌, arith, get_or, replicate,
  inl,
}
use coaly.RecordBuffer.Characters.{
  Chars, bytes, split_rec, truncate_rec, split_pos, back_to, forward_to, ◌>>=◌,
}
use coaly.RecordBuffer.Storage.{slice, write_bytes}
use coaly.RecordBuffer.Index.{ahead, window}
use coaly.RecordBuffer.Truncating.{Prefix, Overruns, truncate_rec_lem}
use coaly.RecordBuffer.Splitting.{split_rec_lem}
use coaly.RecordBuffer.Layout.{Holds, chunk_text, chunks-text}
use coaly.RecordBuffer.Room.{Removes, remove-Removes}
use coaly.RecordBuffer.Eviction.{Evicts, Keeps, create_free_space-Evicts, write-Holds, cache-Holds}
use coaly.RecordBuffer.Start.{push_str-overruns}
use coaly.RecordBuffer.{
  RecordBuffer, chunk, free_space, create_free_space, remove_oldest_record, push_str, write, cache,
  evict, push_chunk, update_admin_data, append_index, clipped, clear,
}

abbrev ab : List ℕ
ab = codes "ab"

abbrev cd : List ℕ
cd = codes "cd"

-- "aé€", with characters of one, two and three bytes.
abbrev mixed : Chars
mixed = (97 ∷ []) ∷ (195 ∷ 169 ∷ []) ∷ (226 ∷ 130 ∷ 172 ∷ []) ∷ []

abbrev xyz : Chars
xyz = (b'x' ∷ []) ∷ (b'y' ∷ []) ∷ (b'z' ∷ []) ∷ []

-- Five bytes that hold the records "ab" and "cd".
abbrev two_in : Bool → ℕ → RecordBuffer
two_in mapped buffer_size = record {
  mapped = mapped;
  records = 0 ∷ 2 ∷ 4 ∷ 0 ∷ [];
  index_capacity = 4;
  ins_index = 2;
  oldest_rec_index = 0;
  max_rec_index = 3;
  record_count = 2;
  buffer_size = buffer_size;
  content_size = 5;
  max_rec_len = 5;
  extra_bytes = 0;
  memory = λ i. get_or (ab ++ cd) i 0;
}

-- In memory, and in a file.
abbrev two_records : RecordBuffer
two_records = two_in false 9

abbrev two_in_file : RecordBuffer
two_in_file = two_in true 37

two_in-Holds :
    (mapped : Bool) (buffer_size : ℕ)
    → (mapped ≡ true → 37 ≤ buffer_size)
    → 9 ≤ buffer_size
    → Holds (two_in mapped buffer_size) (ab ∷ cd ∷ [])
unfolding window ahead slice
two_in-Holds mapped buffer_size in_file enough = record {
  admin = λ e. (in_file e, omega arith);
  allocated = omega arith;
  limited = omega arith;
  table = refl;
  first = omega arith;
  last = refl;
  count = refl;
  room = omega arith;
  start = 0;
  start_at = refl;
  inside = omega arith;
  positions = refl;
  aligned = (inl (omega arith), (inl (omega arith), inl (omega arith)));
  nonempty = omega arith;
  unused = λ e. refl;
  upper = ab ++ cd;
  lower = [];
  text = refl;
  phase = inl (refl, omega arith, refl);
  upper_stored = refl;
  lower_stored = refl;
}

two_records-Holds : Holds two_records (ab ∷ cd ∷ [])
two_records-Holds = two_in-Holds false 9 (λ e. absurd cc) (omega arith)

two_in_file-Holds : Holds two_in_file (ab ∷ cd ∷ [])
two_in_file-Holds = two_in-Holds true 37 (λ e. omega arith) (omega arith)

-- Three bytes wrap around, and the first record goes.
write_wraps : (do b ← write two_records xyz; chunk b 1) ≡ some (codes "yz")
unfolding write create_free_space push_str free_space evict remove_oldest_record clear push_chunk
    append_index clipped chunk slice write_bytes split_rec split_pos back_to forward_to
write_wraps = refl

write-Holds_example : Keeps (ab ∷ cd ∷ []) (bytes xyz) (write two_in_file xyz)
write-Holds_example =
    write-Holds two_in_file-Holds xyz (omega arith) (omega arith) (omega arith) (omega arith)

cache-Holds_example : Keeps (ab ∷ cd ∷ []) (bytes xyz) (cache two_records (bytes xyz))
cache-Holds_example =
    cache-Holds two_records-Holds (bytes xyz) (omega arith) (omega arith) (omega arith)

chunks-text_example :
    chunk_text (chunk two_records 0) ++ chunk_text (chunk two_records 1) ≡ ab ++ cd
chunks-text_example = chunks-text two_records-Holds

create_free_space-Evicts_example :
    Evicts two_records (ab ∷ cd ∷ []) 3 (create_free_space two_records 3)
create_free_space-Evicts_example = create_free_space-Evicts two_records-Holds 3 (omega arith)

truncate_rec_lem_example :
    (n : ℕ) × (p : Prefix mixed n) × (truncate_rec mixed 4 ≡ some (bytes p.kept))
    × (n ≤ 4)
    × Overruns 4 n p.dropped
truncate_rec_lem_example = truncate_rec_lem mixed 4

-- The number of extra bytes and the positions go behind the contents and three bytes.
file_positions :
    (do b ← write two_in_file xyz; some (slice b.memory 8 29))
    ≡ some (codes "0" ++ codes "00000000000002" ++ codes "00000000000002")
unfolding write create_free_space push_str free_space evict remove_oldest_record clear push_chunk
    append_index clipped slice write_bytes split_rec split_pos back_to forward_to update_admin_data
file_positions = refl

-- Two bytes before the tail are free, but the text has thirty.
abbrev long_text : Chars
long_text = replicate 30 (b'x' ∷ [])

push_str-overruns_example : push_str two_records long_text ≡ none
push_str-overruns_example =
    push_str-overruns two_records long_text (omega arith) (omega arith) (omega arith) (omega arith)

remove-Removes_example : Removes two_records (cd ∷ []) (remove_oldest_record two_records)
remove-Removes_example = remove-Removes (cd ∷ []) two_records-Holds

split_rec_lem_example :
    (n : ℕ) × (p : Prefix mixed n) × (split_rec mixed 2 ≡ some (bytes p.kept, bytes p.dropped))
    × (2 ≤ n)
    × (n ≤ 5)
split_rec_lem_example = split_rec_lem mixed 2 (omega arith) (omega arith)
