-- ===== src/Net/Serializable/Maps.antt =====
-- Maps of texts of src/net/serializable.rs are read back from their bytes.
use coaly.Prelude.{
  ℕ, ◌+◌, ◌≡◌, refl, sym, ap, ap₂, ◌∙◌, false, List, [], ◌∷◌, ◌++◌, append_assoc, append-nil, arith,
  length, length-append, ltb, IsU64,
}
use coaly.Prelude.Texts.{Text, TextMap, Below, insert-Below}
use coaly.Net.Outcome.{ok, ◌>>=◌, Subject, slice_from}
use coaly.Net.Serializable.{
  text_map, bytes_u64, map_size, serialize_entries, serialize_map, deserialize_entries,
  deserialize_map,
}
use coaly.Net.Serializable.Laws.{IsLawful, slice_from-append}
use coaly.Net.Serializable.Numbers.{u64_reads}
use coaly.Net.Serializable.Values.{IsText, string-IsLawful}

-- Behind the entries `before`, each key lies above all those before it.
abbrev pub IsAscending : TextMap Text → TextMap Text → Type 0
IsAscending before [] = Unit {0}
IsAscending before ((k, v) ∷ m) = Below k before × IsAscending (before ++ (k, v) ∷ []) m

abbrev pub HasTexts : TextMap Text → Type 0
HasTexts [] = Unit {0}
HasTexts ((k, v) ∷ m) = IsText k × (IsText v × HasTexts m)

-- A Rust map of texts.
pub record IsMap (m : TextMap Text) : Type 0 where
  pub ascending : IsAscending [] m
  pub texts : HasTexts m
  pub short : IsU64 (length m)

abbrev bytes_string : Text → List ℕ
bytes_string t = bytes_u64 (length t) ++ t

abbrev pub bytes_entries : TextMap Text → List ℕ
bytes_entries [] = []
bytes_entries ((k, v) ∷ m) = bytes_string k ++ (bytes_string v ++ bytes_entries m)

entries_appends :
    (m : TextMap Text) (buffer : List ℕ) (n : ℕ)
    → HasTexts m
    → serialize_entries m buffer n ≡ (buffer ++ bytes_entries m, n + length (bytes_entries m))
unfolding serialize_entries
entries_appends [] buffer n h = ap₂ (λ l k. (l, k)) (sym (append-nil buffer)) (omega arith)
entries_appends ((k, v) ∷ m) buffer n h =
    let size : length (bytes_entries ((k, v) ∷ m))
        ≡ (length k + 8) + ((length v + 8) + length (bytes_entries m)) =
      omega (
        arith,
        length-append k (bytes_string v ++ bytes_entries m),
        length-append v (bytes_entries m),
      ) in
    let text : ((buffer ++ bytes_string k) ++ bytes_string v) ++ bytes_entries m
        ≡ buffer ++ bytes_entries ((k, v) ∷ m) =
      append_assoc (buffer ++ bytes_string k) (bytes_string v) (bytes_entries m)
      ∙ append_assoc buffer (bytes_string k) (bytes_string v ++ bytes_entries m) in
    let written : (((buffer ++ bytes_u64 (length k)) ++ k) ++ bytes_u64 (length v)) ++ v
        ≡ (buffer ++ bytes_string k) ++ bytes_string v =
      append_assoc ((buffer ++ bytes_u64 (length k)) ++ k) (bytes_u64 (length v)) v
      ∙ ap (λ l. l ++ bytes_string v) (append_assoc buffer (bytes_u64 (length k)) k) in
    ap (λ l. serialize_entries m l (n + ((length k + 8) + (length v + 8)))) written
    ∙ entries_appends m ((buffer ++ bytes_string k) ++ bytes_string v)
        (n + ((length k + 8) + (length v + 8))) h.1.1
    ∙ ap₂ (λ l j. (l, j)) text (omega arith)

entries_sized : (m : TextMap Text) → HasTexts m → 8 + length (bytes_entries m) ≡ map_size m
unfolding map_size
entries_sized [] h = refl
entries_sized ((k, v) ∷ m) h = omega (
  arith,
  entries_sized m h.1.1,
  length-append k (bytes_string v ++ bytes_entries m),
  length-append v (bytes_entries m),
)

entries_read :
    (m before : TextMap Text) (front rest buffer : List ℕ) (offset : ℕ)
    → buffer ≡ front ++ (bytes_entries m ++ rest)
    → offset ≡ length front
    → IsAscending before m
    → HasTexts m
    → deserialize_entries (length m) buffer offset before ≡ ok (before ++ m)
unfolding deserialize_entries
entries_read [] before front rest buffer offset e o a h = ap ok (sym (append-nil before))
entries_read ((k, v) ∷ m) before front rest buffer offset e o a h =
    let tail1 = bytes_string v ++ (bytes_entries m ++ rest) in
    let front1 = front ++ bytes_string k in
    let front2 = front1 ++ bytes_string v in
    let text : bytes_entries ((k, v) ∷ m) ++ rest ≡ bytes_string k ++ tail1 =
      append_assoc (bytes_string k) (bytes_string v ++ bytes_entries m) rest
      ∙ ap (λ l. bytes_string k ++ l) (append_assoc (bytes_string v) (bytes_entries m) rest) in
    let buffer0 : buffer ≡ front ++ (bytes_string k ++ tail1) = e ∙ ap (λ l. front ++ l) text in
    let buffer1 : buffer ≡ front1 ++ tail1 =
      buffer0 ∙ sym (append_assoc front (bytes_string k) tail1) in
    let buffer2 : buffer ≡ front2 ++ (bytes_entries m ++ rest) =
      buffer1 ∙ sym (append_assoc front1 (bytes_string v) (bytes_entries m ++ rest)) in
    let slice0 : slice_from offset buffer ≡ ok (bytes_string k ++ tail1) =
      ap (slice_from offset) buffer0 ∙ slice_from-append offset front (bytes_string k ++ tail1) o in
    let slice1 : slice_from (offset + (length k + 8)) buffer ≡ ok tail1 =
      ap (slice_from (offset + (length k + 8))) buffer1
      ∙ slice_from-append (offset + (length k + 8)) front1 tail1
          (omega (arith, length-append front (bytes_string k))) in
    rw (slice0, ◌>>=◌)
      (rw (string-IsLawful.reads k tail1 h.0, ◌>>=◌)
        (rw (slice1, ◌>>=◌)
          (rw (string-IsLawful.reads v (bytes_entries m ++ rest) h.1.0, ◌>>=◌)
            (rw (insert-Below k v before a.0) (
              entries_read m (before ++ (k, v) ∷ []) front2 rest buffer
                (offset + (length k + 8) + (length v + 8)) buffer2
                (omega (
                  arith,
                  length-append front (bytes_string k),
                  length-append front1 (bytes_string v),
                ))
                a.1 h.1.1
              ∙ ap ok (append_assoc before ((k, v) ∷ []) m))))))

pub map_appends :
    (m : TextMap Text) (buffer : List ℕ)
    → IsMap m
    → serialize_map m buffer ≡ (buffer ++ (bytes_u64 (length m) ++ bytes_entries m), map_size m)
unfolding serialize_map
map_appends m buffer h =
    entries_appends m (buffer ++ bytes_u64 (length m)) 8 h.texts
    ∙ ap₂ (λ l n. (l, n)) (append_assoc buffer (bytes_u64 (length m)) (bytes_entries m))
        (entries_sized m h.texts)

-- A map is read back from its bytes, whatever follows.
pub map_reads :
    (m : TextMap Text) (rest : List ℕ)
    → IsMap m
    → deserialize_map ((bytes_u64 (length m) ++ bytes_entries m) ++ rest) ≡ ok m
unfolding deserialize_map
map_reads m rest h =
    let buffer = (bytes_u64 (length m) ++ bytes_entries m) ++ rest in
    let long : ltb (length buffer) 8 ≡ false = ground arith in
    rw (long, u64_reads Subject.u64 (length m) (bytes_entries m ++ rest) h.short, ◌>>=◌)
      (entries_read m [] (bytes_u64 (length m)) rest buffer 8 refl refl h.ascending h.texts)

pub map_sized :
    (m : TextMap Text) → IsMap m → length (bytes_u64 (length m) ++ bytes_entries m) ≡ map_size m
map_sized m h = omega (arith, entries_sized m h.texts)

abbrev pub map-IsLawful : IsLawful text_map IsMap
map-IsLawful = record {
  encoding = λ m. bytes_u64 (length m) ++ bytes_entries m;
  appends = map_appends;
  sized = map_sized;
  reads = map_reads;
}
