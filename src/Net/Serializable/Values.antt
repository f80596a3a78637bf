-- ===== src/Net/Serializable/Values.antt =====
-- Texts and options of src/net/serializable.rs are read back from their bytes; a text with a length
-- near the largest number makes the reader panic.
use coaly.Prelude.{
  ℕ, ◌+◌, ◌<◌, ◌≤◌, ◌^◌, ◌≡◌, refl, ap, true, false, Option, none, some, List, [], ◌∷◌, ◌++◌,
  append_assoc, arith, length, length-append, take, take-append, drop, ltb, leb, IsU64,
}
use coaly.Prelude.Texts.{Text}
use coaly.Net.Outcome.{ok, panic, ◌>>=◌, Subject}
use coaly.Net.Utf8.{is_utf8}
use coaly.Net.Serializable.{
  Serializable, string, option, bytes_u64, deserialize_string, deserialize_option, option_size,
  serialize_option,
}
use coaly.Net.Serializable.Laws.{IsLawful}
use coaly.Net.Serializable.Numbers.{u64_reads}

-- A Rust text: its bytes are valid UTF-8, and its serialized length is a `usize`.
pub record IsText (t : Text) : Type 0 where
  pub valid : is_utf8 t ≡ true
  pub short : length t + 8 < 2 ^ 64

pub string_reads :
    (t : Text) (rest : List ℕ)
    → IsText t
    → deserialize_string ((bytes_u64 (length t) ++ t) ++ rest) ≡ ok t
unfolding deserialize_string
string_reads t rest h =
    let buffer = (bytes_u64 (length t) ++ t) ++ rest in
    let long : ltb (length buffer) 8 ≡ false = ground arith in
    let small : leb (2 ^ 64) (length t + 8) ≡ false = ground (arith, h.short) in
    let enough : ltb (length buffer) (length t + 8) ≡ false =
      ground (arith, length-append t rest) in
    let content : take (length t) (drop 8 buffer) ≡ t = take-append t rest in
    rw
      (
        long,
        u64_reads Subject.u64 (length t) (t ++ rest) (omega (arith, h.short)),
        ◌>>=◌,
        small,
        enough,
        content,
        h.valid,
      )
      refl

abbrev pub string-IsLawful : IsLawful string IsText
string-IsLawful = record {
  encoding = λ t. bytes_u64 (length t) ++ t;
  appends =
      λ t buffer h. ap (λ l. (l, length t + 8)) (append_assoc buffer (bytes_u64 (length t)) t);
  sized = λ t h. omega arith;
  reads = string_reads;
}

-- A length of which the reader computes the end beyond the largest number makes it panic, whatever
-- follows.
pub deserialize_string-panics :
    (n : ℕ) (rest : List ℕ)
    → IsU64 n
    → 2 ^ 64 ≤ n + 8
    → deserialize_string (bytes_u64 n ++ rest) ≡ panic
unfolding deserialize_string
deserialize_string-panics n rest h large =
    let buffer = bytes_u64 n ++ rest in
    let long : ltb (length buffer) 8 ≡ false = ground arith in
    let overflow : leb (2 ^ 64) (n + 8) ≡ true = ground arith in
    rw (long, u64_reads Subject.u64 n rest h, ◌>>=◌, overflow) refl

-- The value of an option, if it has one, is valid.
abbrev pub IsOption : {T : Type 0} → (T → Type 0) → Option T → Type 0
IsOption P none = Unit {0}
IsOption P (some v) = P v

module _ {T : Type 0} {s : Serializable T} {P : T → Type 0} (f : IsLawful s P) where
  abbrev pub bytes_option : Option T → List ℕ
  bytes_option none = 0 ∷ []
  bytes_option (some v) = 255 ∷ f.encoding v

  pub option_appends :
      (o : Option T) (buffer : List ℕ)
      → IsOption P o
      → serialize_option s o buffer ≡ (buffer ++ bytes_option o, option_size s o)
  unfolding serialize_option option_size
  option_appends none buffer h = refl
  option_appends (some v) buffer h =
      rw (f.appends v (buffer ++ 255 ∷ []) h)
        (ap (λ l. (l, s.serialized_size v + 1)) (append_assoc buffer (255 ∷ []) (f.encoding v)))

  pub option_sized : (o : Option T) → IsOption P o → length (bytes_option o) ≡ option_size s o
  unfolding option_size
  option_sized none h = refl
  option_sized (some v) h = omega (arith, f.sized v h)

  pub option_reads :
      (o : Option T) (rest : List ℕ)
      → IsOption P o
      → deserialize_option s (bytes_option o ++ rest) ≡ ok o
  unfolding deserialize_option
  option_reads none rest h = refl
  option_reads (some v) rest h = rw (f.reads v rest h, ◌>>=◌) refl

  abbrev pub option-IsLawful : IsLawful (option s) (IsOption P)
  option-IsLawful = record {
    encoding = bytes_option;
    appends = option_appends;
    sized = option_sized;
    reads = option_reads;
  }
