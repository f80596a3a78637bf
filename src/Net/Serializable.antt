-- ===== src/Net/Serializable.antt =====
-- src/net/serializable.rs: the trait, and how numbers, texts, options and maps implement it. A
-- buffer is the list of its bytes. `usize` has 64 bits.
pub mod Laws
pub mod Numbers
pub mod Values
pub mod Maps
use coaly.Prelude.{
  ℕ, zero, suc, ◌+◌, ◌*◌, ◌/◌, ◌%◌, ◌^◌, Bool, true, false, Option, none, some, List, [], ◌∷◌, ◌++◌,
  ltb, leb, ◌==◌, if◌then◌else◌, length, take, drop,
}
use coaly.Prelude.Texts.{Text, TextMap, insert}
use coaly.Net.Outcome.{Outcome, ok, err, panic, deser_err, Subject, ◌>>=◌, slice_from}
use coaly.Net.Utf8.{is_utf8}

-- The trait. Serializing appends to a buffer and returns the number of bytes written.
pub record Serializable (T : Type 0) : Type 0 where
  pub serialized_size : T → ℕ
  pub serialize_to : T → List ℕ → List ℕ × ℕ
  pub deserialize_from : List ℕ → Outcome T

unfoldable pub deserialize_u8 : List ℕ → Outcome ℕ
deserialize_u8 [] = err (deser_err Subject.u8)
deserialize_u8 (b ∷ bs) = ok b

abbrev pub u8 : Serializable ℕ
u8 = record {
  serialized_size = λ v. 1;
  serialize_to = λ v buffer. (buffer ++ v ∷ [], 1);
  deserialize_from = deserialize_u8;
}

-- `(v >> k) & 255` for a shift by `k` bits with `2 ^ k` as `p`.
abbrev pub byte_at : ℕ → ℕ → ℕ
byte_at p v = v / p % 256

abbrev pub bytes_u32 : ℕ → List ℕ
bytes_u32 v = byte_at (2 ^ 24) v ∷ byte_at (2 ^ 16) v ∷ byte_at (2 ^ 8) v ∷ v % 256 ∷ []

abbrev pub bytes_u64 : ℕ → List ℕ
bytes_u64 v =
    byte_at (2 ^ 56) v
    ∷ byte_at (2 ^ 48) v
    ∷ byte_at (2 ^ 40) v
    ∷ byte_at (2 ^ 32) v
    ∷ byte_at (2 ^ 24) v
    ∷ byte_at (2 ^ 16) v
    ∷ byte_at (2 ^ 8) v
    ∷ v % 256
    ∷ []

-- The loop of the numbers: `modulus` is that of the type.
abbrev pub from_bytes : ℕ → ℕ → List ℕ → ℕ
from_bytes modulus res [] = res
from_bytes modulus res (b ∷ bs) = from_bytes modulus (res * 256 % modulus + b) bs

unfoldable pub deserialize_u32 : List ℕ → Outcome ℕ
deserialize_u32 buffer =
    if ltb (length buffer) 4
    then err (deser_err Subject.u32)
    else ok (from_bytes (2 ^ 32) 0 (take 4 buffer))

abbrev pub u32 : Serializable ℕ
u32 = record {
  serialized_size = λ v. 4;
  serialize_to = λ v buffer. (buffer ++ bytes_u32 v, 4);
  deserialize_from = deserialize_u32;
}

-- For `u64`, and for `i64` as the number with the same bits, which names another type in its error.
unfoldable pub deserialize_u64 : Subject → List ℕ → Outcome ℕ
deserialize_u64 name buffer =
    if ltb (length buffer) 8
    then err (deser_err name)
    else ok (from_bytes (2 ^ 64) 0 (take 8 buffer))

abbrev pub u64 : Serializable ℕ
u64 = record {
  serialized_size = λ v. 8;
  serialize_to = λ v buffer. (buffer ++ bytes_u64 v, 8);
  deserialize_from = deserialize_u64 Subject.u64;
}

abbrev pub i64 : Serializable ℕ
i64 = record {
  serialized_size = λ v. 8;
  serialize_to = λ v buffer. (buffer ++ bytes_u64 v, 8);
  deserialize_from = deserialize_u64 Subject.ui64;
}

-- Where `slen + 8` overflows, either the addition panics or the slice that ends before it begins.
abbrev pub string_content : ℕ → List ℕ → Outcome Text
string_content slen buffer =
    let content = take slen (drop 8 buffer) in
    if leb (2 ^ 64) (slen + 8)
    then panic
    else if ltb (length buffer) (slen + 8)
    then err (deser_err Subject.string)
    else if is_utf8 content
    then ok content
    else err (deser_err Subject.string)

unfoldable pub deserialize_string : List ℕ → Outcome Text
deserialize_string buffer =
    if ltb (length buffer) 8
    then err (deser_err Subject.string)
    else (do slen ← u64.deserialize_from buffer; string_content slen buffer)

abbrev pub string : Serializable Text
string = record {
  serialized_size = λ v. length v + 8;
  serialize_to = λ v buffer.
      let (buffer1, n) = u64.serialize_to (length v) buffer in (buffer1 ++ v, length v + 8);
  deserialize_from = deserialize_string;
}

module _ {T : Type 0} (s : Serializable T) where
  unfoldable pub option_size : Option T → ℕ
  option_size none = 1
  option_size (some v) = s.serialized_size v + 1

  unfoldable pub serialize_option : Option T → List ℕ → List ℕ × ℕ
  serialize_option none buffer = (buffer ++ 0 ∷ [], 1)
  serialize_option (some v) buffer =
      let (buffer1, n) = s.serialize_to v (buffer ++ 255 ∷ []) in (buffer1, n + 1)

  unfoldable pub deserialize_option : List ℕ → Outcome (Option T)
  deserialize_option [] = err (deser_err Subject.option)
  deserialize_option (b ∷ bs) =
      if b == 0 then ok none else (do v ← s.deserialize_from bs; ok (some v))

  abbrev pub option : Serializable (Option T)
  option = record {
    serialized_size = option_size;
    serialize_to = serialize_option;
    deserialize_from = deserialize_option;
  }

-- `BTreeMap<String, String>`
unfoldable pub map_size : TextMap Text → ℕ
map_size [] = 8
map_size ((k, v) ∷ m) = map_size m + (string.serialized_size k + string.serialized_size v)

unfoldable pub serialize_entries : TextMap Text → List ℕ → ℕ → List ℕ × ℕ
serialize_entries [] buffer n = (buffer, n)
serialize_entries ((k, v) ∷ m) buffer n =
    let (buffer1, nk) = string.serialize_to k buffer in
    let (buffer2, nv) = string.serialize_to v buffer1 in serialize_entries m buffer2 (n + (nk + nv))

unfoldable pub serialize_map : TextMap Text → List ℕ → List ℕ × ℕ
unfolding serialize_entries
serialize_map m buffer =
    let (buffer1, n) = u64.serialize_to (length m) buffer in serialize_entries m buffer1 n

-- The `while` loop counts down the entries that are left.
unfoldable pub deserialize_entries : ℕ → List ℕ → ℕ → TextMap Text → Outcome (TextMap Text)
deserialize_entries zero buffer offset m = ok m
deserialize_entries (suc n) buffer offset m = do
  buf1 ← slice_from offset buffer
  key ← string.deserialize_from buf1
  let offset1 = offset + string.serialized_size key
  buf2 ← slice_from offset1 buffer
  value ← string.deserialize_from buf2
  deserialize_entries n buffer (offset1 + string.serialized_size value) (insert key value m)

unfoldable pub deserialize_map : List ℕ → Outcome (TextMap Text)
unfolding deserialize_entries
deserialize_map buffer = if ltb (length buffer) 8 then err (deser_err Subject.map) else (do
  no_of_entries ← u64.deserialize_from buffer
  deserialize_entries no_of_entries buffer 8 [])

abbrev pub text_map : Serializable (TextMap Text)
text_map = record {
  serialized_size = map_size;
  serialize_to = serialize_map;
  deserialize_from = deserialize_map;
}

-- The fields of a structure, one behind the other: the second is read behind the first.
module _ {A B : Type 0} (s : Serializable A) (t : Serializable B) where
  unfoldable pub serialize_both : A × B → List ℕ → List ℕ × ℕ
  serialize_both (a, b) buffer =
      let (buffer1, n) = s.serialize_to a buffer in
      let (buffer2, k) = t.serialize_to b buffer1 in (buffer2, n + k)

  unfoldable pub deserialize_both : List ℕ → Outcome (A × B)
  deserialize_both buffer = do
    a ← s.deserialize_from buffer
    buf ← slice_from (s.serialized_size a) buffer
    b ← t.deserialize_from buf
    ok (a, b)

  abbrev pub both : Serializable (A × B)
  both = record {
    serialized_size = λ v. s.serialized_size v.0 + t.serialized_size v.1;
    serialize_to = serialize_both;
    deserialize_from = deserialize_both;
  }

-- A structure by its fields.
module _ {A B : Type 0} (fields : A → B) (build : B → A) (s : Serializable B) where
  unfoldable pub deserialize_struct : List ℕ → Outcome A
  deserialize_struct buffer = do b ← s.deserialize_from buffer; ok (build b)

  abbrev pub struct : Serializable A
  struct = record {
    serialized_size = λ a. s.serialized_size (fields a);
    serialize_to = λ a. s.serialize_to (fields a);
    deserialize_from = deserialize_struct;
  }
