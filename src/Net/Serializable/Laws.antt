-- ===== src/Net/Serializable/Laws.antt =====
-- When a value can be sent: what its serialization appends is read back, whatever follows it.
use coaly.Prelude.{
  ℕ, ◌+◌, ◌≡◌, refl, sym, ap, ap₂, ◌∙◌, List, [], ◌∷◌, ◌++◌, append_assoc, arith, length,
  length-append, drop, leb, true,
}
use coaly.Net.Outcome.{ok, ◌>>=◌, slice_from}
use coaly.Net.Serializable.{
  Serializable, both, struct, serialize_both, deserialize_both, deserialize_struct,
}

-- `encoding v` are the bytes of `v`.
pub record IsLawful {T : Type 0} (s : Serializable T) (Valid : T → Type 0) : Type 0 where
  pub encoding : T → List ℕ
  pub appends :
      (v : T) (buffer : List ℕ)
      → Valid v
      → s.serialize_to v buffer ≡ (buffer ++ encoding v, s.serialized_size v)
  pub sized : (v : T) → Valid v → length (encoding v) ≡ s.serialized_size v
  pub reads : (v : T) (rest : List ℕ) → Valid v → s.deserialize_from (encoding v ++ rest) ≡ ok v

pub drop-append : (n : ℕ) (xs ys : List ℕ) → n ≡ length xs → drop n (xs ++ ys) ≡ ys
drop-append n [] ys e = let e' : n ≡ 0 = e in rw e'
drop-append n (x ∷ xs) ys e = rw e (drop-append (length xs) xs ys refl)

-- The slice behind what has been read.
pub slice_from-append : (n : ℕ) (xs ys : List ℕ) → n ≡ length xs → slice_from n (xs ++ ys) ≡ ok ys
unfolding slice_from
slice_from-append n xs ys e =
    let inside : leb n (length (xs ++ ys)) ≡ true = ground (arith, length-append xs ys) in
    rw inside (ap ok (drop-append n xs ys e))

module _ {A B : Type 0} {s : Serializable A} {t : Serializable B} {P : A → Type 0} {Q : B → Type 0}
    (f : IsLawful s P) (g : IsLawful t Q) where
  pub both_appends :
      (v : A × B) (buffer : List ℕ)
      → P v.0 × Q v.1
      → serialize_both s t v buffer ≡ (
        buffer ++ (f.encoding v.0 ++ g.encoding v.1),
        s.serialized_size v.0 + t.serialized_size v.1,
      )
  unfolding serialize_both
  both_appends (a, b) buffer h =
      rw (f.appends a buffer h.0, g.appends b (buffer ++ f.encoding a) h.1)
        (ap (λ l. (l, s.serialized_size a + t.serialized_size b))
          (append_assoc buffer (f.encoding a) (g.encoding b)))

  pub both_reads :
      (v : A × B) (rest : List ℕ)
      → P v.0 × Q v.1
      → deserialize_both s t ((f.encoding v.0 ++ g.encoding v.1) ++ rest) ≡ ok v
  unfolding deserialize_both
  both_reads (a, b) rest h =
      rw
        (
          append_assoc (f.encoding a) (g.encoding b) rest,
          f.reads a (g.encoding b ++ rest) h.0,
          ◌>>=◌,
        )
        (rw
          (
            slice_from-append (s.serialized_size a) (f.encoding a) (g.encoding b ++ rest)
                (sym (f.sized a h.0)),
            ◌>>=◌,
          )
          (rw (g.reads b rest h.1, ◌>>=◌) refl))

  -- Fields one behind the other can be sent if each can.
  abbrev pub both-IsLawful : IsLawful (both s t) (λ v. P v.0 × Q v.1)
  both-IsLawful = record {
    encoding = λ v. f.encoding v.0 ++ g.encoding v.1;
    appends = both_appends;
    sized = λ v h.
        length-append (f.encoding v.0) (g.encoding v.1)
        ∙ ap₂ ◌+◌ (f.sized v.0 h.0) (g.sized v.1 h.1);
    reads = both_reads;
  }

-- A structure can be sent if it is built from its fields and these can be sent.
module _ {A B : Type 0} (fields : A → B) (build : B → A) {s : Serializable B} {Q : B → Type 0}
    (P : A → Type 0) (f : IsLawful s Q) (valid : (a : A) → P a → Q (fields a))
    (built : (a : A) → P a → build (fields a) ≡ a) where
  pub struct_reads :
      (a : A) (rest : List ℕ)
      → P a
      → deserialize_struct fields build s (f.encoding (fields a) ++ rest) ≡ ok a
  unfolding deserialize_struct
  struct_reads a rest h = rw (f.reads (fields a) rest (valid a h), ◌>>=◌) (ap ok (built a h))

  abbrev pub struct-IsLawful : IsLawful (struct fields build s) P
  struct-IsLawful = record {
    encoding = λ a. f.encoding (fields a);
    appends = λ a buffer h. f.appends (fields a) buffer (valid a h);
    sized = λ a h. f.sized (fields a) (valid a h);
    reads = struct_reads;
  }
