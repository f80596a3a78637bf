-- ===== src/Config/Returns.antt =====
-- What the functions of the configuration return: each step keeps a property, and none panics.
use coaly.Prelude.{
  ℕ, ◌≤◌, ◌≡◌, refl, leb, ltb, ◌&&◌, Bool, true, false, not, Option, none, some, List, [], ◌∷◌,
  arith, length, if◌then◌else◌,
}
use coaly.Prelude.Texts.{Text}
use coaly.Document.{TomlValueItem, TomlArray, no_items, ◌⨾◌}
use coaly.Policies.{size_value}
use coaly.Config.{
  CoalyException, Reads, read_on, ◌>>=◌, if_given, Library, item_value, string_of, array_of,
  str_par, as_integer, as_str, int_par, size_par, Words, words_loop, read_words, contains,
  number_text,
}

-- A result with a property.
abbrev pub Post {ℓ} : {A : Type ℓ} → (A → Type 0) → Option (A × List CoalyException) → Type 0
Post P none = ⊥
Post P (some (a, msgs)) = P a

-- Whatever warnings there are, there is a result, with a property.
pub record Returns {ℓ} {A : Type ℓ} (P : A → Type 0) (m : Reads A) : Type ℓ where
  pub post : (msgs : List CoalyException) → Post P (m msgs)

read_on-Post {ℓ κ} :
    {A : Type ℓ} {B : Type κ} {P : A → Type 0} (Q : B → Type 0) (f : A → Reads B)
    (r : Option (A × List CoalyException))
    → Post P r
    → ((a : A) → P a → Returns Q (f a))
    → Post Q (read_on f r)
read_on-Post Q f none h k = h
read_on-Post Q f (some (a, msgs)) h k = (k a h).post msgs

module _ {ℓ κ} {A : Type ℓ} {B : Type κ} {Q : B → Type 0} where
  pub bind-Returns :
      {P : A → Type 0} (m : Reads A) (f : A → Reads B)
      → Returns P m
      → ((a : A) → P a → Returns Q (f a))
      → Returns Q (m >>= f)
  bind-Returns m f h k = record { post = λ msgs. read_on-Post Q f (m msgs) (h.post msgs) k }

  pub if_given-Returns :
      (o : Option A) (other : Reads B) (f : A → Reads B)
      → Returns Q other
      → ((a : A) → o ≡ some a → Returns Q (f a))
      → Returns Q (if_given o other f)
  if_given-Returns none other f h k = h
  if_given-Returns (some a) other f h k = k a refl

pub if-Returns {ℓ} :
    {A : Type ℓ} {P : A → Type 0} (b : Bool) (m n : Reads A)
    → (b ≡ true → Returns P m)
    → (b ≡ false → Returns P n)
    → Returns P (if b then m else n)
if-Returns true m n h k = h refl
if-Returns false m n h k = k refl

abbrev pub Whatever {ℓ} : {A : Type ℓ} → A → Type 0
Whatever a = Unit {0}

abbrev pub Between : ℕ → ℕ → Option ℕ → Type 0
Between min max none = Unit {0}
Between min max (some n) = (min ≤ n) × (n ≤ max)

between : (min max n : ℕ) → (leb min n && leb n max) ≡ true → (min ≤ n) × (n ≤ max)
between min max n h = (ground arith, ground arith)

module _ (lib : Library) (item : TomlValueItem) (key parent_key : Text) (min max default : ℕ) where
  pub int_par-Returns : Returns (Between min max) (int_par lib item key parent_key min max default)
  unfolding int_par
  int_par-Returns =
      if_given-Returns (as_integer lib (item_value item)) _ _ (record { post = λ msgs. tt })
        λ n e.
          if-Returns (leb min n && leb n max) _ _
            (λ h. record { post = λ msgs. between min max n h }) λ h. record { post = λ msgs. tt }

  pub size_par-Returns :
      Returns (Between min max) (size_par lib item key parent_key min max default)
  unfolding size_par
  size_par-Returns =
      if_given-Returns (as_str lib (item_value item)) _ _ (record { post = λ msgs. tt })
        λ s e.
          if-Returns (not (lib.is_size s)) _ _ (λ h. record { post = λ msgs. tt })
            λ _.
              if-Returns (ltb (length (number_text max)) (length s)) _ _
                (λ h. record { post = λ msgs. tt })
                λ _.
                  if-Returns (leb min (size_value 0 s) && leb (size_value 0 s) max) _ _
                    (λ h. record { post = λ msgs. between min max (size_value 0 s) h })
                    λ h. record { post = λ msgs. tt }

pub str_par-Returns :
    (item : TomlValueItem) (key parent_key : Text) → Returns Whatever (str_par item key parent_key)
str_par-Returns item key parent_key =
    if_given-Returns (string_of (item_value item)) _ _ (record { post = λ msgs. tt })
      λ t e. record { post = λ msgs. tt }

module _ (words : Words) (key parent_key item_key : Text) where
  words_loop-Returns :
      (items : TomlArray) (bit_mask : ℕ) (defined : List ℕ)
      → Returns Whatever (words_loop words key parent_key item_key items bit_mask defined)
  unfolding words_loop
  words_loop-Returns no_items bit_mask defined = record { post = λ msgs. tt }
  words_loop-Returns (item ⨾ items) bit_mask defined =
      let warned : Returns Whatever
          (words_loop words key parent_key item_key items bit_mask defined) =
        words_loop-Returns items bit_mask defined in
      bind-Returns (str_par item key parent_key) _ (str_par-Returns item key parent_key) λ word _.
        if_given-Returns word _ _ warned λ name _.
          if_given-Returns (words.bits_of name) _ _ (record { post = λ msgs. warned.post _ })
            λ bits _.
              if-Returns (contains bits defined) _ _ (λ _. record { post = λ msgs. warned.post _ })
                λ _. words_loop-Returns items _ (bits ∷ defined)

  pub read_words-Returns :
      (item : TomlValueItem) → Returns Whatever (read_words words key parent_key item_key item)
  unfolding read_words
  read_words-Returns item =
      if_given-Returns (string_of (item_value item)) _ _
        (if_given-Returns (array_of (item_value item)) _ _ (record { post = λ msgs. tt })
          λ items _.
            bind-Returns (words_loop words key parent_key item_key items 0 []) _
              (words_loop-Returns items 0 []) λ mask _. record { post = λ msgs. tt })
        λ s _.
          if_given-Returns (words.bits_of s) _ _ (record { post = λ msgs. tt })
            λ bits _. record { post = λ msgs. tt }
