-- ===== src/Document/Paths.antt =====
-- What the document of src/config/toml/document.rs holds behind the parts of a key.
use coaly.Prelude.{ℕ, ◌≡◌, refl, arith, Bool, Option, none, some, List, [], ◌∷◌}
use coaly.Prelude.Texts.{same_text_refl, Text}
use coaly.Document.{
  TomlError, Result, ok, err, panic, ◌>>=◌, TomlValueItem, value_item, simple, array, table,
  TomlArray, no_items, ◌⨾◌, TomlTable, no_entries, entry, get, put, last_item, set_last, unwrap,
  explicitly_referenced, marked_last,
}
use coaly.Document.Editing.{in_table, in_last_table, no_table}

-- The table of an item, which for an array is its last item.
abbrev pub direct : TomlValueItem → Option TomlTable
direct (value_item (table t) line_nr flag) = some t
direct (value_item v line_nr flag) = none

abbrev pub last_table : Option TomlValueItem → Option TomlTable
last_table none = none
last_table (some v) = direct v

unfoldable pub inner : TomlValueItem → Option TomlTable
unfolding last_item
inner (value_item (simple k text) line_nr flag) = none
inner (value_item (array a) line_nr flag) = last_table (last_item a)
inner (value_item (table t) line_nr flag) = some t

unfoldable pub value_at : List Text → TomlValueItem → Option TomlValueItem
unfolding inner get
value_at [] item = some item
value_at (name ∷ names) item = elim (inner item) [
  | none ↦ none
  | some t ↦ elim (get name t) [ none ↦ none | some v ↦ value_at names v ]
]

pub value_at-nowhere :
    (name : Text) (names : List Text) (item : TomlValueItem)
    → inner item ≡ none
    → value_at (name ∷ names) item ≡ none
unfolding value_at
value_at-nowhere name names item at = rw (value_at, at) refl

module _ (name : Text) (names : List Text) (item : TomlValueItem) (t : TomlTable)
    (at : inner item ≡ some t) where
  pub value_at-entered :
      (v : TomlValueItem) → get name t ≡ some v → value_at (name ∷ names) item ≡ value_at names v
  unfolding value_at
  value_at-entered v g = rw (value_at, at, g) refl

  pub value_at-missing : get name t ≡ none → value_at (name ∷ names) item ≡ none
  unfolding value_at
  value_at-missing g = rw (value_at, at, g) refl

pub get-put : (k : Text) (v : TomlValueItem) (t : TomlTable) → get k (put k v t) ≡ some v
unfolding get put
get-put k v no_entries = rw (same_text_refl k) refl
get-put k v (entry j w t) = ground (arith, same_text_refl k, get-put k v t)

pub last-set_last :
    (v : TomlValueItem) (a : TomlArray) (w : TomlValueItem)
    → last_item a ≡ some w
    → last_item (set_last v a) ≡ some v
unfolding last_item set_last
last-set_last v no_items w h = cc
last-set_last v (x ⨾ no_items) w h = refl
last-set_last v (x ⨾ y ⨾ no_items) w h = refl
last-set_last v (x ⨾ y ⨾ z ⨾ a) w h = last-set_last v (y ⨾ z ⨾ a) w h

pub bind_ok {ℓ κ} :
    {A : Type ℓ} {B : Type κ} (r : Result A) (f : A → Result B) (b : B)
    → (r >>= f) ≡ ok b
    → (a : A) × (r ≡ ok a) × (f a ≡ ok b)
bind_ok (ok a) f b h = (a, refl, h)
bind_ok (err e) f b h = absurd cc
bind_ok panic f b h = absurd cc

pub unwrap_ok {ℓ} : {A : Type ℓ} (o : Option A) (a : A) → unwrap o ≡ ok a → o ≡ some a
unwrap_ok none a h = absurd cc
unwrap_ok (some x) a h = cc

pub ok-injective {ℓ} : {A : Type ℓ} {a b : A} → ok a ≡ ok b → b ≡ a
ok-injective h = cc

direct-marked_last : (v : TomlValueItem) → direct (marked_last v) ≡ direct v
direct-marked_last (value_item (simple k text) line_nr flag) = refl
direct-marked_last (value_item (array a) line_nr flag) = refl
direct-marked_last (value_item (table t) line_nr flag) = refl

-- A table went through a function.
abbrev pub Changes : (TomlTable → Result TomlTable) → Option TomlTable → Option TomlTable → Type 0
Changes continue o o1 =
    (t : TomlTable) × (t1 : TomlTable) × (o ≡ some t) × (continue t ≡ ok t1) × (o1 ≡ some t1)

pub in_table-Changes :
    (e : TomlError) (continue : TomlTable → Result TomlTable) (item item1 : TomlValueItem)
    → in_table e continue item ≡ ok item1
    → Changes continue (direct item) (direct item1)
in_table-Changes e continue (value_item (simple k text) line_nr flag) item1 h = absurd cc
in_table-Changes e continue (value_item (array a) line_nr flag) item1 h = absurd cc
in_table-Changes e continue (value_item (table t) line_nr flag) item1 h =
    let (t1, c, same) = bind_ok (continue t) _ item1 h in
    (t, t1, refl, c, rw (ok-injective same) refl)

pub in_last_table-Changes :
    (names : List Text) (continue : TomlTable → Result TomlTable) (item item1 : TomlValueItem)
    → in_last_table names continue item ≡ ok item1
    → Changes continue (inner item) (inner item1)
unfolding in_last_table inner
in_last_table-Changes names continue (value_item (simple k text) line_nr flag) item1 h = absurd cc
in_last_table-Changes names continue (value_item (table t) line_nr flag) item1 h =
    let (t1, c, same) = bind_ok (continue t) _ item1 h in
    (t, t1, refl, c, rw (ok-injective same) refl)
in_last_table-Changes names continue (value_item (array a) line_nr flag) item1 h =
    let (last, found, rest) = bind_ok (unwrap (last_item a)) _ item1 h in
    let (last1, changed, same) = bind_ok (in_table (no_table names) continue last) _ item1 rest in
    let at = unwrap_ok (last_item a) last found in
    let (t, t1, before, c, after) = in_table-Changes (no_table names) continue last last1 changed in
    (t, t1, rw at before, c, rw (ok-injective same, last-set_last last1 a last at) after)

pub referenced-inner :
    (item item1 : TomlValueItem) → explicitly_referenced item ≡ ok item1 → inner item1 ≡ inner item
unfolding explicitly_referenced inner
referenced-inner (value_item (simple k text) line_nr flag) item1 h = rw (ok-injective h) refl
referenced-inner (value_item (table t) line_nr flag) item1 h = rw (ok-injective h) refl
referenced-inner (value_item (array a) line_nr flag) item1 h =
    let (last, found, same) = bind_ok (unwrap (last_item a)) _ item1 h in
    let at = unwrap_ok (last_item a) last found in
    rw (ok-injective same, last-set_last (marked_last last) a last at, at) (direct-marked_last last)

pub table-inner :
    (t : TomlTable) (line_nr : ℕ) (flag : Bool) → inner (value_item (table t) line_nr flag) ≡ some t
unfolding inner
table-inner t line_nr flag = refl

pub array-inner :
    (a : TomlArray) (line_nr : ℕ) (flag : Bool) (v : TomlValueItem)
    → last_item a ≡ some v
    → inner (value_item (array a) line_nr flag) ≡ direct v
unfolding inner
array-inner a line_nr flag v at = rw at refl
