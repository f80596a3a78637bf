-- ===== src/Document.antt =====
-- src/config/toml/document.rs: the document that the TOML parser builds. A reference to a table
-- within the document is a function that goes on with the table, and the tables on the way are
-- put together again. The parser drops a document in which something failed.
pub mod Editing
pub mod Paths
pub mod Inserting
pub mod Keys
pub mod Contents
pub mod Pairs
pub mod Headers
pub mod Panics
use coaly.Prelude.{
  ℕ, zero, suc, ◌-◌, ◌==◌, ◌||◌, Bool, true, false, not, Option, none, some, List, [], ◌∷◌, ◌++◌,
  take, length, if◌then◌else◌,
}
use coaly.Prelude.Texts.{Text, same_text, text_lt}
use coaly.Scanner.{TokenValueType}
use coaly.Scanner.Numbers.{quoted}

pub data TomlError : Type 0 where
  not_a_table : Text → TomlError
  key_used_for_value_array : Text → TomlError
  key_used_for_simple_value : Text → TomlError
  key_used_for_array_of_tables : Text → TomlError
  key_used_for_table : Text → TomlError
  key_already_in_use : Text → TomlError

-- A value, an exception, or a panic.
pub data Result {ℓ} (A : Type ℓ) : Type ℓ where
  ok : A → Result A
  err : TomlError → Result A
  panic : Result A

infixl 5 ◌>>=◌
abbrev pub ◌>>=◌ {ℓ κ} : {A : Type ℓ} {B : Type κ} → Result A → (A → Result B) → Result B
ok a >>= f = f a
err e >>= f = err e
panic >>= f = panic

-- A value with its line number and the flag whether it may be changed. A value that is no array
-- and no table is given by its type and its token.
mutual
  pub data TomlValueItem : Type 0 where
    value_item : TomlValue → ℕ → Bool → TomlValueItem

  pub data TomlValue : Type 0 where
    simple : TokenValueType → Text → TomlValue
    array : TomlArray → TomlValue
    table : TomlTable → TomlValue

  pub data TomlArray : Type 0 where
    no_items : TomlArray
    ◌⨾◌ : TomlValueItem → TomlArray → TomlArray

  -- A `BTreeMap`: its entries in ascending order.
  pub data TomlTable : Type 0 where
    no_entries : TomlTable
    entry : Text → TomlValueItem → TomlTable → TomlTable

infixr 6 ◌⨾◌
unfoldable pub get : Text → TomlTable → Option TomlValueItem
get k no_entries = none
get k (entry j v t) = if same_text k j then some v else get k t

unfoldable pub put : Text → TomlValueItem → TomlTable → TomlTable
put k v no_entries = entry k v no_entries
put k v (entry j w t) =
    let rest = put k v t in
    if text_lt k j
    then entry k v (entry j w t)
    else if same_text k j
    then entry k v t
    else entry j w rest

unfoldable pub push_item : TomlValueItem → TomlArray → TomlArray
push_item v no_items = v ⨾ no_items
push_item v (w ⨾ a) = w ⨾ push_item v a

unfoldable pub last_item : TomlArray → Option TomlValueItem
last_item no_items = none
last_item (v ⨾ no_items) = some v
last_item (v ⨾ w ⨾ a) = last_item (w ⨾ a)

-- `*a.last_mut().unwrap() = v`
unfoldable pub set_last : TomlValueItem → TomlArray → TomlArray
set_last v no_items = no_items
set_last v (w ⨾ no_items) = v ⨾ no_items
set_last v (w ⨾ x ⨾ a) = w ⨾ set_last v (x ⨾ a)

abbrev pub new_table : ℕ → Bool → TomlValueItem
new_table line_nr mutable_flag = value_item (table no_entries) line_nr mutable_flag

abbrev pub new_array : ℕ → Bool → TomlValueItem
new_array line_nr mutable_flag = value_item (array no_items) line_nr mutable_flag

abbrev pub unwrap {ℓ} : {A : Type ℓ} → Option A → Result A
unwrap none = panic
unwrap (some a) = ok a

unfoldable pub is_in_use : TomlValueItem → Result Bool
unfolding last_item
is_in_use (value_item (simple t text) line_nr mutable_flag) = ok (not mutable_flag)
is_in_use (value_item (table t) line_nr mutable_flag) = ok (not mutable_flag)
is_in_use (value_item (array a) line_nr false) = ok true
is_in_use (value_item (array a) line_nr true) = do
  last ← unwrap (last_item a)
  elim last [
    | value_item v n last_flag ↦ elim v [ table t ↦ ok (not last_flag) | other ↦ ok false ]
  ]

abbrev pub marked_last : TomlValueItem → TomlValueItem
marked_last (value_item (table t) line_nr flag) = value_item (table t) line_nr true
marked_last v = v

unfoldable pub explicitly_referenced : TomlValueItem → Result TomlValueItem
unfolding last_item set_last
explicitly_referenced (value_item (simple t text) line_nr flag) =
    ok (value_item (simple t text) line_nr flag)
explicitly_referenced (value_item (table t) line_nr flag) = ok (value_item (table t) line_nr false)
explicitly_referenced (value_item (array a) line_nr flag) = do
  last ← unwrap (last_item a)
  ok (value_item (array (set_last (marked_last last) a)) line_nr flag)
