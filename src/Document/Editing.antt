-- ===== src/Document/Editing.antt =====
-- src/config/toml/document.rs: how headers and key-value pairs change the document.
use coaly.Prelude.{
  ℕ, zero, suc, ◌==◌, ◌||◌, Bool, true, false, not, Option, none, some, List, [], ◌∷◌, ◌++◌, take,
  length, if◌then◌else◌,
}
use coaly.Prelude.Texts.{codes, Text}
use coaly.Scanner.Numbers.{quoted}
use coaly.Document.{
  TomlError, not_a_table, key_used_for_value_array, key_used_for_simple_value,
  key_used_for_array_of_tables, key_used_for_table, key_already_in_use, Result, ok, err, panic,
  ◌>>=◌, TomlValueItem, value_item, simple, array, table, TomlTable, get, put, push_item, no_items,
  last_item, set_last, new_table, unwrap, is_in_use, explicitly_referenced,
}

pub record TomlKey : Type 0 where
  pub parts : List Text
  pub line_nr : ℕ

-- The last part; without parts the code panics.
abbrev pub last_part : List Text → Result Text
last_part [] = panic
last_part (p ∷ []) = ok p
last_part (p ∷ q ∷ ps) = last_part (q ∷ ps)

abbrev pub main_part : TomlKey → Result Text
main_part key = last_part key.parts

abbrev pub all_but_last : List Text → Result (List Text)
all_but_last [] = panic
all_but_last (p ∷ []) = ok []
all_but_last (p ∷ q ∷ ps) = do rest ← all_but_last (q ∷ ps); ok (p ∷ rest)

abbrev pub prefix : TomlKey → Result (List Text)
prefix key = all_but_last key.parts

abbrev has_dot : Text → Bool
has_dot [] = false
has_dot (c ∷ cs) = (c == b'.') || has_dot cs

-- A part of a name, in quotes where it is empty or has a dot.
abbrev part_name : Text → Text
part_name [] = codes "\"\""
part_name (c ∷ cs) = if has_dot (c ∷ cs) then b'"' ∷ c ∷ cs ++ b'"' ∷ [] else c ∷ cs

abbrev dotted_names : List Text → Text
dotted_names [] = []
dotted_names (p ∷ []) = part_name p
dotted_names (p ∷ q ∷ ps) = part_name p ++ b'.' ∷ dotted_names (q ∷ ps)

abbrev pub full_name : TomlKey → Text
full_name key = dotted_names key.parts

abbrev joined : List Text → Text
joined [] = []
joined (p ∷ ps) = b'.' ∷ p ++ joined ps

-- The first part, and as many more.
abbrev pub key_prefix_fragment : List Text → ℕ → Text
key_prefix_fragment [] up_to_part = []
key_prefix_fragment (p ∷ ps) up_to_part = p ++ joined (take up_to_part ps)

abbrev pub no_table : List Text → TomlError
no_table names = not_a_table (quoted (key_prefix_fragment names (length names)))

-- Goes on with the table in an item.
abbrev pub in_table :
    TomlError → (TomlTable → Result TomlTable) → TomlValueItem → Result TomlValueItem
in_table e continue (value_item (table t) line_nr flag) = do
  t1 ← continue t
  ok (value_item (table t1) line_nr flag)
in_table e continue (value_item v line_nr flag) = err e

-- Goes on with the table in an item, which for an array is in its last item.
unfoldable pub in_last_table :
    List Text → (TomlTable → Result TomlTable) → TomlValueItem → Result TomlValueItem
unfolding last_item set_last
in_last_table names continue (value_item (table t) line_nr flag) =
    in_table (no_table names) continue (value_item (table t) line_nr flag)
in_last_table names continue (value_item (array a) line_nr flag) = do
  last ← unwrap (last_item a)
  last1 ← in_table (no_table names) continue last
  ok (value_item (array (set_last last1 a)) line_nr flag)
in_last_table names continue (value_item (simple t text) line_nr flag) = err (no_table names)

abbrev pub child_of : Text → TomlTable → TomlValueItem
child_of name t = elim (get name t) [ none ↦ new_table 0 true | some v ↦ v ]

-- The loop over the prefix names that are left, of which `i` have been passed.
unfoldable pub walk :
    List Text
    → Bool
    → (TomlTable → Result TomlTable)
    → ℕ
    → List Text
    → TomlValueItem
    → Result TomlValueItem
unfolding get put last_item set_last explicitly_referenced in_last_table
walk names for_header continue i [] item = do
  item1 ← if for_header then ok item else explicitly_referenced item
  in_last_table names continue item1
walk names for_header continue i (name ∷ rest) (value_item (table t) line_nr flag) = do
  child ← walk names for_header continue (suc i) rest (child_of name t)
  ok (value_item (table (put name child t)) line_nr flag)
walk names for_header continue i (name ∷ rest) (value_item (array a) line_nr false) =
    err (key_used_for_value_array (quoted (key_prefix_fragment names i)))
walk names for_header continue i (name ∷ rest) (value_item (array a) line_nr true) = do
  last ← unwrap (last_item a)
  last1 ←
      in_table (no_table names)
        (λ t. do
          child ← unwrap (get name t)
          child1 ← walk names for_header continue (suc i) rest child
          ok (put name child1 t))
        last
  ok (value_item (array (set_last last1 a)) line_nr true)
walk names for_header continue zero (name ∷ rest) (value_item (simple t text) line_nr flag) = panic
walk names for_header continue (suc i) (name ∷ rest) (value_item (simple t text) line_nr flag) =
    err (key_used_for_simple_value (quoted (key_prefix_fragment names i)))

-- The table behind the prefixes, with which `continue` goes on.
unfoldable pub mk_prefix_items :
    TomlValueItem → List Text → Bool → (TomlTable → Result TomlTable) → Result TomlValueItem
unfolding walk
mk_prefix_items item [] for_header continue = in_table (not_a_table []) continue item
mk_prefix_items item (p ∷ ps) for_header continue =
    walk (p ∷ ps) for_header continue 0 (p ∷ ps) item

-- The item of a table's header, which exists: implicit tables become explicit.
abbrev pub used_table : TomlKey → TomlValueItem → Result TomlValueItem
used_table key (value_item (table t) line_nr flag) = do
  used ← is_in_use (value_item (table t) line_nr flag)
  if used
      then err (key_already_in_use (quoted (full_name key)))
      else explicitly_referenced (value_item (table t) line_nr flag)
used_table key (value_item (array a) line_nr flag) =
    if flag
    then err (key_used_for_array_of_tables (quoted (full_name key)))
    else err (key_used_for_value_array (quoted (full_name key)))
used_table key (value_item (simple t text) line_nr flag) =
    err (key_used_for_simple_value (quoted (full_name key)))

-- The item of the header of an array of tables, which exists: a table is added.
abbrev pub extended_array : TomlKey → TomlValueItem → Result TomlValueItem
extended_array key (value_item (array a) line_nr flag) =
    if not flag
    then err (key_used_for_value_array (quoted (full_name key)))
    else ok (value_item (array (push_item (new_table key.line_nr false) a)) line_nr flag)
extended_array key (value_item (table t) line_nr flag) =
    err (key_used_for_table (quoted (full_name key)))
extended_array key (value_item (simple t text) line_nr flag) =
    err (key_used_for_simple_value (quoted (full_name key)))

-- The entry of a name, where there is one, goes through `used`.
abbrev pub placed :
    Text → TomlValueItem → (TomlValueItem → Result TomlValueItem) → TomlTable → Result TomlTable
placed name fresh used parent = elim (get name parent) [
  | none ↦ ok (put name fresh parent)
  | some leaf ↦ (do leaf1 ← used leaf; ok (put name leaf1 parent))
]

unfoldable pub mk_table_item : TomlKey → TomlTable → Result TomlTable
unfolding get put is_in_use explicitly_referenced
mk_table_item key parent = do
  name ← main_part key
  placed name (new_table key.line_nr false) (used_table key) parent

unfoldable pub mk_array_item : TomlKey → TomlTable → Result TomlTable
unfolding get put push_item
mk_array_item key parent = do
  name ← main_part key
  placed name
      (value_item (array (push_item (new_table key.line_nr false) no_items)) key.line_nr true)
      (extended_array key) parent

abbrev pub header_parts : Option TomlKey → List Text
header_parts none = []
header_parts (some key) = key.parts

-- A name that has an entry is refused.
abbrev pub added : Text → TomlValueItem → TomlTable → Result TomlTable
added name value t = elim (get name t) [
  | none ↦ ok (put name value t)
  | some old ↦ err (key_already_in_use (quoted name))
]

-- A value is inserted behind the parts of the header and the prefix of the key.
unfoldable pub insert_item :
    TomlValueItem → Option TomlKey → TomlKey → TomlValueItem → Result TomlValueItem
unfolding mk_prefix_items get put
insert_item item parent key value = do
  before ← prefix key
  name ← main_part key
  mk_prefix_items item (header_parts parent ++ before) false (added name value)

pub record TomlDocument : Type 0 where
  pub root : TomlValueItem
  pub selection : Option TomlKey

unfoldable pub new_document : TomlDocument
new_document = record { root = new_table 1 true; selection = none }

unfoldable pub header_selected : TomlDocument → TomlKey → Bool → Result TomlDocument
unfolding mk_prefix_items mk_table_item mk_array_item
header_selected d key double_brackets = do
  names ← prefix key
  root1 ←
      mk_prefix_items d.root names true
        (if double_brackets then mk_array_item key else mk_table_item key)
  ok (record d { root = root1; selection = some key })

unfoldable pub insert : TomlDocument → TomlKey → TomlValueItem → Result TomlDocument
unfolding insert_item
insert d key value = do
  root1 ← insert_item d.root d.selection key value
  ok (record d { root = root1 })
