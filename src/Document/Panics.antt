-- ===== src/Document/Panics.antt =====
-- Documents of src/config/toml/document.rs on which a header or a key-value pair panics.
use coaly.Prelude.{ℕ, ◌≡◌, refl, Bool, true, none, some, List, [], ◌∷◌}
use coaly.Prelude.Texts.{Text}
use coaly.Document.{
  ok, panic, ◌>>=◌, TomlValueItem, value_item, array, table, TomlArray, TomlTable, get, last_item,
  no_items, explicitly_referenced,
}
use coaly.Document.Editing.{
  TomlKey, TomlDocument, prefix, main_part, mk_prefix_items, insert_item, insert, header_selected,
  walk, child_of,
}

-- A header of at least three parts, the first of which names a mutable array of tables whose last
-- table has no entry for the second part, makes the program panic, although the second part would
-- only have to be created.
pub header_selected-panics :
    (d : TomlDocument) (key : TomlKey) (double_brackets : Bool) (a b : Text) (rest : List Text)
    (root last : TomlTable) (tables : TomlArray) (line nr nr1 : ℕ) (flag flag1 : Bool)
    → prefix key ≡ ok (a ∷ b ∷ rest)
    → d.root ≡ value_item (table root) line flag
    → get a root ≡ some (value_item (array tables) nr true)
    → last_item tables ≡ some (value_item (table last) nr1 flag1)
    → get b last ≡ none
    → header_selected d key double_brackets ≡ panic
unfolding header_selected mk_prefix_items walk
header_selected-panics d key double_brackets a b rest root last tables line nr nr1 flag flag1 parts
      at_root at_a at_last missing =
    rw (parts, at_root, ◌>>=◌) (rw (child_of, at_a) (rw (at_last) (rw missing refl)))

-- Where no header is selected, a key-value pair whose key has exactly two parts, the first of which
-- has an empty array as its value, makes the program panic, although the pair would only have to be
-- refused.
pub insert-panics :
    (d : TomlDocument) (key : TomlKey) (value : TomlValueItem) (a name : Text) (root : TomlTable)
    (line nr : ℕ) (flag flag1 : Bool)
    → d.selection ≡ none
    → prefix key ≡ ok (a ∷ [])
    → main_part key ≡ ok name
    → d.root ≡ value_item (table root) line flag
    → get a root ≡ some (value_item (array no_items) nr flag1)
    → insert d key value ≡ panic
unfolding insert insert_item mk_prefix_items walk explicitly_referenced last_item
insert-panics d key value a name root line nr flag flag1 unselected parts named at_root at_a =
    rw (unselected, parts, named, at_root, ◌>>=◌) (rw (child_of, at_a) refl)
