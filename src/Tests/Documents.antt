-- ===== src/Tests/Documents.antt =====
-- The document of src/config/toml/document.rs at concrete inputs.
use coaly.Prelude.{◌≡◌, refl, true, false, none, some, List, [], ◌∷◌}
use coaly.Prelude.Texts.{Text, text_lt}
use coaly.Scanner.{TokenValueType}
use coaly.Document.{
  ok, ◌>>=◌, panic, TomlValueItem, value_item, simple, array, table, ◌⨾◌, no_items, entry,
  no_entries, get, put, last_item, new_table, explicitly_referenced,
}
use coaly.Document.Editing.{
  TomlKey, TomlDocument, new_document, mk_prefix_items, mk_table_item, insert, insert_item,
  header_selected, walk, in_last_table,
}
use coaly.Document.Paths.{value_at}
use coaly.Document.Contents.{value_at-insert}
use coaly.Document.Headers.{header_selected-twice}
use coaly.Document.Panics.{header_selected-panics, insert-panics}

abbrev key_of : List Text → TomlKey
key_of parts = record { parts = parts; line_nr = 7 }

abbrev a : Text
a = b'a' ∷ []

abbrev b : Text
b = b'b' ∷ []

abbrev c : Text
c = b'c' ∷ []

abbrev yes_value : TomlValueItem
yes_value = value_item (simple TokenValueType.boolean (b't' ∷ [])) 8 false

-- The header [a.b] in an empty document.
abbrev with_header : TomlDocument
with_header = record {
  root =
      value_item
        (table
          (entry a (value_item (table (entry b (new_table 7 false) no_entries)) 0 true) no_entries))
        1 true;
  selection = some (key_of (a ∷ b ∷ []));
}

-- And behind it a.c = t.
abbrev with_value : TomlDocument
with_value = record with_header {
  root =
      value_item
        (table (
          entry a
            (value_item
              (table (
                entry b
                  (value_item
                    (table (
                      entry a (value_item (table (entry c yes_value no_entries)) 0 false)
                        no_entries))
                    7 false)
                  no_entries))
              0 true)
            no_entries))
        1 true;
}

header_accepted : header_selected new_document (key_of (a ∷ b ∷ [])) false ≡ ok with_header
unfolding header_selected new_document mk_prefix_items mk_table_item walk get put in_last_table
header_accepted = refl

value_accepted : insert with_header (key_of (a ∷ c ∷ [])) yes_value ≡ ok with_value
unfolding insert insert_item mk_prefix_items walk get put in_last_table explicitly_referenced
    text_lt
value_accepted = refl

value_at-insert_example :
    (value_at (a ∷ b ∷ a ∷ c ∷ []) with_header.root ≡ none)
    × (value_at (a ∷ b ∷ a ∷ c ∷ []) with_value.root ≡ some yes_value)
value_at-insert_example =
    value_at-insert with_header with_value (key_of (a ∷ c ∷ [])) yes_value value_accepted

header_selected-twice_example :
    ¬ (header_selected with_value (key_of (a ∷ b ∷ [])) false ≡ ok with_header)
header_selected-twice_example =
    header_selected-twice new_document with_header with_value with_header (key_of (a ∷ b ∷ []))
      ((key_of (a ∷ c ∷ []), yes_value) ∷ []) header_accepted (rw (value_accepted, ◌>>=◌) refl)

-- The header [[a]] and then [a.b.c].
abbrev with_tables : TomlDocument
with_tables = record {
  root =
      value_item
        (table (entry a (value_item (array (new_table 7 false ⨾ no_items)) 7 true) no_entries)) 1
        true;
  selection = some (key_of (a ∷ []));
}

header_selected-panics_example : header_selected with_tables (key_of (a ∷ b ∷ c ∷ [])) false ≡ panic
unfolding get last_item
header_selected-panics_example =
    header_selected-panics with_tables (key_of (a ∷ b ∷ c ∷ [])) false a b []
      (entry a (value_item (array (new_table 7 false ⨾ no_items)) 7 true) no_entries) no_entries
      (new_table 7 false ⨾ no_items) 1 7 7 true false refl refl refl refl refl

-- a = [] and then a.b = t.
abbrev with_array : TomlDocument
with_array = record {
  root = value_item (table (entry a (value_item (array no_items) 7 false) no_entries)) 1 true;
  selection = none;
}

insert-panics_example : insert with_array (key_of (a ∷ b ∷ [])) yes_value ≡ panic
unfolding get
insert-panics_example =
    insert-panics with_array (key_of (a ∷ b ∷ [])) yes_value a b
      (entry a (value_item (array no_items) 7 false) no_entries) 1 7 true false refl refl refl refl
      refl
