-- ===== src/Config/Panics.antt =====
-- An output resource that makes the program panic when the configuration is read.
use coaly.Prelude.{ℕ, ◌==◌, ◌≡◌, refl, true, false, none, some, List}
use coaly.Prelude.Texts.{codes, Text}
use coaly.Scanner.{TokenValueType}
use coaly.Document.{
  TomlValueItem, value_item, simple, array, no_items, ◌⨾◌, table, no_entries, entry,
}
use coaly.Policies.{def_file_size}
use coaly.Config.{CoalyException, Library, size_par, level_words, read_levels_array, read_words}
use coaly.Config.Resources.{
  min_file_size, max_file_size, resource_attrs, resource_attr_cases, resource_of, resource_of_kind,
  resources_loop, read_resources,
}

abbrev pub string_item : Text → ℕ → TomlValueItem
string_item t line_nr = value_item (simple TokenValueType.string t) line_nr false

-- A resource of the kind "file", with levels, a name and a size.
abbrev pub file_with_size : Text → Text → TomlValueItem → ℕ → TomlValueItem
file_with_size levels name size line_nr =
    value_item
      (table (
        entry (codes "kind") (string_item (codes "file") line_nr) (
          entry (codes "levels") (string_item levels line_nr) (
            entry (codes "name") (string_item name line_nr)
              (entry (codes "size") size no_entries)))))
      line_nr false

-- A file with a name, a level and a size that is refused makes the program panic, although the size
-- of such a file has no meaning.
pub read_resources-panics :
    (lib : Library) (levels name : Text) (bits line_nr : ℕ) (size : TomlValueItem)
    (msgs msgs1 : List CoalyException)
    → level_words.bits_of levels ≡ some bits
    → (bits == 0) ≡ false
    → size_par lib size
        (codes "size")
        (codes "resources")
        min_file_size
        max_file_size
        def_file_size
        msgs
      ≡ some (none, msgs1)
    → read_resources lib
        (value_item (array (file_with_size levels name size line_nr ⨾ no_items)) line_nr true)
        msgs
      ≡ none
unfolding read_resources resources_loop resource_attrs resource_attr_cases read_levels_array
    read_words resource_of resource_of_kind
read_resources-panics lib levels name bits line_nr size msgs msgs1 known given refused =
    rw (known) (rw (refused) (rw (given) refl))
