-- ===== src/Tests/Configurations.antt =====
-- The buffer policies of src/config/mod.rs from concrete tables.
use coaly.Prelude.{◌≡◌, refl, arith, true, false, none, some, [], ◌∷◌}
use coaly.Prelude.Texts.{codes, Text, insert, text_lt}
use coaly.Document.{
  TomlValueItem, value_item, array, no_items, ◌⨾◌, table, TomlTable, no_entries, entry,
}
use coaly.Policies.{BufferPolicy, default_buffer_policy}
use coaly.Collections.Defaults.{MapWithDefault, insert_element}
use coaly.Config.{Library, missing_buf_index_size, num_required, size_par, level_words}
use coaly.Config.Buffers.{
  BufferAttrs, no_attrs, buffer_policy, buffer_policies, read_buffer_policies,
}
use coaly.Config.Returns.{Returns}
use coaly.Config.Limits.{UsableIfRead, read_buffer_policies-Usable}
use coaly.Config.Resources.{read_resources}
use coaly.Config.Panics.{string_item, file_with_size, read_resources-panics}
use coaly.Config.Leaks.{buffer_policies-leaks}

-- Every text is a size, and no address is valid.
abbrev lib : Library
lib = record {
  float_as_isize = λ t. 0;
  display = λ type t. t;
  is_size = λ t. true;
  ip4_addr = λ t. none;
  ip6_addr = λ t. none;
  unix_path = λ t. none;
  is_socket_addr = λ t. false;
  is_file = λ t. false;
}

abbrev table_item : TomlTable → TomlValueItem
table_item t = value_item (table t) 1 false

abbrev empty_policies : MapWithDefault BufferPolicy
unfolding default_buffer_policy
empty_policies = record { default_element = default_buffer_policy; custom_elements = [] }

-- The policy "a" has attributes, "b" has none.
abbrev buffers : TomlValueItem
buffers = table_item (
    entry (codes "a")
      (table_item (
        entry (codes "content_size") (string_item (codes "64k") 2)
          (entry (codes "flush") (string_item (codes "full") 2) no_entries)))
      (entry (codes "b") (table_item no_entries) no_entries))

read_buffer_policies-Usable_example : Returns UsableIfRead (read_buffer_policies lib buffers)
read_buffer_policies-Usable_example = read_buffer_policies-Usable lib buffers

abbrev policy_of : Text → BufferPolicy
policy_of name = record {
  name = name;
  content_size = 65536;
  index_size = 2048;
  flush_conditions = 4;
  max_record_length = 4096;
}

-- There is a warning for the missing index size of "a" only, and "b" is a policy as well.
two_policies :
    read_buffer_policies lib buffers []
    ≡ some (
      some (record empty_policies {
        custom_elements =
            (codes "a", policy_of (codes "a")) ∷ (codes "b", policy_of (codes "b")) ∷ [];
      }),
      (record { code = missing_buf_index_size; line_nr = 1; args = codes "a" ∷ codes "2048" ∷ [] })
          ∷ [],
    )
unfolding read_buffer_policies empty_policies insert text_lt
two_policies = refl

abbrev full_attrs : BufferAttrs
full_attrs = record no_attrs { cont_size = some 65536; index_size = some 4096; flush_events = 4 }

abbrev full_policy : BufferPolicy
full_policy = record (policy_of (codes "a")) { index_size = 4096 }

abbrev attrs_left : BufferAttrs
attrs_left = record full_attrs { max_rec_len = some 4096 }

buffer_policies-leaks_example :
    buffer_policies lib []
      (entry (codes "b") (table_item no_entries) no_entries)
      attrs_left
      empty_policies
      []
    ≡ buffer_policies lib [] no_entries attrs_left
        (insert_element empty_policies (codes "b") (record full_policy { name = codes "b" }))
        []
unfolding buffer_policy
buffer_policies-leaks_example =
    buffer_policies-leaks lib (codes "a") [] (codes "b") 1 1 false full_attrs attrs_left full_policy
      [] [] no_entries empty_policies
      (record {
        cont = (omega arith, omega arith);
        index = (omega arith, omega arith);
        rec_len = tt;
      })
      refl

-- The size is below the minimum.
read_resources-panics_example :
    read_resources lib
      (value_item
        (array (
          file_with_size (codes "error") (codes "app.log") (string_item (codes "1") 5) 5
          ⨾ no_items))
        5
        true)
      []
    ≡ none
unfolding size_par level_words
read_resources-panics_example =
    read_resources-panics lib (codes "error") (codes "app.log") 8 5 (string_item (codes "1") 5) []
      ((record {
        code = num_required;
        line_nr = 5;
        args =
            codes "resources.size"
            ∷ codes "4096"
            ∷ codes "9223372036854775807"
            ∷ codes "20971520"
            ∷ [];
      })
        ∷ [])
      refl refl refl
