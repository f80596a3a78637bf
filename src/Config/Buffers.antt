-- ===== src/Config/Buffers.antt =====
-- src/config/mod.rs, read_buffer_policies: the buffer policies of a configuration.
use coaly.Prelude.{ℕ, ◌-◌, ◌/◌, ◌^◌, ◌==◌, ltb, Option, none, some, List, [], ◌∷◌, if◌then◌else◌}
use coaly.Prelude.Texts.{codes, Text}
use coaly.Document.{TomlValueItem, TomlTable, no_entries, entry}
use coaly.Datetime.Names.{alternative}
use coaly.Policies.{
  BufferPolicy, default_buffer_policy, def_buffer_cont_size, def_buffer_index_size, def_max_rec_len,
}
use coaly.Collections.Defaults.{MapWithDefault, insert_element}
use coaly.Config.{
  Reads, ◌>>=◌, ◌>>◌, value, warn, if_given, Library, number_text, item_line, dotted,
  not_table_item, child_items, int_par, size_par, read_flush_array, inv_buffer_attr,
  inv_or_missing_buf_flush_spec, missing_buf_cont_size, missing_buf_index_size, reclen_exceeds_size,
}

abbrev pub min_buffer_cont_size : ℕ
min_buffer_cont_size = 4096

abbrev pub max_buffer_cont_size : ℕ
max_buffer_cont_size = 2 ^ 32 - 1

abbrev pub min_buffer_index_size : ℕ
min_buffer_index_size = 4096

abbrev pub max_buffer_index_size : ℕ
max_buffer_index_size = 2 ^ 32 - 1

abbrev pub min_max_rec_len : ℕ
min_max_rec_len = 1

abbrev pub max_max_rec_len : ℕ
max_max_rec_len = 2 ^ 63 - 1

-- The variables that the loop over the policies sets, and does not reset.
pub record BufferAttrs : Type 0 where
  pub cont_size : Option ℕ
  pub index_size : Option ℕ
  pub max_rec_len : Option ℕ
  pub flush_events : ℕ

abbrev pub no_attrs : BufferAttrs
no_attrs = record { cont_size = none; index_size = none; max_rec_len = none; flush_events = 0 }

abbrev pub or_default : ℕ → Option ℕ → ℕ
or_default d none = d
or_default d (some n) = n

abbrev pub or_kept : Option ℕ → Option ℕ → Option ℕ
or_kept kept none = kept
or_kept kept (some n) = some n

-- The case of a `match` on a key, or the last one.
abbrev pub selected {ℓ} : {A : Type ℓ} → A → Option A → A
selected other none = other
selected other (some a) = a

module _ (lib : Library) where
  -- What each key does with its item.
  unfoldable pub buffer_attr_cases :
      Text → Text → TomlValueItem → BufferAttrs → List (Text × Reads BufferAttrs)
  unfolding read_flush_array size_par int_par
  buffer_attr_cases polkey attr_key item a =
      (
        codes "flush",
        do
          events ← read_flush_array item attr_key polkey
          value (record a { flush_events = or_default 0 events }),
      )
      ∷ (
        codes "content_size",
        do
          size ←
              size_par lib item attr_key polkey min_buffer_cont_size max_buffer_cont_size
                def_buffer_cont_size
          value (record a { cont_size = some (or_default def_buffer_cont_size size) }),
      )
      ∷ (
        codes "index_size",
        do
          size ←
              size_par lib item attr_key polkey min_buffer_index_size max_buffer_index_size
                def_buffer_index_size
          value (record a { index_size = or_kept a.index_size size }),
      )
      ∷ (
        codes "max_record_length",
        do
          len ← int_par lib item attr_key polkey min_max_rec_len max_max_rec_len def_max_rec_len
          value (record a { max_rec_len = or_kept a.max_rec_len len }),
      )
      ∷ []

  abbrev pub unknown_attr : Text → Text → TomlValueItem → BufferAttrs → Reads BufferAttrs
  unknown_attr key attr_key item a = do
    warn inv_buffer_attr (item_line item) (attr_key ∷ key ∷ [])
    value a

  unfoldable pub buffer_attr : Text → Text → Text → TomlValueItem → BufferAttrs → Reads BufferAttrs
  unfolding buffer_attr_cases
  buffer_attr key polkey attr_key item a =
      selected (unknown_attr key attr_key item a)
        (alternative attr_key (buffer_attr_cases polkey attr_key item a))

  unfoldable pub buffer_attrs : Text → Text → TomlTable → BufferAttrs → Reads BufferAttrs
  unfolding buffer_attr
  buffer_attrs key polkey no_entries a = value a
  buffer_attrs key polkey (entry attr_key item attrs) a = do
    a1 ← buffer_attr key polkey attr_key item a
    buffer_attrs key polkey attrs a1

  -- The index size, by default that for records of 32 bytes.
  unfoldable pub index_size_for : Text → ℕ → Option ℕ → ℕ → Reads ℕ
  unfolding number_text
  index_size_for key line_nr (some n) cont_size = value n
  index_size_for key line_nr none cont_size = do
    warn missing_buf_index_size line_nr (key ∷ number_text (cont_size / 32) ∷ [])
    value (cont_size / 32)

  unfoldable pub max_rec_len_for : Text → ℕ → Option ℕ → ℕ → Reads ℕ
  unfolding number_text
  max_rec_len_for key line_nr none cont_size = value def_max_rec_len
  max_rec_len_for key line_nr (some n) cont_size =
      if ltb cont_size n
      then (do warn reclen_exceeds_size line_nr (key ∷ number_text cont_size ∷ []); value cont_size)
      else value n

  -- The policy that the attributes make, if they do, and what the variables are then.
  unfoldable pub buffer_policy : Text → ℕ → BufferAttrs → Reads (Option BufferPolicy × BufferAttrs)
  unfolding index_size_for max_rec_len_for
  buffer_policy key line_nr a =
      if a.flush_events == 0
      then (do warn inv_or_missing_buf_flush_spec line_nr (key ∷ []); value (none, a))
      else if_given a.cont_size (do warn missing_buf_cont_size line_nr (key ∷ []); value (none, a))
          λ cont_size. do
            index_size ← index_size_for key line_nr a.index_size cont_size
            max_rec_len ← max_rec_len_for key line_nr a.max_rec_len cont_size
            value (
              some (record {
                name = key;
                content_size = cont_size;
                index_size = index_size;
                flush_conditions = a.flush_events;
                max_record_length = max_rec_len;
              }),
              record a { index_size = some index_size; max_rec_len = some max_rec_len },
            )

  unfoldable pub with_policy :
      Text → Option BufferPolicy → MapWithDefault BufferPolicy → MapWithDefault BufferPolicy
  unfolding insert_element
  with_policy key none pols = pols
  with_policy key (some p) pols = insert_element pols key p

  unfoldable pub buffer_policies :
      Text
      → TomlTable
      → BufferAttrs
      → MapWithDefault BufferPolicy
      → Reads (MapWithDefault BufferPolicy)
  unfolding buffer_attrs buffer_policy with_policy
  buffer_policies bpkey no_entries a pols = value pols
  buffer_policies bpkey (entry key item items) a pols = do
    no_table ← not_table_item item (dotted bpkey key)
    if_given (child_items item) (buffer_policies bpkey items a pols) λ attrs. do
      a1 ← buffer_attrs key (dotted bpkey key) attrs a
      made ← buffer_policy key (item_line item) a1
      buffer_policies bpkey items made.1 (with_policy key made.0 pols)

  unfoldable pub read_buffer_policies : TomlValueItem → Reads (Option (MapWithDefault BufferPolicy))
  unfolding buffer_policies default_buffer_policy
  read_buffer_policies item = do
    no_table ← not_table_item item (codes "policies.buffer")
    if_given (child_items item) (value none) λ items. do
      pols ←
          buffer_policies (codes "policies.buffer") items no_attrs
            (record { default_element = default_buffer_policy; custom_elements = [] })
      value (some pols)
