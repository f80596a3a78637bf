-- ===== src/Config/Resources.antt =====
-- src/config/mod.rs, read_resources, and src/config/resource.rs: the output resources of a
-- configuration, with the feature `net`.
use coaly.Prelude.{
  ℕ, ◌-◌, ◌%◌, ◌^◌, ◌==◌, ◌&&◌, Bool, true, false, not, Option, none, some, List, [], ◌∷◌, ◌++◌,
  if◌then◌else◌,
}
use coaly.Prelude.Texts.{codes, Text}
use coaly.Document.{
  TomlValueItem, value_item, array, TomlArray, no_items, ◌⨾◌, TomlTable, no_entries, entry,
}
use coaly.Datetime.Names.{alternative}
use coaly.Policies.{def_file_size}
use coaly.Config.{
  Reads, ◌>>=◌, ◌>>◌, value, warn, unwrapped, if_given, Library, item_value, item_line, array_of,
  dotted, child_items, str_par, int_par, size_par, read_levels_array, key_not_an_array,
  inv_resources_hdr, inv_res_kind, inv_res_attr, inv_res_spec, res_fn_missing, file_size_missing,
  meaningless_res_par, inv_res_url,
}
use coaly.Config.Buffers.{selected}

pub data ResourceKind : Type 0 where
  plain_file memory_mapped_file std_out std_err syslog network : ResourceKind

abbrev pub kind_name : ResourceKind → Text
kind_name plain_file = codes "file"
kind_name memory_mapped_file = codes "mmfile"
kind_name std_out = codes "stdout"
kind_name std_err = codes "stderr"
kind_name syslog = codes "syslog"
kind_name network = codes "network"

abbrev pub kind_from_str : Text → Option ResourceKind
kind_from_str s = alternative s (
    (codes "file", plain_file)
    ∷ (codes "mmfile", memory_mapped_file)
    ∷ (codes "stdout", std_out)
    ∷ (codes "stderr", std_err)
    ∷ (codes "syslog", syslog)
    ∷ (codes "network", network)
    ∷ [])

pub data SpecificResourceDesc : Type 0 where
  file : Text → ℕ → Option Text → SpecificResourceDesc
  console : SpecificResourceDesc
  syslog_desc : ℕ → Text → Option Text → SpecificResourceDesc
  network_desc : Text → Option Text → SpecificResourceDesc

pub record ResourceDesc : Type 0 where
  pub scope : List ℕ
  pub kind : ResourceKind
  pub levels : ℕ
  pub buffer_policy_name : Option Text
  pub output_format_name : Option Text
  pub specific_data : SpecificResourceDesc

-- The attributes of a resource. Where the source has two variables, a text and its line, that are
-- set together, they are a pair.
pub record ResourceAttrs : Type 0 where
  pub kind : Option ResourceKind
  pub scope : List ℕ
  pub levels : Option ℕ
  pub name : Option (Text × ℕ)
  pub file_size : Option ℕ
  pub file_size_lnr : Option ℕ
  pub bufp : Option (Text × ℕ)
  pub outp_format : Option (Text × ℕ)
  pub rovrp : Option (Text × ℕ)
  pub local_url : Option (Text × ℕ)
  pub remote_url : Option (Text × ℕ)
  pub facility : Option ℕ

abbrev pub no_resource_attrs : ResourceAttrs
no_resource_attrs = record {
  kind = none;
  scope = 0 ∷ [];
  levels = none;
  name = none;
  file_size = none;
  file_size_lnr = none;
  bufp = none;
  outp_format = none;
  rovrp = none;
  local_url = none;
  remote_url = none;
  facility = none;
}

abbrev text_only : Option (Text × ℕ) → Option Text
text_only none = none
text_only (some (t, line_nr)) = some t

abbrev pub min_file_size : ℕ
min_file_size = 4096

abbrev pub max_file_size : ℕ
max_file_size = 2 ^ 63 - 1

abbrev resources : Text
resources = codes "resources"

-- An attribute that is a text: it is set with its line.
abbrev text_attr :
    TomlValueItem → Text → ResourceAttrs → (Option (Text × ℕ) → ResourceAttrs) → Reads ResourceAttrs
text_attr item attr_key a set = do
  text ← str_par item attr_key resources
  if_given text (value a) λ t. value (set (some (t, item_line item)))

abbrev default_syslog_url : Text
default_syslog_url = codes "file:/dev/log"

-- The attribute has no meaning for the kind.
abbrev unused : Option (Text × ℕ) → Text → ResourceKind → Reads (Unit {0})
unused none par kind = value tt
unused (some (t, line_nr)) par kind = warn meaningless_res_par line_nr (par ∷ kind_name kind ∷ [])

abbrev unused_size : ResourceAttrs → ResourceKind → Reads (Unit {0})
unused_size a kind = if_given a.file_size (value tt) λ size. do
  line_nr ← unwrapped a.file_size_lnr
  warn meaningless_res_par line_nr (codes "size" ∷ kind_name kind ∷ [])

abbrev pub for_plain_file :
    List ℕ → ℕ → Option Text → Option Text → Text → Option Text → ResourceDesc
for_plain_file scope levels buffer format name rollover = record {
  scope = scope;
  kind = plain_file;
  levels = levels;
  buffer_policy_name = buffer;
  output_format_name = format;
  specific_data = file name 0 rollover;
}

abbrev pub for_mem_mapped_file : List ℕ → ℕ → Option Text → Text → ℕ → Option Text → ResourceDesc
for_mem_mapped_file scope levels format name size rollover = record {
  scope = scope;
  kind = memory_mapped_file;
  levels = levels;
  buffer_policy_name = none;
  output_format_name = format;
  specific_data = file name size rollover;
}

abbrev pub for_console : List ℕ → ResourceKind → ℕ → Option Text → Option Text → ResourceDesc
for_console scope kind levels buffer format = record {
  scope = scope;
  kind = kind;
  levels = levels;
  buffer_policy_name = buffer;
  output_format_name = format;
  specific_data = console;
}

abbrev pub for_syslog : List ℕ → ℕ → Option Text → ℕ → Text → Option Text → ResourceDesc
for_syslog scope levels buffer facility remote local = record {
  scope = scope;
  kind = syslog;
  levels = levels;
  buffer_policy_name = buffer;
  output_format_name = none;
  specific_data = syslog_desc facility remote local;
}

abbrev pub for_network : List ℕ → ℕ → Option Text → Text → Option Text → ResourceDesc
for_network scope levels buffer remote local = record {
  scope = scope;
  kind = network;
  levels = levels;
  buffer_policy_name = buffer;
  output_format_name = none;
  specific_data = network_desc remote local;
}

module _ (lib : Library) where
  abbrev socket_url : Option Text → Bool → Bool
  socket_url none other = other
  socket_url (some addr) other = lib.is_socket_addr addr

  unfoldable pub is_valid_url : Text → Bool
  is_valid_url url = socket_url (lib.ip4_addr url) (
      socket_url (lib.ip6_addr url)
        (elim (lib.unix_path url) [ none ↦ false | some path ↦ lib.is_file path ]))

  unfoldable pub ids_loop : TomlArray → Text → List ℕ → Reads (List ℕ)
  unfolding int_par
  ids_loop no_items parent_key ids = value ids
  ids_loop (item ⨾ items) parent_key ids = do
    id ← int_par lib item (codes "app_ids") parent_key 0 (2 ^ 32 - 1) 0
    if_given id (ids_loop items parent_key ids) λ n. ids_loop items parent_key (ids ++ n ∷ [])

  unfoldable pub read_app_ids : TomlValueItem → Text → Reads (List ℕ)
  unfolding ids_loop
  read_app_ids item parent_key =
      if_given (array_of (item_value item))
        (do
          warn key_not_an_array (item_line item) (dotted parent_key (codes "app_ids") ∷ [])
          value [])
        λ items. ids_loop items parent_key []

  -- What each key does with its item.
  unfoldable pub resource_attr_cases :
      Text → TomlValueItem → ResourceAttrs → List (Text × Reads ResourceAttrs)
  unfolding read_app_ids size_par read_levels_array int_par
  resource_attr_cases attr_key item a =
      (
        codes "kind",
        do
          text ← str_par item attr_key resources
          if_given text (value a) λ t.
              if_given (kind_from_str t) (do warn inv_res_kind (item_line item) (t ∷ []); value a)
                λ kind. value (record a { kind = some kind }),
      )
      ∷ (codes "app_ids", do ids ← read_app_ids item resources; value (record a { scope = ids }))
      ∷ (codes "name", text_attr item attr_key a λ t. record a { name = t })
      ∷ (
        codes "size",
        do
          size ← size_par lib item attr_key resources min_file_size max_file_size def_file_size
          if_given size (value (record a { file_size = some def_file_size }))
              λ n. value (record a { file_size = some n; file_size_lnr = some (item_line item) }),
      )
      ∷ (
        codes "levels",
        do levels ← read_levels_array item attr_key resources; value (record a { levels = levels }),
      )
      ∷ (codes "output_format", text_attr item attr_key a λ t. record a { outp_format = t })
      ∷ (codes "rollover", text_attr item attr_key a λ t. record a { rovrp = t })
      ∷ (codes "local_url", text_attr item attr_key a λ t. record a { local_url = t })
      ∷ (codes "remote_url", text_attr item attr_key a λ t. record a { remote_url = t })
      ∷ (codes "buffer", text_attr item attr_key a λ t. record a { bufp = t })
      ∷ (
        codes "facility",
        do
          facility ← int_par lib item attr_key resources 0 23 1
          if_given facility (value a) λ n. value (record a { facility = some (n % 2 ^ 32) }),
      )
      ∷ []

  unfoldable pub resource_attrs : TomlTable → ResourceAttrs → Reads ResourceAttrs
  unfolding resource_attr_cases
  resource_attrs no_entries a = value a
  resource_attrs (entry attr_key item attrs) a = do
    a1 ←
        selected (do warn inv_res_attr (item_line item) (attr_key ∷ []); value a)
          (alternative attr_key (resource_attr_cases attr_key item a))
    resource_attrs attrs a1

  -- The URL of a system log: the default in place of an invalid one, or of none.
  abbrev syslog_url : Option (Text × ℕ) → ℕ → Reads Text
  unfolding is_valid_url
  syslog_url none line_nr = value default_syslog_url
  syslog_url (some (u, l)) line_nr =
      if is_valid_url u then value u else (do warn inv_res_url line_nr []; value default_syslog_url)

  abbrev syslog_local_url : Option (Text × ℕ) → ℕ → Reads (Option Text)
  unfolding is_valid_url
  syslog_local_url none line_nr = value none
  syslog_local_url (some (u, l)) line_nr =
      if is_valid_url u then value (some u) else (do warn inv_res_url line_nr []; value none)

  abbrev has_valid_url : Option Text → Bool → Bool
  unfolding is_valid_url
  has_valid_url none other = other
  has_valid_url (some u) other = is_valid_url u

  -- The resource of a kind with levels, unless something is missing.
  unfoldable pub resource_of_kind :
      ResourceKind → ℕ → ResourceAttrs → ℕ → Reads (Option ResourceDesc)
  unfolding syslog_url syslog_local_url has_valid_url
  resource_of_kind plain_file levels a line_nr =
      if_given a.name (do warn res_fn_missing line_nr []; value none)
        λ name. do
          unused_size a plain_file
          unused a.local_url (codes "local_url") plain_file
          unused a.remote_url (codes "remote_url") plain_file
          value (
              some (
                for_plain_file a.scope levels (text_only a.bufp) (text_only a.outp_format) (name.0)
                  (text_only a.rovrp)))
  resource_of_kind memory_mapped_file levels a line_nr =
      if_given a.name (do warn res_fn_missing line_nr []; value none)
        λ name.
          if_given a.file_size (do warn file_size_missing line_nr []; value none)
            λ size. do
              unused a.bufp (codes "buffer") memory_mapped_file
              unused a.local_url (codes "local_url") memory_mapped_file
              unused a.remote_url (codes "remote_url") memory_mapped_file
              value (
                  some (
                    for_mem_mapped_file a.scope levels (text_only a.outp_format) (name.0) size
                      (text_only a.rovrp)))
  resource_of_kind syslog levels a line_nr = do
    remote ← syslog_url a.remote_url line_nr
    local ← syslog_local_url a.local_url line_nr
    unused a.name (codes "name") syslog
    unused_size a syslog
    unused a.rovrp (codes "rollover") syslog
    value (some (for_syslog a.scope levels (text_only a.bufp) (selected 1 a.facility) remote local))
  resource_of_kind network levels a line_nr =
      if not
        (has_valid_url (text_only a.remote_url) false && has_valid_url (text_only a.local_url) true)
      then (do warn inv_res_url line_nr []; value none)
      else (do
        unused a.name (codes "name") network
        unused_size a network
        unused a.outp_format (codes "output_format") network
        unused a.rovrp (codes "rollover") network
        value (
            some (
              for_network a.scope levels (text_only a.bufp) (selected [] (text_only a.remote_url))
                (text_only a.local_url))))
  resource_of_kind kind levels a line_nr = do
    unused a.name (codes "name") kind
    unused_size a kind
    unused a.rovrp (codes "rollover") kind
    unused a.local_url (codes "local_url") kind
    unused a.remote_url (codes "remote_url") kind
    value (some (for_console a.scope kind levels (text_only a.bufp) (text_only a.outp_format)))

  -- Kind and one level at least are mandatory.
  unfoldable pub resource_of : ResourceAttrs → ℕ → Reads (Option ResourceDesc)
  unfolding resource_of_kind
  resource_of a line_nr =
      let invalid : Reads (Option ResourceDesc) = do warn inv_res_spec line_nr []; value none
      in if_given a.kind invalid λ kind.
        if_given a.levels invalid
          λ levels. if levels == 0 then invalid else resource_of_kind kind levels a line_nr

  abbrev with_resource : Option ResourceDesc → List ResourceDesc → List ResourceDesc
  with_resource none res = res
  with_resource (some r) res = res ++ r ∷ []

  unfoldable pub resources_loop : TomlArray → ℕ → List ResourceDesc → Reads (List ResourceDesc)
  unfolding resource_attrs resource_of
  resources_loop no_items line_nr res = value res
  resources_loop (item ⨾ items) line_nr res = do
    attrs ← unwrapped (child_items item)
    a ← resource_attrs attrs no_resource_attrs
    r ← resource_of a line_nr
    resources_loop items line_nr (with_resource r res)

  -- The custom resources, if the item is an array of tables.
  unfoldable pub read_resources : TomlValueItem → Reads (Option (List ResourceDesc))
  unfolding resources_loop
  read_resources (value_item (array items) line_nr true) = do
    res ← resources_loop items line_nr []
    value (some res)
  read_resources item = do warn inv_resources_hdr (item_line item) []; value none
