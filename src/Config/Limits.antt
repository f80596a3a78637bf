-- ===== src/Config/Limits.antt =====
-- The limits of the buffer policies that a configuration gives.
use coaly.Prelude.{
  ℕ, ◌≤◌, ◌-◌, ◌^◌, ◌==◌, ◌≡◌, refl, subst, ltb, false, Option, none, some, List, [], ◌∷◌, inl, inr,
  Bool-cases, arith,
}
use coaly.Prelude.Texts.{codes, Text, TextMap, insert, same_text, text_lt}
use coaly.Document.{TomlValueItem, value_item, TomlTable, no_entries, entry, table, array, simple}
use coaly.Datetime.Names.{alternative}
use coaly.Policies.{
  BufferPolicy, default_buffer_policy, def_buffer_cont_size, def_buffer_index_size, def_max_rec_len,
}
use coaly.Collections.Defaults.{MapWithDefault, insert_element}
use coaly.Config.{
  Reads, value, Library, child_items, item_line, dotted, not_table_item, read_flush_array,
  flush_words,
}
use coaly.Config.Buffers.{
  BufferAttrs, no_attrs, selected, or_kept, or_default, buffer_attr_cases, unknown_attr,
  buffer_attr, buffer_attrs, index_size_for, max_rec_len_for, buffer_policy, with_policy,
  buffer_policies, read_buffer_policies,
}
use coaly.Config.Returns.{
  Returns, bind-Returns, if_given-Returns, if-Returns, Whatever, Between, int_par-Returns,
  size_par-Returns, read_words-Returns,
}

abbrev Cases : (BufferAttrs → Type 0) → List (Text × Reads BufferAttrs) → Type 0
Cases P [] = Unit {0}
Cases P ((name, m) ∷ cases) = Returns P m × Cases P cases

selected-Returns :
    (P : BufferAttrs → Type 0) (key : Text) (other : Reads BufferAttrs)
    (cases : List (Text × Reads BufferAttrs))
    → Returns P other
    → Cases P cases
    → Returns P (selected other (alternative key cases))
selected-Returns P key other [] h k = h
selected-Returns P key other ((name, m) ∷ cases) h k = elim (Bool-cases (same_text key name)) [
  | inl e ↦ rw (e) (k.0)
  | inr e ↦ rw (e) (selected-Returns P key other cases h k.1)
]

-- What the variables of the loop can hold.
pub record InRange (a : BufferAttrs) : Type 0 where
  pub cont : Between 4096 (2 ^ 32 - 1) a.cont_size
  pub index : Between 128 (2 ^ 32 - 1) a.index_size
  pub rec_len : Between 1 (2 ^ 63 - 1) a.max_rec_len

-- A policy that a buffer can be made with: its content holds a record of the maximum length. An
-- index size that is derived from the smallest content size is 128.
pub record IsUsable (p : BufferPolicy) : Type 0 where
  pub content : (4096 ≤ p.content_size) × (p.content_size ≤ 2 ^ 32 - 1)
  pub index : (128 ≤ p.index_size) × (p.index_size ≤ 2 ^ 32 - 1)
  pub flushes : (p.flush_conditions == 0) ≡ false
  pub rec_len : (1 ≤ p.max_record_length) × (p.max_record_length ≤ p.content_size)

or_default-Between :
    (min max d : ℕ) (o : Option ℕ)
    → min ≤ d
    → d ≤ max
    → Between min max o
    → Between min max (some (or_default d o))
or_default-Between min max d none h k b = (h, k)
or_default-Between min max d (some n) h k b = b

or_kept-Between :
    (min least max : ℕ) (kept o : Option ℕ)
    → min ≤ least
    → Between min max kept
    → Between least max o
    → Between min max (or_kept kept o)
or_kept-Between min least max kept none l h b = h
or_kept-Between min least max kept (some n) l h b = (omega (arith, b.0), b.1)

not_table_item-Returns :
    (item : TomlValueItem) (name : Text) → Returns Whatever (not_table_item item name)
not_table_item-Returns (value_item (table t) line_nr flag) name = record { post = λ msgs. tt }
not_table_item-Returns (value_item (array t) line_nr flag) name = record { post = λ msgs. tt }
not_table_item-Returns (value_item (simple type t) line_nr flag) name = record { post = λ msgs. tt }

module _ (lib : Library) where
  buffer_attr_cases-InRange :
      (polkey attr_key : Text) (item : TomlValueItem) (a : BufferAttrs)
      → InRange a
      → Cases InRange (buffer_attr_cases lib polkey attr_key item a)
  unfolding buffer_attr_cases read_flush_array
  buffer_attr_cases-InRange polkey attr_key item a h = (
    bind-Returns _ (λ events. value (record a { flush_events = or_default 0 events }))
        (read_words-Returns flush_words attr_key polkey polkey item)
        (λ o _. record {
          post = λ msgs. record { cont = h.cont; index = h.index; rec_len = h.rec_len };
        }),
    (
      bind-Returns _
          (λ size. value (record a { cont_size = some (or_default def_buffer_cont_size size) }))
          (size_par-Returns lib item attr_key polkey 4096 (2 ^ 32 - 1) def_buffer_cont_size)
          (λ o b. record {
            post = λ msgs. record {
              cont =
                  or_default-Between 4096 (2 ^ 32 - 1) def_buffer_cont_size o (omega arith)
                    (omega arith) b;
              index = h.index;
              rec_len = h.rec_len;
            };
          }),
      (
        bind-Returns _ (λ size. value (record a { index_size = or_kept a.index_size size }))
            (size_par-Returns lib item attr_key polkey 4096 (2 ^ 32 - 1) def_buffer_index_size)
            (λ o b. record {
              post = λ msgs. record {
                cont = h.cont;
                index =
                    or_kept-Between 128 4096 (2 ^ 32 - 1) a.index_size o (omega arith) h.index b;
                rec_len = h.rec_len;
              };
            }),
        (
          bind-Returns _ (λ len. value (record a { max_rec_len = or_kept a.max_rec_len len }))
              (int_par-Returns lib item attr_key polkey 1 (2 ^ 63 - 1) def_max_rec_len)
              (λ o b. record {
                post = λ msgs. record {
                  cont = h.cont;
                  index = h.index;
                  rec_len =
                      or_kept-Between 1 1 (2 ^ 63 - 1) a.max_rec_len o (omega arith) h.rec_len b;
                };
              }),
          tt,
        ),
      ),
    ),
  )

  buffer_attr-InRange :
      (key polkey attr_key : Text) (item : TomlValueItem) (a : BufferAttrs)
      → InRange a
      → Returns InRange (buffer_attr lib key polkey attr_key item a)
  unfolding buffer_attr
  buffer_attr-InRange key polkey attr_key item a h =
      selected-Returns InRange attr_key (unknown_attr lib key attr_key item a)
        (buffer_attr_cases lib polkey attr_key item a) (record { post = λ msgs. h })
        (buffer_attr_cases-InRange polkey attr_key item a h)

  buffer_attrs-InRange :
      (key polkey : Text) (attrs : TomlTable) (a : BufferAttrs)
      → InRange a
      → Returns InRange (buffer_attrs lib key polkey attrs a)
  unfolding buffer_attrs
  buffer_attrs-InRange key polkey no_entries a h = record { post = λ msgs. h }
  buffer_attrs-InRange key polkey (entry attr_key item attrs) a h =
      bind-Returns _ _ (buffer_attr-InRange key polkey attr_key item a h)
        λ a1 h1. buffer_attrs-InRange key polkey attrs a1 h1

  pub index_size_for-Between :
      (key : Text) (line_nr : ℕ) (o : Option ℕ) (cont_size : ℕ)
      → Between 128 (2 ^ 32 - 1) o
      → (4096 ≤ cont_size) × (cont_size ≤ 2 ^ 32 - 1)
      → Returns (λ n. (128 ≤ n) × (n ≤ 2 ^ 32 - 1)) (index_size_for lib key line_nr o cont_size)
  unfolding index_size_for
  index_size_for-Between key line_nr (some n) cont_size b h = record { post = λ msgs. b }
  index_size_for-Between key line_nr none cont_size b h = record {
    post = λ msgs. (omega (arith, h.0), omega (arith, h.1));
  }

  pub max_rec_len_for-Between :
      (key : Text) (line_nr : ℕ) (o : Option ℕ) (cont_size : ℕ)
      → Between 1 (2 ^ 63 - 1) o
      → 4096 ≤ cont_size
      → Returns (λ n. (1 ≤ n) × (n ≤ cont_size)) (max_rec_len_for lib key line_nr o cont_size)
  unfolding max_rec_len_for
  max_rec_len_for-Between key line_nr none cont_size b h = record {
    post = λ msgs. (omega arith, omega arith);
  }
  max_rec_len_for-Between key line_nr (some n) cont_size b h =
      if-Returns (ltb cont_size n) _ _ (λ e. record { post = λ msgs. (omega arith, omega arith) })
        λ e. record { post = λ msgs. (b.0, ground arith) }

  -- A policy, if there is one, and the variables.
  abbrev pub Made : Option BufferPolicy × BufferAttrs → Type 0
  Made (none, a) = InRange a
  Made (some p, a) = IsUsable p × InRange a

  pub buffer_policy-Made :
      (key : Text) (line_nr : ℕ) (a : BufferAttrs)
      → InRange a
      → Returns Made (buffer_policy lib key line_nr a)
  unfolding buffer_policy
  buffer_policy-Made key line_nr a h =
      if-Returns (a.flush_events == 0) _ _ (λ e. record { post = λ msgs. h })
        λ flushes.
          if_given-Returns a.cont_size _ _ (record { post = λ msgs. h })
            λ cont_size e.
              let c : (4096 ≤ cont_size) × (cont_size ≤ 2 ^ 32 - 1) =
                subst (Between 4096 (2 ^ 32 - 1)) e h.cont in
              bind-Returns _ _ (index_size_for-Between key line_nr a.index_size cont_size h.index c)
                λ index_size i.
                  bind-Returns _ _
                    (max_rec_len_for-Between key line_nr a.max_rec_len cont_size h.rec_len c.0)
                    λ len l. record {
                      post = λ msgs. (
                        record { content = c; index = i; flushes = flushes; rec_len = l },
                        record {
                          cont = h.cont;
                          index = i;
                          rec_len = (l.0, omega (arith, l.1, c.1));
                        },
                      );
                    }

abbrev AllUsable : TextMap BufferPolicy → Type 0
AllUsable [] = Unit {0}
AllUsable ((key, p) ∷ pols) = IsUsable p × AllUsable pols

insert-AllUsable :
    (key : Text) (p : BufferPolicy) (pols : TextMap BufferPolicy)
    → IsUsable p
    → AllUsable pols
    → AllUsable (insert key p pols)
unfolding insert
insert-AllUsable key p [] u h = (u, tt)
insert-AllUsable key p ((k, q) ∷ pols) u h = elim (Bool-cases (text_lt key k)) [
  | inl e ↦ rw (e) (u, h)
  | inr e ↦ rw (e) (elim (Bool-cases (same_text key k)) [
    | inl d ↦ rw (d) (u, h.1)
    | inr d ↦ rw (d) (h.0, insert-AllUsable key p pols u h.1)
  ])
]

-- The default and all policies of the configuration can be used.
abbrev pub Usable : MapWithDefault BufferPolicy → Type 0
Usable pols = IsUsable pols.default_element × AllUsable pols.custom_elements

abbrev pub UsableIfRead : Option (MapWithDefault BufferPolicy) → Type 0
UsableIfRead none = Unit {0}
UsableIfRead (some pols) = Usable pols

module _ (lib : Library) where
  with_policy-Usable :
      (key : Text) (made : Option BufferPolicy × BufferAttrs) (pols : MapWithDefault BufferPolicy)
      → Made lib made
      → Usable pols
      → InRange made.1 × Usable (with_policy lib key made.0 pols)
  unfolding with_policy insert_element
  with_policy-Usable key (none, a) pols m h = (m, h)
  with_policy-Usable key (some p, a) pols m h =
      (m.1, (h.0, insert-AllUsable key p pols.custom_elements m.0 h.1))

  buffer_policies-Usable :
      (bpkey : Text) (items : TomlTable) (a : BufferAttrs) (pols : MapWithDefault BufferPolicy)
      → InRange a
      → Usable pols
      → Returns Usable (buffer_policies lib bpkey items a pols)
  unfolding buffer_policies
  buffer_policies-Usable bpkey no_entries a pols h u = record { post = λ msgs. u }
  buffer_policies-Usable bpkey (entry key item items) a pols h u =
      bind-Returns _ _ (not_table_item-Returns item (dotted bpkey key)) λ no_table _.
        if_given-Returns (child_items item) _ _ (buffer_policies-Usable bpkey items a pols h u)
          λ attrs _.
            bind-Returns _ _ (buffer_attrs-InRange lib key (dotted bpkey key) attrs a h) λ a1 h1.
              bind-Returns _ _ (buffer_policy-Made lib key (item_line item) a1 h1) λ made m.
                let next = with_policy-Usable key made pols m u in
                buffer_policies-Usable bpkey items made.1 (with_policy lib key made.0 pols) next.0
                  next.1

  default-IsUsable : IsUsable default_buffer_policy
  unfolding default_buffer_policy
  default-IsUsable = record {
    content = (omega arith, omega arith);
    index = (omega arith, omega arith);
    flushes = refl;
    rec_len = (omega arith, omega arith);
  }

  -- Whatever the configuration has for the buffer policies, reading them does not panic, and each
  -- policy that comes out has a content size from 4096 to 2 ^ 32 - 1, an index size from 128 to 2 ^
  -- 32 - 1, a condition to flush on, and a maximum record length of at least 1 that its content can
  -- hold.
  pub read_buffer_policies-Usable :
      (item : TomlValueItem) → Returns UsableIfRead (read_buffer_policies lib item)
  unfolding read_buffer_policies
  read_buffer_policies-Usable item = bind-Returns _ _ (not_table_item-Returns item _) λ no_table _.
      if_given-Returns (child_items item) _ _ (record { post = λ msgs. tt })
        λ items _.
          bind-Returns _ (λ pols. value (some pols))
            (buffer_policies-Usable (codes "policies.buffer") items no_attrs
              (record { default_element = default_buffer_policy; custom_elements = [] })
              (record { cont = tt; index = tt; rec_len = tt }) (default-IsUsable, tt))
            λ pols u. record { post = λ msgs. u }
