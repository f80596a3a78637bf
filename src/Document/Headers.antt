-- ===== src/Document/Headers.antt =====
-- What a header does to the document of src/config/toml/document.rs, and which documents make it
-- panic.
use coaly.Prelude.{
  ◌≡◌, refl, ap, subst, sym, ◌∙◌, true, false, none, some, List, [], ◌∷◌, ◌++◌, ◌⊎◌, inl, inr,
  Option-cases,
}
use coaly.Prelude.Texts.{Text}
use coaly.Document.{
  Result, ok, ◌>>=◌, TomlValueItem, value_item, simple, array, table, TomlTable, get, put,
  new_table, explicitly_referenced, is_in_use,
}
use coaly.Document.Editing.{
  TomlKey, TomlDocument, prefix, main_part, mk_prefix_items, mk_table_item, header_selected, placed,
  used_table,
}
use coaly.Document.Paths.{value_at, bind_ok, ok-injective, get-put}
use coaly.Document.Inserting.{Reaches}
use coaly.Document.Keys.{parts_split, mk_prefix_items-Reaches}
use coaly.Document.Pairs.{IsExplicitTable, insert_all, insert_all-explicit}
use coaly.Document.Contents.{reached_entry, entry_before}

used-IsExplicit :
    (key : TomlKey) (leaf leaf1 : TomlValueItem)
    → used_table key leaf ≡ ok leaf1
    → IsExplicitTable (some leaf1)
unfolding is_in_use explicitly_referenced
used-IsExplicit key (value_item (simple k text) line_nr flag) leaf1 h = absurd cc
used-IsExplicit key (value_item (array a) line_nr true) leaf1 h = absurd cc
used-IsExplicit key (value_item (array a) line_nr false) leaf1 h = absurd cc
used-IsExplicit key (value_item (table t) line_nr true) leaf1 h = rw (ok-injective h) tt
used-IsExplicit key (value_item (table t) line_nr false) leaf1 h = absurd cc

-- A table that a header has named is not accepted again.
used-explicit :
    (key : TomlKey) (leaf leaf1 : TomlValueItem)
    → IsExplicitTable (some leaf)
    → ¬ (used_table key leaf ≡ ok leaf1)
unfolding is_in_use explicitly_referenced
used-explicit key (value_item (simple k text) line_nr flag) leaf1 e h = e
used-explicit key (value_item (array a) line_nr flag) leaf1 e h = e
used-explicit key (value_item (table t) line_nr true) leaf1 e h = e
used-explicit key (value_item (table t) line_nr false) leaf1 e h = absurd cc

-- What a header makes of the entry of a name.
placed_ok :
    (name : Text) (fresh : TomlValueItem) (used : TomlValueItem → Result TomlValueItem)
    (t t1 : TomlTable)
    → placed name fresh used t ≡ ok t1
    → ((get name t ≡ none) × (get name t1 ≡ some fresh))
      ⊎ ((leaf : TomlValueItem) × (leaf1 : TomlValueItem) × (get name t ≡ some leaf)
          × (used leaf ≡ ok leaf1)
          × (get name t1 ≡ some leaf1))
placed_ok name fresh used t t1 h = elim (Option-cases (get name t)) [
  | inl g ↦
      let made : placed name fresh used t ≡ ok (put name fresh t) = rw (placed, g) refl in
      inl (g, ap (get name) (ok-injective (sym made ∙ h)) ∙ get-put name fresh t)
  | inr (leaf, g) ↦
      let made : placed name fresh used t ≡ (used leaf >>= (λ leaf1. ok (put name leaf1 t))) =
        rw (placed, g) refl in
      let (leaf1, u, same) = bind_ok (used leaf) _ t1 (sym made ∙ h) in
      inr (leaf, leaf1, g, u, ap (get name) (ok-injective same) ∙ get-put name leaf1 t)
]

-- The steps of a table's header that was accepted.
record Opens (d d1 : TomlDocument) (key : TomlKey) : Type 0 where
  names : List Text
  name : Text
  parts : key.parts ≡ names ++ name ∷ []
  reaches : Reaches (mk_table_item key) names d.root d1.root
  placing :
      placed name (new_table key.line_nr false) (used_table key) reaches.before ≡ ok reaches.after

table_placing :
    (key : TomlKey) (names : List Text) (t t1 : TomlTable)
    → prefix key ≡ ok names
    → mk_table_item key t ≡ ok t1
    → (name : Text) × (key.parts ≡ names ++ name ∷ [])
      × (placed name (new_table key.line_nr false) (used_table key) t ≡ ok t1)
unfolding mk_table_item
table_placing key names t t1 known h =
    let (name, named, placing) = bind_ok (main_part key) _ t1 h in
    (name, parts_split key.parts names name known named, placing)

made-Opens :
    (d d1 : TomlDocument) (key : TomlKey) (names : List Text) (root1 : TomlValueItem)
    → prefix key ≡ ok names
    → root1 ≡ d1.root
    → mk_prefix_items d.root names true (mk_table_item key) ≡ ok root1
    → Opens d d1 key
made-Opens d d1 key names root1 known same made =
    let reached : Reaches (mk_table_item key) names d.root d1.root =
      mk_prefix_items-Reaches d.root d1.root names true (mk_table_item key) (made ∙ ap ok same) in
    let (name, parts, placing) =
      table_placing key names reached.before reached.after known reached.continued in
    record { names = names; name = name; parts = parts; reaches = reached; placing = placing }

header_selected-Opens :
    (d d1 : TomlDocument) (key : TomlKey) → header_selected d key false ≡ ok d1 → Opens d d1 key
unfolding header_selected
header_selected-Opens d d1 key h =
    let (names, known, rest) = bind_ok (prefix key) _ d1 h in
    let (root1, made, same) =
      bind_ok (mk_prefix_items d.root names true (mk_table_item key)) _ d1 rest in
    made-Opens d d1 key names root1 known (ap (λ x. x.root) (sym (ok-injective same))) made

-- The header of a table leaves an explicit table behind the parts of its key.
pub header_selected-IsExplicit :
    (d d1 : TomlDocument) (key : TomlKey)
    → header_selected d key false ≡ ok d1
    → IsExplicitTable (value_at key.parts d1.root)
header_selected-IsExplicit d d1 key h =
    let s = header_selected-Opens d d1 key h in
    let at : value_at key.parts d1.root ≡ get s.name s.reaches.after =
      ap (λ l. value_at l d1.root) s.parts
      ∙ reached_entry _ s.names s.name d.root d1.root s.reaches in
    elim (placed_ok s.name _ _ _ _ s.placing) [
      | inl e ↦ rw (at ∙ e.1) tt
      | inr (leaf, leaf1, g, u, g1) ↦ rw (at ∙ g1) (used-IsExplicit key leaf leaf1 u)
    ]

header_selected-selection :
    (d d1 : TomlDocument) (key : TomlKey)
    → header_selected d key false ≡ ok d1
    → d1.selection ≡ some key
unfolding header_selected
header_selected-selection d d1 key h =
    let (names, known, rest) = bind_ok (prefix key) _ d1 h in
    let (root1, made, same) =
      bind_ok (mk_prefix_items d.root names true (mk_table_item key)) _ d1 rest in
    ap (λ x. x.selection) (ok-injective same)

-- Where there is an explicit table, the header of a table is not accepted.
pub header_selected-explicit :
    (d d1 : TomlDocument) (key : TomlKey)
    → IsExplicitTable (value_at key.parts d.root)
    → ¬ (header_selected d key false ≡ ok d1)
header_selected-explicit d d1 key e h =
    let s = header_selected-Opens d d1 key h in
    let path = ap (λ l. value_at l d.root) s.parts in
    elim (entry_before _ s.names s.name d.root d1.root s.reaches) [
      | inl g ↦ subst IsExplicitTable (path ∙ g) e
      | inr g ↦
          let e1 = subst IsExplicitTable (path ∙ g) e in
          elim (placed_ok s.name _ _ _ _ s.placing) [
            | inl free ↦ subst IsExplicitTable free.0 e1
            | inr (leaf, leaf1, there, u, g1) ↦
                used-explicit key leaf leaf1 (subst IsExplicitTable there e1) u
          ]
    ]

-- The header of a table that was accepted is not accepted again behind any number of key-value
-- pairs that were inserted directly behind it, before any other header.
pub header_selected-twice :
    (d d1 d2 d3 : TomlDocument) (key : TomlKey) (pairs : List (TomlKey × TomlValueItem))
    → header_selected d key false ≡ ok d1
    → insert_all d1 pairs ≡ ok d2
    → ¬ (header_selected d2 key false ≡ ok d3)
header_selected-twice d d1 d2 d3 key pairs h inserted = header_selected-explicit d2 d3 key (
    insert_all-explicit d1 d2 key pairs (header_selected-selection d d1 key h)
      (header_selected-IsExplicit d d1 key h) inserted)
