-- ===== src/Document/Pairs.antt =====
-- What the key-value pairs behind a header leave of its table, in the document of
-- src/config/toml/document.rs.
use coaly.Prelude.{
  ℕ, zero, suc, ◌≡◌, refl, ap, subst, sym, ◌∙◌, true, false, Option, some, List, [], ◌∷◌, ◌++◌, inl,
  inr, Option-cases,
}
use coaly.Prelude.Texts.{Text}
use coaly.Document.{
  Result, ok, ◌>>=◌, TomlValueItem, value_item, simple, array, table, TomlTable, get, put,
  last_item, set_last, unwrap, explicitly_referenced,
}
use coaly.Document.Editing.{
  TomlKey, TomlDocument, header_parts, prefix, main_part, walk, in_table, in_last_table, child_of,
  no_table, mk_prefix_items, added, insert_item, insert,
}
use coaly.Document.Paths.{
  value_at-entered, value_at-missing, table-inner, array-inner, inner, value_at, get-put,
  last-set_last, bind_ok, unwrap_ok, ok-injective, in_table-Changes,
}

-- A table that was named by a header.
abbrev pub IsExplicitTable : Option TomlValueItem → Type 0
IsExplicitTable (some (value_item (table t) line_nr false)) = Unit {0}
IsExplicitTable _ = ⊥

-- The entry of a name through which an explicit table is found.
entered :
    (name : Text) (names : List Text) (item : TomlValueItem) (t : TomlTable)
    → inner item ≡ some t
    → IsExplicitTable (value_at (name ∷ names) item)
    → (v : TomlValueItem) × (get name t ≡ some v) × IsExplicitTable (value_at names v)
entered name names item t at e = elim (Option-cases (get name t)) [
  | inl g ↦ absurd (subst IsExplicitTable (value_at-missing name names item t at g) e)
  | inr (v, g) ↦ (v, g, subst IsExplicitTable (value_at-entered name names item t at v g) e)
]

put_entered :
    (name : Text) (names : List Text) (item : TomlValueItem) (t : TomlTable) (child : TomlValueItem)
    → inner item ≡ some (put name child t)
    → IsExplicitTable (value_at names child)
    → IsExplicitTable (value_at (name ∷ names) item)
put_entered name names item t child at e =
    subst IsExplicitTable
      (sym (value_at-entered name names item (put name child t) at child (get-put name child t))) e

module _ (continue : TomlTable → Result TomlTable) (all : List Text) where
  -- A walk that goes through an explicit table, or ends in it, leaves it explicit.
  at_table :
      (i : ℕ) (rest : List Text) (item item1 : TomlValueItem)
      → IsExplicitTable (some item)
      → walk all false continue i rest item ≡ ok item1
      → IsExplicitTable (some item1)
  unfolding walk explicitly_referenced in_last_table
  at_table i [] (value_item (table t) line_nr false) item1 e h =
      let (t1, c, same) = bind_ok (continue t) _ item1 h in rw (ok-injective same) tt
  at_table i (name ∷ rest) (value_item (table t) line_nr false) item1 e h =
      let (child, w, same) =
        bind_ok (walk all false continue (suc i) rest (child_of name t)) _ item1 h in
      rw (ok-injective same) tt
  at_table i rest _ item1 e h = absurd e

  walk-explicit :
      (i : ℕ) (names rest : List Text) (item item1 : TomlValueItem)
      → IsExplicitTable (value_at names item)
      → walk all false continue i (names ++ rest) item ≡ ok item1
      → IsExplicitTable (value_at names item1)
  unfolding walk value_at
  walk-explicit i [] rest item item1 e h = at_table i rest item item1 e h
  walk-explicit i (name ∷ names) rest (value_item (table t) line_nr flag) item1 e h =
      let (child1, walked, same) =
        bind_ok (walk all false continue (suc i) (names ++ rest) (child_of name t)) _ item1 h in
      let (v, g, e1) =
        entered name names (value_item (table t) line_nr flag) t (table-inner t line_nr flag) e in
      let there : child_of name t ≡ v = rw (child_of, g) refl in
      put_entered name names item1 t child1 (rw (ok-injective same) (table-inner _ line_nr flag)) (
        walk-explicit (suc i) names rest v child1 e1
          (ap (walk all false continue (suc i) (names ++ rest)) (sym there) ∙ walked))
  walk-explicit i (name ∷ names) rest (value_item (array a) line_nr false) item1 e h = absurd cc
  walk-explicit i (name ∷ names) rest (value_item (array a) line_nr true) item1 e h =
      let (last, found, more) = bind_ok (unwrap (last_item a)) _ item1 h in
      let (last1, changed, same) = bind_ok (in_table (no_table all) _ last) _ item1 more in
      let at = unwrap_ok (last_item a) last found in
      let (t, t1, before, c, after) = in_table-Changes (no_table all) _ last last1 changed in
      let (child, got, c1) = bind_ok (unwrap (get name t)) _ t1 c in
      let (child1, walked, same1) =
        bind_ok (walk all false continue (suc i) (names ++ rest) child) _ t1 c1 in
      let (v, g, e1) =
        entered name names (value_item (array a) line_nr true) t
          (array-inner a line_nr true last at ∙ before) e in
      let there : child ≡ v = let got1 = unwrap_ok (get name t) child got in cc in
      put_entered name names item1 t child1
        (ap inner (ok-injective same)
          ∙ array-inner (set_last last1 a) line_nr true last1 (last-set_last last1 a last at)
          ∙ after
          ∙ ap some (ok-injective same1))
        (walk-explicit (suc i) names rest child child1
          (subst (λ x. IsExplicitTable (value_at names x)) (sym there) e1) walked)
  walk-explicit zero (name ∷ names) rest (value_item (simple k text) line_nr flag) item1 e h =
      absurd cc
  walk-explicit (suc i) (name ∷ names) rest (value_item (simple k text) line_nr flag) item1 e h =
      absurd cc

mk_prefix_items-explicit :
    (continue : TomlTable → Result TomlTable) (names rest : List Text) (item item1 : TomlValueItem)
    → IsExplicitTable (value_at names item)
    → mk_prefix_items item (names ++ rest) false continue ≡ ok item1
    → IsExplicitTable (value_at names item1)
unfolding mk_prefix_items value_at
mk_prefix_items-explicit continue (p ∷ ps) rest item item1 e h =
    walk-explicit continue (p ∷ (ps ++ rest)) 0 (p ∷ ps) rest item item1 e h
mk_prefix_items-explicit continue [] (p ∷ ps) item item1 e h =
    at_table continue (p ∷ ps) 0 (p ∷ ps) item item1 e h
mk_prefix_items-explicit continue [] [] (value_item (table t) line_nr false) item1 e h =
    let (t1, c, same) = bind_ok (continue t) _ item1 h in rw (ok-injective same) tt
mk_prefix_items-explicit continue [] [] _ item1 e h = absurd e

-- Key-value pairs, one behind the other.
abbrev pub insert_all : TomlDocument → List (TomlKey × TomlValueItem) → Result TomlDocument
insert_all d [] = ok d
insert_all d ((key, value) ∷ pairs) = do d1 ← insert d key value; insert_all d1 pairs

-- The table of the header stays explicit, and the header selected.
insert-explicit :
    (d d1 : TomlDocument) (header key : TomlKey) (value : TomlValueItem)
    → d.selection ≡ some header
    → IsExplicitTable (value_at header.parts d.root)
    → insert d key value ≡ ok d1
    → (d1.selection ≡ some header) × IsExplicitTable (value_at header.parts d1.root)
unfolding insert insert_item
insert-explicit d d1 header key value selected e h =
    let (root1, inserted, same) = bind_ok (insert_item d.root d.selection key value) _ d1 h in
    let (before, known, rest) = bind_ok (prefix key) _ root1 inserted in
    let (name, named, made) = bind_ok (main_part key) _ root1 rest in
    let names : header_parts d.selection ≡ header.parts = ap header_parts selected in
    let kept : IsExplicitTable (value_at header.parts root1) =
      mk_prefix_items-explicit (added name value) header.parts before d.root root1 e (
        ap (λ l. mk_prefix_items d.root (l ++ before) false (added name value)) (sym names)
        ∙ made) in
    (
      ap (λ x. x.selection) (ok-injective same) ∙ selected,
      subst (λ x. IsExplicitTable (value_at header.parts x))
          (sym (ap (λ x. x.root) (ok-injective same))) kept,
    )

-- So it is behind all pairs.
pub insert_all-explicit :
    (d d1 : TomlDocument) (header : TomlKey) (pairs : List (TomlKey × TomlValueItem))
    → d.selection ≡ some header
    → IsExplicitTable (value_at header.parts d.root)
    → insert_all d pairs ≡ ok d1
    → IsExplicitTable (value_at header.parts d1.root)
insert_all-explicit d d1 header [] selected e h =
    subst (λ x. IsExplicitTable (value_at header.parts x.root)) (sym (ok-injective h)) e
insert_all-explicit d d1 header ((key, value) ∷ pairs) selected e h =
    let (d2, inserted, rest) = bind_ok (insert d key value) _ d1 h in
    let (selected2, e2) = insert-explicit d d2 header key value selected e inserted in
    insert_all-explicit d2 d1 header pairs selected2 e2 rest
