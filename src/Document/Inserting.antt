-- ===== src/Document/Inserting.antt =====
-- What inserting into the document of src/config/toml/document.rs reaches.
use coaly.Prelude.{
  ℕ, zero, suc, ◌≡◌, refl, ap, sym, ◌∙◌, Bool, true, false, some, List, [], ◌∷◌, inl, inr,
  Option-cases,
}
use coaly.Prelude.Texts.{Text}
use coaly.Document.{
  Result, ok, TomlValueItem, value_item, simple, array, table, TomlTable, get, put, last_item,
  unwrap, explicitly_referenced,
}
use coaly.Document.Editing.{walk, in_table, child_of, no_table}
use coaly.Document.Paths.{
  value_at-entered, value_at-missing, table-inner, array-inner, inner, value_at, get-put,
  last-set_last, bind_ok, unwrap_ok, ok-injective, Changes, in_table-Changes, in_last_table-Changes,
  referenced-inner,
}

-- The table behind the names went through a function; where there was one before, it is that one.
pub record Reaches (continue : TomlTable → Result TomlTable) (names : List Text)
    (item item1 : TomlValueItem) : Type 0 where
  pub before : TomlTable
  pub after : TomlTable
  pub continued : continue before ≡ ok after
  pub end : TomlValueItem
  pub found : value_at names item1 ≡ some end
  pub there : inner end ≡ some after
  pub was : (v : TomlValueItem) → value_at names item ≡ some v → inner v ≡ some before

module _ (continue : TomlTable → Result TomlTable) where
  pub here :
      (item between item1 : TomlValueItem)
      → inner between ≡ inner item
      → Changes continue (inner between) (inner item1)
      → Reaches continue [] item item1
  unfolding value_at
  here item between item1 same (t, t1, at, c, at1) = record {
    before = t;
    after = t1;
    continued = c;
    end = item1;
    found = refl;
    there = at1;
    was = λ v e. let e1 : item ≡ v = cc in rw (sym e1) (sym same ∙ at);
  }

  -- Behind one more name.
  below :
      (name : Text) (names : List Text) (item item1 : TomlValueItem) (t : TomlTable)
      (child1 : TomlValueItem)
      → inner item ≡ some t
      → inner item1 ≡ some (put name child1 t)
      → Reaches continue names (child_of name t) child1
      → Reaches continue (name ∷ names) item item1
  unfolding value_at
  below name names item item1 t child1 at at1 r = record {
    before = r.before;
    after = r.after;
    continued = r.continued;
    end = r.end;
    found =
        value_at-entered name names item1 (put name child1 t) at1 child1 (get-put name child1 t)
        ∙ r.found;
    there = r.there;
    was = λ v e. elim (Option-cases (get name t)) [
      | inl g ↦ absurd (cc (e, value_at-missing name names item t at g))
      | inr g ↦
          r.was v (rw (child_of, g.1) (sym (value_at-entered name names item t at g.0 g.1) ∙ e))
    ];
  }

  put_below :
      (name : Text) (names : List Text) (item item1 : TomlValueItem) (t t1 : TomlTable)
      (child child1 : TomlValueItem)
      → inner item ≡ some t
      → inner item1 ≡ some t1
      → get name t ≡ some child
      → put name child1 t ≡ t1
      → Reaches continue names child child1
      → Reaches continue (name ∷ names) item item1
  put_below name names item item1 t t1 child child1 at at1 g same r =
      let r1 : Reaches continue names (child_of name t) child1 = rw (child_of, g) r in
      below name names item item1 t child1 at (at1 ∙ ap some (sym same)) r1

  -- Where a walk succeeds, it reaches the table.
  pub walk-Reaches :
      (all : List Text) (for_header : Bool) (i : ℕ) (names : List Text) (item item1 : TomlValueItem)
      → walk all for_header continue i names item ≡ ok item1
      → Reaches continue names item item1
  unfolding walk
  walk-Reaches all true i [] item item1 h =
      here item item item1 refl (in_last_table-Changes all continue item item1 h)
  walk-Reaches all false i [] item item1 h =
      let (between, marked, rest) = bind_ok (explicitly_referenced item) _ item1 h in
      here item between item1 (referenced-inner item between marked)
        (in_last_table-Changes all continue between item1 rest)
  walk-Reaches all header i (name ∷ names) (value_item (table t) line_nr flag) item1 h =
      let (child1, walked, same) =
        bind_ok (walk all header continue (suc i) names (child_of name t)) _ item1 h in
      below name names _ item1 t child1 (table-inner t line_nr flag)
        (rw (ok-injective same) (table-inner _ line_nr flag))
        (walk-Reaches all header (suc i) names (child_of name t) child1 walked)
  walk-Reaches all header i (name ∷ names) (value_item (array a) line_nr false) item1 h = absurd cc
  walk-Reaches all header i (name ∷ names) (value_item (array a) line_nr true) item1 h =
      let (last, found, rest) = bind_ok (unwrap (last_item a)) _ item1 h in
      let (last1, changed, same) = bind_ok (in_table (no_table all) _ last) _ item1 rest in
      let at = unwrap_ok (last_item a) last found in
      let (t, t1, before, c, after) = in_table-Changes (no_table all) _ last last1 changed in
      let (child, got, c1) = bind_ok (unwrap (get name t)) _ t1 c in
      let (child1, walked, same1) =
        bind_ok (walk all header continue (suc i) names child) _ t1 c1 in
      put_below name names _ item1 t t1 child child1 (array-inner a line_nr true last at ∙ before)
        (ap inner (ok-injective same)
          ∙ array-inner _ line_nr true last1 (last-set_last last1 a last at)
          ∙ after)
        (unwrap_ok (get name t) child got) (sym (ok-injective same1))
        (walk-Reaches all header (suc i) names child child1 walked)
  walk-Reaches all header zero (name ∷ names) (value_item (simple k text) line_nr flag) item1 h =
      absurd cc
  walk-Reaches all header (suc i) (name ∷ names) (value_item (simple k text) line_nr flag) item1 h =
      absurd cc
