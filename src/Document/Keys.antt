-- ===== src/Document/Keys.antt =====
-- The parts of a key, and the table that a prefix names, in src/config/toml/document.rs.
use coaly.Prelude.{
  ◌≡◌, refl, ap, sym, ◌∙◌, Bool, Option, none, some, List, [], ◌∷◌, ◌++◌, inl, inr, Option-cases,
}
use coaly.Prelude.Texts.{Text}
use coaly.Scanner.Numbers.{quoted}
use coaly.Document.{
  Result, ok, err, TomlValueItem, value_item, simple, array, table, TomlTable, get, put,
  key_already_in_use,
}
use coaly.Document.Editing.{last_part, all_but_last, mk_prefix_items, added}
use coaly.Document.Paths.{
  inner, value_at, bind_ok, ok-injective, table-inner, value_at-nowhere, value_at-entered,
  value_at-missing,
}
use coaly.Document.Inserting.{Reaches, here, walk-Reaches}

pub parts_split :
    (ps before : List Text) (name : Text)
    → all_but_last ps ≡ ok before
    → last_part ps ≡ ok name
    → ps ≡ before ++ name ∷ []
parts_split [] before name h k = absurd cc
parts_split (p ∷ []) before name h k =
    let e : [] ≡ before = cc in let e1 : p ≡ name = cc in rw (sym e, e1) refl
parts_split (p ∷ q ∷ ps) before name h k =
    let (rest, found, same) = bind_ok (all_but_last (q ∷ ps)) _ before h in
    rw (ok-injective same) (ap (λ l. p ∷ l) (parts_split (q ∷ ps) rest name found k))

abbrev pub onward : Option TomlValueItem → List Text → Option TomlValueItem
onward none names = none
onward (some v) names = value_at names v

-- First behind some names, then behind the others.
pub value_at-append :
    (xs ys : List Text) (item : TomlValueItem)
    → value_at (xs ++ ys) item ≡ onward (value_at xs item) ys
unfolding value_at
value_at-append [] ys item = refl
value_at-append (x ∷ xs) ys item = elim (Option-cases (inner item)) [
  | inl e ↦
      value_at-nowhere x (xs ++ ys) item e
      ∙ ap (λ o. onward o ys) (sym (value_at-nowhere x xs item e))
  | inr (t, e) ↦ elim (Option-cases (get x t)) [
    | inl g ↦
        value_at-missing x (xs ++ ys) item t e g
        ∙ ap (λ o. onward o ys) (sym (value_at-missing x xs item t e g))
    | inr (v, g) ↦
        value_at-entered x (xs ++ ys) item t e v g
        ∙ value_at-append xs ys v
        ∙ ap (λ o. onward o ys) (sym (value_at-entered x xs item t e v g))
  ]
]

-- An item behind a name is an entry of the table before it.
pub value_at-one :
    (name : Text) (item : TomlValueItem) (t : TomlTable)
    → inner item ≡ some t
    → value_at (name ∷ []) item ≡ get name t
unfolding value_at
value_at-one name item t at = elim (Option-cases (get name t)) [
  | inl g ↦ value_at-missing name [] item t at g ∙ sym g
  | inr (v, g) ↦ value_at-entered name [] item t at v g ∙ sym g
]

added-none :
    (name : Text) (value : TomlValueItem) (t : TomlTable)
    → get name t ≡ none
    → added name value t ≡ ok (put name value t)
added-none name value t g = rw (added, g) refl

added-some :
    (name : Text) (value old : TomlValueItem) (t : TomlTable)
    → get name t ≡ some old
    → added name value t ≡ err (key_already_in_use (quoted name))
added-some name value old t g = rw (added, g) refl

pub added_ok :
    (name : Text) (value : TomlValueItem) (t t1 : TomlTable)
    → added name value t ≡ ok t1
    → (get name t ≡ none) × (t1 ≡ put name value t)
added_ok name value t t1 h = elim (Option-cases (get name t)) [
  | inl g ↦ (g, ok-injective (sym (added-none name value t g) ∙ h))
  | inr (v, g) ↦ absurd (cc (h, added-some name value v t g))
]

pub mk_prefix_items-Reaches :
    (item item1 : TomlValueItem) (names : List Text) (for_header : Bool)
    (continue : TomlTable → Result TomlTable)
    → mk_prefix_items item names for_header continue ≡ ok item1
    → Reaches continue names item item1
unfolding mk_prefix_items
mk_prefix_items-Reaches (value_item (simple k text) line_nr flag) item1 [] for_header continue h =
    absurd cc
mk_prefix_items-Reaches (value_item (array a) line_nr flag) item1 [] for_header continue h =
    absurd cc
mk_prefix_items-Reaches (value_item (table t) line_nr flag) item1 [] for_header continue h =
    let (t1, c, same) = bind_ok (continue t) _ item1 h in
    here continue _ (value_item (table t) line_nr flag) item1 refl (
      t,
      t1,
      table-inner t line_nr flag,
      c,
      ap inner (ok-injective same) ∙ table-inner t1 line_nr flag,
    )
mk_prefix_items-Reaches item item1 (p ∷ ps) for_header continue h =
    walk-Reaches continue (p ∷ ps) for_header 0 (p ∷ ps) item item1 h
