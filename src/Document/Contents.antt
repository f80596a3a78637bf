-- ===== src/Document/Contents.antt =====
-- What the document of src/config/toml/document.rs holds after a key-value pair or a header, and
-- which configurations make it panic.
use coaly.Prelude.{
  ◌≡◌, ap, sym, ◌∙◌, false, none, some, List, [], ◌∷◌, ◌++◌, ◌⊎◌, inl, inr, Option-cases,
  append_assoc,
}
use coaly.Prelude.Texts.{Text}
use coaly.Document.{Result, ok, TomlValueItem, TomlTable, get}
use coaly.Document.Editing.{
  TomlKey, TomlDocument, header_parts, prefix, main_part, mk_prefix_items, added, insert_item,
  insert,
}
use coaly.Document.Paths.{value_at, bind_ok, ok-injective, get-put}
use coaly.Document.Inserting.{Reaches}
use coaly.Document.Keys.{
  parts_split, onward, value_at-append, value_at-one, added_ok, mk_prefix_items-Reaches,
}

-- Behind the table that was reached, a name has its entry.
pub reached_entry :
    (continue : TomlTable → Result TomlTable) (names : List Text) (name : Text)
    (item item1 : TomlValueItem) (r : Reaches continue names item item1)
    → value_at (names ++ name ∷ []) item1 ≡ get name r.after
reached_entry continue names name item item1 r =
    value_at-append names (name ∷ []) item1
    ∙ ap (λ o. onward o (name ∷ [])) r.found
    ∙ value_at-one name r.end r.after r.there

-- Before, it had its entry in the same table, or none.
pub entry_before :
    (continue : TomlTable → Result TomlTable) (names : List Text) (name : Text)
    (item item1 : TomlValueItem) (r : Reaches continue names item item1)
    → (value_at (names ++ name ∷ []) item ≡ none)
      ⊎ (value_at (names ++ name ∷ []) item ≡ get name r.before)
entry_before continue names name item item1 r =
    let split = value_at-append names (name ∷ []) item in
    elim (Option-cases (value_at names item)) [
      | inl e ↦ inl (split ∙ ap (λ o. onward o (name ∷ [])) e)
      | inr (v, e) ↦
          inr (split ∙ ap (λ o. onward o (name ∷ [])) e ∙ value_at-one name v r.before (r.was v e))
    ]

inserted_value :
    (d d1 : TomlDocument) (key : TomlKey) (value : TomlValueItem) (before : List Text) (name : Text)
    (root1 : TomlValueItem)
    → key.parts ≡ before ++ name ∷ []
    → d1 ≡ record d { root = root1 }
    → mk_prefix_items d.root (header_parts d.selection ++ before) false (added name value)
      ≡ ok root1
    → let path = header_parts d.selection ++ key.parts in
      (value_at path d.root ≡ none) × (value_at path d1.root ≡ some value)
inserted_value d d1 key value before name root1 parts same made =
    let names = header_parts d.selection ++ before in
    let r = mk_prefix_items-Reaches d.root root1 names false (added name value) made in
    let (free, put_there) = added_ok name value r.before r.after r.continued in
    let path : header_parts d.selection ++ key.parts ≡ names ++ name ∷ [] =
      ap (λ l. header_parts d.selection ++ l) parts
      ∙ sym (append_assoc (header_parts d.selection) before (name ∷ [])) in
    (
      ap (λ l. value_at l d.root) path
          ∙ elim (entry_before (added name value) names name d.root root1 r) [
            | inl e ↦ e
            | inr e ↦ e ∙ free
          ],
      ap (λ e. value_at (header_parts d.selection ++ key.parts) e.root) same
          ∙ ap (λ l. value_at l root1) path
          ∙ reached_entry (added name value) names name d.root root1 r
          ∙ ap (get name) put_there
          ∙ get-put name value r.before,
    )

-- A value that could be inserted is found behind the parts of the header and of its key, where
-- nothing was found before.
pub value_at-insert :
    (d d1 : TomlDocument) (key : TomlKey) (value : TomlValueItem)
    → insert d key value ≡ ok d1
    → let path = header_parts d.selection ++ key.parts in
      (value_at path d.root ≡ none) × (value_at path d1.root ≡ some value)
unfolding insert insert_item
value_at-insert d d1 key value h =
    let (root1, inserted, same) = bind_ok (insert_item d.root d.selection key value) _ d1 h in
    let (before, known, rest) = bind_ok (prefix key) _ root1 inserted in
    let (name, named, made) = bind_ok (main_part key) _ root1 rest in
    inserted_value d d1 key value before name root1 (parts_split key.parts before name known named)
      (ok-injective same) made
