-- ===== src/Collections/Defaults.antt =====
-- src/collections.rs, MapWithDefault and VecWithDefault: collections with an element that stands in
-- where there is no other.
use coaly.Prelude.{Option, none, some, List, [], ◌∷◌, ◌++◌, if◌then◌else◌}
use coaly.Prelude.Texts.{Text, TextMap, insert, same_text}

pub record MapWithDefault {ℓ} (A : Type ℓ) : Type ℓ where
  pub default_element : A
  pub custom_elements : TextMap A

pub record VecWithDefault {ℓ} (A : Type ℓ) : Type ℓ where
  pub default_element : A
  pub custom_elements : List A

module _ {ℓ} {A : Type ℓ} where
  abbrev pub element_or : A → TextMap A → Text → A
  element_or d [] name = d
  element_or d ((key, a) ∷ elements) name =
      if same_text name key then a else element_or d elements name

  unfoldable pub get_element : MapWithDefault A → Text → A
  get_element m name = element_or m.default_element m.custom_elements name

  unfoldable pub find_element : MapWithDefault A → Option Text → A
  unfolding get_element
  find_element m none = m.default_element
  find_element m (some name) = get_element m name

  unfoldable pub insert_element : MapWithDefault A → Text → A → MapWithDefault A
  unfolding insert
  insert_element m name a = record m { custom_elements = insert name a m.custom_elements }

  unfoldable pub elements : VecWithDefault A → List A
  elements v = elim v.custom_elements [ [] ↦ v.default_element ∷ [] | a ∷ others ↦ a ∷ others ]

  abbrev pub push_element : VecWithDefault A → A → VecWithDefault A
  push_element v a = record v { custom_elements = v.custom_elements ++ a ∷ [] }
