-- ===== src/Observer.antt =====
-- src/observer.rs: the descriptors of functions, modules and objects that are observed, and the
-- counter of their IDs.
use coaly.Prelude.{ℕ, ◌+◌, ◌%◌, ◌^◌, Option, none, List}

-- The bytes of a text.
abbrev pub Text : Type 0
Text = List ℕ

pub data ObserverKind : Type 0 where
  function modul object : ObserverKind

unfoldable pub kind_value : ObserverKind → ℕ
kind_value function = 0b000100000000
kind_value modul = 0b001000000000
kind_value object = 0b010000000000

pub record ObserverData : Type 0 where
  pub id : ℕ
  pub name : Text
  pub file_name : Text
  pub kind : ObserverKind
  pub value : Option Text

-- `CURR_OBSERVER_ID.fetch_add(1)`: the ID that is used, and the new counter, which wraps.
abbrev pub next_id : ℕ → ℕ
next_id current = (current + 1) % 2 ^ 64

-- The constructors return the descriptor and the new counter.
unfoldable pub for_fn : ℕ → Text → Option Text → Text → ObserverData × ℕ
for_fn current name args file_name = (
  record { id = current; name = name; file_name = file_name; kind = function; value = args },
  next_id current,
)

unfoldable pub for_mod : ℕ → Text → Text → ObserverData × ℕ
for_mod current name file_name = (
  record { id = current; name = name; file_name = file_name; kind = modul; value = none },
  next_id current,
)

unfoldable pub for_obj : ℕ → Text → Option Text → Text → ObserverData × ℕ
for_obj current name value file_name = (
  record { id = current; name = name; file_name = file_name; kind = object; value = value },
  next_id current,
)
