-- ===== src/Config.antt =====
-- src/config/mod.rs: what the configuration makes of the values of a parsed document, with the
-- warnings that it collects. What the regular expressions, the file system, and the conversions
-- of floats and of the crate chrono give are parameters.
pub mod Buffers
pub mod Resources
pub mod Returns
pub mod Limits
pub mod Leaks
pub mod Panics
use coaly.Prelude.{
  ℕ, ◌+◌, ◌-◌, ◌^◌, ◌%◌, ◌==◌, ◌&&◌, ◌||◌, leb, ltb, Bool, true, false, not, Option, none, some,
  List, [], ◌∷◌, ◌++◌, drop, length, if◌then◌else◌,
}
use Prim.Native.Nat.{bit_or}
use coaly.Prelude.Texts.{codes, Text, same_text}
use coaly.Scanner.{TokenValueType}
use coaly.Document.{
  TomlValueItem, value_item, TomlValue, simple, array, table, TomlArray, no_items, ◌⨾◌, TomlTable,
}
use coaly.Parser.Conversions.{starts_with, digits_value}
use coaly.Datetime.Names.{alternative, valid, Configured}
use coaly.Policies.{BufferFlushCondition, flush_value, flush_from_str, size_value}
use coaly.Record.{RecordLevelId, level_value}
use coaly.Rollover.{digits}

pub data MessageCode : Type 0 where
  key_not_a_string key_not_a_table key_not_an_array : MessageCode
  num_required inv_size_spec : MessageCode
  inv_buf_flush_condition dup_buf_flush_condition inv_lvl_ref dup_lvl : MessageCode
  inv_buffer_attr inv_or_missing_buf_flush_spec missing_buf_cont_size : MessageCode
  missing_buf_index_size reclen_exceeds_size : MessageCode
  inv_resources_hdr inv_res_kind inv_res_attr inv_res_spec res_fn_missing : MessageCode
  file_size_missing meaningless_res_par inv_res_url : MessageCode

-- A warning with the number of the line and the texts that it shows.
pub record CoalyException : Type 0 where
  pub code : MessageCode
  pub line_nr : ℕ
  pub args : List Text

-- What a function reads and the warnings, which it appends to those before; nothing if it panics.
abbrev pub Reads {ℓ} : Type ℓ → Type ℓ
Reads A = List CoalyException → Option (A × List CoalyException)

abbrev pub read_on {ℓ κ} :
    {A : Type ℓ} {B : Type κ}
    → (A → Reads B)
    → Option (A × List CoalyException)
    → Option (B × List CoalyException)
read_on f none = none
read_on f (some (a, msgs)) = f a msgs

infixl 1 ◌>>=◌ ◌>>◌
abbrev pub ◌>>=◌ {ℓ κ} : {A : Type ℓ} {B : Type κ} → Reads A → (A → Reads B) → Reads B
(m >>= f) msgs = read_on f (m msgs)

abbrev pub ◌>>◌ {ℓ} : {B : Type ℓ} → Reads (Unit {0}) → Reads B → Reads B
m >> k = m >>= λ _. k

abbrev pub value {ℓ} : {A : Type ℓ} → A → Reads A
value a msgs = some (a, msgs)

abbrev pub warn : MessageCode → ℕ → List Text → Reads (Unit {0})
warn code line_nr args msgs =
    some (tt, msgs ++ (record { code = code; line_nr = line_nr; args = args }) ∷ [])

abbrev pub panics {ℓ} : {A : Type ℓ} → Reads A
panics msgs = none

-- `unwrap`
abbrev pub unwrapped {ℓ} : {A : Type ℓ} → Option A → Reads A
unwrapped none = panics
unwrapped (some a) = value a

-- `if let Some(a) = o`, with what follows where there is nothing first.
abbrev pub if_given {ℓ κ} : {A : Type ℓ} {B : Type κ} → Option A → Reads B → (A → Reads B) → Reads B
if_given none other continue = other
if_given (some a) other continue = continue a

-- What the program does not compute itself: the conversion of a float to `isize`, as `usize`, how
-- a value that is no text and no integer is shown, and what the patterns capture or match.
pub record Library : Type 0 where
  pub float_as_isize : Text → ℕ
  pub display : TokenValueType → Text → Text
  pub is_size : Text → Bool
  pub ip4_addr : Text → Option Text
  pub ip6_addr : Text → Option Text
  pub unix_path : Text → Option Text
  pub is_socket_addr : Text → Bool
  pub is_file : Text → Bool

-- A number of 64 bits as decimal digits.
unfoldable pub number_text : ℕ → Text
unfolding digits
number_text n = digits 20 n

abbrev pub item_value : TomlValueItem → TomlValue
item_value (value_item v line_nr flag) = v

abbrev pub item_line : TomlValueItem → ℕ
item_line (value_item v line_nr flag) = line_nr

abbrev negated : Option ℕ → Option ℕ
negated none = none
negated (some n) = some ((2 ^ 64 - n) % 2 ^ 64)

abbrev signed_value : ℕ → Text → Option ℕ
unfolding digits_value
signed_value radix [] = none
signed_value radix (c ∷ cs) =
    if c == b'-'
    then negated (digits_value radix 0 cs)
    else if c == b'+'
    then digits_value radix 0 cs
    else digits_value radix 0 (c ∷ cs)

-- The integer of a token, as `usize`.
unfoldable pub int_value : Text → Option ℕ
unfolding signed_value
int_value text =
    if starts_with (codes "0b") text
    then signed_value 2 (drop 2 text)
    else if starts_with (codes "0o") text
    then signed_value 8 (drop 2 text)
    else if starts_with (codes "0x") text
    then signed_value 16 (drop 2 text)
    else signed_value 10 text

abbrev int_text : Option ℕ → Option Text
unfolding number_text
int_text none = none
int_text (some n) = some (if ltb n (2 ^ 63) then number_text n else b'-' ∷ number_text (2 ^ 64 - n))

abbrev pub dotted : Text → Text → Text
dotted parent_key key = parent_key ++ b'.' ∷ key

abbrev pub not_table_item : TomlValueItem → Text → Reads Bool
not_table_item (value_item (table t) line_nr flag) name = value false
not_table_item (value_item v line_nr flag) name = do
  warn key_not_a_table line_nr (name ∷ [])
  value true

abbrev pub string_of : TomlValue → Option Text
string_of (simple TokenValueType.string t) = some t
string_of v = none

abbrev pub array_of : TomlValue → Option TomlArray
array_of (array items) = some items
array_of v = none

-- The text where `str_par` is true, which its callers then read from the item.
abbrev pub str_par : TomlValueItem → Text → Text → Reads (Option Text)
str_par item key parent_key =
    if_given (string_of (item_value item))
      (do warn key_not_a_string (item_line item) (dotted parent_key key ∷ []); value none)
      λ t. value (some t)

-- `child_items`, of a table.
abbrev pub child_items : TomlValueItem → Option TomlTable
child_items (value_item (table t) line_nr flag) = some t
child_items item = none

module _ (lib : Library) where
  unfoldable pub as_integer : TomlValue → Option ℕ
  unfolding int_value
  as_integer (simple TokenValueType.integer t) = int_value t
  as_integer (simple TokenValueType.float t) = some (lib.float_as_isize t)
  as_integer v = none

  unfoldable pub as_str : TomlValue → Option Text
  unfolding int_value int_text
  as_str (simple TokenValueType.string t) = some t
  as_str (simple TokenValueType.boolean t) = some t
  as_str (simple TokenValueType.integer t) = int_text (int_value t)
  as_str (simple type t) = some (lib.display type t)
  as_str v = none

  abbrev pub limits_text : Text → ℕ → ℕ → ℕ → List Text
  unfolding number_text
  limits_text full_key min max default =
      full_key ∷ number_text min ∷ number_text max ∷ number_text default ∷ []

  -- The number where `int_par` is true, which its callers then read from the item.
  unfoldable pub int_par : TomlValueItem → Text → Text → ℕ → ℕ → ℕ → Reads (Option ℕ)
  unfolding as_integer limits_text
  int_par item key parent_key min max default =
      let refuse : Reads (Option ℕ) = do
        warn num_required (item_line item) (limits_text (dotted parent_key key) min max default)
        value none
      in if_given (as_integer (item_value item)) refuse
        λ n. if leb min n && leb n max then value (some n) else refuse

  -- The numbers wrap at 64 bits, as they do where the program is built without overflow checks.
  unfoldable pub size_par : TomlValueItem → Text → Text → ℕ → ℕ → ℕ → Reads (Option ℕ)
  unfolding as_str limits_text number_text size_value
  size_par item key parent_key min max default =
      let full_key = dotted parent_key key in
      let refuse : Reads (Option ℕ) = do
        warn num_required (item_line item) (limits_text full_key min max default)
        value none
      in if_given (as_str (item_value item))
        (do warn key_not_a_string (item_line item) (full_key ∷ []); value none)
        λ s.
          if not (lib.is_size s)
          then (do
            warn inv_size_spec (item_line item) (s ∷ full_key ∷ number_text default ∷ [])
            value none)
          else if ltb (length (number_text max)) (length s)
          then refuse
          else if leb min (size_value 0 s) && leb (size_value 0 s) max
          then value (some (size_value 0 s))
          else refuse

-- The words of an array that each stand for bits, and the warnings about them.
pub record Words : Type 0 where
  pub bits_of : Text → Option ℕ
  pub invalid : MessageCode
  pub duplicate : MessageCode

abbrev pub contains : ℕ → List ℕ → Bool
contains n [] = false
contains n (m ∷ ms) = (m == n) || contains n ms

module _ (words : Words) (key parent_key item_key : Text) where
  -- `defined` holds the bits of the words so far.
  unfoldable pub words_loop : TomlArray → ℕ → List ℕ → Reads ℕ
  words_loop no_items bit_mask defined = value bit_mask
  words_loop (item ⨾ items) bit_mask defined = do
    word ← str_par item key parent_key
    if_given word (words_loop items bit_mask defined) λ name.
        if_given (words.bits_of name)
          (do
            warn words.invalid (item_line item) (name ∷ item_key ∷ [])
            words_loop items bit_mask defined)
          λ bits.
            if contains bits defined
            then (do
              warn words.duplicate (item_line item) (name ∷ item_key ∷ [])
              words_loop items bit_mask defined)
            else words_loop items (bit_or bit_mask bits) (bits ∷ defined)

  unfoldable pub read_words : TomlValueItem → Reads (Option ℕ)
  unfolding words_loop
  read_words item =
      if_given (string_of (item_value item))
        (if_given (array_of (item_value item))
          (do warn key_not_an_array (item_line item) (dotted parent_key key ∷ []); value none)
          λ items. do bit_mask ← words_loop items 0 []; value (some bit_mask))
        λ s.
          if_given (words.bits_of s)
            (do warn words.invalid (item_line item) (s ∷ dotted parent_key key ∷ []); value none)
            λ bits. value (some bits)

abbrev flush_bits : Configured BufferFlushCondition → Option ℕ
flush_bits (valid cond) = some (flush_value cond)
flush_bits other = none

unfoldable pub flush_words : Words
unfolding flush_from_str
flush_words = record {
  bits_of = λ s. flush_bits (flush_from_str s);
  invalid = inv_buf_flush_condition;
  duplicate = dup_buf_flush_condition;
}

unfoldable pub read_flush_array : TomlValueItem → Text → Text → Reads (Option ℕ)
unfolding read_words flush_words
read_flush_array item key parent_key = read_words flush_words key parent_key parent_key item

abbrev pub level_bits : Option RecordLevelId → Option ℕ
unfolding level_value
level_bits none = none
level_bits (some l) = some (level_value l)

-- `from_str` of the record levels.
abbrev pub level_from_str : Text → Option RecordLevelId
level_from_str s = alternative s (
    (codes "emergency", RecordLevelId.emergency)
    ∷ (codes "alert", RecordLevelId.alert)
    ∷ (codes "critical", RecordLevelId.critical)
    ∷ (codes "error", RecordLevelId.error)
    ∷ (codes "warning", RecordLevelId.warning)
    ∷ (codes "notice", RecordLevelId.notice)
    ∷ (codes "info", RecordLevelId.info)
    ∷ (codes "debug", RecordLevelId.debug)
    ∷ (codes "function", RecordLevelId.function)
    ∷ (codes "module", RecordLevelId.modul)
    ∷ (codes "object", RecordLevelId.object)
    ∷ (codes "logs", RecordLevelId.logs)
    ∷ (codes "problems", RecordLevelId.problems)
    ∷ (codes "traces", RecordLevelId.traces)
    ∷ (codes "units", RecordLevelId.units)
    ∷ (codes "all", RecordLevelId.all)
    ∷ [])

unfoldable pub level_words : Words
unfolding level_bits
level_words = record {
  bits_of = λ s. level_bits (level_from_str s);
  invalid = inv_lvl_ref;
  duplicate = dup_lvl;
}

unfoldable pub read_levels_array : TomlValueItem → Text → Text → Reads (Option ℕ)
unfolding read_words level_words
read_levels_array item key parent_key =
    read_words level_words key parent_key (dotted parent_key key) item
