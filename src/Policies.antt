-- ===== src/Policies.antt =====
-- src/policies.rs and src/util.rs, parse_size_str: policies for buffers and for rollover, with
-- the conditions that a text of the configuration describes.
pub mod Sizes
pub mod Conditions
use coaly.Prelude.{
  ℕ, ◌+◌, ◌-◌, ◌*◌, ◌%◌, ◌^◌, ◌==◌, ◌||◌, Bool, true, false, Option, none, some, List, [], ◌∷◌,
  in_range, if◌then◌else◌,
}
use Prim.Native.Nat.{bit_or}
use coaly.Prelude.Texts.{codes, Text, same_text}
use coaly.Datetime.{TimeSpan, TimeSpanUnit, TimeStampAnchor, Interval, anchored, unanchored}
use coaly.Datetime.Names.{
  alternative, unit_from_str, u32_from_str, Warning, inv_rovr_file_size, inv_num_in_intvl,
  inv_unit_in_intvl, inv_rover_cond_pattern, unknown_buf_flush_condition, unknown_compr_algo,
  Configured, valid, warned, panicked, Pattern, Captures, captured, if_some, for_unit,
}

abbrev pub def_buffer_cont_size : ℕ
def_buffer_cont_size = 8 * 1024 * 1024

abbrev pub def_buffer_index_size : ℕ
def_buffer_index_size = 1024 * 1024

abbrev pub def_max_rec_len : ℕ
def_max_rec_len = 4096

abbrev pub def_file_size : ℕ
def_file_size = 20 * 1024 * 1024

pub data BufferFlushCondition : Type 0 where
  error : BufferFlushCondition
  warning : BufferFlushCondition
  full : BufferFlushCondition
  rollover : BufferFlushCondition
  exit : BufferFlushCondition

abbrev pub flush_value : BufferFlushCondition → ℕ
flush_value BufferFlushCondition.error = 1
flush_value BufferFlushCondition.warning = 2
flush_value BufferFlushCondition.full = 4
flush_value BufferFlushCondition.rollover = 8
flush_value BufferFlushCondition.exit = 16

abbrev pub flush_name : BufferFlushCondition → Text
flush_name BufferFlushCondition.error = codes "error"
flush_name BufferFlushCondition.warning = codes "warning"
flush_name BufferFlushCondition.full = codes "full"
flush_name BufferFlushCondition.rollover = codes "rollover"
flush_name BufferFlushCondition.exit = codes "exit"

-- The value, or a warning.
abbrev or_warning {ℓ} : {A : Type ℓ} → Warning → Text → Option A → Configured A
or_warning w s none = warned w s
or_warning w s (some a) = valid a

unfoldable pub flush_from_str : Text → Configured BufferFlushCondition
flush_from_str s = or_warning unknown_buf_flush_condition s (
    alternative s (
      ([], BufferFlushCondition.error)
      ∷ (codes "error", BufferFlushCondition.error)
      ∷ (codes "warning", BufferFlushCondition.warning)
      ∷ (codes "full", BufferFlushCondition.full)
      ∷ (codes "rollover", BufferFlushCondition.rollover)
      ∷ (codes "exit", BufferFlushCondition.exit)
      ∷ []))

pub record BufferPolicy : Type 0 where
  pub name : Text
  pub content_size : ℕ
  pub index_size : ℕ
  pub flush_conditions : ℕ
  pub max_record_length : ℕ

abbrev pub default_flush_conditions : ℕ
default_flush_conditions =
    bit_or (flush_value BufferFlushCondition.error) (flush_value BufferFlushCondition.exit)

abbrev default_policy_name : Text
default_policy_name = codes "default"

unfoldable pub default_buffer_policy : BufferPolicy
default_buffer_policy = record {
  name = default_policy_name;
  content_size = def_buffer_cont_size;
  index_size = def_buffer_index_size;
  flush_conditions = default_flush_conditions;
  max_record_length = def_max_rec_len;
}

pub data CompressionAlgorithm : Type 0 where
  no_compression : CompressionAlgorithm
  bzip2 : CompressionAlgorithm
  gzip : CompressionAlgorithm
  lzma : CompressionAlgorithm
  zip : CompressionAlgorithm

abbrev pub algorithm_name : CompressionAlgorithm → Text
algorithm_name CompressionAlgorithm.no_compression = codes "none"
algorithm_name CompressionAlgorithm.bzip2 = codes "bzip2"
algorithm_name CompressionAlgorithm.gzip = codes "gzip"
algorithm_name CompressionAlgorithm.lzma = codes "lzma"
algorithm_name CompressionAlgorithm.zip = codes "zip"

-- Where the system is not Windows.
abbrev pub file_extension : CompressionAlgorithm → Text
file_extension CompressionAlgorithm.no_compression = []
file_extension CompressionAlgorithm.bzip2 = codes ".bz2"
file_extension CompressionAlgorithm.gzip = codes ".gz"
file_extension CompressionAlgorithm.lzma = codes ".xz"
file_extension CompressionAlgorithm.zip = codes ".zip"

unfoldable pub algorithm_from_str : Text → Configured CompressionAlgorithm
algorithm_from_str s = or_warning unknown_compr_algo s (
    alternative s (
      ([], CompressionAlgorithm.no_compression)
      ∷ (codes "none", CompressionAlgorithm.no_compression)
      ∷ (codes "bzip2", CompressionAlgorithm.bzip2)
      ∷ (codes "gzip", CompressionAlgorithm.gzip)
      ∷ (codes "lzma", CompressionAlgorithm.lzma)
      ∷ (codes "zip", CompressionAlgorithm.zip)
      ∷ []))

pub data RolloverCondition : Type 0 where
  size_reached : ℕ → RolloverCondition
  time_elapsed : Interval → RolloverCondition
  never : RolloverCondition

pub record RolloverPolicy : Type 0 where
  pub name : Text
  pub condition : RolloverCondition
  pub keep_count : ℕ
  pub compression : CompressionAlgorithm

unfoldable pub default_rollover_policy : RolloverPolicy
default_rollover_policy = record {
  name = default_policy_name;
  condition = size_reached def_file_size;
  keep_count = 9;
  compression = CompressionAlgorithm.no_compression;
}

-- The loop of `parse_size_str`, in numbers of 64 bits.
abbrev pub size_char : ℕ → ℕ → ℕ
size_char num ch =
    if in_range b'0' b'9' ch
    then (num * 10 % 2 ^ 64 + (ch - b'0')) % 2 ^ 64
    else if (ch == b'k') || (ch == b'K')
    then num * 1024 % 2 ^ 64
    else if (ch == b'm') || (ch == b'M')
    then num * (1024 * 1024) % 2 ^ 64
    else if (ch == b'g') || (ch == b'G')
    then num * (1024 * 1024 * 1024) % 2 ^ 64
    else num

unfoldable pub size_value : ℕ → Text → ℕ
size_value num [] = num
size_value num (ch ∷ chars) = size_value (size_char num ch) chars

abbrev never_text : Text
never_text = codes "never"

unfoldable pub parse_size_str : Captures → Text → Option ℕ
unfolding size_value
parse_size_str captures s = elim (captures Pattern.size_str s) [
  | none ↦ none
  | some get ↦ some (size_value 0 s)
]

module _ (to_lowercase trim : Text → Text) (captures : Captures) where
  -- The number of an interval, which is 1 where none is given.
  abbrev pub interval_value :
      Option Text → (ℕ → Configured RolloverCondition) → Configured RolloverCondition
  interval_value none continue = continue 1
  interval_value (some spec) continue =
      if_some (u32_from_str (trim spec)) (warned inv_num_in_intvl (trim spec)) continue

  abbrev pub interval_unit :
      Option Text → (TimeSpanUnit → Configured RolloverCondition) → Configured RolloverCondition
  interval_unit spec continue =
      captured spec λ s. if_some (unit_from_str s) (warned inv_unit_in_intvl s) continue

  abbrev pub with_anchor : TimeSpan → Configured TimeStampAnchor → Configured RolloverCondition
  with_anchor span (valid a) = valid (time_elapsed (anchored span a))
  with_anchor span (warned w s) = warned w s
  with_anchor span panicked = panicked

  abbrev pub size_condition : (ℕ → Option Text) → Configured RolloverCondition
  size_condition get = captured (get 1) λ size_def.
      if_some (parse_size_str captures size_def) (warned inv_rovr_file_size size_def)
        λ n. valid (size_reached n)

  abbrev pub interval_condition : (ℕ → Option Text) → Configured RolloverCondition
  interval_condition get = interval_value (get 1) λ n.
      interval_unit (get 2) λ u. valid (time_elapsed (unanchored (record { unit = u; value = n })))

  abbrev pub interval_at_condition : (ℕ → Option Text) → Configured RolloverCondition
  interval_at_condition get = interval_value (get 1) λ n. interval_unit (get 2) λ u.
      captured (get 3) λ anchor_spec.
        with_anchor (record { unit = u; value = n }) (for_unit captures anchor_spec u)

  -- The first pattern that matches decides.
  abbrev pub first_match :
      Option (ℕ → Option Text)
      → ((ℕ → Option Text) → Configured RolloverCondition)
      → Configured RolloverCondition
      → Configured RolloverCondition
  first_match none matched other = other
  first_match (some get) matched other = matched get

  unfoldable pub condition_from_str : Text → Configured RolloverCondition
  unfolding parse_size_str u32_from_str unit_from_str for_unit
  condition_from_str s =
      let cond_str = to_lowercase s in
      if same_text cond_str [] || same_text cond_str never_text
      then valid never
      else first_match (captures Pattern.rovr_cond_size cond_str) size_condition (
          first_match (captures Pattern.rovr_cond_intvl cond_str) interval_condition (
            first_match (captures Pattern.rovr_cond_intvl_at cond_str) interval_at_condition
              (warned inv_rover_cond_pattern s)))
