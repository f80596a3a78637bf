-- ===== src/Rollover.antt =====
-- src/output/resource/rollover.rs: the archiving of an output file, with the feature `compression`.
-- The directory of the files maps names to contents. What the operating system refuses, what the
-- compression libraries make of a text, and the regular expression for the names are parameters.
pub mod Names
pub mod Lists
pub mod Dated
pub mod Shifts
pub mod Archives
use coaly.Prelude.{
  ℕ, zero, suc, ◌+◌, ◌-◌, ◌*◌, ◌/◌, ◌%◌, ◌^◌, ◌==◌, ◌||◌, ◌&&◌, min, ltb, leb, Bool, true, false,
  not, Option, none, some, List, [], ◌∷◌, ◌++◌, length, take, drop, get_elem?, if◌then◌else◌,
}
use coaly.Prelude.Texts.{Text, same_text, text_lt}
use coaly.Datetime.Names.{number_from_str}
use coaly.Policies.{CompressionAlgorithm, file_extension}

abbrev pub Directory : Type 0
Directory = Text → Option Text

-- A change of one name of the directory.
abbrev pub with_file : Text → Option Text → Directory → Directory
with_file name content d = λ x. if same_text x name then content else d x

-- The outcome of an operation on files: the directory, and whether it failed, with the name and
-- the directory shown.
pub data Done {ℓ} (A : Type ℓ) : Type ℓ where
  ok : A → Directory → Done A
  failed : Text → Directory → Done A
  panicked : Done A

infixl 1 ◌>>=◌
abbrev pub ◌>>=◌ {ℓ κ} : {A : Type ℓ} {B : Type κ} → Done A → (A → Directory → Done B) → Done B
ok a d >>= f = f a d
failed e d >>= f = failed e d
panicked >>= f = panicked

-- What the program cannot see: which files the system refuses to rename, to remove or to create, and the compressed form of a content, if the library succeeds.
pub record System : Type 0 where
  pub refuses : Text → Bool
  pub encode : CompressionAlgorithm → Text → Text → Option Text

pub record AssociatedResFile : Type 0 where
  pub stem : Text
  pub ext : Text
  pub seq_nr : ℕ
  pub active_flag : Bool
  pub date_time_flag : Bool
  pub compr_ext : Text

-- The decimal digits of a number, of which it has no more than the first argument.
unfoldable pub digits : ℕ → ℕ → Text
digits zero n = []
digits (suc more) n =
    if ltb n 10 then (b'0' + n) ∷ [] else digits more (n / 10) ++ (b'0' + n % 10) ∷ []

-- A point and a number of 64 bits, which has at most twenty digits.
abbrev pub dot_number : ℕ → Text
dot_number n = b'.' ∷ digits 20 n

unfoldable pub file_name : AssociatedResFile → Text
unfolding digits
file_name f = f.stem ++ (if ltb 0 f.seq_nr then dot_number f.seq_nr else []) ++ f.ext

-- The number overflows where it is the largest one.
unfoldable pub shifted_file_name : AssociatedResFile → Text
unfolding digits
shifted_file_name f = f.stem ++ dot_number ((f.seq_nr + 1) % 2 ^ 64) ++ f.compr_ext

-- The groups that the pattern for the names captures: the stem, which is always there, the point
-- with the number, and the extension.
pub record Groups : Type 0 where
  pub stem : Text
  pub number : Option Text
  pub ext : Option Text

abbrev or_empty : Option Text → Text
or_empty none = []
or_empty (some t) = t

-- `usize::from_str_radix` of what follows the point.
abbrev sequence_number : Option Text → Option ℕ
sequence_number none = some 0
sequence_number (some group) = number_from_str (2 ^ 64) (drop 1 group)

-- Without a number that fits the program panics.
unfoldable pub new_file : Groups → Bool → Bool → Text → Option AssociatedResFile
unfolding number_from_str
new_file g active date_time compr = elim (sequence_number g.number) [
  | none ↦ none
  | some n ↦ some (record {
    stem = g.stem;
    ext = or_empty g.ext;
    seq_nr = n;
    active_flag = active;
    date_time_flag = date_time;
    compr_ext = compr;
  })
]

-- `Ord`: the active file first, then later stems before earlier ones, then by numbers.
unfoldable pub comes_before : AssociatedResFile → AssociatedResFile → Bool
unfolding text_lt
comes_before f g =
    if f.active_flag && not g.active_flag
    then true
    else if g.active_flag && not f.active_flag
    then false
    else if text_lt g.stem f.stem
    then true
    else if text_lt f.stem g.stem
    then false
    else ltb f.seq_nr g.seq_nr

-- `sort` keeps the order of equal elements.
abbrev place : AssociatedResFile → List AssociatedResFile → List AssociatedResFile
place f [] = f ∷ []
place f (g ∷ gs) = if comes_before g f then g ∷ place f gs else f ∷ g ∷ gs

unfoldable pub sort : List AssociatedResFile → List AssociatedResFile
unfolding comes_before
sort [] = []
sort (f ∷ fs) = place f (sort fs)

-- The files of the names that match, where no number is too large.
unfoldable pub described :
    (Text → Option Groups) → Text → Bool → Text → List Text → Option (List AssociatedResFile)
unfolding new_file
described captures current date_time compr [] = some []
described captures current date_time compr (name ∷ names) =
    let rest = described captures current date_time compr names in
    elim (captures name) [
      | none ↦ rest
      | some g ↦ elim (new_file g (same_text name current) date_time compr) [
        | none ↦ none
        | some f ↦ elim rest [ none ↦ none | some fs ↦ some (f ∷ fs) ]
      ]
    ]

-- The names of the directory are an argument, or it cannot be read.
unfoldable pub find_resource_files :
    (Text → Option Groups)
    → Text
    → Bool
    → Text
    → Option (List Text)
    → Directory
    → Done (List AssociatedResFile)
unfolding described sort
find_resource_files captures current date_time compr none d = failed current d
find_resource_files captures current date_time compr (some names) d =
    elim (described captures current date_time compr names) [
      | none ↦ panicked
      | some files ↦ ok (sort files) d
    ]

abbrev pub reversed : List AssociatedResFile → List AssociatedResFile
reversed [] = []
reversed (f ∷ fs) = reversed fs ++ f ∷ []

module _ (system : System) where
  -- `std::fs::rename` and `std::fs::remove_file`
  abbrev pub rename : Text → Text → Directory → Option Directory
  rename old new d = elim (d old) [
    | none ↦ none
    | some content ↦
        if system.refuses old
        then none
        else some (with_file new (some content) (with_file old none d))
  ]

  abbrev pub remove_file : Text → Directory → Option Directory
  remove_file name d = elim (d name) [
    | none ↦ none
    | some content ↦ if system.refuses name then none else some (with_file name none d)
  ]

  abbrev pub or_failed : Text → Directory → Option Directory → Done (Unit {0})
  or_failed name d none = failed name d
  or_failed name d (some d1) = ok tt d1

  -- A file whose name depends on the time keeps its name, unless its stem is the one compared.
  abbrev skipped : ℕ → Text → List AssociatedResFile → ℕ → AssociatedResFile → Option Bool
  skipped file_count new_name files i f =
      if not f.date_time_flag
      then some false
      else if i + 1 == file_count
      then some (not (same_text new_name f.stem))
      else elim (get_elem? files (i + 1)) [
        | none ↦ none
        | some g ↦ some (not (same_text g.stem f.stem))
      ]

  -- The loop over the files from the last one on, with the number of turns made.
  unfoldable pub shift_loop :
      Text → List AssociatedResFile → ℕ → List AssociatedResFile → Directory → Done (Unit {0})
  unfolding file_name shifted_file_name
  shift_loop new_name files i [] d = ok tt d
  shift_loop new_name files i (f ∷ fs) d = elim (skipped (length files) new_name files i f) [
    | none ↦ panicked
    | some true ↦ shift_loop new_name files (i + 1) fs d
    | some false ↦
        or_failed (file_name f) d (rename (file_name f) (shifted_file_name f) d) >>= λ u d1.
        shift_loop new_name files (i + 1) fs d1
  ]

  unfoldable pub shift_rollover_files : Text → List AssociatedResFile → Directory → Done (Unit {0})
  unfolding shift_loop
  shift_rollover_files new_name files d = shift_loop new_name files 0 (reversed (drop 1 files)) d

  -- The loop of `remove_rollover_files` over the files behind those that are kept.
  unfoldable pub remove_loop : List AssociatedResFile → Directory → Done (Unit {0})
  unfolding file_name
  remove_loop [] d = ok tt d
  remove_loop (f ∷ fs) d =
      or_failed (file_name f) d (remove_file (file_name f) d) >>= λ u d1. remove_loop fs d1

  unfoldable pub remove_rollover_files :
      List AssociatedResFile → ℕ → Directory → Done (List AssociatedResFile)
  unfolding remove_loop
  remove_rollover_files files keep_count d =
      remove_loop (drop keep_count files) d >>= λ u d1. ok (take keep_count files) d1

  -- A compressed file is created empty, and filled if the active file can be read and compressed.
  abbrev compress : CompressionAlgorithm → Text → Text → Directory → Done (Unit {0})
  compress algorithm active archive d =
      if system.refuses archive
      then failed active d
      else let d1 = with_file archive (some []) d in
        elim (d1 active) [
          | none ↦ failed active d1
          | some content ↦ elim (system.encode algorithm active content) [
            | none ↦ failed active d1
            | some encoded ↦
                let d2 = with_file archive (some encoded) d1 in
                ok tt (elim (remove_file active d2) [ none ↦ d2 | some d3 ↦ d3 ])
          ]
        ]

  unfoldable pub archive_active_file :
      CompressionAlgorithm → Text → Text → Directory → Done (Unit {0})
  archive_active_file CompressionAlgorithm.no_compression active archive d =
      or_failed active d (rename active archive d)
  archive_active_file algorithm active archive d = compress algorithm active archive d

  -- The name of the archive; without files the program panics.
  abbrev archive_name : Text → Text → CompressionAlgorithm → List AssociatedResFile → Option Text
  archive_name active new_name algorithm files =
      if same_text active new_name
      then elim files [ [] ↦ none | f ∷ fs ↦ some (shifted_file_name f) ]
      else some (active ++ file_extension algorithm)

  -- What follows the search for the files.
  unfoldable pub archive_found :
      Text → Text → ℕ → CompressionAlgorithm → List AssociatedResFile → Directory → Done (Unit {0})
  unfolding remove_rollover_files shift_rollover_files archive_active_file shifted_file_name
  archive_found active new_name keep_count algorithm [] d = ok tt d
  archive_found active new_name keep_count algorithm (f ∷ fs) d =
      remove_rollover_files (f ∷ fs) keep_count d >>= λ files d1.
      shift_rollover_files new_name files d1 >>= λ u d2.
      elim (archive_name active new_name algorithm files) [
        | none ↦ panicked
        | some archive ↦ archive_active_file algorithm active archive d2
      ]

  -- The pattern for the names is missing where the name specification has none.
  unfoldable pub archive_resource :
      Option (Text → Option Groups)
      → Option (List Text)
      → Bool
      → Text
      → Text
      → ℕ
      → CompressionAlgorithm
      → Directory
      → Done (Unit {0})
  unfolding find_resource_files archive_found
  archive_resource none names date_time active new_name keep_count algorithm d = failed active d
  archive_resource (some captures) names date_time active new_name keep_count algorithm d =
      find_resource_files captures active date_time (file_extension algorithm) names d
      >>= λ files d1. archive_found active new_name keep_count algorithm files d1
