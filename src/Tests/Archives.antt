-- ===== src/Tests/Archives.antt =====
-- The rollover of src/output/resource/rollover.rs at concrete directories.
use coaly.Prelude.{
  ℕ, suc, ◌<◌, ◌^◌, ◌≡◌, refl, arith, false, Option, none, some, [], ◌∷◌, map, if◌then◌else◌,
}
use coaly.Prelude.Texts.{codes, Text, same_text}
use coaly.Policies.{CompressionAlgorithm}
use coaly.Rollover.{
  Directory, with_file, Done, ok, panicked, System, Groups, digits, archive_found, archive_resource,
}
use coaly.Rollover.Names.{slot}
use coaly.Rollover.Shifts.{numbered, Movable}
use coaly.Rollover.Archives.{active_file, Kept, archive_found-Kept}
use coaly.Rollover.Dated.{files_of_two_days, archive_found-overwrites}

-- A system that refuses nothing.
abbrev free : System
free = record { refuses = λ name. false; encode = λ algorithm name content. some content }

abbrev app : Text
app = codes "app"

abbrev contents : ℕ → Text
contents n = n ∷ []

-- The active file and three rollover files.
abbrev four_files : Directory
four_files name =
    if same_text name app
    then some (contents 0)
    else if same_text name (slot app [] 1)
    then some (contents 1)
    else if same_text name (slot app [] 2)
    then some (contents 2)
    else if same_text name (slot app [] 3)
    then some (contents 3)
    else none

movable :
    (n : ℕ)
    → suc n < 2 ^ 64
    → (c : Text) → four_files (slot app [] n) ≡ some c
    → Movable app [] free four_files n
movable n h c e = record { room = h; allowed = refl; content = c; exists = e }

one_there : four_files (slot app [] 1) ≡ some (contents 1)
unfolding digits
one_there = refl

two_there : four_files (slot app [] 2) ≡ some (contents 2)
unfolding digits
two_there = refl

three_there : four_files (slot app [] 3) ≡ some (contents 3)
unfolding digits
three_there = refl

archive_found-Kept_example :
    (d1 : Directory) × (archive_found free app app 3 CompressionAlgorithm.no_compression
        (active_file app free ∷ map (numbered app []) (1 ∷ 2 ∷ 3 ∷ []))
        four_files
      ≡ ok tt d1)
    × Kept app free (contents 0) 2 (1 ∷ 2 ∷ 3 ∷ []) four_files d1
archive_found-Kept_example =
    archive_found-Kept app free (contents 0) 2 (1 ∷ 2 ∷ 3 ∷ []) four_files
      (omega arith, (omega arith, (omega arith, tt)))
      (
        movable 1 (omega arith) (contents 1) one_there,
        (
          movable 2 (omega arith) (contents 2) two_there,
          (movable 3 (omega arith) (contents 3) three_there, tt),
        ),
      )
      refl refl

abbrev listed : Done (Unit {0}) → Text → Option (Option Text)
listed (ok u d) name = some (d name)
listed _ name = none

-- The third rollover file is the second one from before.
rolled_third :
    listed
      (archive_found free app app 4 CompressionAlgorithm.no_compression
        (active_file app free ∷ map (numbered app []) (1 ∷ 2 ∷ 3 ∷ []))
        four_files)
      (slot app [] 3)
    ≡ some (some (contents 2))
unfolding archive_found digits
rolled_third = refl

archive_found-overwrites_example :
    archive_found free app app 3 CompressionAlgorithm.no_compression
      (files_of_two_days free app (contents 7) refl refl)
      four_files
    ≡ ok tt (with_file (slot app [] 1) (some (contents 0)) (with_file app none four_files))
archive_found-overwrites_example =
    archive_found-overwrites free app (contents 7) refl refl four_files 0 (contents 0) refl refl

-- A file with a number that is too large, and a name that fits, makes the rollover panic.
abbrev large_groups : Text → Option Groups
large_groups name = some (record {
  stem = app;
  number = some (
      b'.'
      ∷ b'1'
      ∷ b'8'
      ∷ b'4'
      ∷ b'4'
      ∷ b'6'
      ∷ b'7'
      ∷ b'4'
      ∷ b'4'
      ∷ b'0'
      ∷ b'7'
      ∷ b'3'
      ∷ b'7'
      ∷ codes "09551616");
  ext = none;
})

large_panics :
    archive_resource free
      (some large_groups)
      (some (app ∷ []))
      false
      app
      app
      9
      CompressionAlgorithm.no_compression
      four_files
    ≡ panicked
unfolding archive_resource
large_panics = refl
