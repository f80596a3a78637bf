-- ===== src/Rollover/Dated.antt =====
-- Rollover files whose names depend on the time.
use coaly.Prelude.{ℕ, zero, suc, ◌≡◌, refl, Bool, true, false, none, some, List, [], ◌∷◌}
use coaly.Prelude.Texts.{Text, same_text, same_text_refl}
use coaly.Policies.{CompressionAlgorithm}
use coaly.Rollover.{
  Directory, with_file, ok, System, AssociatedResFile, remove_rollover_files, shift_rollover_files,
  archive_found, shift_loop, remove_loop,
}
use coaly.Rollover.Names.{slot}
use coaly.Rollover.Archives.{archived-active}

abbrev pub dated : Text → ℕ → Bool → AssociatedResFile
dated stem n active = record {
  stem = stem;
  ext = [];
  seq_nr = n;
  active_flag = active;
  date_time_flag = true;
  compr_ext = [];
}

module _ (system : System) (stem earlier : Text) (later_first : same_text stem earlier ≡ false)
    (earlier_first : same_text earlier stem ≡ false) where
  abbrev pub files_of_two_days : List AssociatedResFile
  files_of_two_days = dated stem 0 true ∷ dated stem 1 false ∷ dated earlier 0 false ∷ []

  not_shifted : (d : Directory) → shift_rollover_files system stem files_of_two_days d ≡ ok tt d
  unfolding shift_rollover_files shift_loop
  not_shifted d = rw (later_first) (rw (earlier_first) refl)

  removes_none :
      (keep_count : ℕ) (d : Directory)
      → remove_rollover_files system files_of_two_days (suc (suc (suc keep_count))) d
        ≡ ok files_of_two_days d
  unfolding remove_rollover_files remove_loop
  removes_none zero d = refl
  removes_none (suc keep_count) d = refl

  -- Where names depend on the time and have no extension, nothing is compressed, at least three
  -- files are kept, and there are exactly three files, the active file, its first rollover file and
  -- a file with another name, a rollover under the name of the active file does not rename the
  -- first rollover file, but puts the active file in its place, if the active file has a content
  -- and the system does not refuse it. What the first rollover file had is lost.
  pub archive_found-overwrites :
      (d : Directory) (keep_count : ℕ) (content : Text)
      → d stem ≡ some content
      → system.refuses stem ≡ false
      → archive_found system stem stem
          (suc (suc (suc keep_count)))
          CompressionAlgorithm.no_compression
          files_of_two_days
          d
        ≡ ok tt (with_file (slot stem [] 1) (some content) (with_file stem none d))
  unfolding archive_found
  archive_found-overwrites d keep_count content there allowed = rw (removes_none keep_count d) (
      rw (not_shifted d)
        (rw (same_text_refl stem) (archived-active stem system content d there allowed)))
