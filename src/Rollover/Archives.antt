-- ===== src/Rollover/Archives.antt =====
-- A rollover of files with numbers loses none but those beyond the keep count.
use coaly.Prelude.{
  ℕ, zero, suc, ◌^◌, ◌<◌, ◌≤◌, ◌≡◌, refl, ap, ◌∙◌, arith, true, false, none, some, List, [], ◌∷◌,
  map, take, drop, All,
}
use coaly.Prelude.Texts.{Text, same_text, same_text_refl}
use coaly.Policies.{CompressionAlgorithm}
use coaly.Rollover.{
  Directory, with_file, ok, System, AssociatedResFile, or_failed, remove_loop, remove_file,
  remove_rollover_files, archive_active_file, archive_found, rename,
}
use coaly.Rollover.Lists.{All-map, All-take, All-drop, All-both, map-take, map-drop}
use coaly.Rollover.Names.{slot-other, slot-stem, slot-longer}
use coaly.Rollover.Shifts.{
  numbered, name, file_name-numbered, Rises, Rises-All, Movable, Shifted,
  shift_rollover_files-Shifted,
}

module _ (stem : Text) where
  Rises-below :
      (below lower : ℕ) (ns : List ℕ)
      → lower ≤ below
      → Rises stem [] below ns
      → Rises stem [] lower ns
  Rises-below below lower [] h r = tt
  Rises-below below lower (n ∷ ns) h r = (omega (arith, r.0), r.1)

  Rises-drop :
      (below k : ℕ) (ns : List ℕ) → Rises stem [] below ns → Rises stem [] below (drop k ns)
  Rises-drop below zero ns r = r
  Rises-drop below (suc k) [] r = tt
  Rises-drop below (suc k) (n ∷ ns) r =
      Rises-drop below k ns (Rises-below n below ns (omega (arith, r.0)) r.1)

  Rises-take :
      (below k : ℕ) (ns : List ℕ) → Rises stem [] below ns → Rises stem [] below (take k ns)
  Rises-take below zero ns r = tt
  Rises-take below (suc k) [] r = tt
  Rises-take below (suc k) (n ∷ ns) r = (r.0, Rises-take n k ns r.1)

  -- The numbers behind those taken are larger.
  taken-Rises :
      (below k : ℕ) (ns : List ℕ)
      → Rises stem [] below ns
      → All (λ n. Rises stem [] n (drop k ns)) (take k ns)
  taken-Rises below zero ns r = tt
  taken-Rises below (suc k) [] r = tt
  taken-Rises below (suc k) (n ∷ ns) r = (Rises-drop n k ns r.1, taken-Rises n k ns r.1)

  module _ (system : System) where
    -- What the removal of files makes of a directory.
    record Removed (ms : List ℕ) (d d1 : Directory) : Type 0 where
      frame : (x : Text) → All (λ m. same_text x (name stem [] m) ≡ false) ms → d1 x ≡ d x

    remove_loop-Removed :
        (below : ℕ) (ms : List ℕ) (d : Directory)
        → Rises stem [] below ms
        → All (Movable stem [] system d) ms
        → (d1 : Directory) × (remove_loop system (map (numbered stem []) ms) d ≡ ok tt d1)
          × Removed ms d d1
    unfolding remove_loop
    remove_loop-Removed below [] d r h = (d, refl, record { frame = λ x a. refl })
    remove_loop-Removed below (m ∷ ms) d r (v, h) =
        let d0 : Directory = with_file (name stem [] m) none d in
        let others = Rises-All stem [] m ms r.1 (λ k less q. keeps k m d q v.room less) h in
        let (d1, done, s) = remove_loop-Removed m ms d0 r.1 others in
        let removed : remove_file system (name stem [] m) d ≡ some d0 =
          rw (remove_file, v.exists, v.allowed) refl in
        (
          d1,
          rw (file_name-numbered stem [] m (omega (arith, r.0)), removed) done,
          record { frame = λ x a. s.frame x a.1 ∙ rw (a.0) refl },
        )
      where
        keeps :
            (k m : ℕ) (d : Directory)
            → Movable stem [] system d k
            → suc m < 2 ^ 64
            → m < k
            → Movable stem [] system (with_file (name stem [] m) none d) k
        keeps k m d q room less = record {
          room = q.room;
          allowed = q.allowed;
          content = q.content;
          exists =
              rw (slot-other stem [] k m (omega (arith, q.room)) (omega arith) (omega arith))
                (q.exists);
        }

    -- The active file, which has no number.
    abbrev pub active_file : AssociatedResFile
    active_file = record {
      stem = stem;
      ext = [];
      seq_nr = 0;
      active_flag = true;
      date_time_flag = false;
      compr_ext = [];
    }

    -- Files that are kept are not among those that are removed.
    kept_frame :
        (k : ℕ) (ns : List ℕ) (d d1 : Directory)
        → Rises stem [] 0 ns
        → All (Movable stem [] system d) ns
        → Removed (drop k ns) d d1
        → All (λ n. d1 (name stem [] n) ≡ d (name stem [] n)) (take k ns)
    kept_frame k ns d d1 r h s =
        All-map (λ n. Rises stem [] n (drop k ns) × Movable stem [] system d n) _ (take k ns)
          (λ n p. s.frame (name stem [] n) (
            Rises-All stem [] n (drop k ns) p.0
              (λ m less q.
                slot-other stem [] n m (omega (arith, p.1.room)) (omega (arith, q.room))
                  (omega arith))
              (All-drop (Movable stem [] system d) k ns h)))
          (All-both _ _ (take k ns) (taken-Rises 0 k ns r)
            (All-take (Movable stem [] system d) k ns h))

    -- The active file is the first rollover file, and those that are kept have the numbers behind
    -- theirs, all with their contents.
    pub record Kept (content : Text) (k : ℕ) (ns : List ℕ) (d d1 : Directory) : Type 0 where
      pub archived : d1 (name stem [] 1) ≡ some content
      pub kept : All (λ n. d1 (name stem [] (suc n)) ≡ d (name stem [] n)) (take k ns)
      pub moved_away : d1 stem ≡ none

    archive_last :
        (content : Text) (k : ℕ) (ns : List ℕ) (d d1 d2 : Directory)
        → Rises stem [] 0 ns
        → All (Movable stem [] system d) ns
        → Shifted stem [] system (take k ns) d1 d2
        → All (λ n. d1 (name stem [] n) ≡ d (name stem [] n)) (take k ns)
        → Kept content k ns d (with_file (name stem [] 1) (some content) (with_file stem none d2))
    archive_last content k ns d d1 d2 r h s same =
        let positive =
          Rises-All stem [] {Q = λ n. (0 < n) × Movable stem [] system d n} 0 (take k ns)
            (Rises-take 0 k ns r) (λ m less q. (less, q))
            (All-take (Movable stem [] system d) k ns h) in
        let unmoved = All-both _ _ (take k ns) s.moves same in
        record {
          archived = rw (same_text_refl (name stem [] 1)) refl;
          kept =
              All-map
                (λ n.
                  ((0 < n) × Movable stem [] system d n)
                  × ((d2 (name stem [] (suc n)) ≡ d1 (name stem [] n))
                      × (d1 (name stem [] n) ≡ d (name stem [] n))))
                (λ n.
                  with_file (name stem [] 1) (some content) (with_file stem none d2)
                    (name stem [] (suc n))
                  ≡ d (name stem [] n))
                (take k ns)
                (λ n p.
                  rw
                    (
                      slot-other stem [] (suc n) 1 p.0.1.room (omega arith) (omega (arith, p.0.0)),
                      slot-longer stem [] (suc n),
                    )
                    (p.1.0 ∙ p.1.1))
                (All-both _ _ (take k ns) positive unmoved);
          moved_away = rw (slot-stem stem [] 1, same_text_refl stem) refl;
        }

    -- The removal, with the files that it keeps.
    remove_rollover_files-kept :
        (k : ℕ) (ns : List ℕ) (d d1 : Directory)
        → remove_loop system (map (numbered stem []) (drop k ns)) d ≡ ok tt d1
        → remove_rollover_files system (active_file ∷ map (numbered stem []) ns) (suc k) d
          ≡ ok (active_file ∷ map (numbered stem []) (take k ns)) d1
    unfolding remove_rollover_files
    remove_rollover_files-kept k ns d d1 e =
        rw (map-drop (numbered stem []) k ns, map-take (numbered stem []) k ns, e) refl

    still_Movable :
        (k : ℕ) (ns : List ℕ) (d d1 : Directory)
        → All (Movable stem [] system d) ns
        → All (λ n. d1 (name stem [] n) ≡ d (name stem [] n)) (take k ns)
        → All (Movable stem [] system d1) (take k ns)
    still_Movable k ns d d1 h same =
        All-map (λ n. Movable stem [] system d n × (d1 (name stem [] n) ≡ d (name stem [] n)))
          (Movable stem [] system d1) (take k ns)
          (λ n p. record {
            room = p.0.room;
            allowed = p.0.allowed;
            content = p.0.content;
            exists = p.1 ∙ p.0.exists;
          })
          (All-both _ _ (take k ns) (All-take (Movable stem [] system d) k ns h) same)

    pub archived-active :
        (content : Text) (d : Directory)
        → d stem ≡ some content
        → system.refuses stem ≡ false
        → archive_active_file system CompressionAlgorithm.no_compression stem (name stem [] 1) d
          ≡ ok tt (with_file (name stem [] 1) (some content) (with_file stem none d))
    unfolding archive_active_file
    archived-active content d there allowed =
        let renamed : rename system stem (name stem [] 1) d
            ≡ some (with_file (name stem [] 1) (some content) (with_file stem none d)) =
          rw (rename, there, allowed) refl in
        ap (λ o. or_failed system stem d o) renamed

    -- Where the names do not depend on the time and nothing is compressed, a rollover makes the
    -- active file the first rollover file, and gives each of those that it keeps, one fewer than
    -- the keep count, the number behind its own, all with their contents, if the numbers are
    -- different and the system refuses nothing; the name of the active file is free then.
    pub archive_found-Kept :
        (content : Text) (k : ℕ) (ns : List ℕ) (d : Directory)
        → Rises stem [] 0 ns
        → All (Movable stem [] system d) ns
        → d stem ≡ some content
        → system.refuses stem ≡ false
        → (d1 : Directory) × (archive_found system stem stem
              (suc k)
              CompressionAlgorithm.no_compression
              (active_file ∷ map (numbered stem []) ns)
              d
            ≡ ok tt d1)
          × Kept content k ns d d1
    unfolding archive_found
    archive_found-Kept content k ns d r h there allowed =
        let (d1, removed, s) =
          remove_loop-Removed 0 (drop k ns) d (Rises-drop 0 k ns r)
            (All-drop (Movable stem [] system d) k ns h) in
        let same = kept_frame k ns d d1 r h s in
        let (d2, shifted, t) =
          shift_rollover_files-Shifted stem [] system stem
            (active_file ∷ map (numbered stem []) (take k ns)) active_file (take k ns) d1
            (Rises-take 0 k ns r) (still_Movable k ns d d1 h same) refl in
        let still : d2 stem ≡ some content =
          t.frame stem (
            All-map (λ n. Movable stem [] system d n) _ (take k ns)
              (λ n q. (slot-stem stem [] n, slot-stem stem [] (suc n)))
              (All-take (Movable stem [] system d) k ns h))
          ∙ s.frame stem (
              All-map (λ n. Movable stem [] system d n) _ (drop k ns) (λ n q. slot-stem stem [] n)
                (All-drop (Movable stem [] system d) k ns h))
          ∙ there in
        (
          with_file (name stem [] 1) (some content) (with_file stem none d2),
          rw (remove_rollover_files-kept k ns d d1 removed)
              (rw (shifted) (rw (same_text_refl stem) (archived-active content d2 still allowed))),
          archive_last content k ns d d1 d2 r h t same,
        )
