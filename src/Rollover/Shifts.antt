-- ===== src/Rollover/Shifts.antt =====
-- Rollover files with numbers are renamed from the last one on, and keep their contents.
use coaly.Prelude.{
  ℕ, suc, ◌+◌, ◌%◌, ◌^◌, ◌<◌, ◌≤◌, ◌≡◌, refl, sym, ap, ◌∙◌, arith, true, false, none, some, List,
  [], ◌∷◌, ◌++◌, map, drop, All, ltb,
}
use coaly.Prelude.Texts.{Text, same_text, same_text_refl}
use coaly.Rollover.{
  Directory, with_file, Done, ok, failed, panicked, reversed, System, AssociatedResFile, file_name,
  shifted_file_name, rename, shift_loop, shift_rollover_files, ◌>>=◌,
}
use coaly.Rollover.Lists.{All-both}
use coaly.Rollover.Names.{slot, slot-other}

abbrev falling : List ℕ → List ℕ
falling [] = []
falling (n ∷ ns) = falling ns ++ n ∷ []

module _ (stem ext : Text) where
  -- The rollover file with a number, of a name that does not depend on the time.
  abbrev pub numbered : ℕ → AssociatedResFile
  numbered n = record {
    stem = stem;
    ext = ext;
    seq_nr = n;
    active_flag = false;
    date_time_flag = false;
    compr_ext = ext;
  }

  abbrev pub name : ℕ → Text
  name = slot stem ext

  pub file_name-numbered : (n : ℕ) → 1 ≤ n → file_name (numbered n) ≡ name n
  unfolding file_name
  file_name-numbered n h = let positive : ltb 0 n ≡ true = ground arith in rw positive refl

  pub shifted_file_name-numbered :
      (n : ℕ) → suc n < 2 ^ 64 → shifted_file_name (numbered n) ≡ name (suc n)
  unfolding shifted_file_name
  shifted_file_name-numbered n h = let same : (n + 1) % 2 ^ 64 ≡ suc n = omega arith in ap name same

  -- The numbers rise.
  abbrev pub Rises : ℕ → List ℕ → Type 0
  Rises below [] = Unit {0}
  Rises below (n ∷ ns) = (below < n) × Rises n ns

  pub Rises-All :
      {P Q : ℕ → Type 0} (below : ℕ) (ns : List ℕ)
      → Rises below ns
      → ((m : ℕ) → below < m → P m → Q m)
      → All P ns
      → All Q ns
  Rises-All below [] r f h = tt
  Rises-All below (n ∷ ns) r f h =
      (f n r.0 h.0, Rises-All n ns r.1 (λ m less. f m (omega (arith, less, r.0))) h.1)

  module _ (system : System) where
    -- The file with a number can be renamed: there is a number more, it exists, and the system does
    -- not refuse it.
    pub record Movable (d : Directory) (n : ℕ) : Type 0 where
      pub room : suc n < 2 ^ 64
      pub allowed : system.refuses (name n) ≡ false
      pub content : Text
      pub exists : d (name n) ≡ some content

    -- The directory behind the renaming of one file.
    abbrev moved : ℕ → Text → Directory → Directory
    moved n content d = with_file (name (suc n)) (some content) (with_file (name n) none d)

    rename-moved :
        (n : ℕ) (d : Directory) (m : Movable d n)
        → rename system (name n) (name (suc n)) d ≡ some (moved n m.content d)
    rename-moved n d m = rw (rename, m.exists, m.allowed) refl

    -- A name that is neither the old nor the new one of a file.
    abbrev pub Apart : Text → ℕ → Type 0
    Apart x n = (same_text x (name n) ≡ false) × (same_text x (name (suc n)) ≡ false)

    moved-Apart : (n : ℕ) (content x : Text) (d : Directory) → Apart x n → moved n content d x ≡ d x
    moved-Apart n content x d apart = rw (moved, apart.1, apart.0) refl

    -- What the renaming of files makes of a directory.
    pub record Shifted (ns : List ℕ) (d d1 : Directory) : Type 0 where
      pub moves : All (λ n. d1 (name (suc n)) ≡ d (name n)) ns
      pub frame : (x : Text) → All (Apart x) ns → d1 x ≡ d x

    module _ (new_name : Text) (files : List AssociatedResFile) where
      -- One more file is renamed behind others.
      abbrev loop : ℕ → List AssociatedResFile → Directory → Done (Unit {0})
      loop i fs d = shift_loop system new_name files i fs d

      go_on :
          (i n : ℕ) (fs : List AssociatedResFile) (d1 d2 : Directory) (r : Done (Unit {0}))
          → ((d : Directory) → loop i fs d ≡ ok tt d1 → loop i (fs ++ numbered n ∷ []) d ≡ ok tt d2)
          → (r >>= λ u d. loop i fs d) ≡ ok tt d1
          → (r >>= λ u d. loop i (fs ++ numbered n ∷ []) d) ≡ ok tt d2
      go_on i n fs d1 d2 (ok u d) later e = later d e
      go_on i n fs d1 d2 (failed t d) later e = absurd cc
      go_on i n fs d1 d2 panicked later e = absurd cc

      shift_loop-append :
          (i n : ℕ) (ms : List ℕ) (d d1 : Directory)
          → loop i (map numbered ms) d ≡ ok tt d1
          → 1 ≤ n
          → (m : Movable d1 n)
          → loop i (map numbered ms ++ numbered n ∷ []) d ≡ ok tt (moved n m.content d1)
      unfolding shift_loop
      shift_loop-append i n [] d d1 e low m =
          let same : d ≡ d1 = cc in
          rw
            (
              same,
              file_name-numbered n low,
              shifted_file_name-numbered n m.room,
              rename-moved n d1 m,
            )
            refl
      shift_loop-append i n (k ∷ ms) d d1 e low m =
          go_on (i + 1) n (map numbered ms) d1 _ _
            (λ d2 e2. shift_loop-append (i + 1) n ms d2 d1 e2 low m) e

      -- Apart from the file before them.
      Rises-Apart :
          (n : ℕ) (ns : List ℕ)
          → Rises n ns
          → suc n < 2 ^ 64
          → All (λ m. suc m < 2 ^ 64) ns
          → All (Apart (name n)) ns
      Rises-Apart n ns r room rooms =
          Rises-All n ns r
            (λ m less room_m. (
              slot-other stem ext n m (omega arith) (omega arith) (omega arith),
              slot-other stem ext n (suc m) (omega arith) (omega arith) (omega arith),
            ))
            rooms

      map-append_one :
          (ms : List ℕ) (n : ℕ) → map numbered (ms ++ n ∷ []) ≡ map numbered ms ++ numbered n ∷ []
      map-append_one [] n = refl
      map-append_one (m ∷ ms) n = ap (λ l. numbered m ∷ l) (map-append_one ms n)

      reversed-map : (ns : List ℕ) → reversed (map numbered ns) ≡ map numbered (falling ns)
      reversed-map [] = refl
      reversed-map (n ∷ ns) =
          ap (λ l. l ++ numbered n ∷ []) (reversed-map ns) ∙ sym (map-append_one (falling ns) n)

      shift_loop-Shifted :
          (i below : ℕ) (ns : List ℕ) (d : Directory)
          → Rises below ns
          → All (Movable d) ns
          → (d1 : Directory) × (loop i (map numbered (falling ns)) d ≡ ok tt d1) × Shifted ns d d1
      unfolding shift_loop
      shift_loop-Shifted i below [] d r h = (d, refl, record { moves = tt; frame = λ x a. refl })
      shift_loop-Shifted i below (n ∷ ns) d r (m, h) =
          let (d1, e, s) = shift_loop-Shifted i n ns d r.1 h in
          let rooms = Rises-All {Q = λ k. suc k < 2 ^ 64} n ns r.1 (λ k less q. q.room) h in
          let m1 : Movable d1 n = record {
            room = m.room;
            allowed = m.allowed;
            content = m.content;
            exists = s.frame (name n) (Rises-Apart n ns r.1 m.room rooms) ∙ m.exists;
          } in
          let others =
            Rises-All n ns r.1
              (λ k less q.
                moved-Apart n m.content (name (suc k)) d1 (
                  slot-other stem ext (suc k) n q.0 (omega (arith, m.room)) (omega arith),
                  slot-other stem ext (suc k) (suc n) q.0 m.room (omega arith),
                )
                ∙ q.1)
              (All-both (λ k. suc k < 2 ^ 64) (λ k. d1 (name (suc k)) ≡ d (name k)) ns rooms
                s.moves) in
          (
            moved n m.content d1,
            ap (λ l. loop i l d) (map-append_one (falling ns) n)
                ∙ shift_loop-append i n (falling ns) d d1 e (omega (arith, r.0)) m1,
            record {
              moves = (rw (same_text_refl (name (suc n))) (sym m.exists), others);
              frame = λ x a. moved-Apart n m.content x d1 a.0 ∙ s.frame x a.1;
            },
          )

      -- The rollover files with numbers are renamed to the numbers behind theirs, with their
      -- contents.
      pub shift_rollover_files-Shifted :
          (active : AssociatedResFile) (ns : List ℕ) (d : Directory)
          → Rises 0 ns
          → All (Movable d) ns
          → files ≡ active ∷ map numbered ns
          → (d1 : Directory) × (shift_rollover_files system new_name files d ≡ ok tt d1)
            × Shifted ns d d1
      unfolding shift_rollover_files
      shift_rollover_files-Shifted active ns d r h e =
          let (d1, done, s) = shift_loop-Shifted 0 0 ns d r h in
          (
            d1,
            ap (λ l. loop 0 (reversed (drop 1 l)) d) e
                ∙ ap (λ l. loop 0 l d) (reversed-map ns)
                ∙ done,
            s,
          )
