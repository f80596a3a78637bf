-- ===== src/Rollover/Lists.antt =====
-- Lists of numbers and of the files that have them.
use coaly.Prelude.{ℕ, zero, suc, ◌≡◌, refl, ap, List, [], ◌∷◌, map, take, drop, All}
use coaly.Rollover.{AssociatedResFile}

pub All-map : (P Q : ℕ → Type 0) (ns : List ℕ) → ((n : ℕ) → P n → Q n) → All P ns → All Q ns
All-map P Q [] f h = tt
All-map P Q (n ∷ ns) f h = (f n h.0, All-map P Q ns f h.1)

pub All-take : (P : ℕ → Type 0) (k : ℕ) (ns : List ℕ) → All P ns → All P (take k ns)
All-take P zero ns h = tt
All-take P (suc k) [] h = tt
All-take P (suc k) (n ∷ ns) h = (h.0, All-take P k ns h.1)

pub All-drop : (P : ℕ → Type 0) (k : ℕ) (ns : List ℕ) → All P ns → All P (drop k ns)
All-drop P zero ns h = h
All-drop P (suc k) [] h = tt
All-drop P (suc k) (n ∷ ns) h = All-drop P k ns h.1

pub map-take :
    (f : ℕ → AssociatedResFile) (k : ℕ) (ns : List ℕ) → take k (map f ns) ≡ map f (take k ns)
map-take f zero ns = refl
map-take f (suc k) [] = refl
map-take f (suc k) (n ∷ ns) = ap (λ l. f n ∷ l) (map-take f k ns)

pub map-drop :
    (f : ℕ → AssociatedResFile) (k : ℕ) (ns : List ℕ) → drop k (map f ns) ≡ map f (drop k ns)
map-drop f zero ns = refl
map-drop f (suc k) [] = refl
map-drop f (suc k) (n ∷ ns) = map-drop f k ns

pub All-both : (P Q : ℕ → Type 0) (ns : List ℕ) → All P ns → All Q ns → All (λ n. P n × Q n) ns
All-both P Q [] p q = tt
All-both P Q (n ∷ ns) p q = ((p.0, q.0), All-both P Q ns p.1 q.1)
