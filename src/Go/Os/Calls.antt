-- ===== src/Go/Os/Calls.antt =====
-- `MkdirAll`, `Create` and `RemoveAll` on a path, by its first name.
use mx_chain_simulator_go.Common.{
  ℕ, ◌≡◌, inl, inr, refl, false, Bool-cases, [], ◌∷◌, ◌++◌, Bytes, bytes_eq, bytes_eq_refl,
  bytes_eq→eq, arith,
}
use mx_chain_simulator_go.Common.Outcome.{value}
use mx_chain_simulator_go.Go.Os.{
  Node, file, dir, Entries, end, entry, FilePath, found, missing, find, set, drop, stat, with_entry,
  mkdir_all, create, remove_all,
}
use mx_chain_simulator_go.Go.Os.Laws.{
  find-cases, find-set, SameBeside, SameBeside-set, SameBeside-set_fresh, Diverge, Diverge_nil,
  Diverge-bytes_eq,
}

mkdir_all_in_empty :
    (p : FilePath) (mode : ℕ)
    → (n : Node) × (mkdir_all p mode (dir mode end) ≡ value n)
      × (stat p n ≡ found (dir mode end))
      × ((q : FilePath) → Diverge q p → stat q n ≡ missing)
unfolding stat mkdir_all find set
mkdir_all_in_empty [] mode = (dir mode end, refl, refl, λ q d. Diverge_nil q d)
mkdir_all_in_empty (x ∷ p) mode =
    let (n, made, there, beside) = mkdir_all_in_empty p mode in
    (
      dir mode (entry x n end),
      ground (arith, made),
      ground (arith, bytes_eq_refl x, there),
      elsewhere n beside,
    )
  where
    elsewhere :
        (n : Node)
        → ((q : FilePath) → Diverge q p → stat q n ≡ missing)
        → (q : FilePath) → Diverge q (x ∷ p)
        → stat q (dir mode (entry x n end)) ≡ missing
    elsewhere n beside [] d = elim d [ ]
    elsewhere n beside (y ∷ q) d = elim (Bool-cases (bytes_eq y x)) [
      | inl e ↦ ground (arith, e, beside q (Diverge-bytes_eq y x q p d e))
      | inr e ↦ ground (arith, e)
    ]

-- A directory is made at a path that is missing, with the mode, empty, and nothing else changes.
pub mkdir_all_at_missing :
    (p : FilePath) (mode : ℕ) (fs : Node)
    → stat p fs ≡ missing
    → (fs' : Node) × (mkdir_all p mode fs ≡ value fs')
      × (stat p fs' ≡ found (dir mode end))
      × SameBeside p fs fs'
unfolding stat mkdir_all
mkdir_all_at_missing [] mode fs h = ground arith
mkdir_all_at_missing (x ∷ p) mode (file _) h = ground arith
mkdir_all_at_missing (x ∷ p) mode (dir m es) h = elim (find-cases x es) [
  | inl (n, e) ↦
      let (n', made, there, beside) = mkdir_all_at_missing p mode n (ground (arith, e)) in
      (
        dir m (set x n' es),
        ground (arith, e, made),
        ground (arith, find-set x n' es, there),
        SameBeside-set x p m es n n' e beside,
      )
  | inr e ↦
      let (n, made, there, beside) = mkdir_all_in_empty p mode in
      (
        dir m (set x n es),
        ground (arith, e, made),
        ground (arith, find-set x n es, there),
        SameBeside-set_fresh x p m es n e beside,
      )
]

find-drop : (x : Bytes) (es : Entries) → find x (drop x es) ≡ missing
unfolding find drop
find-drop x end = refl
find-drop x (entry y n es) = ground (arith, find-drop x es)

find-drop_other :
    (x y : Bytes) (es : Entries) → bytes_eq y x ≡ false → find y (drop x es) ≡ find y es
unfolding find drop
find-drop_other x y end other = refl
find-drop_other x y (entry z n es) other =
    ground (arith, bytes_eq→eq x z, find-drop_other x y es other)

SameBeside-drop :
    (x : Bytes) (m : ℕ) (es : Entries) → SameBeside (x ∷ []) (dir m es) (dir m (drop x es))
unfolding stat
SameBeside-drop x m es [] d = elim d [ ]
SameBeside-drop x m es (y ∷ q) d = elim (Bool-cases (bytes_eq y x)) [
  | inl e ↦ Diverge_nil q (Diverge-bytes_eq y x q [] d e)
  | inr e ↦ ground (arith, find-drop_other x y es e)
]

-- What stands at a path below the root is gone behind `RemoveAll`, and nothing else changes.
pub remove_all_found :
    (x : Bytes) (p : FilePath) (fs n : Node)
    → stat (x ∷ p) fs ≡ found n
    → (stat (x ∷ p) (remove_all (x ∷ p) fs) ≡ missing)
      × SameBeside (x ∷ p) fs (remove_all (x ∷ p) fs)
unfolding stat remove_all
remove_all_found x p (file _) n h = ground arith
remove_all_found x [] (dir m es) n h = (ground (arith, find-drop x es), SameBeside-drop x m es)
remove_all_found x (y ∷ p) (dir m es) n h = elim (find-cases x es) [
  | inr e ↦ ground (arith, e)
  | inl (c, e) ↦
      let (gone, beside) = remove_all_found y p c n (ground (arith, e)) in
      (
        ground (arith, e, find-set x (remove_all (y ∷ p) c) es, gone),
        rw (remove_all, e) (SameBeside-set x (y ∷ p) m es c (remove_all (y ∷ p) c) e beside),
      )
]

-- `Create` below an entry is `Create` in what stands there.
pub create_below :
    (x y : Bytes) (q : FilePath) (content : Bytes) (m : ℕ) (es : Entries) (c : Node)
    → find x es ≡ found c
    → create (x ∷ (q ++ y ∷ [])) content (dir m es)
      ≡ with_entry m x es (create (q ++ y ∷ []) content c)
unfolding create
create_below x y [] content m es c e = ground (arith, e)
create_below x y (z ∷ q) content m es c e = ground (arith, e)

pub mkdir_all_below :
    (x : Bytes) (q : FilePath) (mode m : ℕ) (es : Entries) (c : Node)
    → find x es ≡ found c
    → mkdir_all (x ∷ q) mode (dir m es) ≡ with_entry m x es (mkdir_all q mode c)
unfolding mkdir_all
mkdir_all_below x q mode m es c e = ground (arith, e)

-- The same for a path by its last name.
pub remove_all_last :
    (p : FilePath) (x : Bytes) (fs n : Node)
    → stat (p ++ x ∷ []) fs ≡ found n
    → (stat (p ++ x ∷ []) (remove_all (p ++ x ∷ []) fs) ≡ missing)
      × SameBeside (p ++ x ∷ []) fs (remove_all (p ++ x ∷ []) fs)
remove_all_last [] x fs n h = remove_all_found x [] fs n h
remove_all_last (y ∷ p) x fs n h = remove_all_found y (p ++ x ∷ []) fs n h

-- Something stands above what is found.
pub found_above :
    (p q : FilePath) (fs n : Node) → stat (p ++ q) fs ≡ found n → (m : Node) × (stat p fs ≡ found m)
unfolding stat
found_above [] q fs n h = (fs, refl)
found_above (x ∷ p) q (file _) n h = cc
found_above (x ∷ p) q (dir m es) n h = elim (find-cases x es) [
  | inr e ↦ ground (arith, e)
  | inl (c, e) ↦
      let (k, there) = found_above p q c n (ground (arith, e)) in (k, ground (arith, e, there))
]

-- What is found below what is found.
pub stat-append : (p q : FilePath) (fs n : Node) → stat p fs ≡ found n → stat (p ++ q) fs ≡ stat q n
unfolding stat
stat-append [] q fs n h = ground arith
stat-append (x ∷ p) q (file _) n h = ground arith
stat-append (x ∷ p) q (dir m es) n h = elim (find-cases x es) [
  | inr e ↦ ground (arith, e)
  | inl (c, e) ↦ ground (arith, e, stat-append p q c n)
]
