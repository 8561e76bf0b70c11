-- ===== src/Go/Os/Laws.antt =====
-- What a call on a path leaves below it, and what it leaves elsewhere.
use mx_chain_simulator_go.Common.{
  ℕ, ◌≡◌, ◌⊎◌, inl, inr, refl, true, false, Bool-cases, [], ◌∷◌, Bytes, bytes_eq, bytes_eq_refl,
  bytes_eq→eq, arith,
}
use mx_chain_simulator_go.Go.Os.{
  Node, dir, Entries, end, entry, FilePath, found, missing, find, set, stat,
}

abbrev pub append : Entries → Entries → Entries
append end fs = fs
append (entry x n es) fs = entry x n (append es fs)

pub append-end : (es : Entries) → append es end ≡ es
append-end end = refl
append-end (entry x n es) = rw (append-end es) refl

pub append_entry :
    (es : Entries) (x : Bytes) (n : Node) (fs : Entries)
    → append (append es (entry x n end)) fs ≡ append es (entry x n fs)
append_entry end x n fs = refl
append_entry (entry y m es) x n fs = rw (append_entry es x n fs) refl

pub find-cases :
    (x : Bytes) (es : Entries) → ((n : Node) × (find x es ≡ found n)) ⊎ (find x es ≡ missing)
unfolding find
find-cases x end = inr refl
find-cases x (entry y n es) = elim (Bool-cases (bytes_eq x y)) [
  | inl same ↦ inl (n, rw same refl)
  | inr other ↦ rw other (find-cases x es)
]

pub find-append :
    (x y : Bytes) (n : Node) (es : Entries)
    → find x es ≡ missing
    → bytes_eq x y ≡ false
    → find x (append es (entry y n end)) ≡ missing
unfolding find
find-append x y n end h other = ground arith
find-append x y n (entry z m es) h other = ground (arith, find-append x y n es)

pub find-set : (x : Bytes) (n : Node) (es : Entries) → find x (set x n es) ≡ found n
unfolding find set
find-set x n end = ground (arith, bytes_eq_refl x)
find-set x n (entry y m es) = ground (arith, bytes_eq_refl x, find-set x n es)

pub find-set_other :
    (x y : Bytes) (n : Node) (es : Entries) → bytes_eq y x ≡ false → find y (set x n es) ≡ find y es
unfolding find set
find-set_other x y n end other = ground arith
find-set_other x y n (entry z m es) other =
    ground (arith, bytes_eq→eq x z, find-set_other x y n es other)

pub set-set : (x : Bytes) (n m : Node) (es : Entries) → set x n (set x m es) ≡ set x n es
unfolding set
set-set x n m end = ground (arith, bytes_eq_refl x)
set-set x n m (entry y k es) = ground (arith, bytes_eq_refl x, set-set x n m es)

pub set-find : (x : Bytes) (n : Node) (es : Entries) → find x es ≡ found n → set x n es ≡ es
unfolding find set
set-find x n end h = cc
set-find x n (entry y m es) h = ground (arith, set-find x n es)

pub set_fresh :
    (x : Bytes) (n : Node) (es : Entries)
    → find x es ≡ missing
    → set x n es ≡ append es (entry x n end)
unfolding find set
set_fresh x n end h = refl
set_fresh x n (entry y m es) h = ground (arith, set_fresh x n es)

-- Two paths part at some name: neither lies below the other.
abbrev pub Diverge : FilePath → FilePath → Type 0
Diverge [] q = ⊥
Diverge (x ∷ p) [] = ⊥
Diverge (x ∷ p) (y ∷ q) = (bytes_eq x y ≡ false) ⊎ Diverge p q

pub Diverge_nil : {A : Type 0} (q : FilePath) → Diverge q [] → A
Diverge_nil [] d = elim d [ ]
Diverge_nil (x ∷ q) d = elim d [ ]

pub Diverge-bytes_eq :
    (y x : Bytes) (q p : FilePath) → Diverge (y ∷ q) (x ∷ p) → bytes_eq y x ≡ true → Diverge q p
Diverge-bytes_eq y x q p d same = elim d as (λ _. Diverge q p) [ inl other ↦ cc | inr d' ↦ d' ]

-- A change below a path is seen at no path that parts from it.
abbrev pub SameBeside : FilePath → Node → Node → Type 0
SameBeside p fs fs' = (q : FilePath) → Diverge q p → stat q fs' ≡ stat q fs

-- What is seen beside a name in a directory, when its entry is set.
pub SameBeside-set :
    (x : Bytes) (p : FilePath) (m : ℕ) (es : Entries) (n n' : Node)
    → find x es ≡ found n
    → SameBeside p n n'
    → SameBeside (x ∷ p) (dir m es) (dir m (set x n' es))
unfolding stat
SameBeside-set x p m es n n' h same [] d = elim d [ ]
SameBeside-set x p m es n n' h same (y ∷ q) d = elim (Bool-cases (bytes_eq y x)) [
  | inl e ↦
      ground (arith, bytes_eq→eq y x e, find-set x n' es, same q (Diverge-bytes_eq y x q p d e))
  | inr e ↦ ground (arith, find-set_other x y n' es e)
]

-- The same for a new entry, below which the paths that part are missing as they were.
pub SameBeside-set_fresh :
    (x : Bytes) (p : FilePath) (m : ℕ) (es : Entries) (n : Node)
    → find x es ≡ missing
    → ((q : FilePath) → Diverge q p → stat q n ≡ missing)
    → SameBeside (x ∷ p) (dir m es) (dir m (set x n es))
unfolding stat
SameBeside-set_fresh x p m es n h none' [] d = elim d [ ]
SameBeside-set_fresh x p m es n h none' (y ∷ q) d = elim (Bool-cases (bytes_eq y x)) [
  | inl e ↦
      ground (arith, bytes_eq→eq y x e, find-set x n es, none' q (Diverge-bytes_eq y x q p d e))
  | inr e ↦ ground (arith, find-set_other x y n es e)
]

pub Diverge-sym : (p q : FilePath) → Diverge p q → Diverge q p
Diverge-sym [] q d = elim d [ ]
Diverge-sym (x ∷ p) [] d = elim d [ ]
Diverge-sym (x ∷ p) (y ∷ q) d = elim d as (λ _. Diverge (y ∷ q) (x ∷ p)) [
  | inl other ↦ inl (ground (arith, bytes_eq→eq y x, bytes_eq_refl x))
  | inr d' ↦ inr (Diverge-sym p q d')
]
