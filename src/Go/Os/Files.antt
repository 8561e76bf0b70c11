-- ===== src/Go/Os/Files.antt =====
-- A file that is opened for writing and not cut, and writes at an offset.
use mx_chain_simulator_go.Common.{
  ℕ, zero, suc, ◌≡◌, ◌∙◌, ap, sym, append-nil, refl, inl, inr, [], ◌∷◌, ◌++◌, Bytes, length, arith,
}
use mx_chain_simulator_go.Common.Outcome.{Try, value, error}
use mx_chain_simulator_go.Go.Os.{
  Node, file, dir, Entries, FilePath, found, missing, below_file, find, stat, create, not_exist,
  is_directory, set,
}
use mx_chain_simulator_go.Go.Os.Laws.{find-cases, find-set}
use mx_chain_simulator_go.Go.Os.Calls.{create_below}

-- What stands behind the text that is written stays.
abbrev pub overwrite : Bytes → Bytes → Bytes
overwrite [] old = old
overwrite (b ∷ bs) [] = b ∷ bs
overwrite (b ∷ bs) (_ ∷ old) = b ∷ overwrite bs old

-- Behind the end of a file a hole is filled by zeros.
abbrev pub splice : ℕ → Bytes → Bytes → Bytes
splice zero bs old = overwrite bs old
splice (suc n) bs [] = 0 ∷ splice n bs []
splice (suc n) bs (c ∷ old) = c ∷ splice n bs old

-- `os.OpenFile(path, os.O_CREATE|os.O_WRONLY, ...)`
unfoldable pub open_write : FilePath → Node → Try Node
open_write path fs = elim (stat path fs) [
  | found (file _) ↦ value fs
  | found (dir _ _) ↦ error is_directory
  | missing ↦ create path [] fs
  | below_file ↦ create path [] fs
]

-- A write to an open file.
unfoldable pub write_at : FilePath → ℕ → Bytes → Node → Try Node
write_at path offset text fs = elim (stat path fs) [
  | found (file content) ↦ create path (splice offset text content) fs
  | found (dir _ _) ↦ error is_directory
  | missing ↦ error not_exist
  | below_file ↦ error not_exist
]

splice-append : (w bs t : Bytes) → splice (length w) bs (w ++ t) ≡ w ++ overwrite bs t
splice-append [] bs t = refl
splice-append (c ∷ w) bs t = rw (splice-append w bs t) refl

create_again :
    (p : FilePath) (fs : Node) (c c' : Bytes)
    → stat p fs ≡ found (file c)
    → (fs' : Node) × (create p c' fs ≡ value fs') × (stat p fs' ≡ found (file c'))
unfolding stat create
create_again [] (file _) c c' h = (file c', refl, refl)
create_again [] (dir _ _) c c' h = ground arith
create_again (x ∷ p) (file _) c c' h = ground arith
create_again (x ∷ []) (dir m es) c c' h = elim (find-cases x es) [
  | inr e ↦ ground (arith, e)
  | inl (n, e) ↦
      let (n', made, there) = create_again [] n c c' (ground (arith, e)) in
      (dir m (set x n' es), ground (arith, e, made), ground (arith, find-set x n' es, there))
]
create_again (x ∷ y ∷ p) (dir m es) c c' h = elim (find-cases x es) [
  | inr e ↦ ground (arith, e)
  | inl (n, e) ↦
      let (n', made, there) = create_again (y ∷ p) n c c' (ground (arith, e)) in
      (dir m (set x n' es), ground (arith, e, made), ground (arith, find-set x n' es, there))
]

overwrite_nothing : (bs : Bytes) → overwrite bs [] ≡ bs
overwrite_nothing [] = refl
overwrite_nothing (b ∷ bs) = refl

-- A write at the end of a file.
pub write_at_end :
    (p : FilePath) (fs : Node) (w bs : Bytes)
    → stat p fs ≡ found (file w)
    → (fs' : Node) × (write_at p (length w) bs fs ≡ value fs')
      × (stat p fs' ≡ found (file (w ++ bs)))
unfolding write_at
write_at_end p fs w bs h =
    let text : splice (length w) bs w ≡ w ++ bs =
      ap (splice (length w) bs) (sym (append-nil w))
      ∙ (splice-append w bs [] ∙ ap (λ t. w ++ t) (overwrite_nothing bs)) in
    let (fs', made, there) = create_again p fs w (w ++ bs) h in
    (fs', rw (write_at, h) (rw text made), there)

-- A file is made in a directory in which there is nothing of its name.
pub open_write_new :
    (p : FilePath) (x : Bytes) (fs : Node) (m : ℕ) (es : Entries)
    → stat p fs ≡ found (dir m es)
    → find x es ≡ missing
    → (fs' : Node) × (create (p ++ x ∷ []) [] fs ≡ value fs')
      × (stat (p ++ x ∷ []) fs ≡ missing)
      × (stat (p ++ x ∷ []) fs' ≡ found (file []))
unfolding stat create
open_write_new [] x (file _) m es h fresh = ground arith
open_write_new [] x (dir k gs) m es h fresh =
    let same : find x gs ≡ missing = ground (arith, fresh) in
    (
      dir k (set x (file []) gs),
      ground (arith, same),
      ground (arith, same),
      ground (arith, find-set x (file []) gs),
    )
open_write_new (y ∷ p) x (file _) m es h fresh = ground arith
open_write_new (y ∷ p) x (dir k gs) m es h fresh = elim (find-cases y gs) [
  | inr e ↦ ground (arith, e)
  | inl (n, e) ↦
      let (n', made, none', there) = open_write_new p x n m es (ground (arith, e)) fresh in
      (
        dir k (set y n' gs),
        ground (arith, create_below y x p [] k gs n e, made),
        ground (arith, e, none'),
        ground (arith, find-set y n' gs, there),
      )
]
