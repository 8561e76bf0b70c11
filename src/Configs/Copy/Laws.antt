-- ===== src/Configs/Copy/Laws.antt =====
-- A copied folder is the folder it is copied from.
use mx_chain_simulator_go.Common.{
  ℕ, ◌≡◌, inl, inr, refl, [], ◌∷◌, ◌++◌, ◌∙◌, Bytes, bytes_eq→eq, bytes_eq_refl, arith,
}
use mx_chain_simulator_go.Common.Outcome.{ok, Try-cases, then-eq-ok}
use mx_chain_simulator_go.Go.Os.{
  Node, file, dir, Entries, end, entry, FilePath, found, missing, find, set, stat, mkdir_all,
}
use mx_chain_simulator_go.Go.Os.Laws.{
  find-cases, find-set, set-find, set-set, set_fresh, append, append_entry, append-end, find-append,
  SameBeside, SameBeside-set, Diverge, Diverge_nil,
}
use mx_chain_simulator_go.Go.Os.Calls.{mkdir_all_at_missing, create_below, mkdir_all_below}
use mx_chain_simulator_go.Configs.Copy.{copy_node, copy_entries, copy_folder_with_all_files}

-- No directory has two entries of one name.
abbrev mutual
  pub Distinct : Node → Type 0
  Distinct (file _) = Unit
  Distinct (dir _ es) = DistinctEntries es

  pub DistinctEntries : Entries → Type 0
  DistinctEntries end = Unit
  DistinctEntries (entry x n es) = (find x es ≡ missing) × (Distinct n × DistinctEntries es)

-- No name of `es` is a name of `done`.
abbrev Apart : Entries → Entries → Type 0
Apart end done = Unit
Apart (entry x _ es) done = (find x done ≡ missing) × Apart es done

Apart-end : (es : Entries) → Apart es end
unfolding find
Apart-end end = tt
Apart-end (entry x n es) = (refl, Apart-end es)

Apart-append :
    (es done : Entries) (x : Bytes) (n : Node)
    → Apart es done
    → find x es ≡ missing
    → Apart es (append done (entry x n end))
unfolding find
Apart-append end done x n a fresh = tt
Apart-append (entry y m es) done x n (h, a) fresh = (
  find-append y x n done h (ground (arith, bytes_eq→eq y x, bytes_eq_refl x)),
  Apart-append es done x n a (ground arith),
)

-- What is copied below an entry is copied into what stands there.
mutual
  unfolding copy_node copy_entries

  copy_node_below :
      (x y : Bytes) (q : FilePath) (node : Node) (m : ℕ) (es : Entries) (c c' : Node)
      → find x es ≡ found c
      → copy_node (q ++ y ∷ []) node c ≡ (ok tt, c')
      → copy_node (x ∷ (q ++ y ∷ [])) node (dir m es) ≡ (ok tt, dir m (set x c' es))
  copy_node_below x y q (file content) m es c c' e h =
      ground (arith, create_below x y q content m es c e)
  copy_node_below x y q (dir mode ns) m es c c' e h =
      elim (Try-cases (mkdir_all (q ++ y ∷ []) mode c)) [
        | inl (c1, made) ↦
            let below =
              copy_entries_below x (q ++ y ∷ []) ns m (set x c1 es) c1 c' (find-set x c1 es)
                (ground (arith, made)) in
            ground (
              arith,
              mkdir_all_below x (q ++ y ∷ []) mode m es c e,
              made,
              below,
              set-set x c' c1 es,
            )
        | inr (e', bad) ↦ ground (arith, bad)
      ]

  copy_entries_below :
      (x : Bytes) (q : FilePath) (ns : Entries) (m : ℕ) (es : Entries) (c c' : Node)
      → find x es ≡ found c
      → copy_entries q ns c ≡ (ok tt, c')
      → copy_entries (x ∷ q) ns (dir m es) ≡ (ok tt, dir m (set x c' es))
  copy_entries_below x q end m es c c' e h = ground (arith, set-find x c es e)
  copy_entries_below x q (entry y node ns) m es c c' e h =
      let (c1, first, rest) =
        then-eq-ok (copy_node (q ++ y ∷ []) node) (copy_entries q ns) c c' h in
      let below = copy_node_below x y q node m es c c1 e first in
      let behind = copy_entries_below x q ns m (set x c1 es) c1 c' (find-set x c1 es) rest in
      ground (arith, below, behind, set-set x c' c1 es)

-- The entries of a folder, copied behind the entries that a directory has.
mutual
  unfolding copy_node copy_entries

  copy_node_onto :
      (x : Bytes) (node : Node) (m : ℕ) (done : Entries)
      → find x done ≡ missing
      → Distinct node
      → copy_node (x ∷ []) node (dir m done) ≡ (ok tt, dir m (append done (entry x node end)))
  copy_node_onto x (file content) m done fresh u =
      ground (arith, set_fresh x (file content) done fresh)
  copy_node_onto x (dir mode ns) m done fresh u =
      let inside = copy_entries_onto ns mode end (Apart-end ns) u in
      let made = dir mode end in
      let below =
        copy_entries_below x [] ns m (set x made done) made (dir mode ns) (find-set x made done)
          inside in
      ground (
        arith,
        fresh,
        below,
        set-set x (dir mode ns) made done,
        set_fresh x (dir mode ns) done fresh,
      )

  copy_entries_onto :
      (ns : Entries) (m : ℕ) (done : Entries)
      → Apart ns done
      → DistinctEntries ns
      → copy_entries [] ns (dir m done) ≡ (ok tt, dir m (append done ns))
  copy_entries_onto end m done a u = rw (append-end done) refl
  copy_entries_onto (entry x node ns) m done (fresh, a) (single, (u, us)) =
      let first = copy_node_onto x node m done fresh u in
      let rest =
        copy_entries_onto ns m (append done (entry x node end))
          (Apart-append ns done x node a single) us in
      ground (arith, first, rest, append_entry done x node ns)

-- What is copied at a path is copied into what stands there, and nothing else changes.
copy_entries_at :
    (p : FilePath) (ns : Entries) (fs c c' : Node)
    → stat p fs ≡ found c
    → copy_entries [] ns c ≡ (ok tt, c')
    → (fs' : Node) × (copy_entries p ns fs ≡ (ok tt, fs'))
      × (stat p fs' ≡ found c')
      × SameBeside p fs fs'
unfolding stat
copy_entries_at [] ns fs c c' h copied = (c', ground (arith, copied), refl, λ q d. Diverge_nil q d)
copy_entries_at (x ∷ p) ns (file _) c c' h copied = ground arith
copy_entries_at (x ∷ p) ns (dir m es) c c' h copied = elim (find-cases x es) [
  | inr e ↦ ground (arith, e)
  | inl (c0, e) ↦
      let (c0', copied', there, beside) = copy_entries_at p ns c0 c c' (ground (arith, e)) copied in
      (
        dir m (set x c0' es),
        copy_entries_below x p ns m es c0 c0' e copied',
        ground (arith, find-set x c0' es, there),
        SameBeside-set x p m es c0 c0' e beside,
      )
]

-- A folder made at a path where nothing is.
pub copy_node_onto_missing :
    (dst : FilePath) (mode : ℕ) (es : Entries) (fs : Node)
    → Distinct (dir mode es)
    → stat dst fs ≡ missing
    → (fs' : Node) × (copy_node dst (dir mode es) fs ≡ (ok tt, fs'))
      × (stat dst fs' ≡ found (dir mode es))
      × SameBeside dst fs fs'
unfolding copy_node
copy_node_onto_missing dst mode es fs u absent =
    let (fs1, made, empty, beside1) = mkdir_all_at_missing dst mode fs absent in
    let (fs2, copied, there, beside2) =
      copy_entries_at dst es fs1 (dir mode end) (dir mode es) empty
        (copy_entries_onto es mode end (Apart-end es) u) in
    (fs2, ground (arith, made, copied), there, λ q d. beside2 q d ∙ beside1 q d)

-- The copy of a folder to a path where nothing is.
pub copy_folder_onto_missing :
    (src dst : FilePath) (mode : ℕ) (es : Entries) (fs : Node)
    → stat src fs ≡ found (dir mode es)
    → Distinct (dir mode es)
    → stat dst fs ≡ missing
    → (fs' : Node) × (copy_folder_with_all_files src dst fs ≡ (ok tt, fs'))
      × (stat dst fs' ≡ found (dir mode es))
      × SameBeside dst fs fs'
unfolding copy_folder_with_all_files
copy_folder_onto_missing src dst mode es fs source u absent =
    let (fs', copied, there, beside) = copy_node_onto_missing dst mode es fs u absent in
    (fs', ground (arith, source, copied), there, beside)

-- A folder in which no directory has two entries of one name is copied to a path where nothing is: the
-- call succeeds, the path then holds the folder's whole tree, modes included, and a path that parts
-- from it holds what it held before, as that of the source does if it parts from it.
pub copy_folder-copies :
    (src dst other : FilePath) (mode : ℕ) (es : Entries) (fs : Node)
    → stat src fs ≡ found (dir mode es)
    → Distinct (dir mode es)
    → stat dst fs ≡ missing
    → Diverge other dst
    → (fs' : Node) × (copy_folder_with_all_files src dst fs ≡ (ok tt, fs'))
      × (stat dst fs' ≡ found (dir mode es))
      × (stat other fs' ≡ stat other fs)
copy_folder-copies src dst other mode es fs source u absent d =
    let (fs', copied, there, beside) =
      copy_folder_onto_missing src dst mode es fs source u absent in
    (fs', copied, there, beside other d)
