-- ===== src/Go/Os.antt =====
-- Package os over a tree of files and directories. A path is the list of its names, from the root.
pub mod Laws
pub mod Calls
pub mod Files
use mx_chain_simulator_go.Common.{
  ℕ, Bool, true, false, List, [], ◌∷◌, Bytes, bytes_eq, codes, if◌then◌else◌,
}
use mx_chain_simulator_go.Common.Outcome.{Error, message, Try, value, error}

-- A directory has a mode and entries in the order of their making; the mode of a file is left out.
mutual
  pub data Node : Type 0 where
    file : Bytes → Node
    dir : ℕ → Entries → Node

  pub data Entries : Type 0 where
    end : Entries
    entry : Bytes → Node → Entries → Entries

abbrev pub FilePath : Type 0
FilePath = List Bytes

abbrev pub not_exist : Error
not_exist = message (codes "no such file or directory")

abbrev pub not_directory : Error
not_directory = message (codes "not a directory")

abbrev pub is_directory : Error
is_directory = message (codes "is a directory")

-- The answer of `os.Stat`.
pub data Stat : Type 0 where
  found : Node → Stat
  missing : Stat
  below_file : Stat

unfoldable pub find : Bytes → Entries → Stat
find name end = missing
find name (entry x node es) =
    let rest = find name es in if bytes_eq name x then found node else rest

-- An entry is replaced where it stands, or added behind the others.
unfoldable pub set : Bytes → Node → Entries → Entries
set name node end = entry name node end
set name node (entry x old es) =
    let rest = set name node es in if bytes_eq name x then entry x node es else entry x old rest

unfoldable pub drop : Bytes → Entries → Entries
drop name end = end
drop name (entry x node es) =
    let rest = drop name es in if bytes_eq name x then rest else entry x node rest

-- `os.Stat(path)`
unfoldable pub stat : FilePath → Node → Stat
unfolding find
stat [] node = found node
stat (name ∷ path) (file _) = below_file
stat (name ∷ path) (dir _ es) = elim (find name es) [
  | found node ↦ stat path node
  | missing ↦ missing
  | below_file ↦ below_file
]

-- A directory with an entry set to what a call made of it.
abbrev pub with_entry : ℕ → Bytes → Entries → Try Node → Try Node
with_entry mode name es (value node) = value (dir mode (set name node es))
with_entry mode name es (error e) = error e

-- `os.MkdirAll(path, mode)`
unfoldable pub mkdir_all : FilePath → ℕ → Node → Try Node
unfolding find set
mkdir_all [] mode (dir m es) = value (dir m es)
mkdir_all path mode (file _) = error not_directory
mkdir_all (name ∷ path) mode (dir m es) = elim (find name es) [
  | found node ↦ with_entry m name es (mkdir_all path mode node)
  | missing ↦ with_entry m name es (mkdir_all path mode (dir mode end))
  | below_file ↦ error not_directory
]

-- `os.Create(path)`, and the content that is written to the file.
unfoldable pub create : FilePath → Bytes → Node → Try Node
unfolding find set
create [] content (file _) = value (file content)
create [] content (dir _ _) = error is_directory
create (name ∷ path) content (file _) = error not_directory
create (name ∷ []) content (dir m es) = elim (find name es) [
  | found node ↦ with_entry m name es (create [] content node)
  | missing ↦ value (dir m (set name (file content) es))
  | below_file ↦ error not_directory
]
create (name ∷ x ∷ path) content (dir m es) = elim (find name es) [
  | found node ↦ with_entry m name es (create (x ∷ path) content node)
  | missing ↦ error not_exist
  | below_file ↦ error not_directory
]

-- `os.RemoveAll(path)`, which has no error where there is nothing to remove.
unfoldable pub remove_all : FilePath → Node → Node
unfolding find set drop
remove_all path (file content) = file content
remove_all [] (dir m es) = dir m es
remove_all (name ∷ []) (dir m es) = dir m (drop name es)
remove_all (name ∷ x ∷ path) (dir m es) = elim (find name es) [
  | found node ↦ dir m (set name (remove_all (x ∷ path) node) es)
  | missing ↦ dir m es
  | below_file ↦ dir m es
]
