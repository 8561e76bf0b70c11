-- ===== src/Configs/Copy.antt =====
-- pkg/proxy/configs/copy.go: a folder is copied with all its files, over the file tree of package os.
pub mod Laws
use mx_chain_simulator_go.Common.{⊤, List, [], ◌∷◌, ◌++◌, Bytes}
use mx_chain_simulator_go.Common.Outcome.{
  Action, Outcome, ok, err, pure, fail, ◌>>=◌, ◌>>◌, Try, value, error,
}
use mx_chain_simulator_go.Go.Os
use mx_chain_simulator_go.Go.Os.{
  Node, file, dir, Entries, end, entry, FilePath, Stat, found, missing, below_file, stat, mkdir_all,
  create, not_exist, not_directory,
}

-- A call that changes the tree, or leaves it and returns an error.
abbrev pub on_tree : (Node → Try Node) → Action Node ⊤
on_tree f fs = elim (f fs) [ value fs' ↦ (ok tt, fs') | error e ↦ (err e, fs) ]

-- `filepath.Walk` over a folder outside `dst`, which the calls do not change, with its function: a
-- directory is made, then its entries are visited; a file is created and its content copied.
unfoldable mutual
  unfolding mkdir_all create

  pub copy_node : FilePath → Node → Action Node ⊤
  copy_node dst (file content) = on_tree (create dst content)
  copy_node dst (dir mode es) = on_tree (mkdir_all dst mode) >> copy_entries dst es

  pub copy_entries : FilePath → Entries → Action Node ⊤
  copy_entries dst end = pure tt
  copy_entries dst (entry name node es) = copy_node (dst ++ name ∷ []) node >> copy_entries dst es

unfoldable pub copy_folder_with_all_files : FilePath → FilePath → Action Node ⊤
unfolding stat copy_node
copy_folder_with_all_files src dst fs = elim (stat src fs) [
  | found node ↦ copy_node dst node fs
  | missing ↦ fail not_exist fs
  | below_file ↦ fail not_directory fs
]
