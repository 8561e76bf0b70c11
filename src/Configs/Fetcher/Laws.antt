-- ===== src/Configs/Fetcher/Laws.antt =====
-- A fetch that succeeds, and a fetch behind one that failed.
use mx_chain_simulator_go.Common.{ℕ, ◌≡◌, ◌∙◌, List, Bytes, codes, arith}
use mx_chain_simulator_go.Common.Outcome.{Error, ok, err}
use mx_chain_simulator_go.Go.Os
use mx_chain_simulator_go.Go.Os.{Node, dir, Entries, entry, FilePath, stat, found, missing}
use mx_chain_simulator_go.Go.Os.Laws.{Diverge, Diverge-sym}
use mx_chain_simulator_go.Go.Os.Calls.{remove_all_last, found_above}
use mx_chain_simulator_go.Configs.Tags.{Module, extract_tag}
use mx_chain_simulator_go.Configs.Copy.Laws.{Distinct, copy_folder_onto_missing}
use mx_chain_simulator_go.Configs.Fetcher.{
  Fetcher, path_to_repo, path_to_repo_configs, folder_exists, fetch_config_folder, fetch_if_missing,
}

module _ (temp_dir : FilePath) (f : Fetcher) where
  open (f.git_fetcher) use {clone, checkout}

  -- A fetch that succeeds, and what is seen beside the folder and the clone.
  pub fetch_if_missing_beside :
      (repo : Bytes) (deps : List Module) (path : FilePath) (app : Bytes) (fs fs1 fs2 : Node)
      (mode : ℕ) (es : Entries)
      → stat path fs ≡ missing
      → clone repo (path_to_repo temp_dir) fs ≡ (ok tt, fs1)
      → checkout (path_to_repo temp_dir) (extract_tag deps repo) fs1 ≡ (ok tt, fs2)
      → stat (path_to_repo_configs temp_dir app) fs2 ≡ found (dir mode es)
      → Distinct (dir mode es)
      → stat path fs2 ≡ missing
      → Diverge path (path_to_repo temp_dir)
      → (fs' : Node) × (fetch_if_missing temp_dir f repo deps path app fs ≡ (ok tt, fs'))
        × (stat path fs' ≡ found (dir mode es))
        × (stat (path_to_repo temp_dir) fs' ≡ missing)
        × ((q : FilePath)
            → Diverge q path
            → Diverge q (path_to_repo temp_dir)
            → stat q fs' ≡ stat q fs2)
  unfolding fetch_if_missing fetch_config_folder folder_exists
  fetch_if_missing_beside repo deps path app fs fs1 fs2 mode es absent cloned out source u absent2
        d =
      let (fs3, copied, there, beside) =
        copy_folder_onto_missing (path_to_repo_configs temp_dir app) path mode es fs2 source u
          absent2 in
      let (n, above) = found_above (path_to_repo temp_dir) _ fs2 _ source in
      let (gone, beside') =
        remove_all_last temp_dir (codes "repo") fs3 n
          (beside (path_to_repo temp_dir) (Diverge-sym path (path_to_repo temp_dir) d) ∙ above) in
      (
        Os.remove_all (path_to_repo temp_dir) fs3,
        ground (arith, absent, cloned, out, copied),
        beside' path d ∙ there,
        gone,
        λ q d1 d2. beside' q d2 ∙ beside q d1,
      )

  -- If nothing stands where the configurations go, cloning and the checkout of the build's version
  -- succeed, and the part's configurations are then a folder of the clone, with no two entries of one
  -- name in a directory, and there is still nothing where they go, which is outside the clone, then the
  -- fetch succeeds, the folder is where it was asked for, and the temporary clone is gone.
  pub fetch_if_missing_success :
      (repo : Bytes) (deps : List Module) (path : FilePath) (app : Bytes) (fs fs1 fs2 : Node)
      (mode : ℕ) (es : Entries)
      → stat path fs ≡ missing
      → clone repo (path_to_repo temp_dir) fs ≡ (ok tt, fs1)
      → checkout (path_to_repo temp_dir) (extract_tag deps repo) fs1 ≡ (ok tt, fs2)
      → stat (path_to_repo_configs temp_dir app) fs2 ≡ found (dir mode es)
      → Distinct (dir mode es)
      → stat path fs2 ≡ missing
      → Diverge path (path_to_repo temp_dir)
      → (fs' : Node) × (fetch_if_missing temp_dir f repo deps path app fs ≡ (ok tt, fs'))
        × (stat path fs' ≡ found (dir mode es))
        × (stat (path_to_repo temp_dir) fs' ≡ missing)
  fetch_if_missing_success repo deps path app fs fs1 fs2 mode es absent cloned out source u absent2
        d =
      let (fs', done, there, gone, _) =
        fetch_if_missing_beside repo deps path app fs fs1 fs2 mode es absent cloned out source u
          absent2 d in
      (fs', done, there, gone)

  -- `git clone` refuses a destination that exists and is not empty, and leaves all as it is.
  abbrev pub CloneRefuses : Type 0
  CloneRefuses =
      (repo : Bytes) (p : FilePath) (fs : Node) (mode : ℕ) (name : Bytes) (n : Node) (es : Entries)
      → stat p fs ≡ found (dir mode (entry name n es))
      → (e : Error) × (clone repo p fs ≡ (err e, fs))

  -- If the checkout fails, with git refusing to clone onto a folder that is not empty, the fetch
  -- returns its error and leaves the clone where it is; if that has an entry, any fetch behind it, of
  -- any repository to any place where nothing is, returns an error and changes nothing.
  pub fetch_if_missing_stuck :
      (repo : Bytes) (deps : List Module) (path : FilePath) (app : Bytes) (fs fs1 fs2 : Node)
      (mode : ℕ) (name : Bytes) (n : Node) (es : Entries) (e : Error) (repo' : Bytes)
      (deps' : List Module) (path' : FilePath) (app' : Bytes)
      → CloneRefuses
      → stat path fs ≡ missing
      → clone repo (path_to_repo temp_dir) fs ≡ (ok tt, fs1)
      → checkout (path_to_repo temp_dir) (extract_tag deps repo) fs1 ≡ (err e, fs2)
      → stat (path_to_repo temp_dir) fs2 ≡ found (dir mode (entry name n es))
      → stat path' fs2 ≡ missing
      → (fetch_if_missing temp_dir f repo deps path app fs ≡ (err e, fs2))
        × ((e' : Error) × (fetch_if_missing temp_dir f repo' deps' path' app' fs2 ≡ (err e', fs2)))
  unfolding fetch_if_missing fetch_config_folder folder_exists
  fetch_if_missing_stuck repo deps path app fs fs1 fs2 mode name n es e repo' deps' path' app'
        refuses absent cloned out left absent' =
      let (e', refused) = refuses repo' (path_to_repo temp_dir) fs2 mode name n es left in
      (ground (arith, absent, cloned, out), (e', ground (arith, absent', refused)))
