-- ===== src/Tests/FetchRuns.antt =====
-- A fetch from a small repository, one that succeeds and one whose checkout fails.
use mx_chain_simulator_go.Common.{◌≡◌, refl, List, [], ◌∷◌, codes, arith, if◌then◌else◌, is_empty}
use mx_chain_simulator_go.Common.Outcome.{Error, ok, err, message}
use mx_chain_simulator_go.Go.Os.{
  Node, file, dir, Entries, end, entry, FilePath, found, missing, below_file, stat, find,
}
use mx_chain_simulator_go.Configs.Tags.{Module, extract_tag, extract_version_or_commit}
use mx_chain_simulator_go.Configs.Fetcher.{GitHandler, Fetcher, fetch_if_missing}
use mx_chain_simulator_go.Configs.Fetcher.Laws.{CloneRefuses, fetch_if_missing_stuck}
use mx_chain_simulator_go.Go.Strings.{contains, has_prefix}

abbrev configs : Entries
configs =
    entry (codes "config.toml") (file (codes "a=1"))
      (entry (codes "api") (dir 493 (entry (codes "v1.toml") (file (codes "b=2")) end)) end)

abbrev clone_tree : Node
clone_tree = dir 493 (
    entry (codes "cmd")
      (dir 493 (entry (codes "node") (dir 493 (entry (codes "config") (dir 493 configs) end)) end))
      end)

-- The temporary directory is /tmp.
abbrev pub temp : FilePath
temp = codes "tmp" ∷ []

abbrev root : Entries → Node
root in_tmp = dir 493 (entry (codes "tmp") (dir 511 in_tmp) end)

abbrev cloned : Node
cloned = root (entry (codes "repo") clone_tree end)

abbrev node_configs : FilePath
node_configs = codes "config" ∷ codes "node" ∷ codes "config" ∷ []

abbrev repo_exists : Error
repo_exists = message (codes "destination path 'repo' already exists and is not an empty directory")

abbrev no_version : Error
no_version = message (codes "pathspec did not match")

-- A git that clones to /tmp/repo alone, and checks out any version but the empty one.
abbrev pub git : GitHandler
git = record {
  clone = λ repo p fs. elim (stat p fs) [
    | found n ↦ (err repo_exists, fs)
    | below_file ↦ (err repo_exists, fs)
    | missing ↦ (ok tt, cloned)
  ];
  checkout = λ p version fs. if is_empty version then (err no_version, fs) else (ok tt, fs);
}

abbrev fetcher : Fetcher
fetcher = record {
  git_fetcher = git;
  mx_chain_node_repo = codes "https://x/node";
  mx_chain_proxy = codes "https://x/proxy";
}

abbrev pub deps : List Module
deps = record { path = codes "x/node"; version = codes "v1.0.0" } ∷ []

git-CloneRefuses : CloneRefuses temp fetcher
git-CloneRefuses repo p fs mode name n es h = (repo_exists, ground (arith, h))

-- The proxy's repository is no dependency of this build, so its version is empty.
fetch_if_missing_stuck_example :
    (fetch_if_missing temp fetcher
        (codes "https://x/proxy")
        deps
        (codes "p" ∷ [])
        (codes "proxy")
        (root end)
      ≡ (err no_version, cloned))
    × ((e : Error) × (fetch_if_missing temp fetcher
            (codes "https://x/node")
            deps
            node_configs
            (codes "node")
            cloned
          ≡ (err e, cloned)))
unfolding stat find extract_tag extract_version_or_commit contains has_prefix
fetch_if_missing_stuck_example =
    fetch_if_missing_stuck temp fetcher (codes "https://x/proxy") deps (codes "p" ∷ [])
      (codes "proxy") (root end) cloned cloned 493 (codes "cmd") _ end no_version
      (codes "https://x/node") deps node_configs (codes "node") git-CloneRefuses refl refl refl refl
      refl
