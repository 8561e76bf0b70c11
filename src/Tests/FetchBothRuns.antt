-- ===== src/Tests/FetchBothRuns.antt =====
-- Both fetches from a git whose clones bring one tree.
use mx_chain_simulator_go.Common.{
  ◌≡◌, refl, ap, ◌∙◌, false, inl, inr, some, [], ◌∷◌, ◌++◌, codes, arith, Bytes,
}
use mx_chain_simulator_go.Common.Outcome.{ok}
use mx_chain_simulator_go.Config.{Config}
use mx_chain_simulator_go.Go.Os.{
  Node, file, dir, Entries, end, entry, FilePath, found, missing, stat, find,
}
use mx_chain_simulator_go.Go.Os.Laws.{SameBeside}
use mx_chain_simulator_go.Go.Os.Calls.{stat-append}
use mx_chain_simulator_go.Configs.Copy.{copy_node}
use mx_chain_simulator_go.Configs.Copy.Laws.{Distinct, copy_node_onto_missing}
use mx_chain_simulator_go.Configs.Fetcher.{GitHandler}
use mx_chain_simulator_go.Startup.Fetch.{fetch_configs}
use mx_chain_simulator_go.Startup.FetchLaws.{Serves, fetch_configs-twice}
use mx_chain_simulator_go.Tests.ConfigRuns.{cfg}
use mx_chain_simulator_go.Tests.FetchRuns.{temp, deps}

abbrev part : Bytes → Entries
part content = entry (codes "config") (dir 493 (entry (codes "config.toml") (file content) end)) end

-- One tree has the folders of the node and of the proxy.
abbrev tree : Entries
tree =
    entry (codes "cmd")
      (dir 493 (
        entry (codes "node") (dir 493 (part (codes "a=1")))
          (entry (codes "proxy") (dir 493 (part (codes "b=2"))) end)))
      end

abbrev git : GitHandler
git = record {
  clone = λ repo p fs. copy_node p (dir 493 tree) fs;
  checkout = λ p version fs. (ok tt, fs);
}

abbrev repo_path : FilePath
repo_path = temp ++ codes "repo" ∷ []

tree-Distinct : Distinct (dir 493 tree)
unfolding find
tree-Distinct = (
  refl,
  ((refl, ((refl, ((refl, (tt, tt)), tt)), (refl, ((refl, ((refl, (tt, tt)), tt)), tt)))), tt),
)

cloned_tree : Node → Node
cloned_tree fs = (git.clone [] repo_path fs).1

clones_tree :
    (repo : Bytes) (fs : Node)
    → stat repo_path fs ≡ missing
    → (git.clone repo repo_path fs ≡ (ok tt, cloned_tree fs))
      × (stat repo_path (cloned_tree fs) ≡ found (dir 493 tree))
      × SameBeside repo_path fs (cloned_tree fs)
unfolding cloned_tree
clones_tree repo fs h =
    let (fs', made, there, beside) = copy_node_onto_missing repo_path 493 tree fs tree-Distinct h in
    let same : cloned_tree fs ≡ fs' = ap (λ r. r.1) made in
    (ground (arith, made), ground (arith, same, there), λ q d. ground (arith, same, beside q d))

-- A part of the tree, by the names below the clone.
serves :
    (repo version app content : Bytes)
    → stat (codes "cmd" ∷ app ∷ codes "config" ∷ []) (dir 493 tree)
      ≡ found (dir 493 (entry (codes "config.toml") (file content) end))
    → Serves temp git repo version app 493 (entry (codes "config.toml") (file content) end)
unfolding find
serves repo version app content part = record {
  cloned = cloned_tree;
  checked_out = cloned_tree;
  clones = λ fs free. (clones_tree repo fs free).0;
  checks_out = λ fs free. refl;
  brings = λ fs free.
      stat-append repo_path (codes "cmd" ∷ app ∷ codes "config" ∷ []) (cloned_tree fs)
        (dir 493 tree) (clones_tree repo fs free).1
      ∙ part;
  keeps = λ fs free. (clones_tree repo fs free).2;
  no_doubles = (refl, (tt, tt));
}

abbrev root : Node
root = dir 493 (entry (codes "tmp") (dir 511 end) end)

abbrev place : Bytes → FilePath
place app = codes "config" ∷ app ∷ []

-- A second run, from other repositories.
abbrev later : Config
later = record cfg { simulator = record cfg.simulator { mx_chain_repo = [] } }

fetch_configs-twice_example :
    (fs : Node) × (fetch_configs temp git
        (some deps)
        false
        cfg
        (place (codes "node"))
        (place (codes "proxy"))
        root
      ≡ (ok tt, fs))
    × (stat (place (codes "node")) fs
        ≡ found (dir 493 (entry (codes "config.toml") (file (codes "a=1")) end)))
    × (stat (place (codes "proxy")) fs
        ≡ found (dir 493 (entry (codes "config.toml") (file (codes "b=2")) end)))
    × (stat repo_path fs ≡ missing)
    × (fetch_configs temp git
          (some deps)
          false
          later
          (place (codes "node"))
          (place (codes "proxy"))
          fs
        ≡ (ok tt, fs))
unfolding stat find
fetch_configs-twice_example =
    fetch_configs-twice temp git deps cfg later (place (codes "node")) (place (codes "proxy")) 493
      493 (entry (codes "config.toml") (file (codes "a=1")) end)
      (entry (codes "config.toml") (file (codes "b=2")) end) root
      (serves _ _ (codes "node") (codes "a=1") refl) (serves _ _ (codes "proxy") (codes "b=2") refl)
      refl refl refl (inl refl) (inl refl) (inr (inl refl))
