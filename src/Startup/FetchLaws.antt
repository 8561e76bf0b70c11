-- ===== src/Startup/FetchLaws.antt =====
-- Both fetches of `fetchConfigs`, one behind the other, and a later run.
use mx_chain_simulator_go.Common.{ℕ, ◌≡◌, ◌∙◌, refl, false, some, List, Bytes, arith}
use mx_chain_simulator_go.Common.Outcome.{ok}
use mx_chain_simulator_go.Config.{Config}
use mx_chain_simulator_go.Go.Os.{Node, dir, Entries, FilePath, stat, found, missing}
use mx_chain_simulator_go.Go.Os.Laws.{Diverge, Diverge-sym, SameBeside}
use mx_chain_simulator_go.Configs.Tags.{Module, extract_tag}
use mx_chain_simulator_go.Configs.Copy.Laws.{Distinct}
use mx_chain_simulator_go.Configs.Fetcher.{
  GitHandler, Fetcher, app_node, app_proxy, path_to_repo, path_to_repo_configs, folder_exists,
  fetch_if_missing, fetch_node_configs, fetch_proxy_configs, new_configs_fetcher,
}
use mx_chain_simulator_go.Configs.Fetcher.Laws.{fetch_if_missing_beside}
use mx_chain_simulator_go.Startup.Fetch.{fetch_configs}

module _ (temp_dir : FilePath) (git : GitHandler) where
  -- A repository as git gives it: wherever nothing stands at the place of the clone, cloning and the
  -- checkout of the version succeed, the part's configurations are then that folder of the clone, and
  -- nothing else has changed.
  pub record Serves (repo version app : Bytes) (mode : ℕ) (es : Entries) : Type 0 where
    pub cloned : Node → Node
    pub checked_out : Node → Node
    pub clones :
        (fs : Node)
        → stat (path_to_repo temp_dir) fs ≡ missing
        → git.clone repo (path_to_repo temp_dir) fs ≡ (ok tt, cloned fs)
    pub checks_out :
        (fs : Node)
        → stat (path_to_repo temp_dir) fs ≡ missing
        → git.checkout (path_to_repo temp_dir) version (cloned fs) ≡ (ok tt, checked_out fs)
    pub brings :
        (fs : Node)
        → stat (path_to_repo temp_dir) fs ≡ missing
        → stat (path_to_repo_configs temp_dir app) (checked_out fs) ≡ found (dir mode es)
    pub keeps :
        (fs : Node)
        → stat (path_to_repo temp_dir) fs ≡ missing
        → SameBeside (path_to_repo temp_dir) fs (checked_out fs)
    pub no_doubles : Distinct (dir mode es)

  module _ (f : Fetcher) (same : f.git_fetcher ≡ git) where
    -- One fetch: the folder arrives, the clone is gone, and what is beside both stays.
    fetch_one :
        (repo : Bytes) (deps : List Module) (path : FilePath) (app : Bytes) (mode : ℕ)
        (es : Entries) (fs : Node)
        → Serves repo (extract_tag deps repo) app mode es
        → stat path fs ≡ missing
        → stat (path_to_repo temp_dir) fs ≡ missing
        → Diverge path (path_to_repo temp_dir)
        → (fs' : Node) × (fetch_if_missing temp_dir f repo deps path app fs ≡ (ok tt, fs'))
          × (stat path fs' ≡ found (dir mode es))
          × (stat (path_to_repo temp_dir) fs' ≡ missing)
          × ((q : FilePath)
              → Diverge q path
              → Diverge q (path_to_repo temp_dir)
              → stat q fs' ≡ stat q fs)
    fetch_one repo deps path app mode es fs serves absent free d =
        let fs2 = serves.checked_out fs in
        let (fs', done, there, gone, beside) =
          fetch_if_missing_beside temp_dir f repo deps path app fs (serves.cloned fs) fs2 mode es
            absent (ground (arith, same, serves.clones fs free))
            (ground (arith, same, serves.checks_out fs free)) (serves.brings fs free)
            serves.no_doubles (serves.keeps fs free path d ∙ absent) d in
        (fs', done, there, gone, λ q d1 d2. beside q d1 d2 ∙ serves.keeps fs free q d2)

    -- Nothing is fetched to a place where something stands.
    fetch_none :
        (repo : Bytes) (deps : List Module) (path : FilePath) (app : Bytes) (n fs : Node)
        → stat path fs ≡ found n
        → fetch_if_missing temp_dir f repo deps path app fs ≡ (ok tt, fs)
    unfolding fetch_if_missing folder_exists
    fetch_none repo deps path app n fs h = ground (arith, h)

  -- If the two repositories can be cloned and have the two folders, nothing is at the two places nor
  -- at the place of the clone, and these three part from one another, then `fetchConfigs` brings the
  -- node's and the proxy's configurations to their places and leaves no clone; and a second run, with
  -- the same repositories or others, succeeds and changes nothing.
  pub fetch_configs-twice :
      (deps : List Module) (cfg later : Config) (node_configs proxy_configs : FilePath)
      (node_mode proxy_mode : ℕ) (node_es proxy_es : Entries) (fs : Node)
      → Serves cfg.simulator.mx_chain_repo
          (extract_tag deps cfg.simulator.mx_chain_repo)
          app_node
          node_mode
          node_es
      → Serves cfg.simulator.mx_proxy_repo
          (extract_tag deps cfg.simulator.mx_proxy_repo)
          app_proxy
          proxy_mode
          proxy_es
      → stat node_configs fs ≡ missing
      → stat proxy_configs fs ≡ missing
      → stat (path_to_repo temp_dir) fs ≡ missing
      → Diverge node_configs (path_to_repo temp_dir)
      → Diverge proxy_configs (path_to_repo temp_dir)
      → Diverge node_configs proxy_configs
      → (fs' : Node) × (fetch_configs temp_dir git
            (some deps)
            false
            cfg
            node_configs
            proxy_configs
            fs
          ≡ (ok tt, fs'))
        × (stat node_configs fs' ≡ found (dir node_mode node_es))
        × (stat proxy_configs fs' ≡ found (dir proxy_mode proxy_es))
        × (stat (path_to_repo temp_dir) fs' ≡ missing)
        × (fetch_configs temp_dir git (some deps) false later node_configs proxy_configs fs'
            ≡ (ok tt, fs'))
  unfolding fetch_configs fetch_node_configs fetch_proxy_configs new_configs_fetcher
  fetch_configs-twice deps cfg later node_configs proxy_configs node_mode proxy_mode node_es
        proxy_es fs node proxy no_node no_proxy free dn dp d =
      let fetcher : Config → Fetcher = λ c. record {
        git_fetcher = git;
        mx_chain_node_repo = c.simulator.mx_chain_repo;
        mx_chain_proxy = c.simulator.mx_proxy_repo;
      } in
      let (fs1, done1, there1, gone1, beside1) =
        fetch_one (fetcher cfg) refl cfg.simulator.mx_chain_repo deps node_configs app_node
          node_mode node_es fs node no_node free dn in
      let (fs2, done2, there2, gone2, beside2) =
        fetch_one (fetcher cfg) refl cfg.simulator.mx_proxy_repo deps proxy_configs app_proxy
          proxy_mode proxy_es fs1 proxy
          (beside1 proxy_configs (Diverge-sym node_configs proxy_configs d) dp ∙ no_proxy) gone1
          dp in
      let there1' = beside2 node_configs d dn ∙ there1 in
      (
        fs2,
        ground (arith, done1, done2),
        there1',
        there2,
        gone2,
        ground (
          arith,
          fetch_none (fetcher later) refl later.simulator.mx_chain_repo deps node_configs app_node _
              fs2 there1',
          fetch_none (fetcher later) refl later.simulator.mx_proxy_repo deps proxy_configs app_proxy
              _ fs2 there2,
        ),
      )
