-- ===== src/Startup/Fetch.antt =====
-- `fetchConfigs` of cmd/chainsimulator/main.go.
use mx_chain_simulator_go.Common.{⊤, Bool, true, false, Option, none, some, List, codes}
use mx_chain_simulator_go.Common.Outcome.{Error, message, Action, pure, fail, lift, ◌>>=◌, ◌>>◌}
use mx_chain_simulator_go.Config.{Config}
use mx_chain_simulator_go.Go.Os.{Node, FilePath}
use mx_chain_simulator_go.Configs.Tags.{Module}
use mx_chain_simulator_go.Configs.Fetcher.{
  GitHandler, new_configs_fetcher, fetch_node_configs, fetch_proxy_configs,
}

abbrev pub no_build_info : Error
no_build_info = message (codes "cannot read build info")

-- `debug.ReadBuildInfo()` is the dependencies of the build, or nothing.
module _ (temp_dir : FilePath) (git : GitHandler) (build_info : Option (List Module)) where
  unfoldable pub fetch_configs : Bool → Config → FilePath → FilePath → Action Node ⊤
  fetch_configs skip_download cfg node_configs proxy_configs = elim build_info [
    | none ↦ fail no_build_info
    | some deps ↦ elim skip_download [
      | true ↦ pure tt
      | false ↦ do
        f ← lift (new_configs_fetcher cfg.simulator.mx_chain_repo cfg.simulator.mx_proxy_repo git)
        fetch_node_configs temp_dir f deps node_configs
        fetch_proxy_configs temp_dir f deps proxy_configs
    ]
  ]
