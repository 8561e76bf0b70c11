-- ===== src/Startup/Prepare.antt =====
-- `startChainSimulator` of cmd/chainsimulator/main.go up to its checks of the numbers of validators:
-- what is read and fetched before a chain is made.
use mx_chain_simulator_go.Common.{
  ⊤, String, Bool, true, false, Option, none, some, List, [], Bytes, codes, if◌then◌else◌,
}
use mx_chain_simulator_go.Common.Int.{ℤ, pos, negsuc, is_nonpositive}
use mx_chain_simulator_go.Common.Outcome.{
  Error, message, wrap, Action, pure, lift, ◌>>=◌, ◌>>◌, map_error, Try, value, error,
}
use mx_chain_simulator_go.Config.{Config, OverrideConfigs}
use mx_chain_simulator_go.Config.Overrides.{read_all}
use mx_chain_simulator_go.Go.Os.{Node, FilePath}
use mx_chain_simulator_go.Configs.Tags.{Module}
use mx_chain_simulator_go.Configs.Fetcher.{GitHandler}
use mx_chain_simulator_go.Startup.Flags
use mx_chain_simulator_go.Startup.Flags.{CliContext, apply_flags}
use mx_chain_simulator_go.Startup.OverrideFiles.{determine_override_config_files}
use mx_chain_simulator_go.Startup.Logger.{Logger, initialize_logger}
use mx_chain_simulator_go.Startup.Fetch.{fetch_configs}

-- What the program stands on: its state with a tree of files in it, the logger, the readers of TOML
-- files, the names of a path's text, and what `fetchConfigs` asks for.
pub record Host (State OverridableConfig : Type 0) : Type 1 where
  pub files : State → Node
  pub with_files : State → Node → State
  pub logger : Logger State
  pub load_config : State → Bytes → Try Config
  pub load_overrides : State → Bytes → Try (OverrideConfigs OverridableConfig)
  pub names : Bytes → FilePath
  pub temp_dir : FilePath
  pub git : GitHandler
  pub build_info : Option (List Module)

abbrev pub is_negative : ℤ → Bool
is_negative (pos _) = false
is_negative (negsuc _) = true

-- The numbers of validators and of waiting validators.
pub record Validators : Type 0 where
  pub shard : ℤ
  pub waiting_shard : ℤ
  pub meta : ℤ
  pub waiting_meta : ℤ

abbrev invalid : Bytes → Try Validators
invalid what = error (message what)

unfoldable pub check_validators : CliContext → Try Validators
check_validators ctx =
    let shard = ctx.global_int Flags.num_validators_per_shard.name in
    let waiting_shard = ctx.global_int Flags.num_waiting_validators_per_shard.name in
    let meta = ctx.global_int Flags.num_validators_meta.name in
    let waiting_meta = ctx.global_int Flags.num_waiting_validators_meta.name in
    if is_nonpositive shard
    then invalid (codes "invalid value for the number of validators per shard")
    else if is_negative waiting_shard
    then invalid (codes "invalid value for the number of waiting validators per shard")
    else if is_nonpositive meta
    then invalid (codes "invalid value for the number of validators for metachain")
    else if is_negative waiting_meta
    then invalid (codes "invalid value for the number of waiting validators for metachain")
    else value (record {
      shard = shard;
      waiting_shard = waiting_shard;
      meta = meta;
      waiting_meta = waiting_meta;
    })

module _ {State OverridableConfig : Type 0} (host : Host State OverridableConfig)
    (ctx : CliContext) where
  open host use {logger}

  abbrev pub on_files : {A : Type 0} → Action Node A → Action State A
  on_files m s = let (r, fs) = m (host.files s) in (r, host.with_files s fs)

  abbrev while : String → Error → Error
  while what e = wrap [] e (codes what)

  unfoldable pub load_main_config : Bytes → Action State Config
  load_main_config filepath s = lift (host.load_config s filepath) s

  -- What the rest of the program works with.
  pub record Prepared : Type 0 where
    pub config : Config
    pub override_configs : OverrideConfigs OverridableConfig
    pub file_logging : Option logger.FileLogging
    pub validators : Validators

  -- From the end of the fetching on; the result is `none` where the program is to end there.
  unfoldable pub check_start :
      Config
      → OverrideConfigs OverridableConfig
      → Option logger.FileLogging
      → Action State (Option Prepared)
  unfolding check_validators
  check_start cfg override_cfg file_logging =
      elim (ctx.global_bool Flags.fetch_configs_and_close.name) [
        | true ↦ pure none
        | false ↦ do
          validators ← lift (check_validators ctx)
          pure (
              some (record {
                config = cfg;
                override_configs = override_cfg;
                file_logging = file_logging;
                validators = validators;
              }))
      ]

  abbrev pub fetch : Config → Action State ⊤
  fetch cfg = map_error (while " while fetching configs") (
      on_files (
        fetch_configs host.temp_dir host.git host.build_info
          (ctx.global_bool Flags.skip_configs_download.name) cfg
          (host.names (ctx.global_string Flags.path_to_node_configs.name))
          (host.names (ctx.global_string Flags.path_to_proxy_configs.name))))

  abbrev pub start_logging : Config → Action State (Option logger.FileLogging)
  start_logging cfg =
      map_error (while " while initializing the logger") (initialize_logger logger ctx cfg)

  -- From the logger on.
  abbrev pub with_overrides :
      Config → OverrideConfigs OverridableConfig → Action State (Option Prepared)
  with_overrides cfg override_cfg =
      start_logging cfg >>= λ file_logging. fetch cfg >> check_start cfg override_cfg file_logging

  abbrev pub read_overrides : Action State (OverrideConfigs OverridableConfig)
  read_overrides =
      map_error (while " while loading the node override config files")
        (λ s. lift (read_all (host.load_overrides s) (determine_override_config_files ctx)) s)

  -- From the override files on.
  abbrev pub with_config : Config → Action State (Option Prepared)
  with_config cfg = read_overrides >>= with_overrides (apply_flags ctx cfg)

  abbrev pub read_config : Action State Config
  read_config =
      map_error (while " while loading the config file")
        (load_main_config (ctx.global_string Flags.configuration_file.name))

  unfoldable pub prepare : Action State (Option Prepared)
  unfolding load_main_config check_start
  prepare = read_config >>= with_config
