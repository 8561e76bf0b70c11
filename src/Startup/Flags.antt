-- ===== src/Startup/Flags.antt =====
-- cmd/chainsimulator/flags.go: the flags, and the configuration with the flags that are set.
use mx_chain_simulator_go.Common.{ℕ, ◌%◌, ◌^◌, Bool, true, false, ◌++◌, Bytes, codes, if◌then◌else◌}
use mx_chain_simulator_go.Common.Int.{ℤ, pos}
use mx_chain_simulator_go.Config.{Config, SimulatorConfig, BlocksGeneratorConfig}

-- A flag of urfave/cli: its name and its default.
pub record Flag {ℓ} (V : Type ℓ) : Type ℓ where
  pub name : Bytes
  pub default : V

abbrev flag {ℓ} : {V : Type ℓ} → Bytes → V → Flag V
flag n v = record { name = n; default = v }

abbrev pub node_override_default_filename : Bytes
node_override_default_filename = codes "nodeOverrideDefault.toml"

abbrev pub node_override_default_path : Bytes
node_override_default_path = codes "./config/" ++ node_override_default_filename

abbrev pub configuration_file : Flag Bytes
configuration_file = flag (codes "config") (codes "./config/config.toml")

abbrev pub node_override_configuration_file : Flag Bytes
node_override_configuration_file = flag (codes "node-override-config") node_override_default_path

-- The default is `"*:" + logger.LogInfo.String()`, whose second part is mx-chain-logger-go's.
abbrev pub log_level : Bytes → Flag Bytes
log_level log_info = flag (codes "log-level") (codes "*:" ++ log_info)

abbrev pub log_save_file : Flag Bool
log_save_file = flag (codes "log-save") false

abbrev pub disable_ansi_color : Flag Bool
disable_ansi_color = flag (codes "disable-ansi-color") false

abbrev pub path_to_node_configs : Flag Bytes
path_to_node_configs = flag (codes "node-configs") (codes "./config/node/config")

abbrev pub path_to_proxy_configs : Flag Bytes
path_to_proxy_configs = flag (codes "proxy-configs") (codes "./config/proxy/config")

abbrev pub path_where_to_save_logs : Flag Bytes
path_where_to_save_logs = flag (codes "path-log-save") (codes "./")

-- The default is the time when the program starts.
abbrev pub start_time : ℤ → Flag ℤ
start_time now = flag (codes "start-time") now

abbrev pub rounds_per_epoch : Flag ℤ
rounds_per_epoch = flag (codes "rounds-per-epoch") (pos 20)

abbrev pub num_of_shards : Flag ℤ
num_of_shards = flag (codes "num-of-shards") (pos 3)

abbrev pub server_port : Flag ℤ
server_port = flag (codes "server-port") (pos 8085)

abbrev pub round_duration_in_ms : Flag ℤ
round_duration_in_ms = flag (codes "round-duration") (pos 6000)

-- A `BoolTFlag`, which is true when it is absent.
abbrev pub bypass_transactions_signature : Flag Bool
bypass_transactions_signature = flag (codes "bypass-txs-signature") true

abbrev pub num_validators_per_shard : Flag ℤ
num_validators_per_shard = flag (codes "num-validators-per-shard") (pos 1)

abbrev pub num_waiting_validators_per_shard : Flag ℤ
num_waiting_validators_per_shard = flag (codes "num-waiting-validators-per-shard") (pos 0)

abbrev pub num_validators_meta : Flag ℤ
num_validators_meta = flag (codes "num-validators-meta") (pos 1)

abbrev pub num_waiting_validators_meta : Flag ℤ
num_waiting_validators_meta = flag (codes "num-waiting-validators-meta") (pos 0)

abbrev pub initial_round : Flag ℕ
initial_round = flag (codes "initial-round") 0

abbrev pub initial_nonce : Flag ℕ
initial_nonce = flag (codes "initial-nonce") 0

abbrev pub initial_epoch : Flag ℕ
initial_epoch = flag (codes "initial-epoch") 0

abbrev pub auto_generate_blocks : Flag Bool
auto_generate_blocks = flag (codes "auto-generate-blocks") false

abbrev pub block_time_in_ms : Flag ℕ
block_time_in_ms = flag (codes "block-time-in-milliseconds") 6000

abbrev pub skip_configs_download : Flag Bool
skip_configs_download = flag (codes "skip-configs-download") false

abbrev pub fetch_configs_and_close : Flag Bool
fetch_configs_and_close = flag (codes "fetch-configs-and-close") false

-- `*cli.Context` as the program reads it.
pub record CliContext : Type 0 where
  pub is_set : Bytes → Bool
  pub global_string : Bytes → Bytes
  pub global_int : Bytes → ℤ
  pub global_int64 : Bytes → ℤ
  pub global_uint : Bytes → ℕ
  pub global_uint64 : Bytes → ℕ
  pub global_bool : Bytes → Bool

-- `cfg.Config.Simulator.f = v` and `cfg.Config.BlocksGenerator.f = v`, by an update of the part.
abbrev with_simulator : Config → SimulatorConfig → Config
with_simulator cfg simulator = record cfg { simulator = simulator }

abbrev with_generator : Config → BlocksGeneratorConfig → Config
with_generator cfg generator = record cfg { blocks_generator = generator }

module _ (ctx : CliContext) where
  -- The epochs and the shards.
  unfoldable pub apply_shard_flags : Config → Config
  apply_shard_flags cfg =
      let cfg =
        if ctx.is_set rounds_per_epoch.name
        then with_simulator cfg
            (record cfg.simulator { rounds_per_epoch = ctx.global_int rounds_per_epoch.name })
        else cfg in
      if ctx.is_set num_of_shards.name
      then with_simulator cfg
          (record cfg.simulator { num_of_shards = ctx.global_int num_of_shards.name })
      else cfg

  -- The server and the rounds.
  unfoldable pub apply_server_flags : Config → Config
  apply_server_flags cfg =
      let cfg =
        if ctx.is_set server_port.name
        then with_simulator cfg
            (record cfg.simulator { server_port = ctx.global_int server_port.name })
        else cfg in
      if ctx.is_set round_duration_in_ms.name
      then with_simulator cfg
          (record cfg.simulator { round_duration_in_ms = ctx.global_int round_duration_in_ms.name })
      else cfg

  -- The round, nonce and epoch at which the chain starts.
  unfoldable pub apply_initial_flags : Config → Config
  apply_initial_flags cfg =
      let cfg =
        if ctx.is_set initial_round.name
        then with_simulator cfg
            (record cfg.simulator { initial_round = ctx.global_int64 initial_round.name })
        else cfg in
      let cfg =
        if ctx.is_set initial_nonce.name
        then with_simulator cfg
            (record cfg.simulator { initial_nonce = ctx.global_uint64 initial_nonce.name })
        else cfg in
      if ctx.is_set initial_epoch.name
      then with_simulator cfg
          (record cfg.simulator { initial_epoch = ctx.global_uint initial_epoch.name % 2 ^ 32 })
      else cfg

  -- The flags of the blocks generator.
  unfoldable pub apply_generator_flags : Config → Config
  apply_generator_flags cfg =
      let cfg =
        if ctx.is_set auto_generate_blocks.name
        then with_generator cfg (record cfg.blocks_generator {
          auto_generate_blocks = ctx.global_bool auto_generate_blocks.name;
        })
        else cfg in
      if ctx.is_set block_time_in_ms.name
      then with_generator cfg (record cfg.blocks_generator {
        block_time_in_ms = ctx.global_uint64 block_time_in_ms.name;
      })
      else cfg

  unfoldable pub apply_flags : Config → Config
  unfolding apply_shard_flags apply_server_flags apply_initial_flags apply_generator_flags
  apply_flags cfg =
      apply_generator_flags (apply_initial_flags (apply_server_flags (apply_shard_flags cfg)))
