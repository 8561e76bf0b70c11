-- ===== src/Startup/Chain.antt =====
-- `startChainSimulator` of cmd/chainsimulator/main.go behind its checks: the chain is made, its system
-- accounts are set, its first block is generated, and the blocks generator is made; and the port of
-- the proxy.
use mx_chain_simulator_go.Common.{
  ⊤, ℕ, zero, suc, ◌+◌, Bool, Option, none, some, List, [], ◌∷◌, ◌++◌, Bytes, codes, length,
}
use mx_chain_simulator_go.Common.Int.{ℤ, pos, uint32}
use mx_chain_simulator_go.Common.Outcome.{
  Error, wrap, Outcome, ok, err, panics, Action, pure, fail, lift, ◌>>=◌, ◌>>◌,
}
use mx_chain_simulator_go.Facade.Interface.{SimulatorHandler}
use mx_chain_simulator_go.Go.Strconv.{atoi, itoa}
use mx_chain_simulator_go.Process.Factory.{AnyGenerator, create_blocks_generator}
use mx_chain_simulator_go.Startup.Flags
use mx_chain_simulator_go.Startup.Flags.{CliContext}
use mx_chain_simulator_go.Startup.Logger.{uint64}
use mx_chain_simulator_go.Startup.Prepare.{Host, Prepared}

abbrev pub temp_dir_pattern : Bytes
temp_dir_pattern = codes "mx-chainsimulator-*"

abbrev pub local_rest_api_interface : Bytes
local_rest_api_interface = codes "localhost"

-- `ArgsChainSimulator` of mx-chain-go. `AlterConfigsFunction` overrides the node's configuration by
-- `altered_by`; the configurator of the interfaces is one of free ports on `api_interface`.
pub record ArgsChainSimulator (OverridableConfig : Type 0) : Type 0 where
  pub bypass_tx_signature_check : Bool
  pub temp_dir : Bytes
  pub path_to_initial_config : Bytes
  pub num_of_shards : ℕ
  pub genesis_timestamp : ℤ
  pub round_duration_in_millis : ℕ
  pub rounds_per_epoch : Option ℕ
  pub api_interface : Bytes
  pub min_nodes_per_shard : ℕ
  pub num_nodes_waiting_list_shard : ℕ
  pub meta_chain_min_nodes : ℕ
  pub num_nodes_waiting_list_meta : ℕ
  pub initial_round : ℤ
  pub initial_nonce : ℕ
  pub initial_epoch : ℕ
  pub altered_by : List OverridableConfig
  pub vm_query_delay_after_start_in_ms : ℕ

-- What is called of mx-chain-go and of os. `new_chain_simulator` returns what the function that alters
-- the configurations left in `alterConfigsError`, and `set_system_account` is
-- `GetNodeHandler(shardID).SetKeyValueForAddress` of the system account with no keys.
pub record ChainMaker (State OverridableConfig : Type 0) : Type 0 where
  pub mkdir_temp : Bytes → Action State Bytes
  pub new_chain_simulator : ArgsChainSimulator OverridableConfig → Action State (Option Error)
  pub set_system_account : ℕ → Action State ⊤

module _ {OverridableConfig : Type 0} (sim : SimulatorHandler)
    (host : Host sim.State OverridableConfig) (ctx : CliContext)
    (maker : ChainMaker sim.State OverridableConfig) where
  open sim use {State}

  abbrev pub args_chain_simulator : Prepared host ctx → Bytes → ArgsChainSimulator OverridableConfig
  args_chain_simulator p temp_dir = record {
    bypass_tx_signature_check = ctx.global_bool Flags.bypass_transactions_signature.name;
    temp_dir = temp_dir;
    path_to_initial_config = ctx.global_string Flags.path_to_node_configs.name;
    num_of_shards = uint32 p.config.simulator.num_of_shards;
    genesis_timestamp = ctx.global_int64 (Flags.start_time (pos 0)).name;
    round_duration_in_millis = uint64 p.config.simulator.round_duration_in_ms;
    rounds_per_epoch = some (uint64 p.config.simulator.rounds_per_epoch);
    api_interface = local_rest_api_interface;
    min_nodes_per_shard = uint32 p.validators.shard;
    num_nodes_waiting_list_shard = uint32 p.validators.waiting_shard;
    meta_chain_min_nodes = uint32 p.validators.meta;
    num_nodes_waiting_list_meta = uint32 p.validators.waiting_meta;
    initial_round = p.config.simulator.initial_round;
    initial_nonce = p.config.simulator.initial_nonce;
    initial_epoch = p.config.simulator.initial_epoch;
    altered_by = p.override_configs.overridable_config_toml_values;
    vm_query_delay_after_start_in_ms = 0;
  }

  -- `for shardID := uint32(0); shardID < n; shardID++ { ... }`, by the rounds left.
  unfoldable pub set_system_accounts : ℕ → ℕ → Action State ⊤
  set_system_accounts zero shard_id = pure tt
  set_system_accounts (suc left) shard_id =
      maker.set_system_account shard_id >> set_system_accounts left (shard_id + 1)

  -- From the chain on.
  unfoldable pub start_blocks : Prepared host ctx → Action State (AnyGenerator State)
  unfolding set_system_accounts create_blocks_generator
  start_blocks p = do
    set_system_accounts (uint32 p.config.simulator.num_of_shards) 0
    sim.generate_blocks (pos 1)
    lift (
        create_blocks_generator (some (record { generate_blocks = sim.generate_blocks }))
          p.config.blocks_generator)

  unfoldable pub make_chain : Prepared host ctx → Action State (Bytes × AnyGenerator State)
  unfolding start_blocks
  make_chain p = do
    temp_dir ← maker.mkdir_temp temp_dir_pattern
    alter_configs_error ← maker.new_chain_simulator (args_chain_simulator p temp_dir)
    elim alter_configs_error [
      | some e ↦ fail e
      | none ↦ do generator ← start_blocks p; pure (temp_dir, generator)
    ]

-- `s[n:]`, which panics where `s` is shorter.
abbrev pub slice_from : ℕ → Bytes → Option Bytes
slice_from zero s = some s
slice_from (suc n) [] = none
slice_from (suc n) (_ ∷ s) = slice_from n s

-- `fmt.Errorf("...: %w", errConvert)`, with the error of `strconv.Atoi` as a parameter.
abbrev pub free_port_error : Error → Error
free_port_error e =
    wrap (codes "internal error while searching a free port for the proxy component: ") e []

-- The address and the port of the proxy. `rest_api_interface` is the configurator's answer, which is
-- asked for a free port only if none is configured.
unfoldable pub proxy_port : (Bytes → Error) → Bytes → ℤ → Outcome (Bytes × ℤ)
proxy_port atoi_error rest_api_interface (pos zero) =
    elim (slice_from (length local_rest_api_interface + 1) rest_api_interface) [
      | none ↦ panics
      | some port_string ↦ elim (atoi port_string) [
        | none ↦ err (free_port_error (atoi_error port_string))
        | some port ↦ ok (rest_api_interface, port)
      ]
    ]
proxy_port atoi_error rest_api_interface port =
    ok (local_rest_api_interface ++ (codes ":" ++ itoa port), port)
