-- ===== src/Config.antt =====
-- config: the simulator's own configuration (config.go).
pub mod Overrides
use mx_chain_simulator_go.Common.{ℕ, Bool, List, Bytes}
use mx_chain_simulator_go.Common.Int.{ℤ}

pub record BlocksGeneratorConfig : Type 0 where
  pub auto_generate_blocks : Bool
  pub block_time_in_ms : ℕ  -- uint64

-- `Config.Simulator`
pub record SimulatorConfig : Type 0 where
  pub server_port : ℤ
  pub num_of_shards : ℤ
  pub rounds_per_epoch : ℤ
  pub round_duration_in_ms : ℤ
  pub initial_round : ℤ  -- int64
  pub initial_nonce : ℕ  -- uint64
  pub initial_epoch : ℕ  -- uint32
  pub mx_chain_repo : Bytes
  pub mx_proxy_repo : Bytes

-- `Config.Logs`
pub record LogsConfig : Type 0 where
  pub log_file_life_span_in_mb : ℤ
  pub log_file_life_span_in_sec : ℤ
  pub log_file_prefix : Bytes
  pub logs_path : Bytes

pub record Config : Type 0 where
  pub simulator : SimulatorConfig
  pub logs : LogsConfig
  pub blocks_generator : BlocksGeneratorConfig

-- `OverrideConfigs`; the values are those of mx-chain-go.
pub record OverrideConfigs (OverridableConfig : Type 0) : Type 0 where
  pub overridable_config_toml_values : List OverridableConfig
