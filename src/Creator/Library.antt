-- ===== src/Creator/Library.antt =====
-- What pkg/proxy/creator/creator.go calls of mx-chain-proxy-go and of a node: the types of the
-- components, their constructors, and what is started and closed.
use mx_chain_simulator_go.Common.{⊤, ℕ, Bool, Option, List, Bytes}
use mx_chain_simulator_go.Common.Int.{ℤ}
use mx_chain_simulator_go.Common.Outcome.{Error, Action}
use mx_chain_simulator_go.Go.Os.{FilePath}
use mx_chain_simulator_go.Configs.ProxyConfigs.{ProxyConfig}

-- The types of the components, which the code only passes on.
pub record Components : Type 1 where
  pub StatusMetrics : Type 0
  pub NodesProviderFactory : Type 0
  pub NodesProvider : Type 0
  pub NodeHandler : Type 0
  pub PubKeyConverter : Type 0
  pub ShardCoordinator : Type 0
  pub Hasher : Type 0
  pub Marshalizer : Type 0
  pub BaseProcessor : Type 0
  pub AccountProcessor : Type 0
  pub FaucetProcessor : Type 0
  pub TransactionProcessor : Type 0
  pub ScQueryProcessor : Type 0
  pub HeartbeatCacher : Type 0
  pub NodeGroupProcessor : Type 0
  pub ValidatorsStatsCacher : Type 0
  pub ValidatorStatisticsProcessor : Type 0
  pub ResponseCacher : Type 0
  pub NodeStatusProcessor : Type 0
  pub BlockProcessor : Type 0
  pub BlocksProcessor : Type 0
  pub ProofProcessor : Type 0
  pub EsdtSupplyProcessor : Type 0
  pub StatusProcessor : Type 0
  pub AboutProcessor : Type 0
  pub ApiConfigParser : Type 0
  pub VersionsRegistry : Type 0
  pub ApiLogging : Type 0
  pub HttpServer : Type 0

-- `versionsFactory.FacadeArgs`
pub record FacadeArgs (c : Components) : Type 0 where
  pub actions_processor : c.BaseProcessor
  pub account_processor : c.AccountProcessor
  pub faucet_processor : c.FaucetProcessor
  pub block_processor : c.BlockProcessor
  pub blocks_processor : c.BlocksProcessor
  pub node_group_processor : c.NodeGroupProcessor
  pub node_status_processor : c.NodeStatusProcessor
  pub sc_query_processor : c.ScQueryProcessor
  pub transaction_processor : c.TransactionProcessor
  pub validator_statistics_processor : c.ValidatorStatisticsProcessor
  pub proof_processor : c.ProofProcessor
  pub pub_key_converter : c.PubKeyConverter
  pub esdt_supplies_processor : c.EsdtSupplyProcessor
  pub status_processor : c.StatusProcessor
  pub about_info_processor : c.AboutProcessor

-- The settings of `config.Config` that are read here beside the port and the transactions pool.
pub record Settings (c : Components) : Type 0 where
  pub request_timeout_sec : ℤ
  pub heartbeat_cache_validity_duration_sec : ℤ
  pub val_stats_cache_validity_duration_sec : ℤ
  pub economics_metrics_cache_validity_duration_sec : ℤ
  pub rate_limit_window_duration_seconds : ℤ
  pub api_logging : c.ApiLogging

-- The calls, over the program's state. A constructor that returns an error is an action;
-- `create_full_history_nodes` returns its value beside the error, and `is_empty_observers_list` is
-- `errors.Is` with `observer.ErrEmptyObserversList`. `close_all` closes what was added to a new
-- `data.ClosableComponentsHandler`, each component by its `Close`.
-- `serve` starts a goroutine that calls `ListenAndServe` and logs its error; `shutdown` has a context
-- that ends after the nanoseconds. `create_server` is given empty credentials.
pub record ProxyLibrary (c : Components) (Rest State : Type 0) : Type 0 where
  pub settings : Rest → Settings c
  pub new_status_metrics : c.StatusMetrics
  pub new_nodes_provider_factory :
      ProxyConfig Rest → Bytes → ℕ → Action State c.NodesProviderFactory
  pub create_observers : c.NodesProviderFactory → Action State c.NodesProvider
  pub create_full_history_nodes :
      c.NodesProviderFactory → Action State (c.NodesProvider × Option Error)
  pub is_empty_observers_list : Error → Bool
  pub address_pub_key_converter : c.NodeHandler → c.PubKeyConverter
  pub get_shard_coordinator : c.NodeHandler → c.ShardCoordinator
  pub hasher : c.NodeHandler → c.Hasher
  pub internal_marshalizer : c.NodeHandler → c.Marshalizer
  pub new_base_processor :
      ℤ
      → c.ShardCoordinator
      → c.NodesProvider
      → c.NodesProvider
      → c.PubKeyConverter
      → Bool
      → Action State c.BaseProcessor
  pub start_nodes_sync_state_checks : c.BaseProcessor → Action State ⊤
  pub new_account_processor : c.BaseProcessor → c.PubKeyConverter → Action State c.AccountProcessor
  pub create_faucet_processor :
      c.BaseProcessor
      → c.ShardCoordinator
      → ℕ
      → c.PubKeyConverter
      → FilePath
      → Action State c.FaucetProcessor
  pub create_transaction_processor :
      c.BaseProcessor
      → c.PubKeyConverter
      → c.Hasher
      → c.Marshalizer
      → Bool
      → Action State c.TransactionProcessor
  pub new_sc_query_processor : c.BaseProcessor → c.PubKeyConverter → Action State c.ScQueryProcessor
  pub new_heartbeat_memory_cacher : c.HeartbeatCacher
  pub new_node_group_processor :
      c.BaseProcessor → c.HeartbeatCacher → ℤ → Action State c.NodeGroupProcessor
  pub new_validators_stats_memory_cacher : c.ValidatorsStatsCacher
  pub new_validator_statistics_processor :
      c.BaseProcessor → c.ValidatorsStatsCacher → ℤ → Action State c.ValidatorStatisticsProcessor
  pub new_generic_api_response_memory_cacher : c.ResponseCacher
  pub new_node_status_processor :
      c.BaseProcessor → c.ResponseCacher → ℤ → Action State c.NodeStatusProcessor
  pub close_node_group : c.NodeGroupProcessor → Action State ⊤
  pub close_val_stats : c.ValidatorStatisticsProcessor → Action State ⊤
  pub close_node_status : c.NodeStatusProcessor → Action State ⊤
  pub close_base : c.BaseProcessor → Action State ⊤
  pub close_all : List (Action State ⊤) → Action State ⊤
  pub start_val_stats_update : c.ValidatorStatisticsProcessor → Action State ⊤
  pub start_node_status_update : c.NodeStatusProcessor → Action State ⊤
  pub new_block_processor : c.BaseProcessor → Action State c.BlockProcessor
  pub new_blocks_processor : c.BaseProcessor → Action State c.BlocksProcessor
  pub new_proof_processor : c.BaseProcessor → c.PubKeyConverter → Action State c.ProofProcessor
  pub new_esdt_supply_processor :
      c.BaseProcessor → c.ScQueryProcessor → Action State c.EsdtSupplyProcessor
  pub new_status_processor : c.BaseProcessor → c.StatusMetrics → Action State c.StatusProcessor
  pub un_versioned_app_string : Bytes
  pub undefined_commit_string : Bytes
  pub new_about_processor : c.BaseProcessor → Bytes → Bytes → Action State c.AboutProcessor
  pub new_api_config_parser : FilePath → Action State c.ApiConfigParser
  pub create_versions_registry : FacadeArgs c → c.ApiConfigParser → Action State c.VersionsRegistry
  pub create_server :
      c.VersionsRegistry
      → ℤ
      → c.ApiLogging
      → c.StatusMetrics
      → ℤ
      → Bool
      → Bool
      → Action State c.HttpServer
  pub serve : c.HttpServer → Action State ⊤
  pub shutdown : c.HttpServer → ℕ → Action State ⊤
  pub close_server : c.HttpServer → Action State ⊤
