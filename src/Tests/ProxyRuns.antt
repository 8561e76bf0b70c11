-- ===== src/Tests/ProxyRuns.antt =====
-- A proxy over a small library whose state shows the workers.
use mx_chain_simulator_go.Common.{
  ⊤, ℕ, ◌≡◌, refl, Bool, true, false, not, ◌&&◌, ◌||◌, ◌⊎◌, Option, some, List, [], ◌∷◌, Bytes,
  codes, arith,
}
use mx_chain_simulator_go.Common.Int.{ℤ, pos}
use mx_chain_simulator_go.Common.Outcome.{Error, message, ok, err, pure}
use mx_chain_simulator_go.Api.Routes.{Endpoint}
use mx_chain_simulator_go.Configs.ProxyConfigs.{ProxyConfig}
use mx_chain_simulator_go.Creator.Library.{Components, ProxyLibrary}
use mx_chain_simulator_go.Creator.Defs.{
  ArgsProxy, ArgsOutputProxy, create_proxy, make_base_processor, make_processors, make_facade_args,
  make_server, finish_proxy, full_history_nodes, tolerate_empty, proxy_handler,
}
use mx_chain_simulator_go.Creator.Quiet.{
  Worker, is_worker, sync_checks, val_stats_updates, node_status_updates, http_serving, IsLawful,
  each,
}
use mx_chain_simulator_go.Creator.Lifecycle.{
  Progress, updates_started, started, is_ok, create_proxy-running,
}
use mx_chain_simulator_go.Creator.Closing.{close-running}
use mx_chain_simulator_go.Go.Os.{Node, dir, end}

-- The workers, the routes of the engine if the server has one, and what the program around it shows.
pub record Site : Type 0 where
  pub checks : Bool
  pub val_stats : Bool
  pub node_status : Bool
  pub serving : Bool
  pub engine : Option (List (Bytes × Endpoint))
  pub sim_closed : Bool
  pub log_open : Bool
  pub disk : Node
  pub blocks : ℕ

abbrev pub running : Site → Worker → Bool
running s sync_checks = s.checks
running s val_stats_updates = s.val_stats
running s node_status_updates = s.node_status
running s http_serving = s.serving

abbrev pub components : Components
components = record {
  StatusMetrics = ⊤;
  NodesProviderFactory = ⊤;
  NodesProvider = ⊤;
  NodeHandler = ⊤;
  PubKeyConverter = ⊤;
  ShardCoordinator = ⊤;
  Hasher = ⊤;
  Marshalizer = ⊤;
  BaseProcessor = ⊤;
  AccountProcessor = ⊤;
  FaucetProcessor = ⊤;
  TransactionProcessor = ⊤;
  ScQueryProcessor = ⊤;
  HeartbeatCacher = ⊤;
  NodeGroupProcessor = ⊤;
  ValidatorsStatsCacher = ⊤;
  ValidatorStatisticsProcessor = ⊤;
  ResponseCacher = ⊤;
  NodeStatusProcessor = ⊤;
  BlockProcessor = ⊤;
  BlocksProcessor = ⊤;
  ProofProcessor = ⊤;
  EsdtSupplyProcessor = ⊤;
  StatusProcessor = ⊤;
  AboutProcessor = ⊤;
  ApiConfigParser = ⊤;
  VersionsRegistry = ⊤;
  ApiLogging = ⊤;
  HttpServer = ℤ;
}

abbrev pub no_full_history : Error
no_full_history = message (codes "empty observers list")

-- There are no full history nodes.
abbrev pub library : ProxyLibrary components ⊤ Site
library = record {
  settings = λ rest. record {
    request_timeout_sec = pos 30;
    heartbeat_cache_validity_duration_sec = pos 60;
    val_stats_cache_validity_duration_sec = pos 60;
    economics_metrics_cache_validity_duration_sec = pos 600;
    rate_limit_window_duration_seconds = pos 60;
    api_logging = tt;
  };
  new_status_metrics = tt;
  new_nodes_provider_factory = λ cfg path shards. pure tt;
  create_observers = λ f. pure tt;
  create_full_history_nodes = λ f. pure (tt, some no_full_history);
  is_empty_observers_list = λ e. true;
  address_pub_key_converter = λ n. tt;
  get_shard_coordinator = λ n. tt;
  hasher = λ n. tt;
  internal_marshalizer = λ n. tt;
  new_base_processor = λ timeout coord o h pk b. pure tt;
  start_nodes_sync_state_checks = λ bp s. (ok tt, record s { checks = true });
  new_account_processor = λ bp pk. pure tt;
  create_faucet_processor = λ bp coord v pk path. pure tt;
  create_transaction_processor = λ bp pk h m b. pure tt;
  new_sc_query_processor = λ bp pk. pure tt;
  new_heartbeat_memory_cacher = tt;
  new_node_group_processor = λ bp h d. pure tt;
  new_validators_stats_memory_cacher = tt;
  new_validator_statistics_processor = λ bp h d. pure tt;
  new_generic_api_response_memory_cacher = tt;
  new_node_status_processor = λ bp h d. pure tt;
  close_node_group = λ p. pure tt;
  close_val_stats = λ p s. (ok tt, record s { val_stats = false });
  close_node_status = λ p s. (ok tt, record s { node_status = false });
  close_base = λ p s. (ok tt, record s { checks = false });
  close_all = each;
  start_val_stats_update = λ p s. (ok tt, record s { val_stats = true });
  start_node_status_update = λ p s. (ok tt, record s { node_status = true });
  new_block_processor = λ bp. pure tt;
  new_blocks_processor = λ bp. pure tt;
  new_proof_processor = λ bp pk. pure tt;
  new_esdt_supply_processor = λ bp q. pure tt;
  new_status_processor = λ bp m. pure tt;
  un_versioned_app_string = codes "undefined";
  undefined_commit_string = codes "undefined";
  new_about_processor = λ bp a b. pure tt;
  new_api_config_parser = λ path. pure tt;
  create_versions_registry = λ args p. pure tt;
  create_server = λ r port l m w a b. pure port;
  serve = λ h s. (ok tt, record s { serving = true });
  shutdown = λ h timeout s. (ok tt, record s { serving = false });
  close_server = λ h s. (err (message (codes "closed")), record s { serving = false });
}

-- A worker that is started, or stopped, by a change of its field.
abbrev set_worker : Worker → Bool → Site → Site
set_worker sync_checks b s = record s { checks = b }
set_worker val_stats_updates b s = record s { val_stats = b }
set_worker node_status_updates b s = record s { node_status = b }
set_worker http_serving b s = record s { serving = b }

starts :
    (w : Worker) (s : Site) (k : Worker)
    → running (set_worker w true s) k ≡ (is_worker k w || running s k)
starts w s k = ground arith

stops :
    (w : Worker) (s : Site) (k : Worker)
    → running (set_worker w false s) k ≡ (not (is_worker k w) && running s k)
stops w s k = ground arith

pub lawful : IsLawful library running
lawful = record {
  quiet_factory = λ cfg path shards. record { keeps = λ s k. refl };
  quiet_observers = λ f. record { keeps = λ s k. refl };
  quiet_full_history = λ f. record { keeps = λ s k. refl };
  quiet_base = λ timeout coord o h pk b. record { keeps = λ s k. refl };
  quiet_account = λ bp pk. record { keeps = λ s k. refl };
  quiet_faucet = λ bp coord v pk path. record { keeps = λ s k. refl };
  quiet_transaction = λ bp pk h m b. record { keeps = λ s k. refl };
  quiet_sc_query = λ bp pk. record { keeps = λ s k. refl };
  quiet_node_group = λ bp h d. record { keeps = λ s k. refl };
  quiet_val_stats = λ bp h d. record { keeps = λ s k. refl };
  quiet_node_status = λ bp h d. record { keeps = λ s k. refl };
  quiet_block = λ bp. record { keeps = λ s k. refl };
  quiet_blocks = λ bp. record { keeps = λ s k. refl };
  quiet_proof = λ bp pk. record { keeps = λ s k. refl };
  quiet_esdt_supply = λ bp q. record { keeps = λ s k. refl };
  quiet_status = λ bp m. record { keeps = λ s k. refl };
  quiet_about = λ bp a b. record { keeps = λ s k. refl };
  quiet_parser = λ path. record { keeps = λ s k. refl };
  quiet_registry = λ args p. record { keeps = λ s k. refl };
  quiet_server = λ r port l m w a b. record { keeps = λ s k. refl };
  starts_checks = λ bp. record { returns = λ s. refl; runs = starts sync_checks };
  starts_val_stats = λ p. record { returns = λ s. refl; runs = starts val_stats_updates };
  starts_node_status = λ p. record { returns = λ s. refl; runs = starts node_status_updates };
  starts_server = λ h. record { returns = λ s. refl; runs = starts http_serving };
  closes_all = λ ms s. refl;
  closes_node_group_quietly = λ p. record { keeps = λ s k. refl };
  closes_node_group = λ p s. refl;
  stops_val_stats = λ p. record { returns = λ s. refl; ends = stops val_stats_updates };
  stops_node_status = λ p. record { returns = λ s. refl; ends = stops node_status_updates };
  stops_checks = λ bp. record { returns = λ s. refl; ends = stops sync_checks };
  shuts_down = λ h timeout. record { returns = λ s. refl; ends = stops http_serving };
  stops_server = λ h. record { returns = λ s. refl; ends = stops http_serving };
}

abbrev pub proxy_config : ProxyConfig ⊤
proxy_config = record {
  allow_entire_tx_pool_fetch = true;
  server_port = pos 8085;
  observers = [];
  rest = tt;
}

abbrev pub args : ArgsProxy components ⊤
args = record {
  path_to_config = codes "proxyConfig" ∷ [];
  path_to_pem_file = codes "proxyConfig" ∷ codes "walletKey.pem" ∷ [];
  config = proxy_config;
  node_handler = tt;
  number_of_shards = 3;
}

abbrev pub empty_site : Site
empty_site = record {
  checks = false;
  val_stats = false;
  node_status = false;
  serving = false;
  engine = some [];
  sim_closed = false;
  log_open = true;
  disk = dir 493 end;
  blocks = 0;
}

-- The proxy that is created, and what runs behind it.
abbrev pub created_site : Site
created_site = record empty_site { checks = true; val_stats = true; node_status = true }

abbrev pub created : ArgsOutputProxy components Site
created = record {
  proxy_handler = proxy_handler library (record {
    closable_components =
        pure tt
        ∷ (λ s. (ok tt, record s { val_stats = false }))
        ∷ (λ s. (ok tt, record s { node_status = false }))
        ∷ (λ s. (ok tt, record s { checks = false }))
        ∷ [];
    http_server = pos 8085;
  });
  proxy_transaction_handler = tt;
}

pub creates : create_proxy library args empty_site ≡ (ok created, created_site)
unfolding create_proxy make_base_processor full_history_nodes tolerate_empty make_processors
    finish_proxy make_facade_args make_server
creates = refl

create_proxy-running_example :
    (p : Progress) × ((k : Worker)
      → running (create_proxy library args empty_site).1 k ≡ (started p k || running empty_site k))
    × ((p ≡ updates_started) ⊎ (is_ok (create_proxy library args empty_site).0 ≡ false))
create_proxy-running_example = create_proxy-running library running lawful args empty_site

-- The proxy was started in between.
close-running_example :
    (v : Site) × (created.proxy_handler.close (record created_site { serving = true }) ≡ (ok tt, v))
    × ((k : Worker) → running v k ≡ false)
close-running_example =
    close-running library running lawful args empty_site created_site created
      (record created_site { serving = true }) creates
