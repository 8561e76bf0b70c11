-- ===== src/Creator/Defs.antt =====
-- `CreateProxy`, in the order of its calls, and the methods of the proxy.
use mx_chain_simulator_go.Common.{⊤, ℕ, true, false, Option, none, some, List, [], ◌∷◌, ◌++◌, codes}
use mx_chain_simulator_go.Common.Outcome.{
  Error, ok, err, panics, runs_on, Action, pure, fail, ◌>>=◌, ◌>>◌,
}
use mx_chain_simulator_go.Go.Os.{FilePath}
use mx_chain_simulator_go.Configs.ProxyConfigs.{ProxyConfig}
use mx_chain_simulator_go.Startup.Logger.{seconds}
use mx_chain_simulator_go.Creator.Library.{Components, FacadeArgs, ProxyLibrary}

-- `ArgsProxy`
pub record ArgsProxy (c : Components) (Rest : Type 0) : Type 0 where
  pub path_to_config : FilePath
  pub path_to_pem_file : FilePath
  pub config : ProxyConfig Rest
  pub node_handler : c.NodeHandler
  pub number_of_shards : ℕ

-- `proxy`
pub record Proxy (c : Components) (State : Type 0) : Type 0 where
  pub closable_components : List (Action State ⊤)
  pub http_server : c.HttpServer

-- `ProxyHandler`; its methods are those of the proxy.
pub record ProxyHandler (c : Components) (State : Type 0) : Type 0 where
  pub start : Action State ⊤
  pub get_http_server : c.HttpServer
  pub close : Action State ⊤

-- `ArgsOutputProxy`
pub record ArgsOutputProxy (c : Components) (State : Type 0) : Type 0 where
  pub proxy_handler : ProxyHandler c State
  pub proxy_transaction_handler : c.TransactionProcessor

-- The components that `CreateProxy` has made when it starts the updates of the caches.
pub record Processors (c : Components) : Type 0 where
  pub accnt_proc : c.AccountProcessor
  pub faucet_proc : c.FaucetProcessor
  pub tx_proc : c.TransactionProcessor
  pub sc_query_proc : c.ScQueryProcessor
  pub node_group_proc : c.NodeGroupProcessor
  pub val_stats_proc : c.ValidatorStatisticsProcessor
  pub node_status_proc : c.NodeStatusProcessor

-- `big.NewInt(0).SetString("10000000000000000000", 10)`
abbrev pub faucet_value : ℕ
faucet_value = 10000000000000000000

-- A call whose error the caller drops.
abbrev pub ignored : {State : Type 0} → Action State ⊤ → Action State ⊤
ignored m s =
    let (r, t) = m s in
    elim r [
      | ok a ↦ (ok tt, t)
      | err e ↦ (ok tt, t)
      | panics ↦ (panics, t)
      | runs_on ↦ (runs_on, t)
    ]

module _ {c : Components} {Rest State : Type 0} (lib : ProxyLibrary c Rest State) where
  -- `Start`
  unfoldable pub start : Proxy c State → Action State ⊤
  start p = lib.serve p.http_server

  -- `GetHttpServer`
  unfoldable pub get_http_server : Proxy c State → c.HttpServer
  get_http_server p = p.http_server

  -- `Close`; the context of the shutdown ends after a second.
  unfoldable pub close : Proxy c State → Action State ⊤
  close p = do
    lib.close_all p.closable_components
    ignored (lib.shutdown p.http_server 1000000000)
    ignored (lib.close_server p.http_server)

  unfoldable pub proxy_handler : Proxy c State → ProxyHandler c State
  unfolding start get_http_server close
  proxy_handler p = record { start = start p; get_http_server = get_http_server p; close = close p }

  -- An empty list of full history nodes is no error.
  unfoldable pub tolerate_empty : c.NodesProvider × Option Error → Action State c.NodesProvider
  tolerate_empty (provider, none) = pure provider
  tolerate_empty (provider, some e) = elim (lib.is_empty_observers_list e) [
    | true ↦ pure provider
    | false ↦ fail e
  ]

  unfoldable pub full_history_nodes : c.NodesProviderFactory → Action State c.NodesProvider
  unfolding tolerate_empty
  full_history_nodes factory = lib.create_full_history_nodes factory >>= tolerate_empty

  module _ (args : ArgsProxy c Rest) where
    abbrev pub pub_key_converter : c.PubKeyConverter
    pub_key_converter = lib.address_pub_key_converter args.node_handler

    abbrev pub shard_coord : c.ShardCoordinator
    shard_coord = lib.get_shard_coordinator args.node_handler

    -- Up to `NewBaseProcessor`.
    unfoldable pub make_base_processor : Action State c.BaseProcessor
    unfolding full_history_nodes
    make_base_processor = do
      nodes_provider_factory ← lib.new_nodes_provider_factory args.config [] args.number_of_shards
      observers_provider ← lib.create_observers nodes_provider_factory
      full_history_nodes_provider ← full_history_nodes nodes_provider_factory
      lib.new_base_processor (lib.settings args.config.rest).request_timeout_sec shard_coord
          observers_provider full_history_nodes_provider pub_key_converter false

    -- From `NewAccountProcessor` to `NewNodeStatusProcessor`.
    unfoldable pub make_processors : c.BaseProcessor → Action State (Processors c)
    make_processors bp = do
      accnt_proc ← lib.new_account_processor bp pub_key_converter
      faucet_proc ←
          lib.create_faucet_processor bp shard_coord faucet_value pub_key_converter
            args.path_to_pem_file
      tx_proc ←
          lib.create_transaction_processor bp pub_key_converter (lib.hasher args.node_handler)
            (lib.internal_marshalizer args.node_handler) args.config.allow_entire_tx_pool_fetch
      sc_query_proc ← lib.new_sc_query_processor bp pub_key_converter
      node_group_proc ←
          lib.new_node_group_processor bp lib.new_heartbeat_memory_cacher
            (seconds (lib.settings args.config.rest).heartbeat_cache_validity_duration_sec)
      val_stats_proc ←
          lib.new_validator_statistics_processor bp lib.new_validators_stats_memory_cacher
            (seconds (lib.settings args.config.rest).val_stats_cache_validity_duration_sec)
      node_status_proc ←
          lib.new_node_status_processor bp lib.new_generic_api_response_memory_cacher
            (seconds (lib.settings args.config.rest).economics_metrics_cache_validity_duration_sec)
      pure (record {
        accnt_proc = accnt_proc;
        faucet_proc = faucet_proc;
        tx_proc = tx_proc;
        sc_query_proc = sc_query_proc;
        node_group_proc = node_group_proc;
        val_stats_proc = val_stats_proc;
        node_status_proc = node_status_proc;
      })

    -- From `NewBlockProcessor` to the arguments of the facade.
    unfoldable pub make_facade_args : c.BaseProcessor → Processors c → Action State (FacadeArgs c)
    make_facade_args bp ps = do
      block_proc ← lib.new_block_processor bp
      blocks_prc ← lib.new_blocks_processor bp
      proof_proc ← lib.new_proof_processor bp pub_key_converter
      esdt_supplies_proc ← lib.new_esdt_supply_processor bp ps.sc_query_proc
      status_proc ← lib.new_status_processor bp lib.new_status_metrics
      about_info_proc ←
          lib.new_about_processor bp lib.un_versioned_app_string lib.undefined_commit_string
      pure (record {
        actions_processor = bp;
        account_processor = ps.accnt_proc;
        faucet_processor = ps.faucet_proc;
        block_processor = block_proc;
        blocks_processor = blocks_prc;
        node_group_processor = ps.node_group_proc;
        node_status_processor = ps.node_status_proc;
        sc_query_processor = ps.sc_query_proc;
        transaction_processor = ps.tx_proc;
        validator_statistics_processor = ps.val_stats_proc;
        proof_processor = proof_proc;
        pub_key_converter = pub_key_converter;
        esdt_supplies_processor = esdt_supplies_proc;
        status_processor = status_proc;
        about_info_processor = about_info_proc;
      })

    -- From the arguments of the facade to `CreateServer`.
    unfoldable pub make_server : FacadeArgs c → Action State c.HttpServer
    make_server facade_args = do
      api_config_parser ← lib.new_api_config_parser (args.path_to_config ++ codes "apiConfig" ∷ [])
      versions_registry ← lib.create_versions_registry facade_args api_config_parser
      lib.create_server versions_registry args.config.server_port
          (lib.settings args.config.rest).api_logging lib.new_status_metrics
          (lib.settings args.config.rest).rate_limit_window_duration_seconds false false

    -- `closableComponents.Add(...)`
    abbrev pub closables : c.BaseProcessor → Processors c → List (Action State ⊤)
    closables bp ps =
        lib.close_node_group ps.node_group_proc
        ∷ lib.close_val_stats ps.val_stats_proc
        ∷ lib.close_node_status ps.node_status_proc
        ∷ lib.close_base bp
        ∷ []

    abbrev pub output_proxy :
        c.BaseProcessor → Processors c → c.HttpServer → ArgsOutputProxy c State
    output_proxy bp ps http_server = record {
      proxy_handler =
          proxy_handler
            (record { closable_components = closables bp ps; http_server = http_server });
      proxy_transaction_handler = ps.tx_proc;
    }

    -- The updates of the caches are started, and the rest is made.
    unfoldable pub finish_proxy :
        c.BaseProcessor → Processors c → Action State (ArgsOutputProxy c State)
    unfolding make_facade_args make_server
    finish_proxy bp ps = do
      lib.start_val_stats_update ps.val_stats_proc
      lib.start_node_status_update ps.node_status_proc
      facade_args ← make_facade_args bp ps
      http_server ← make_server facade_args
      pure (output_proxy bp ps http_server)

    -- `CreateProxy`
    unfoldable pub create_proxy : Action State (ArgsOutputProxy c State)
    unfolding make_base_processor make_processors finish_proxy
    create_proxy = do
      bp ← make_base_processor
      lib.start_nodes_sync_state_checks bp
      ps ← make_processors bp
      finish_proxy bp ps
