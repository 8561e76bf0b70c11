-- ===== src/Launch/Defs.antt =====
-- `startChainSimulator` of cmd/chainsimulator/main.go from the configurations of the proxy to its
-- start, and the whole of it up to the wait for a signal.
use mx_chain_simulator_go.Common.{⊤, ℕ, Option, none, some, Bytes}
use mx_chain_simulator_go.Common.Int.{ℤ, pos, uint32}
use mx_chain_simulator_go.Common.Outcome.{
  Error, ok, err, Action, pure, fail, gets, ◌>>=◌, ◌>>◌, Try, value, error,
}
use mx_chain_simulator_go.Api.Routes.{
  Router, EndpointsProcessor, new_endpoints_processor, extend_proxy_server,
}
use mx_chain_simulator_go.Configs.ProxyConfigs.{
  ProxyConfig, WalletKey, ArgsProxyConfigs, ArgsOutputConfig, create_proxy_configs,
}
use mx_chain_simulator_go.Creator.Library.{Components, ProxyLibrary}
use mx_chain_simulator_go.Creator.Defs.{ArgsProxy, ArgsOutputProxy, ProxyHandler, create_proxy}
use mx_chain_simulator_go.Facade.Interface.{SimulatorHandler, ProxyTransactionsHandler}
use mx_chain_simulator_go.Facade.New.{new_simulator_facade}
use mx_chain_simulator_go.Facade.Observers.{ShardMap}
use mx_chain_simulator_go.Go.Os.{Node, FilePath}
use mx_chain_simulator_go.Process.Factory.{AnyGenerator}
use mx_chain_simulator_go.Startup.Chain.{ChainMaker, make_chain, proxy_port}
use mx_chain_simulator_go.Startup.Flags
use mx_chain_simulator_go.Startup.Flags.{CliContext}
use mx_chain_simulator_go.Startup.Prepare.{Host, Prepared, prepare, on_files}

-- What the program calls beside the parts that are modelled: the command `cp -r`, the reader of the
-- proxy's TOML file, the field `BalanceWallets`, the configurator's answer for shard 0, the error of
-- `strconv.Atoi`, a node as the proxy takes it, and the transaction processor as the facade takes it.
-- The engine behind the server is read by `server_of`, and `extended` is the state in which it is the
-- given engine, whose handlers are those of the processor. `close_simulator` is `simulator.Close()`.
pub record Surroundings (sim : SimulatorHandler) (c : Components) (router : Router) (Rest : Type 0)
    : Type 1 where
  pub copy_command : FilePath → FilePath → Action Node ⊤
  pub load_toml_file : FilePath → Node → Try (ProxyConfig Rest)
  pub balance_wallets : sim.InitialWalletKeys → ShardMap (Option WalletKey)
  pub rest_api_interface : sim.State → Bytes
  pub atoi_error : Bytes → Error
  pub node_of : sim.NodeHandler → c.NodeHandler
  pub transactions_handler : c.TransactionProcessor → Option (ProxyTransactionsHandler sim.State)
  pub server_of : c.HttpServer → sim.State → router.Server
  pub extended : c.HttpServer → EndpointsProcessor → router.Engine → sim.State → sim.State
  pub sleep : ℕ → Action sim.State ⊤
  pub close_simulator : Action sim.State ⊤

-- `timeToAllowProxyToStart`, in nanoseconds.
abbrev pub time_to_allow_proxy_to_start : ℕ
time_to_allow_proxy_to_start = 10000000

-- What the program holds when it waits for a signal.
pub record Running (c : Components) (State FileLogging : Type 0) : Type 0 where
  pub file_logging : Option FileLogging
  pub generator : AnyGenerator State
  pub proxy_instance : ProxyHandler c State
  pub proxy_url : Bytes

module _ {OverridableConfig Rest : Type 0} (sim : SimulatorHandler)
    (host : Host sim.State OverridableConfig) (ctx : CliContext)
    (maker : ChainMaker sim.State OverridableConfig) {c : Components} (router : Router)
    (lib : ProxyLibrary c Rest sim.State) (around : Surroundings sim c router Rest) (fuel : ℕ) where
  open sim use {State}
  open around use {node_of, transactions_handler, server_of, extended}

  abbrev pub args_proxy_configs : Bytes → State → ArgsProxyConfigs
  args_proxy_configs temp_dir s = record {
    tem_dir = host.names temp_dir;
    path_to_proxy_config = host.names (ctx.global_string Flags.path_to_proxy_configs.name);
    server_port = pos 0;
    rest_api_interfaces = sim.get_rest_api_interfaces s;
    initial_wallets = around.balance_wallets (sim.get_initial_wallet_keys s);
  }

  -- `configs.CreateProxyConfigs(...)`
  unfoldable pub make_proxy_configs : Bytes → Action State (ArgsOutputConfig Rest)
  make_proxy_configs temp_dir s =
      on_files host ctx
        (create_proxy_configs around.copy_command around.load_toml_file
          (args_proxy_configs temp_dir s))
        s

  -- The port that is configured or found.
  unfoldable pub find_proxy_port : ℤ → Action State (Bytes × ℤ)
  find_proxy_port configured s =
      (proxy_port around.atoi_error (around.rest_api_interface s) configured, s)

  abbrev pub args_proxy :
      Prepared host ctx → ArgsOutputConfig Rest → ℤ → sim.NodeHandler → ArgsProxy c Rest
  args_proxy p configs port meta_node = record {
    path_to_config = configs.path_to_temp_config;
    path_to_pem_file = configs.path_to_pem_file;
    config = record configs.config { server_port = port };
    node_handler = node_of meta_node;
    number_of_shards = uint32 p.config.simulator.num_of_shards;
  }

  -- `endpointsProc.ExtendProxyServer(...)`
  unfoldable pub extend : c.HttpServer → EndpointsProcessor → Action State ⊤
  unfolding extend_proxy_server
  extend http_server endpoints_proc s =
      elim (extend_proxy_server router (server_of http_server s)) [
        | error e ↦ (err e, s)
        | value ws ↦ (ok tt, extended http_server endpoints_proc ws s)
      ]

  -- The facade, and the endpoints over it.
  unfoldable pub add_endpoints : ArgsOutputProxy c State → Action State ⊤
  unfolding extend new_simulator_facade new_endpoints_processor
  add_endpoints output_proxy =
      elim (new_simulator_facade fuel (some sim)
        (transactions_handler output_proxy.proxy_transaction_handler)) [
          | error e ↦ fail e
          | value simulator_facade ↦ elim (new_endpoints_processor simulator_facade) [
            | error e ↦ fail e
            | value endpoints_proc ↦
                extend output_proxy.proxy_handler.get_http_server endpoints_proc
          ]
        ]

  -- The endpoints are registered, and the proxy is started.
  unfoldable pub serve_proxy : ArgsOutputProxy c State → Action State ⊤
  unfolding add_endpoints
  serve_proxy output_proxy = do
    add_endpoints output_proxy
    output_proxy.proxy_handler.start
    around.sleep time_to_allow_proxy_to_start

  -- From the proxy's port on.
  unfoldable pub launch_proxy :
      Prepared host ctx
      → AnyGenerator State
      → sim.NodeHandler
      → ArgsOutputConfig Rest
      → Bytes × ℤ
      → Action State (Running c State host.logger.FileLogging)
  unfolding serve_proxy
  launch_proxy p generator meta_node configs (proxy_url, port) = do
    output_proxy ← create_proxy lib (args_proxy p configs port meta_node)
    serve_proxy output_proxy
    pure (record {
      file_logging = p.file_logging;
      generator = generator;
      proxy_instance = output_proxy.proxy_handler;
      proxy_url = proxy_url;
    })

  -- From the blocks generator on, up to the wait.
  unfoldable pub launch :
      Prepared host ctx
      → Bytes × AnyGenerator State
      → Action State (Running c State host.logger.FileLogging)
  unfolding make_proxy_configs find_proxy_port launch_proxy
  launch p (temp_dir, generator) = do
    meta_node ← gets (λ s. sim.get_node_handler s sim.metachain_shard_id)
    configs ← make_proxy_configs temp_dir
    port ← find_proxy_port p.config.simulator.server_port
    launch_proxy p generator meta_node configs port

  -- `startChainSimulator` up to the wait; the result is `none` where it ends behind the fetching.
  unfoldable pub start_chain_simulator :
      Action State (Option (Running c State host.logger.FileLogging))
  unfolding prepare make_chain launch
  start_chain_simulator = prepare host ctx >>= λ prepared. elim prepared [
    | none ↦ pure none
    | some p ↦ do
      made ← make_chain sim host ctx maker p
      running ← launch p made
      pure (some running)
  ]
