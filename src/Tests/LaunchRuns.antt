-- ===== src/Tests/LaunchRuns.antt =====
-- A launch of the program over the small library.
use mx_chain_simulator_go.Common.{
  arith, ⊤, ℕ, suc, ◌≡◌, refl, Bool, true, false, ◌||◌, Option, none, some, List, [], ◌∷◌, Bytes,
  codes, bytes_eq, ◌&&◌, not,
}
use mx_chain_simulator_go.Common.Int.{pos}
use mx_chain_simulator_go.Common.Outcome.{message, ok, err, pure, value}
use mx_chain_simulator_go.Api.Routes.{Router, Endpoint, register}
use mx_chain_simulator_go.Config.Overrides.{overrides}
use mx_chain_simulator_go.Configs.ProxyConfigs.{
  WalletKey, ArgsOutputConfig, observer, create_proxy_configs, add_observers,
  generate_pem_from_initial_address, write_wallets,
}
use mx_chain_simulator_go.Creator.Defs.{
  create_proxy, make_base_processor, make_processors, make_facade_args, make_server, finish_proxy,
  full_history_nodes, tolerate_empty, proxy_handler, start, get_http_server,
}
use mx_chain_simulator_go.Creator.Quiet.{Worker}
use mx_chain_simulator_go.Creator.Lifecycle.{started, updates_started}
use mx_chain_simulator_go.Facade.Interface.{SimulatorHandler, ProxyTransactionsHandler}
use mx_chain_simulator_go.Facade.Observers.{ShardMap}
use mx_chain_simulator_go.Go.Os
use mx_chain_simulator_go.Go.Os.{Node, FilePath, dir, file, entry, end, stat, find, set, drop}
use mx_chain_simulator_go.Go.Os.Files.{open_write, write_at}
use mx_chain_simulator_go.Go.Strconv.{itoa, format_uint}
use mx_chain_simulator_go.Launch.Defs.{
  Surroundings, Running, launch, make_proxy_configs, find_proxy_port,
}
use mx_chain_simulator_go.Launch.Laws.{launch_without_engine, no_engine}
use mx_chain_simulator_go.Launch.Serves.{Serves, launch-Serves}
use mx_chain_simulator_go.Creator.ServerPort.{HasPort}
use mx_chain_simulator_go.Launch.Main.{app_flags, main}
use mx_chain_simulator_go.Process.Factory.{disabled}
use mx_chain_simulator_go.Startup.Chain.{ChainMaker, proxy_port}
use mx_chain_simulator_go.Startup.Flags.{CliContext}
use mx_chain_simulator_go.Startup.Logger.{Logger}
use mx_chain_simulator_go.Startup.Prepare.{Host, Prepared}
use mx_chain_simulator_go.Testscommon.Simulator.{
  SimulatorHandlerMock, empty_mock, simulator_handler_mock,
}
use mx_chain_simulator_go.Tests.ConfigRuns.{cfg}
use mx_chain_simulator_go.Tests.FetchRuns.{git, temp, deps}
use mx_chain_simulator_go.Tests.ProxyRuns.{
  Site, running, components, library, lawful, args, empty_site, created_site, created,
}

-- The names of the flags differ from one another.
abbrev member : Bytes → List Bytes → Bool
member x [] = false
member x (y ∷ ys) = bytes_eq x y || member x ys

abbrev all_distinct : List Bytes → Bool
all_distinct [] = true
all_distinct (x ∷ xs) = not (member x xs) && all_distinct xs

app_flags-distinct : all_distinct app_flags ≡ true
app_flags-distinct = refl

main_fails : main (λ name flags action. action) (λ (s : ℕ). (err (message []), s)) 0 ≡ (ok 1, 0)
unfolding main
main_fails = refl

abbrev pub one_more : Site → Site
one_more s = record s { blocks = suc s.blocks }

abbrev pub site_mock : SimulatorHandlerMock Site (ShardMap (Option WalletKey)) Bytes ⊤
site_mock = record empty_mock {
  generate_blocks_called = some (λ n s. (ok tt, one_more s));
  get_rest_api_interfaces_called = some (λ s. (0, codes "localhost:9001") ∷ []);
}

abbrev pub sim : SimulatorHandler
sim = simulator_handler_mock [] tt (λ a. a) 0 (λ s node. 0) site_mock

abbrev pub logger : Logger Site
logger = record {
  FileLogging = ⊤;
  set_log_level = λ level. pure tt;
  new_file_logging = λ dir path prefix. pure tt;
  change_file_life_span = λ f span size. pure tt;
  remove_log_observer = pure tt;
  add_plain_log_observer = pure tt;
  close = λ f s. (ok tt, record s { log_open = false });
}

abbrev pub host : Host Site ℕ
host = record {
  files = λ s. s.disk;
  with_files = λ s disk. record s { disk = disk };
  logger = logger;
  load_config = λ s name. value cfg;
  load_overrides = λ s name. value (overrides (1 ∷ []));
  names = λ text. text ∷ [];
  temp_dir = temp;
  git = git;
  build_info = some deps;
}

abbrev pub ctx : CliContext
ctx = record {
  is_set = λ n. false;
  global_string = λ n. codes "proxy";
  global_int = λ n. pos 1;
  global_int64 = λ n. pos 0;
  global_uint = λ n. 0;
  global_uint64 = λ n. 0;
  global_bool = λ n. false;
}

abbrev pub maker : ChainMaker Site ℕ
maker = record {
  mkdir_temp = λ pattern. pure (codes "tmp");
  new_chain_simulator = λ args. pure none;
  set_system_account = λ shard. pure tt;
}

abbrev pub Engine : Type 0
Engine = List (Bytes × Endpoint)

abbrev pub router : Router
router = record {
  Server = Option Engine;
  Engine = Engine;
  as_engine = λ server. server;
  post = λ path e ws. (path, e) ∷ ws;
  get = λ path e ws. (path, e) ∷ ws;
}

abbrev pub copied : Node
copied = dir 493 (entry (codes "tmp") (dir 493 (entry (codes "proxyConfig") (dir 493 end) end)) end)

abbrev pub handler : ProxyTransactionsHandler Site
handler = record {
  tx_status_pending = codes "pending";
  get_processed_transaction_status = λ hash. pure (codes "success");
}

abbrev pub around : Surroundings sim components router ⊤
around = record {
  copy_command = λ from to fs. (ok tt, copied);
  load_toml_file = λ path fs. value (args.config);
  balance_wallets = λ wallets. wallets;
  rest_api_interface = λ s. codes "localhost:43117";
  atoi_error = λ s. message s;
  node_of = λ n. n;
  transactions_handler = λ p. some handler;
  server_of = λ h s. s.engine;
  extended = λ h proc ws s. record s { engine = some ws };
  sleep = λ ns. pure tt;
  close_simulator = λ s. (ok tt, record s { sim_closed = true });
}

abbrev prepared : Prepared host ctx
prepared = record {
  config = record cfg { simulator = record cfg.simulator { server_port = pos 8085 } };
  override_configs = overrides (1 ∷ []);
  file_logging = some tt;
  validators = record { shard = pos 1; waiting_shard = pos 1; meta = pos 1; waiting_meta = pos 1 };
}

abbrev configs : ArgsOutputConfig ⊤
configs = record {
  config = record args.config {
    server_port = pos 0;
    observers = observer (0, codes "localhost:9001") ∷ [];
  };
  path_to_temp_config = codes "tmp" ∷ codes "proxyConfig" ∷ [];
  path_to_pem_file = codes "tmp" ∷ codes "proxyConfig" ∷ codes "walletKey.pem" ∷ [];
}

-- The folder of the proxy's configurations, with a wallet file for no wallet.
abbrev pub with_wallets : Node
with_wallets = dir 493 (
    entry (codes "tmp")
      (dir 493
        (entry (codes "proxyConfig") (dir 493 (entry (codes "walletKey.pem") (file []) end)) end))
      end)

abbrev configured : Site
configured = record empty_site { disk = with_wallets }

abbrev pub with_proxy : Site
with_proxy = record created_site { disk = with_wallets }

abbrev pub routes : Engine
routes = register router []

library_ports : HasPort library (λ server. server)
library_ports =
    λ registry port logging metrics window limited profiled s t server made. ground (arith, made)

abbrev serving_site : Site
serving_site = record with_proxy { engine = some routes; serving = true }

abbrev serving_program : Running components Site ⊤
serving_program = record {
  file_logging = some tt;
  generator = disabled;
  proxy_instance = created.proxy_handler;
  proxy_url = codes "localhost:8085";
}

launches :
    launch sim host ctx maker router library around 5 prepared (codes "tmp", disabled) empty_site
    ≡ (ok serving_program, serving_site)
unfolding launch make_proxy_configs create_proxy_configs add_observers
    generate_pem_from_initial_address write_wallets open_write write_at stat find set drop Os.create
    find_proxy_port proxy_port itoa format_uint create_proxy make_base_processor full_history_nodes
    tolerate_empty make_processors finish_proxy make_facade_args make_server proxy_handler start
    get_http_server
launches = refl

launch-Serves_example :
    Serves sim host ctx maker router library around 5
      (λ server. server)
      prepared
      (codes "tmp")
      disabled
      empty_site
      serving_site
      serving_program
launch-Serves_example =
    launch-Serves sim host ctx maker router library around 5 (λ server. server) library_ports
      prepared (codes "tmp") disabled empty_site serving_site serving_program launches

-- The same where the server has a handler that is no engine.
abbrev bare : Site
bare = record empty_site { engine = none }

bare_configures :
    make_proxy_configs sim host ctx maker router library around 5 (codes "tmp") bare
    ≡ (ok configs, record bare { disk = with_wallets })
unfolding make_proxy_configs create_proxy_configs add_observers generate_pem_from_initial_address
    write_wallets open_write write_at stat find set drop Os.create
bare_configures = refl

bare_finds :
    find_proxy_port sim host ctx maker router library around 5
      (pos 8085)
      (record bare { disk = with_wallets })
    ≡ (ok (codes "localhost:8085", pos 8085), record bare { disk = with_wallets })
unfolding find_proxy_port proxy_port itoa format_uint
bare_finds = refl

launch_without_engine_example :
    (launch sim host ctx maker router library around 5 prepared (codes "tmp", disabled) bare
      ≡ (err no_engine, record with_proxy { engine = none }))
    × ((k : Worker)
        → running (record with_proxy { engine = none }) k
          ≡ (started updates_started k || running bare k))
unfolding create_proxy make_base_processor full_history_nodes tolerate_empty make_processors
    finish_proxy make_facade_args make_server proxy_handler get_http_server
launch_without_engine_example =
    launch_without_engine sim host ctx maker router library around 5 running lawful prepared
      (codes "tmp") disabled configs (codes "localhost:8085") (pos 8085) created handler bare
      (record bare { disk = with_wallets }) (record with_proxy { engine = none }) bare_configures
      bare_finds refl refl refl

-- No request changes anything here.
abbrev pub Idle : Site → Site → Type 0
Idle s t = s ≡ t

pub same_running : (s : Site) (k : Worker) → running (one_more s) k ≡ running s k
same_running s k = ground arith

pub closed_log_running :
    (s : Site) (k : Worker) → running (record s { log_open = false }) k ≡ running s k
closed_log_running s k = ground arith
