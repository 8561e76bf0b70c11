-- ===== src/Tests/StartRuns.antt =====
-- A start over a small host, with a command line that skips the download.
use mx_chain_simulator_go.Common.{
  ⊤, ℕ, ◌+◌, ◌≡◌, refl, Bool, false, ◌||◌, none, some, List, [], ◌∷◌, Bytes, codes, bytes_eq, arith,
  ltb, ◌==◌, if◌then◌else◌,
}
use mx_chain_simulator_go.Common.Int.{pos, uint32}
use mx_chain_simulator_go.Common.Outcome.{ok, value, message}
use mx_chain_simulator_go.Config.{Config}
use mx_chain_simulator_go.Config.Overrides.{overrides}
use mx_chain_simulator_go.Go.Os.{Node, dir, end}
use mx_chain_simulator_go.Go.Strings.{contains, has_prefix, split}
use mx_chain_simulator_go.Startup.Flags
use mx_chain_simulator_go.Startup.Flags.{CliContext}
use mx_chain_simulator_go.Startup.Logger.{Logger}
use mx_chain_simulator_go.Startup.OverrideFiles.{determine_override_config_files}
use mx_chain_simulator_go.Startup.Prepare.{Host, Prepared, prepare}
use mx_chain_simulator_go.Startup.FlagLaws.{effective}
use mx_chain_simulator_go.Startup.PrepareLaws.{IsValid, prepare_success, prepare-IsValid}
use mx_chain_simulator_go.Startup.Chain.{ChainMaker, make_chain, proxy_port}
use mx_chain_simulator_go.Startup.ChainLaws.{
  SetsAccounts, make_chain-accounts, proxy_port-address_of,
}
use mx_chain_simulator_go.Process.Factory.{disabled, create_blocks_generator}
use mx_chain_simulator_go.Go.Strconv.{itoa, format_uint}
use mx_chain_simulator_go.Facade.Interface.{SimulatorHandler}
use mx_chain_simulator_go.Testscommon.Simulator.{
  SimulatorHandlerMock, simulator_handler_mock, empty_mock,
}
use mx_chain_simulator_go.Tests.ConfigRuns.{cfg}
use mx_chain_simulator_go.Tests.FetchRuns.{git, temp, deps}

-- The level of the log, the tree of files, the shards whose system account is set, and the blocks.
pub record Machine : Type 0 where
  pub level : Bytes
  pub disk : Node
  pub accounts : List ℕ
  pub blocks : ℕ

abbrev logger : Logger Machine
logger = record {
  FileLogging = ⊤;
  set_log_level = λ level m. (ok tt, record m { level = level });
  new_file_logging = λ dir path prefix m. (ok tt, m);
  change_file_life_span = λ f span size m. (ok tt, m);
  remove_log_observer = λ m. (ok tt, m);
  add_plain_log_observer = λ m. (ok tt, m);
  close = λ f m. (ok tt, m);
}

abbrev file_contents : Bytes → List ℕ
file_contents name = if bytes_eq name (codes "x.toml") then 1 ∷ 2 ∷ [] else 3 ∷ []

abbrev host : Host Machine ℕ
host = record {
  files = λ m. m.disk;
  with_files = λ m disk. record m { disk = disk };
  logger = logger;
  load_config = λ m name. value cfg;
  load_overrides = λ m name. value (overrides (file_contents name));
  names = λ text. text ∷ [];
  temp_dir = temp;
  git = git;
  build_info = some deps;
}

abbrev ctx : CliContext
ctx = record {
  is_set = λ n. bytes_eq n Flags.server_port.name;
  global_string = λ n. codes "x.toml";
  global_int = λ n. pos 1;
  global_int64 = λ n. pos 0;
  global_uint = λ n. 0;
  global_uint64 = λ n. 0;
  global_bool = λ n. bytes_eq n Flags.skip_configs_download.name;
}

abbrev before : Machine
before = record { level = []; disk = dir 493 end; accounts = 7 ∷ []; blocks = 0 }

abbrev prepared : Prepared host ctx
prepared = record {
  config = record cfg { simulator = record cfg.simulator { server_port = pos 1 } };
  override_configs = overrides (3 ∷ 1 ∷ 2 ∷ []);
  file_logging = none;
  validators = record { shard = pos 1; waiting_shard = pos 1; meta = pos 1; waiting_meta = pos 1 };
}

start : prepare host ctx before ≡ (ok (some prepared), record before { level = codes "x.toml" })
unfolding determine_override_config_files split contains has_prefix
start =
    prepare_success ctx host file_contents deps cfg before
      (record before { level = codes "x.toml" }) refl (refl, (refl, tt)) refl refl refl refl refl
      refl ((0, refl), (1, refl), (0, refl), (1, refl))

prepare_success_example :
    prepare host ctx before ≡ (ok (some prepared), record before { level = codes "x.toml" })
unfolding determine_override_config_files split contains has_prefix
prepare_success_example =
    prepare_success ctx host file_contents deps cfg before
      (record before { level = codes "x.toml" }) refl (refl, (refl, tt)) refl refl refl refl refl
      refl ((0, refl), (1, refl), (0, refl), (1, refl))

prepare-IsValid_example :
    (c : Config) × (host.load_config before (codes "x.toml") ≡ value c)
    × (prepared.config ≡ effective ctx c)
    × IsValid prepared.validators
prepare-IsValid_example =
    prepare-IsValid ctx host before (record before { level = codes "x.toml" }) prepared start

-- The simulator is a mock that counts the calls for blocks.
abbrev block_mock : SimulatorHandlerMock Machine ⊤ Bytes ⊤
block_mock = record empty_mock {
  generate_blocks_called = some (λ n m. (ok tt, record m { blocks = m.blocks + 1 }));
}

abbrev sim : SimulatorHandler
sim = simulator_handler_mock tt tt (λ a. a) 0 (λ m node. 0) block_mock

abbrev maker : ChainMaker Machine ℕ
maker = record {
  mkdir_temp = λ pattern m. (ok (codes "/tmp/mx-chainsimulator-1"), m);
  new_chain_simulator = λ args m. (ok none, m);
  set_system_account = λ shard m. (ok tt, record m { accounts = shard ∷ m.accounts });
}

abbrev member : ℕ → List ℕ → Bool
member k [] = false
member k (x ∷ xs) = k == x || member k xs

abbrev laws : SetsAccounts sim host ctx maker (λ m k. member k m.accounts)
laws = record {
  put = λ shard m. record m { accounts = shard ∷ m.accounts };
  sets = λ shard m. refl;
  shows = λ shard k m. refl;
}

-- Three shards are configured, and the account of a shard 7 was set before.
make_chain-accounts_example :
    (t : Machine) × (make_chain sim host ctx maker prepared before
      ≡ (ok (codes "/tmp/mx-chainsimulator-1", disabled), t))
    × ((k : ℕ) → member k t.accounts ≡ (ltb k 3 || member k (7 ∷ [])))
unfolding uint32 create_blocks_generator
make_chain-accounts_example =
    make_chain-accounts sim host ctx maker (λ m k. member k m.accounts) laws prepared
      (codes "/tmp/mx-chainsimulator-1") disabled before before before
      (λ m. record m { blocks = m.blocks + 1 }) refl refl (λ t. refl) (λ t k. refl) refl

proxy_port-address_of_example :
    proxy_port (λ s. message s) (codes "localhost:43117") (pos 0)
    ≡ ok (codes "localhost:43117", pos 43117)
unfolding itoa format_uint
proxy_port-address_of_example =
    proxy_port-address_of (λ s. message s) (pos 0) (pos 43117) (omega arith)
