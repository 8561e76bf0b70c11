-- ===== src/Launch/Laws.antt =====
-- Where the proxy of `startChainSimulator` has a server whose handler is no engine.
use mx_chain_simulator_go.Common.{ℕ, ◌≡◌, Bool, ◌||◌, none, some, Bytes, codes, arith}
use mx_chain_simulator_go.Common.Int.{ℤ}
use mx_chain_simulator_go.Common.Outcome.{Error, message, ok, err}
use mx_chain_simulator_go.Api.Routes.{Router, new_endpoints_processor, extend_proxy_server}
use mx_chain_simulator_go.Configs.ProxyConfigs.{ArgsOutputConfig}
use mx_chain_simulator_go.Creator.Library.{Components, ProxyLibrary}
use mx_chain_simulator_go.Creator.Defs.{ArgsOutputProxy, create_proxy}
use mx_chain_simulator_go.Creator.Quiet.{Worker, IsLawful}
use mx_chain_simulator_go.Creator.Lifecycle.{started, updates_started, created-running}
use mx_chain_simulator_go.Facade.Interface.{SimulatorHandler, ProxyTransactionsHandler}
use mx_chain_simulator_go.Facade.New.{new_simulator_facade}
use mx_chain_simulator_go.Process.Factory.{AnyGenerator}
use mx_chain_simulator_go.Startup.Chain.{ChainMaker}
use mx_chain_simulator_go.Startup.Flags.{CliContext}
use mx_chain_simulator_go.Startup.Prepare.{Host, Prepared}
use mx_chain_simulator_go.Launch.Defs.{
  Surroundings, args_proxy, make_proxy_configs, find_proxy_port, extend, add_endpoints, serve_proxy,
  launch_proxy, launch,
}

abbrev pub no_engine : Error
no_engine = message (codes "cannot cast httpServer.Handler to gin.Engine")

module _ {OverridableConfig Rest : Type 0} (sim : SimulatorHandler)
    (host : Host sim.State OverridableConfig) (ctx : CliContext)
    (maker : ChainMaker sim.State OverridableConfig) {c : Components} (router : Router)
    (lib : ProxyLibrary c Rest sim.State) (around : Surroundings sim c router Rest) (fuel : ℕ) where
  open sim use {State}

  add_endpoints_fails :
      (out : ArgsOutputProxy c State) (handler : ProxyTransactionsHandler State) (s : State)
      → around.transactions_handler out.proxy_transaction_handler ≡ some handler
      → router.as_engine (around.server_of out.proxy_handler.get_http_server s) ≡ none
      → add_endpoints sim host ctx maker router lib around fuel out s ≡ (err no_engine, s)
  unfolding add_endpoints extend extend_proxy_server new_simulator_facade new_endpoints_processor
  add_endpoints_fails out handler s handles engine = ground (arith, handles, engine)

  -- If the handler of the proxy's server is no engine, the launch answers that error and starts no
  -- server; but on a lawful library the three workers that `CreateProxy` has started run on.
  pub launch_without_engine :
      (running : State → Worker → Bool) (law : IsLawful lib running) (p : Prepared host ctx)
      (temp_dir : Bytes) (g : AnyGenerator State) (configs : ArgsOutputConfig Rest) (url : Bytes)
      (port : ℤ) (out : ArgsOutputProxy c State) (handler : ProxyTransactionsHandler State)
      (s s1 s2 : State)
      → make_proxy_configs sim host ctx maker router lib around fuel temp_dir s ≡ (ok configs, s1)
      → find_proxy_port sim host ctx maker router lib around fuel p.config.simulator.server_port s1
        ≡ (ok (url, port), s1)
      → create_proxy lib
          (args_proxy sim host ctx maker router lib around fuel p configs port
            (sim.get_node_handler s sim.metachain_shard_id))
          s1
        ≡ (ok out, s2)
      → around.transactions_handler out.proxy_transaction_handler ≡ some handler
      → router.as_engine (around.server_of out.proxy_handler.get_http_server s2) ≡ none
      → (launch sim host ctx maker router lib around fuel p (temp_dir, g) s ≡ (err no_engine, s2))
        × ((k : Worker) → running s2 k ≡ (started updates_started k || running s1 k))
  unfolding launch launch_proxy serve_proxy
  launch_without_engine running law p temp_dir g configs url port out handler s s1 s2 made found
        created handles engine =
      (
        ground (arith, made, found, created, add_endpoints_fails out handler s2 handles engine),
        created-running lib running law _ s1 s2 out created,
      )
