-- ===== src/Launch/Serves.antt =====
-- What a launch that succeeds has done, from the proxy's configurations to the start of its server.
use mx_chain_simulator_go.Common.{ℕ, ◌≡◌, ap, some, Option-cases, inl, inr, Bytes, arith}
use mx_chain_simulator_go.Common.Int.{ℤ, uint32}
use mx_chain_simulator_go.Common.Outcome.{
  Outcome, ok, Action, pure, ◌>>=◌, ◌>>◌, bind-eq-ok, then-eq-ok,
}
use mx_chain_simulator_go.Api.Routes.{
  Router, new_endpoints_processor, register, extend_proxy_server,
}
use mx_chain_simulator_go.Configs.ProxyConfigs.{ArgsOutputConfig}
use mx_chain_simulator_go.Creator.ServerPort.{HasPort, create_proxy-server}
use mx_chain_simulator_go.Creator.Library.{Components, ProxyLibrary}
use mx_chain_simulator_go.Creator.Defs.{ArgsOutputProxy, create_proxy}
use mx_chain_simulator_go.Facade.Interface.{SimulatorHandler, ProxyTransactionsHandler}
use mx_chain_simulator_go.Facade.New.{simulator_facade, new_simulator_facade}
use mx_chain_simulator_go.Process.Factory.{AnyGenerator}
use mx_chain_simulator_go.Startup.Chain.{ChainMaker, proxy_port}
use mx_chain_simulator_go.Startup.Flags.{CliContext}
use mx_chain_simulator_go.Startup.Prepare.{Host, Prepared}
use mx_chain_simulator_go.Launch.Defs.{
  Surroundings, Running, args_proxy, make_proxy_configs, find_proxy_port, extend, add_endpoints,
  serve_proxy, launch_proxy, launch, time_to_allow_proxy_to_start,
}

run_same :
    {S A : Type 0} {m n : Action S A} {s t : S} {r : Outcome A × S}
    → m ≡ n
    → s ≡ t
    → m s ≡ r
    → n t ≡ r
run_same actions states h = cc

module _ {OverridableConfig Rest : Type 0} (sim : SimulatorHandler)
    (host : Host sim.State OverridableConfig) (ctx : CliContext)
    (maker : ChainMaker sim.State OverridableConfig) {c : Components} (router : Router)
    (lib : ProxyLibrary c Rest sim.State) (around : Surroundings sim c router Rest) (fuel : ℕ)
    (port_of : c.HttpServer → ℤ) where
  open sim use {State}

  -- The state in which the server's engine has all routes, over the facade of this simulator.
  abbrev pub with_routes :
      c.HttpServer → ProxyTransactionsHandler State → router.Engine → State → State
  with_routes server handler ws s =
      around.extended server (record { facade = simulator_facade sim handler fuel })
        (register router ws) s

  add_endpoints-eq-ok :
      (out : ArgsOutputProxy c State) (s t : State)
      → add_endpoints sim host ctx maker router lib around fuel out s ≡ (ok tt, t)
      → (handler : ProxyTransactionsHandler State) × (ws : router.Engine)
        × (around.transactions_handler out.proxy_transaction_handler ≡ some handler)
        × (router.as_engine (around.server_of out.proxy_handler.get_http_server s) ≡ some ws)
        × (t ≡ with_routes out.proxy_handler.get_http_server handler ws s)
  unfolding add_endpoints extend extend_proxy_server new_simulator_facade new_endpoints_processor
  add_endpoints-eq-ok out s t added =
      elim (Option-cases (around.transactions_handler out.proxy_transaction_handler)) [
        | inl missing ↦ absurd (ground (arith, missing, added))
        | inr (handler, handles) ↦
            elim (Option-cases
              (router.as_engine (around.server_of out.proxy_handler.get_http_server s))) [
                | inl other ↦ absurd (ground (arith, handles, other, added))
                | inr (ws, engine) ↦
                    (handler, ws, handles, engine, ground (arith, handles, engine, added))
              ]
      ]

  serve_proxy-eq-ok :
      (out : ArgsOutputProxy c State) (s t : State)
      → out.proxy_handler.start ≡ lib.serve out.proxy_handler.get_http_server
      → serve_proxy sim host ctx maker router lib around fuel out s ≡ (ok tt, t)
      → (handler : ProxyTransactionsHandler State) × (ws : router.Engine) × (s3 : State)
        × (around.transactions_handler out.proxy_transaction_handler ≡ some handler)
        × (router.as_engine (around.server_of out.proxy_handler.get_http_server s) ≡ some ws)
        × (lib.serve out.proxy_handler.get_http_server
              (with_routes out.proxy_handler.get_http_server handler ws s)
            ≡ (ok tt, s3))
        × (around.sleep time_to_allow_proxy_to_start s3 ≡ (ok tt, t))
  unfolding serve_proxy
  serve_proxy-eq-ok out s t starts served =
      let sleep = around.sleep time_to_allow_proxy_to_start in
      let (v, added, served) =
        then-eq-ok (add_endpoints sim host ctx maker router lib around fuel out)
          (out.proxy_handler.start >> sleep) s t served in
      let (s3, started, slept) = then-eq-ok out.proxy_handler.start sleep v t served in
      let (handler, ws, handles, engine, routed) = add_endpoints-eq-ok out s v added in
      let started = run_same starts routed started in
      (handler, ws, s3, handles, engine, started, slept)

  -- What a launch that succeeds has done, from the state `s1` in which the proxy's configurations are
  -- made to the state `s2` in which its proxy is.
  pub record Serves (p : Prepared host ctx) (dir : Bytes) (g : AnyGenerator State) (s t : State)
      (r : Running c State host.logger.FileLogging) : Type 0 where
    pub port : ℤ
    pub configs : ArgsOutputConfig Rest
    pub out : ArgsOutputProxy c State
    pub handler : ProxyTransactionsHandler State
    pub engine : router.Engine
    pub s1 : State
    pub s2 : State
    pub s3 : State
    pub configs_made :
        make_proxy_configs sim host ctx maker router lib around fuel dir s ≡ (ok configs, s1)
    pub port_found :
        proxy_port around.atoi_error (around.rest_api_interface s1) p.config.simulator.server_port
        ≡ ok (r.proxy_url, port)
    pub created :
        create_proxy lib
          (record {
            path_to_config = configs.path_to_temp_config;
            path_to_pem_file = configs.path_to_pem_file;
            config = record configs.config { server_port = port };
            node_handler = around.node_of (sim.get_node_handler s sim.metachain_shard_id);
            number_of_shards = uint32 p.config.simulator.num_of_shards;
          })
          s1
        ≡ (ok out, s2)
    pub of_proxy : r.proxy_instance ≡ out.proxy_handler
    pub on_port : port_of out.proxy_handler.get_http_server ≡ port
    pub handles : around.transactions_handler out.proxy_transaction_handler ≡ some handler
    pub has_engine :
        router.as_engine (around.server_of out.proxy_handler.get_http_server s2) ≡ some engine
    pub served :
        lib.serve out.proxy_handler.get_http_server
          (with_routes out.proxy_handler.get_http_server handler engine s2)
        ≡ (ok tt, s3)
    pub waited : around.sleep time_to_allow_proxy_to_start s3 ≡ (ok tt, t)
    pub same_generator : r.generator ≡ g
    pub same_log : r.file_logging ≡ p.file_logging

  -- A launch that succeeds makes the configurations, finds a port, and goes on from there.
  launch-eq-ok :
      (p : Prepared host ctx) (dir : Bytes) (g : AnyGenerator State) (s t : State)
      (r : Running c State host.logger.FileLogging)
      → launch sim host ctx maker router lib around fuel p (dir, g) s ≡ (ok r, t)
      → (configs : ArgsOutputConfig Rest) × (s1 : State) × (url : Bytes) × (port : ℤ)
        × (make_proxy_configs sim host ctx maker router lib around fuel dir s ≡ (ok configs, s1))
        × (proxy_port around.atoi_error
              (around.rest_api_interface s1)
              p.config.simulator.server_port
            ≡ ok (url, port))
        × (launch_proxy sim host ctx maker router lib around fuel p g
              (sim.get_node_handler s sim.metachain_shard_id)
              configs
              (url, port)
              s1
            ≡ (ok r, t))
  unfolding launch find_proxy_port
  launch-eq-ok p dir g s t r launched =
      let node = sim.get_node_handler s sim.metachain_shard_id in
      let finish = λ (configs : ArgsOutputConfig Rest).
        launch_proxy sim host ctx maker router lib around fuel p g node configs in
      let find =
        find_proxy_port sim host ctx maker router lib around fuel p.config.simulator.server_port in
      let make = make_proxy_configs sim host ctx maker router lib around fuel dir in
      let (configs, s1, made, launched) =
        bind-eq-ok make (λ configs. find >>= finish configs) s t launched in
      let ((url, port), u, found, launched) = bind-eq-ok find (finish configs) s1 t launched in
      let same : u ≡ s1 = ground (arith, found) in
      let launched : launch_proxy sim host ctx maker router lib around fuel p g node configs
            (url, port) s1
          ≡ (ok r, t) =
        ground (arith, launched, same) in
      (configs, s1, url, port, made, ground (arith, found), launched)

  -- If the launch succeeds, on a library whose servers have the port they are created with: the port
  -- is the one configured, or the free one if none is, and stands in the address that is returned; the
  -- proxy that is returned was created with it and with the metachain's node, and its server has that
  -- port; the server's handler was an engine, and the server was started on the state in which the
  -- engine has all routes, over the facade of this simulator and this proxy's transaction processor;
  -- then the launch waited for it. The generator and the log file are passed on.
  pub launch-Serves :
      (law : HasPort lib port_of) (p : Prepared host ctx) (dir : Bytes) (g : AnyGenerator State)
      (s t : State) (r : Running c State host.logger.FileLogging)
      → launch sim host ctx maker router lib around fuel p (dir, g) s ≡ (ok r, t)
      → Serves p dir g s t r
  unfolding launch_proxy
  launch-Serves law p dir g s t r launched =
      let (configs, s1, url, port, made, found, launched) = launch-eq-ok p dir g s t r launched in
      let node = sim.get_node_handler s sim.metachain_shard_id in
      let args = args_proxy sim host ctx maker router lib around fuel p configs port node in
      let running : ArgsOutputProxy c State → Running c State host.logger.FileLogging = λ out.
        record {
          file_logging = p.file_logging;
          generator = g;
          proxy_instance = out.proxy_handler;
          proxy_url = url;
        } in
      let serve = serve_proxy sim host ctx maker router lib around fuel in
      let (out, s2, created, launched) =
        bind-eq-ok (create_proxy lib args) (λ out. serve out >> pure (running out)) s1 t launched in
      let (w, served, launched) = then-eq-ok (serve out) (pure (running out)) s2 t launched in
      let (on_port, starts) = create_proxy-server lib port_of law args s1 s2 out created in
      let (handler, ws, s3, handles, engine, started, slept) =
        serve_proxy-eq-ok out s2 w starts served in
      let same : r ≡ running out = ground (arith, launched) in
      record {
        port = port;
        configs = configs;
        out = out;
        handler = handler;
        engine = ws;
        s1 = s1;
        s2 = s2;
        s3 = s3;
        configs_made = made;
        port_found = ground (arith, found, same);
        created = created;
        of_proxy = ap (λ x. x.proxy_instance) same;
        on_port = on_port;
        handles = handles;
        has_engine = engine;
        served = started;
        waited = ground (arith, slept, launched);
        same_generator = ap (λ x. x.generator) same;
        same_log = ap (λ x. x.file_logging) same;
      }
