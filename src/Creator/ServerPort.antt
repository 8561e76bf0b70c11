-- ===== src/Creator/ServerPort.antt =====
-- The port that a proxy of `CreateProxy` serves on, and what its `Start` does.
use mx_chain_simulator_go.Common.{◌≡◌, refl, Bool, false, [], ◌∷◌, ◌++◌, codes, arith}
use mx_chain_simulator_go.Common.Int.{ℤ}
use mx_chain_simulator_go.Common.Outcome.{ok, pure, ◌>>=◌, ◌>>◌, bind-eq-ok, then-eq-ok}
use mx_chain_simulator_go.Creator.Library.{Components, FacadeArgs, ProxyLibrary}
use mx_chain_simulator_go.Creator.Defs.{
  ArgsProxy, ArgsOutputProxy, Processors, output_proxy, make_base_processor, make_processors,
  make_facade_args, make_server, finish_proxy, create_proxy, proxy_handler, start, get_http_server,
}

module _ {c : Components} {Rest State : Type 0} (lib : ProxyLibrary c Rest State)
    (port_of : c.HttpServer → ℤ) where
  -- What is relied on: a server that is created has the port it is asked for.
  abbrev pub HasPort : Type 0
  HasPort =
      (registry : c.VersionsRegistry) (port : ℤ) (logging : c.ApiLogging)
      (metrics : c.StatusMetrics) (window : ℤ) (limited profiled : Bool) (s t : State)
      (server : c.HttpServer)
      → lib.create_server registry port logging metrics window limited profiled s ≡ (ok server, t)
      → port_of server ≡ port

  module _ (law : HasPort) (args : ArgsProxy c Rest) where
    make_server-port :
        (fa : FacadeArgs c) (s t : State) (h : c.HttpServer)
        → make_server lib args fa s ≡ (ok h, t)
        → port_of h ≡ args.config.server_port
    unfolding make_server
    make_server-port fa s t h made =
        let parse = lib.new_api_config_parser (args.path_to_config ++ codes "apiConfig" ∷ []) in
        let settings = lib.settings args.config.rest in
        let create = λ (registry : c.VersionsRegistry).
          lib.create_server registry args.config.server_port settings.api_logging
            lib.new_status_metrics settings.rate_limit_window_duration_seconds false false in
        let (parser, s1, _, made) =
          bind-eq-ok parse (λ parser. lib.create_versions_registry fa parser >>= create) s t made in
        let (registry, s2, _, made) =
          bind-eq-ok (lib.create_versions_registry fa parser) create s1 t made in
        law registry args.config.server_port _ _ _ _ _ s2 t h made

    finish_proxy-server :
        (bp : c.BaseProcessor) (ps : Processors c) (s t : State) (out : ArgsOutputProxy c State)
        → finish_proxy lib args bp ps s ≡ (ok out, t)
        → (h : c.HttpServer) × (out ≡ output_proxy lib args bp ps h)
          × (port_of h ≡ args.config.server_port)
    unfolding finish_proxy
    finish_proxy-server bp ps s t out made =
        let serve = λ (fa : FacadeArgs c).
          make_server lib args fa >>= λ h. pure (output_proxy lib args bp ps h) in
        let with_facade = make_facade_args lib args bp ps >>= serve in
        let (s1, _, made) =
          then-eq-ok (lib.start_val_stats_update ps.val_stats_proc)
            (lib.start_node_status_update ps.node_status_proc >> with_facade) s t made in
        let (s2, _, made) =
          then-eq-ok (lib.start_node_status_update ps.node_status_proc) with_facade s1 t made in
        let (fa, s3, _, made) = bind-eq-ok (make_facade_args lib args bp ps) serve s2 t made in
        let (h, s4, served, made) =
          bind-eq-ok (make_server lib args fa) (λ h. pure (output_proxy lib args bp ps h)) s3 t
            made in
        (h, ground (arith, made), make_server-port fa s3 s4 h served)

    -- The server of a proxy that is made has the port of the arguments, and `Start` serves it.
    pub create_proxy-server :
        (s t : State) (out : ArgsOutputProxy c State)
        → create_proxy lib args s ≡ (ok out, t)
        → (port_of out.proxy_handler.get_http_server ≡ args.config.server_port)
          × (out.proxy_handler.start ≡ lib.serve out.proxy_handler.get_http_server)
    unfolding create_proxy proxy_handler start get_http_server
    create_proxy-server s t out made =
        let rest =
          λ (bp : c.BaseProcessor). make_processors lib args bp >>= finish_proxy lib args bp in
        let (bp, s1, _, made) =
          bind-eq-ok (make_base_processor lib args)
            (λ bp. lib.start_nodes_sync_state_checks bp >> rest bp) s t made in
        let (s2, _, made) = then-eq-ok (lib.start_nodes_sync_state_checks bp) (rest bp) s1 t made in
        let (ps, s3, _, made) =
          bind-eq-ok (make_processors lib args bp) (finish_proxy lib args bp) s2 t made in
        let (h, same, port) = finish_proxy-server bp ps s3 t out made in rw same (port, refl)
