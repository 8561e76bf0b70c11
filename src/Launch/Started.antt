-- ===== src/Launch/Started.antt =====
-- What a start that succeeds has made: its proxy is one of `CreateProxy`, and its generator drives the
-- simulator.
use mx_chain_simulator_go.Common.{⊤, ℕ, ◌≡◌, ◌∙◌, ap, sym, Option, none, some, Bytes, arith}
use mathlib.Core.Path.{subst}
use mx_chain_simulator_go.Common.Int.{ℤ, pos, uint32}
use mx_chain_simulator_go.Common.Outcome.{
  Error, ok, Action, pure, fail, lift, ◌>>=◌, ◌>>◌, bind-eq-ok, then-eq-ok, lift-eq-ok, value,
}
use mx_chain_simulator_go.Api.Routes.{Router}
use mx_chain_simulator_go.Config.{BlocksGeneratorConfig}
use mx_chain_simulator_go.Configs.ProxyConfigs.{ArgsOutputConfig}
use mx_chain_simulator_go.Creator.Library.{Components, ProxyLibrary}
use mx_chain_simulator_go.Creator.Defs.{ArgsProxy, ArgsOutputProxy, create_proxy}
use mx_chain_simulator_go.Facade.Interface.{SimulatorHandler}
use mx_chain_simulator_go.Process.Factory.{
  AnyGenerator, disabled, automatic, create_blocks_generator,
}
use mx_chain_simulator_go.Process.Generator
use mx_chain_simulator_go.Process.Generator.{new_blocks_generator}
use mx_chain_simulator_go.Startup.Chain.{
  ChainMaker, make_chain, start_blocks, set_system_accounts, args_chain_simulator, temp_dir_pattern,
}
use mx_chain_simulator_go.Startup.Flags.{CliContext}
use mx_chain_simulator_go.Startup.Prepare.{Host, Prepared, prepare}
use mx_chain_simulator_go.Launch.Defs.{
  Surroundings, Running, args_proxy, make_proxy_configs, find_proxy_port, serve_proxy, launch_proxy,
  launch, start_chain_simulator,
}

module _ {OverridableConfig Rest : Type 0} (sim : SimulatorHandler)
    (host : Host sim.State OverridableConfig) (ctx : CliContext)
    (maker : ChainMaker sim.State OverridableConfig) {c : Components} (router : Router)
    (lib : ProxyLibrary c Rest sim.State) (around : Surroundings sim c router Rest) (fuel : ℕ) where
  open sim use {State}

  abbrev pub simulator : Generator.SimulatorHandler State
  simulator = record { generate_blocks = sim.generate_blocks }

  -- The generator asks this simulator for its blocks.
  abbrev pub DrivesIt : AnyGenerator State → Type 0
  DrivesIt disabled = ⊤
  DrivesIt (automatic g) = g.simulator ≡ simulator

  create_blocks_generator-DrivesIt :
      (config : BlocksGeneratorConfig) (g : AnyGenerator State)
      → create_blocks_generator (some simulator) config ≡ value g
      → DrivesIt g
  unfolding create_blocks_generator new_blocks_generator
  create_blocks_generator-DrivesIt config disabled h = tt
  create_blocks_generator-DrivesIt config (automatic g) h = ground (arith, h)

  start_blocks-DrivesIt :
      (p : Prepared host ctx) (s t : State) (g : AnyGenerator State)
      → start_blocks sim host ctx maker p s ≡ (ok g, t)
      → DrivesIt g
  unfolding start_blocks
  start_blocks-DrivesIt p s t g made =
      let config = p.config.blocks_generator in
      let make : Action State (AnyGenerator State) =
        lift (create_blocks_generator (some simulator) config) in
      let (s1, _, made) =
        then-eq-ok
          (set_system_accounts sim host ctx maker (uint32 p.config.simulator.num_of_shards) 0)
          (sim.generate_blocks (pos 1) >> make) s t made in
      let (s2, _, made) = then-eq-ok (sim.generate_blocks (pos 1)) make s1 t made in
      create_blocks_generator-DrivesIt config g
        (lift-eq-ok (create_blocks_generator (some simulator) config) s2 made)

  make_chain-DrivesIt :
      (p : Prepared host ctx) (s t : State) (dir : Bytes) (g : AnyGenerator State)
      → make_chain sim host ctx maker p s ≡ (ok (dir, g), t)
      → DrivesIt g
  unfolding make_chain
  make_chain-DrivesIt p s t dir g made =
      let finish = λ (dir : Bytes). start_blocks sim host ctx maker p >>= λ g. pure (dir, g) in
      let after : Bytes → Option Error → Action State (Bytes × AnyGenerator State) =
        λ dir e. elim e [ some e ↦ fail e | none ↦ finish dir ] in
      let (dir', s1, _, made) =
        bind-eq-ok (maker.mkdir_temp temp_dir_pattern)
          (λ dir.
            maker.new_chain_simulator (args_chain_simulator sim host ctx maker p dir) >>= after dir)
          s t made in
      let (altered, s2, _, made) =
        bind-eq-ok (maker.new_chain_simulator (args_chain_simulator sim host ctx maker p dir'))
          (after dir') s1 t made in
      let made : finish dir' s2 ≡ (ok (dir, g), t) = ground (arith, made) in
      let (g', s3, blocks, made) =
        bind-eq-ok (start_blocks sim host ctx maker p) (λ g. pure (dir', g)) s2 t made in
      subst DrivesIt (ground (arith, made)) (start_blocks-DrivesIt p s2 s3 g' blocks)

  launch_proxy-created :
      (p : Prepared host ctx) (g : AnyGenerator State) (node : sim.NodeHandler)
      (configs : ArgsOutputConfig Rest) (port : Bytes × ℤ) (s t : State)
      (r : Running c State host.logger.FileLogging)
      → launch_proxy sim host ctx maker router lib around fuel p g node configs port s ≡ (ok r, t)
      → (args : ArgsProxy c Rest) × (v : State) × (out : ArgsOutputProxy c State) × (create_proxy
            lib args s
          ≡ (ok out, v))
        × (r.proxy_instance ≡ out.proxy_handler)
        × (r.generator ≡ g)
  unfolding launch_proxy
  launch_proxy-created p g node configs (url, port) s t r launched =
      let args = args_proxy sim host ctx maker router lib around fuel p configs port node in
      let running : ArgsOutputProxy c State → Running c State host.logger.FileLogging = λ out.
        record {
          file_logging = p.file_logging;
          generator = g;
          proxy_instance = out.proxy_handler;
          proxy_url = url;
        } in
      let serve = serve_proxy sim host ctx maker router lib around fuel in
      let (out, v, created, launched) =
        bind-eq-ok (create_proxy lib args) (λ out. serve out >> pure (running out)) s t launched in
      let (w, _, launched) = then-eq-ok (serve out) (pure (running out)) v t launched in
      let same : r ≡ running out = ground (arith, launched) in
      (args, v, out, created, ap (λ x. x.proxy_instance) same, ap (λ x. x.generator) same)

  -- The proxy of a launch is one that `CreateProxy` made.
  launch-created :
      (p : Prepared host ctx) (dir : Bytes) (g : AnyGenerator State) (s t : State)
      (r : Running c State host.logger.FileLogging)
      → launch sim host ctx maker router lib around fuel p (dir, g) s ≡ (ok r, t)
      → (args : ArgsProxy c Rest) × (u v : State) × (out : ArgsOutputProxy c State) × (create_proxy
            lib args u
          ≡ (ok out, v))
        × (r.proxy_instance ≡ out.proxy_handler)
        × (r.generator ≡ g)
  unfolding launch launch_proxy
  launch-created p dir g s t r launched =
      let finish = λ (node : sim.NodeHandler) (configs : ArgsOutputConfig Rest).
        launch_proxy sim host ctx maker router lib around fuel p g node configs in
      let find =
        find_proxy_port sim host ctx maker router lib around fuel p.config.simulator.server_port in
      let make = make_proxy_configs sim host ctx maker router lib around fuel dir in
      let node = sim.get_node_handler s sim.metachain_shard_id in
      let (configs, s1, _, launched) =
        bind-eq-ok make (λ configs. find >>= finish node configs) s t launched in
      let (port, s2, _, launched) = bind-eq-ok find (finish node configs) s1 t launched in
      let (args, v, out, made, proxy, same) =
        launch_proxy-created p g node configs port s2 t r launched in
      (args, s2, v, out, made, proxy, same)

  -- `startChainSimulator` behind its preparation.
  abbrev pub from_prepared :
      Option (Prepared host ctx) → Action State (Option (Running c State host.logger.FileLogging))
  from_prepared none = pure none
  from_prepared (some p) = do
    made ← make_chain sim host ctx maker p
    running ← launch sim host ctx maker router lib around fuel p made
    pure (some running)

  from_prepared-parts :
      (prepared : Option (Prepared host ctx)) (s t : State)
      (r : Running c State host.logger.FileLogging)
      → from_prepared prepared s ≡ (ok (some r), t)
      → (args : ArgsProxy c Rest) × (u v : State) × (out : ArgsOutputProxy c State) × (create_proxy
            lib args u
          ≡ (ok out, v))
        × (r.proxy_instance ≡ out.proxy_handler)
        × DrivesIt r.generator
  from_prepared-parts none s t r started = absurd (ground (arith, started))
  from_prepared-parts (some p) s t r started =
      let go = launch sim host ctx maker router lib around fuel p in
      let wrap : Running c State host.logger.FileLogging
          → Action State (Option (Running c State host.logger.FileLogging)) =
        λ r. pure (some r) in
      let ((dir, g), s1, made, started) =
        bind-eq-ok (make_chain sim host ctx maker p) (λ made. go made >>= wrap) s t started in
      let (r', s2, launched, started) = bind-eq-ok (go (dir, g)) wrap s1 t started in
      let same : r ≡ r' = ground (arith, started) in
      let (args, u, v, out, created, proxy, drives) = launch-created p dir g s1 s2 r' launched in
      (
        args,
        u,
        v,
        out,
        created,
        ap (λ x. x.proxy_instance) same ∙ proxy,
        subst DrivesIt (sym (ap (λ x. x.generator) same ∙ drives))
            (make_chain-DrivesIt p s s1 dir g made),
      )

  pub started-parts :
      (s t : State) (r : Running c State host.logger.FileLogging)
      → start_chain_simulator sim host ctx maker router lib around fuel s ≡ (ok (some r), t)
      → (args : ArgsProxy c Rest) × (u v : State) × (out : ArgsOutputProxy c State) × (create_proxy
            lib args u
          ≡ (ok out, v))
        × (r.proxy_instance ≡ out.proxy_handler)
        × DrivesIt r.generator
  unfolding start_chain_simulator
  started-parts s t r started =
      let (prepared, s1, _, started) = bind-eq-ok (prepare host ctx) from_prepared s t started in
      from_prepared-parts prepared s1 t r started
