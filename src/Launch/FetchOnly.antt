-- ===== src/Launch/FetchOnly.antt =====
-- A start that is to end with the fetching.
use mx_chain_simulator_go.Common.{ℕ, ◌≡◌, true, Option, none, arith}
use mx_chain_simulator_go.Common.Outcome.{Action, pure, ◌>>=◌, ◌>>◌, bind-into}
use mx_chain_simulator_go.Api.Routes.{Router}
use mx_chain_simulator_go.Config.{Config, OverrideConfigs}
use mx_chain_simulator_go.Creator.Library.{Components, ProxyLibrary}
use mx_chain_simulator_go.Facade.Interface.{SimulatorHandler}
use mx_chain_simulator_go.Startup.Chain.{ChainMaker}
use mx_chain_simulator_go.Startup.Flags
use mx_chain_simulator_go.Startup.Flags.{CliContext, apply_flags}
use mx_chain_simulator_go.Startup.Prepare.{
  Host, prepare, check_start, read_config, read_overrides, start_logging, with_config,
  with_overrides, fetch,
}
use mx_chain_simulator_go.Launch.Defs.{Surroundings, Running, start_chain_simulator}
use mx_chain_simulator_go.Launch.Started.{from_prepared}

module _ {OverridableConfig Rest : Type 0} (sim : SimulatorHandler)
    (host : Host sim.State OverridableConfig) (ctx : CliContext)
    (maker : ChainMaker sim.State OverridableConfig) {c : Components} (router : Router)
    (lib : ProxyLibrary c Rest sim.State) (around : Surroundings sim c router Rest) (fuel : ℕ) where
  -- The four parts of a start that only fetches, and then a return with no error.
  abbrev pub fetch_only : Action sim.State (Option (Running c sim.State host.logger.FileLogging))
  fetch_only = do
    cfg ← read_config host ctx
    overrides ← read_overrides host ctx
    file_logging ← start_logging host ctx (apply_flags ctx cfg)
    fetch host ctx (apply_flags ctx cfg)
    pure none

  module _ (flag : ctx.global_bool Flags.fetch_configs_and_close.name ≡ true) where
    check_start-none :
        (cfg : Config) (ov : OverrideConfigs OverridableConfig)
        (fl : Option host.logger.FileLogging) (s : sim.State)
        → (check_start host ctx cfg ov fl
              >>= from_prepared sim host ctx maker router lib around fuel)
            s
          ≡ pure none s
    unfolding check_start
    check_start-none cfg ov fl s = ground (arith, flag)

  -- With the flag fetch-configs-and-close the start reads the configuration and the override files,
  -- starts the logger and fetches, in this order; it ends with the first of these that does not
  -- succeed, as that ends, and if all succeed it returns with no error and nothing else done, whatever
  -- the numbers of validators are.
  pub start_chain_simulator-fetch_only :
      (s : sim.State)
      → ctx.global_bool Flags.fetch_configs_and_close.name ≡ true
      → start_chain_simulator sim host ctx maker router lib around fuel s ≡ fetch_only s
  unfolding start_chain_simulator prepare
  start_chain_simulator-fetch_only s flag =
      let finish = from_prepared sim host ctx maker router lib around fuel in
      bind-into (read_config host ctx) (with_config host ctx) finish _
        (λ cfg.
          let c = apply_flags ctx cfg in
          bind-into (read_overrides host ctx) (with_overrides host ctx c) finish _ (λ ov.
            bind-into (start_logging host ctx c)
              (λ fl. fetch host ctx c >> check_start host ctx c ov fl) finish _
              (λ fl.
                bind-into (fetch host ctx c) (λ _. check_start host ctx c ov fl) finish _
                  (λ _. check_start-none flag c ov fl))))
        s
