-- ===== src/Launch/WholeRun.antt =====
-- A run of the program from its start to its end.
use mx_chain_simulator_go.Common.{ℕ, ◌≡◌, refl, Bool, true, false, some, arith}
use mx_chain_simulator_go.Common.Int.{pos}
use mx_chain_simulator_go.Common.Outcome.{ok}
use mx_chain_simulator_go.Api.Routes.{Router}
use mx_chain_simulator_go.Creator.Library.{Components, ProxyLibrary}
use mx_chain_simulator_go.Creator.Closing.{close-stops}
use mx_chain_simulator_go.Creator.Quiet.{Worker, IsLawful}
use mx_chain_simulator_go.Facade.Interface.{SimulatorHandler}
use mx_chain_simulator_go.Process.Generator
use mx_chain_simulator_go.Startup.Chain.{ChainMaker}
use mx_chain_simulator_go.Startup.Flags.{CliContext}
use mx_chain_simulator_go.Startup.Prepare.{Host}
use mx_chain_simulator_go.Launch.Closed.{IsKept, ClosesParts, IsClosed, reached-IsClosed}
use mx_chain_simulator_go.Launch.Defs.{Surroundings, Running, start_chain_simulator}
use mx_chain_simulator_go.Launch.Parts.{Part, past}
use mx_chain_simulator_go.Launch.Shutdown.{waiting, Program, Reach}
use mx_chain_simulator_go.Launch.Started.{simulator, started-parts}

module _ {OverridableConfig Rest : Type 0} (sim : SimulatorHandler)
    (host : Host sim.State OverridableConfig) (ctx : CliContext)
    (maker : ChainMaker sim.State OverridableConfig) {c : Components} (router : Router)
    (lib : ProxyLibrary c Rest sim.State) (around : Surroundings sim c router Rest) (fuel : ℕ)
    (Works : sim.State → sim.State → Type 0) (sim_closed : sim.State → Bool)
    (running : sim.State → Worker → Bool) (log_open : sim.State → Bool) where
  open sim use {State}
  open host use {logger}

  abbrev pub sim_here : Generator.SimulatorHandler State
  sim_here = simulator sim host ctx maker router lib around fuel

  -- What is relied on beside the proxy's library: blocks and requests leave the three views as they
  -- are, closing the simulator shows, closing the proxy leaves the simulator closed, and closing the
  -- log file, with an error or with none, leaves the other two.
  pub record ClosesRest (r : Running c State logger.FileLogging) : Type 0 where
    pub generate_keeps :
        (s : State)
        → IsKept logger around.close_simulator r.proxy_instance r.file_logging Works sim_here
            sim_closed running log_open s
            (sim.generate_blocks (pos 1) s).1
    pub works_keep :
        (s t : State)
        → Works s t
        → IsKept logger around.close_simulator r.proxy_instance r.file_logging Works sim_here
            sim_closed running log_open s t
    pub chain_closes : (s t : State) → around.close_simulator s ≡ (ok tt, t) → sim_closed t ≡ true
    pub proxy_keeps :
        (s t : State) → r.proxy_instance.close s ≡ (ok tt, t) → sim_closed t ≡ sim_closed s
    pub log_closes :
        (f : logger.FileLogging) (s : State)
        → (sim_closed (logger.close f s).1 ≡ sim_closed s)
          × ((k : Worker) → running (logger.close f s).1 k ≡ running s k)
          × (log_open (logger.close f s).1 ≡ false)

  -- If the start succeeds, on a library whose components stop their workers when they are closed, then
  -- from the state in which the program waits, under every interleaving with the generator's goroutine
  -- and with requests, each part that the function is past is closed: the generator that was made, the
  -- simulator, the workers of the proxy that was created, and the log file; so all are at the end.
  pub start_chain_simulator-IsClosed :
      (law : IsLawful lib running) (s t : State) (r : Running c State logger.FileLogging)
      (q : Program State) (part : Part)
      → start_chain_simulator sim host ctx maker router lib around fuel s ≡ (ok (some r), t)
      → ClosesRest r
      → Reach logger around.close_simulator r.proxy_instance r.file_logging Works
          (record { stage = waiting; generator = r.generator; state = t })
          q
      → past q.stage part ≡ true
      → IsClosed logger around.close_simulator r.proxy_instance r.file_logging Works sim_here
          sim_closed running log_open part q.generator q.state
  start_chain_simulator-IsClosed law s t r q part started rest reach behind =
      let (args, u, v, out, created, same, drives) =
        started-parts sim host ctx maker router lib around fuel s t r started in
      let closes : ClosesParts logger around.close_simulator r.proxy_instance r.file_logging Works
          sim_here sim_closed running log_open =
        record {
          generate_keeps = rest.generate_keeps;
          works_keep = rest.works_keep;
          chain_closes = rest.chain_closes;
          proxy_keeps = rest.proxy_keeps;
          proxy_stops = λ a b h.
              close-stops lib running law args u v out a b created (ground (arith, h, same));
          log_closes = rest.log_closes;
        } in
      reached-IsClosed logger around.close_simulator r.proxy_instance r.file_logging Works sim_here
        sim_closed running log_open closes
        (record { stage = waiting; generator = r.generator; state = t }) q part reach refl drives
        behind
