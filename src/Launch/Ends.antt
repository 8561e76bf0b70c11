-- ===== src/Launch/Ends.antt =====
-- The end of the program, from wherever it is.
use mx_chain_simulator_go.Common.{⊤, ◌≡◌, ◌∙◌, refl, Bool, false, Option, arith}
use mx_chain_simulator_go.Common.Outcome.{ok, Action}
use mx_chain_simulator_go.Creator.Library.{Components}
use mx_chain_simulator_go.Creator.Defs.{ProxyHandler}
use mx_chain_simulator_go.Process.Factory.{AnyGenerator, disabled, automatic, close_any}
use mx_chain_simulator_go.Process.Generator.{SimulatorHandler, close}
use mx_chain_simulator_go.Creator.Quiet.{Worker}
use mx_chain_simulator_go.Launch.Closed.{ClosesParts, IsClosed, Drives, reached-IsClosed}
use mx_chain_simulator_go.Launch.Parts.{Part}
use mx_chain_simulator_go.Startup.Logger.{Logger}
use mx_chain_simulator_go.Launch.Shutdown.{
  Stage, waiting, closing_generator, closing_simulator, closing_proxy, closing_log, ended, Program,
  is_crashed, interrupt, close_generator, close_chain, close_proxy, close_file, Reach, here, next,
  close_log,
}

-- The goroutine has panicked.
abbrev pub has_crashed : {State : Type 0} → AnyGenerator State → Bool
has_crashed disabled = false
has_crashed (automatic g) = is_crashed g.phase

has_crashed-close_any :
    {State : Type 0} (g : AnyGenerator State) → has_crashed (close_any g) ≡ has_crashed g
unfolding close_any close
has_crashed-close_any disabled = refl
has_crashed-close_any (automatic g) = refl

module _ {State : Type 0} (logger : Logger State) {c : Components}
    (close_simulator : Action State ⊤) (proxy : ProxyHandler c State)
    (file_logging : Option logger.FileLogging) (Works : State → State → Type 0) where
  -- What is closed comes back, whatever the state.
  pub record ComesBack : Type 0 where
    pub simulator_returns : (s : State) → (t : State) × (close_simulator s ≡ (ok tt, t))
    pub proxy_returns : (s : State) → (t : State) × (proxy.close s ≡ (ok tt, t))
    pub log_returns : (s : State) → (t : State) × (close_log logger file_logging s ≡ (ok tt, t))

  abbrev at : Stage → AnyGenerator State → State → Program State
  at p g s = record { stage = p; generator = g; state = s }

  abbrev Leads : Program State → Program State → Type 0
  Leads = Reach logger close_simulator proxy file_logging Works

  module _ (law : ComesBack) where
    open law use {simulator_returns, proxy_returns, log_returns}

    from_log :
        (p : Program State) (g : AnyGenerator State) (s : State)
        → has_crashed g ≡ false
        → Leads p (at closing_log g s)
        → (g' : AnyGenerator State) × (t : State) × Leads p (at ended g' t)
    from_log p g s h r =
        let (t, closed) = log_returns s in (g, t, next r (ground (arith, h)) (close_file closed))

    from_proxy :
        (p : Program State) (g : AnyGenerator State) (s : State)
        → has_crashed g ≡ false
        → Leads p (at closing_proxy g s)
        → (g' : AnyGenerator State) × (t : State) × Leads p (at ended g' t)
    from_proxy p g s h r =
        let (t, closed) = proxy_returns s in
        from_log p g t h (next r (ground (arith, h)) (close_proxy closed))

    from_simulator :
        (p : Program State) (g : AnyGenerator State) (s : State)
        → has_crashed g ≡ false
        → Leads p (at closing_simulator g s)
        → (g' : AnyGenerator State) × (t : State) × Leads p (at ended g' t)
    from_simulator p g s h r =
        let (t, closed) = simulator_returns s in
        from_proxy p g t h (next r (ground (arith, h)) (close_chain closed))

    from_generator :
        (p : Program State) (g : AnyGenerator State) (s : State)
        → has_crashed g ≡ false
        → Leads p (at closing_generator g s)
        → (g' : AnyGenerator State) × (t : State) × Leads p (at ended g' t)
    from_generator p g s h r =
        from_simulator p (close_any g) s (has_crashed-close_any g ∙ h)
          (next r (ground (arith, h)) close_generator)

    -- Where these come back, a program whose goroutine has not panicked can come to its end.
    stage-ends :
        (p : Stage) (g : AnyGenerator State) (s : State)
        → has_crashed g ≡ false
        → (g' : AnyGenerator State) × (t : State) × Leads
            (record { stage = p; generator = g; state = s })
            (record { stage = ended; generator = g'; state = t })
    stage-ends waiting g s h =
        from_generator (at waiting g s) g s h (next here (ground (arith, h)) interrupt)
    stage-ends closing_generator g s h = from_generator (at closing_generator g s) g s h here
    stage-ends closing_simulator g s h = from_simulator (at closing_simulator g s) g s h here
    stage-ends closing_proxy g s h = from_proxy (at closing_proxy g s) g s h here
    stage-ends closing_log g s h = from_log (at closing_log g s) g s h here
    stage-ends ended g s h = (g, s, here)

  Reach-trans : {p q r : Program State} → Leads p q → Leads q r → Leads p r
  Reach-trans first here = first
  Reach-trans first (next reach alive st) = next (Reach-trans first reach) alive st

  module _ (simulator : SimulatorHandler State) (sim_closed : State → Bool)
      (running : State → Worker → Bool) (log_open : State → Bool) where
    -- If closing the simulator, the proxy and the log file come back, and show as the parts are relied
    -- on to: from whatever a program comes to from its wait for a signal, under every interleaving with
    -- the goroutine and with requests, it can come to the end of the function unless the goroutine has
    -- panicked, and there the generator, the simulator, the proxy's workers and the log file are all
    -- closed.
    pub program-ends :
        (law : ComesBack)
        (closes : ClosesParts logger close_simulator proxy file_logging Works simulator sim_closed
          running log_open)
        (p q : Program State)
        → p.stage ≡ waiting
        → Drives logger close_simulator proxy file_logging Works simulator sim_closed running
            log_open p.generator
        → Leads p q
        → has_crashed q.generator ≡ false
        → (g : AnyGenerator State) × (t : State) × Leads q
            (record { stage = ended; generator = g; state = t })
          × ((part : Part)
              → IsClosed logger close_simulator proxy file_logging Works simulator sim_closed
                  running log_open part g t)
    program-ends law closes p q waits drives come alive =
        let (g, t, go) = stage-ends law q.stage q.generator q.state alive in
        (
          g,
          t,
          go,
          λ part.
              reached-IsClosed logger close_simulator proxy file_logging Works simulator sim_closed
                running log_open closes p (record { stage = ended; generator = g; state = t }) part
                (Reach-trans come go) waits drives refl,
        )
