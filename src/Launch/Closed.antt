-- ===== src/Launch/Closed.antt =====
-- Which parts are closed when, under every interleaving with the goroutine and the requests.
use mx_chain_simulator_go.Common.{
  ⊤, ◌≡◌, refl, ap, ◌∙◌, ◌⊎◌, inl, inr, Bool, true, false, not, Option, none, some, arith,
}
use mx_chain_simulator_go.Common.Int.{pos}
use mx_chain_simulator_go.Common.Outcome.{ok, Action}
use mx_chain_simulator_go.Creator.Library.{Components}
use mx_chain_simulator_go.Creator.Defs.{ProxyHandler}
use mx_chain_simulator_go.Creator.Quiet.{Worker}
use mx_chain_simulator_go.Process.Factory.{AnyGenerator, disabled, automatic, close_any}
use mx_chain_simulator_go.Process.Generator.{SimulatorHandler, BlocksGenerator, Event, step, close}
use mx_chain_simulator_go.Startup.Logger.{Logger}
use mx_chain_simulator_go.Launch.Parts.{
  Part, the_generator, the_simulator, the_proxy, the_log, past, is_cancelled, sure, own-step,
  ignored-state,
}
use mx_chain_simulator_go.Launch.Shutdown.{
  Stage, waiting, Program, is_own, Step, interrupt, close_generator, close_chain, close_proxy,
  close_file, goroutine, request, Reach, here, next, close_log,
}

module _ {State : Type 0} (logger : Logger State) {c : Components}
    (close_simulator : Action State ⊤) (proxy : ProxyHandler c State)
    (file_logging : Option logger.FileLogging) (Works : State → State → Type 0)
    (simulator : SimulatorHandler State) (sim_closed : State → Bool)
    (running : State → Worker → Bool) (log_open : State → Bool) where
  -- What is shown of the simulator, of the proxy's workers and of the log file stays as it is.
  pub record IsKept (s t : State) : Type 0 where
    pub sim_kept : sim_closed t ≡ sim_closed s
    pub workers_kept : (k : Worker) → running t k ≡ running s k
    pub log_kept : log_open t ≡ log_open s

  -- What is relied on: blocks and requests leave the three as they are, closing the simulator shows,
  -- closing the proxy leaves the simulator closed and stops the workers, and closing the log file,
  -- with an error or with none, leaves the other two.
  pub record ClosesParts : Type 0 where
    pub generate_keeps : (s : State) → IsKept s (simulator.generate_blocks (pos 1) s).1
    pub works_keep : (s t : State) → Works s t → IsKept s t
    pub chain_closes : (s t : State) → close_simulator s ≡ (ok tt, t) → sim_closed t ≡ true
    pub proxy_keeps : (s t : State) → proxy.close s ≡ (ok tt, t) → sim_closed t ≡ sim_closed s
    pub proxy_stops :
        (s t : State) → proxy.close s ≡ (ok tt, t) → (k : Worker) → running t k ≡ false
    pub log_closes :
        (f : logger.FileLogging) (s : State)
        → (sim_closed (logger.close f s).1 ≡ sim_closed s)
          × ((k : Worker) → running (logger.close f s).1 k ≡ running s k)
          × (log_open (logger.close f s).1 ≡ false)

  abbrev pub log_closed : Option logger.FileLogging → State → Bool
  log_closed none s = true
  log_closed (some f) s = not (log_open s)

  abbrev pub IsClosed : Part → AnyGenerator State → State → Type 0
  IsClosed the_generator g s = is_cancelled g ≡ true
  IsClosed the_simulator g s = sim_closed s ≡ true
  IsClosed the_proxy g s = (k : Worker) → running s k ≡ false
  IsClosed the_log g s = log_closed file_logging s ≡ true

  -- The generator asks the simulator for its blocks.
  abbrev pub Drives : AnyGenerator State → Type 0
  Drives disabled = ⊤
  Drives (automatic g) = g.simulator ≡ simulator

  log_kept-closed :
      (file : Option logger.FileLogging) (s t : State)
      → log_open t ≡ log_open s
      → log_closed file s ≡ true
      → log_closed file t ≡ true
  log_kept-closed none s t kept closed = refl
  log_kept-closed (some f) s t kept closed = ground (arith, kept)

  kept-IsClosed :
      (part : Part) (g h : AnyGenerator State) (s t : State)
      → IsKept s t
      → is_cancelled h ≡ is_cancelled g
      → IsClosed part g s
      → IsClosed part h t
  kept-IsClosed the_generator g h s t kept same closed = same ∙ closed
  kept-IsClosed the_simulator g h s t kept same closed = kept.sim_kept ∙ closed
  kept-IsClosed the_proxy g h s t kept same closed = λ k. kept.workers_kept k ∙ closed k
  kept-IsClosed the_log g h s t kept same closed =
      log_kept-closed file_logging s t kept.log_kept closed

  -- A part that the function is past is closed.
  abbrev pub Settled : Program State → Part → Type 0
  Settled p part = (past p.stage part ≡ false) ⊎ IsClosed part p.generator p.state

  module _ (law : ClosesParts) where
    open law use {generate_keeps, works_keep, chain_closes, proxy_keeps, proxy_stops, log_closes}

    own-IsKept :
        (e : Event State) (g g' : BlocksGenerator State) (s t : State)
        → g.simulator ≡ simulator
        → is_own e ≡ true
        → step e (g, s) ≡ some (g', t)
        → IsKept s t
    own-IsKept e g g' s t drives own stepped = elim (own-step e g g' s t own stepped).0 [
      | inl same ↦ record {
        sim_kept = ap sim_closed same;
        workers_kept = λ k. ap (λ u. running u k) same;
        log_kept = ap log_open same;
      }
      | inr block ↦
          let block = block ∙ ap (λ m. (m.generate_blocks (pos 1) s).1) drives in
          rw block (generate_keeps s)
    ]

    close_log-keeps :
        (file : Option logger.FileLogging) (s t : State)
        → close_log logger file s ≡ (ok tt, t)
        → (sim_closed t ≡ sim_closed s)
          × ((k : Worker) → running t k ≡ running s k)
          × (log_closed file t ≡ true)
    unfolding close_log
    close_log-keeps none s t closed = (ground (arith, closed), λ k. ground (arith, closed), refl)
    close_log-keeps (some f) s t closed =
        let same = ignored-state (logger.close f) s t closed in
        let (sim, workers, log) = log_closes f s in
        (ground (arith, same, sim), λ k. ground (arith, same, workers k), ground (arith, same, log))

    Step-Drives :
        {p q : Program State}
        → Step logger close_simulator proxy file_logging Works p q
        → Drives p.generator
        → Drives q.generator
    unfolding close_any close
    Step-Drives interrupt d = d
    Step-Drives (close_generator {g = disabled}) d = tt
    Step-Drives (close_generator {g = automatic g}) d = d
    Step-Drives (close_chain closed) d = d
    Step-Drives (close_proxy closed) d = d
    Step-Drives (close_file closed) d = d
    Step-Drives (goroutine {g} {g'} {s} {t} e own stepped) d =
        (own-step e g g' s t own stepped).1 ∙ d
    Step-Drives (request works) d = d

    Settled-stays :
        (part : Part) (p : Stage) (g h : AnyGenerator State) (s t : State)
        → IsKept s t
        → is_cancelled h ≡ is_cancelled g
        → Settled (record { stage = p; generator = g; state = s }) part
        → Settled (record { stage = p; generator = h; state = t }) part
    Settled-stays part p g h s t kept same (inl before) = inl before
    Settled-stays part p g h s t kept same (inr closed) =
        inr (kept-IsClosed part g h s t kept same closed)

    is_cancelled-close_any : (g : AnyGenerator State) → is_cancelled (close_any g) ≡ true
    unfolding close_any close
    is_cancelled-close_any disabled = refl
    is_cancelled-close_any (automatic g) = refl

    -- Whatever step is taken, a part that the function is past is closed behind it.
    Step-Settled :
        {p q : Program State}
        → Step logger close_simulator proxy file_logging Works p q
        → Drives p.generator
        → ((part : Part) → Settled p part)
        → (part : Part) → Settled q part
    Step-Settled interrupt d settled part = inl refl
    Step-Settled (close_generator {g}) d settled the_generator = inr (is_cancelled-close_any g)
    Step-Settled close_generator d settled the_simulator = inl refl
    Step-Settled close_generator d settled the_proxy = inl refl
    Step-Settled close_generator d settled the_log = inl refl
    Step-Settled (close_chain {g} {s} closed) d settled the_generator =
        inr (sure (settled the_generator))
    Step-Settled (close_chain {g} {s} {t} closed) d settled the_simulator =
        inr (chain_closes s t closed)
    Step-Settled (close_chain closed) d settled the_proxy = inl refl
    Step-Settled (close_chain closed) d settled the_log = inl refl
    Step-Settled (close_proxy closed) d settled the_generator = inr (sure (settled the_generator))
    Step-Settled (close_proxy {g} {s} {t} closed) d settled the_simulator =
        inr (proxy_keeps s t closed ∙ sure (settled the_simulator))
    Step-Settled (close_proxy {g} {s} {t} closed) d settled the_proxy = inr (proxy_stops s t closed)
    Step-Settled (close_proxy closed) d settled the_log = inl refl
    Step-Settled (close_file closed) d settled the_generator = inr (sure (settled the_generator))
    Step-Settled (close_file {g} {s} {t} closed) d settled the_simulator =
        inr ((close_log-keeps file_logging s t closed).0 ∙ sure (settled the_simulator))
    Step-Settled (close_file {g} {s} {t} closed) d settled the_proxy =
        inr (λ k. (close_log-keeps file_logging s t closed).1 k ∙ sure (settled the_proxy) k)
    Step-Settled (close_file {g} {s} {t} closed) d settled the_log =
        inr (close_log-keeps file_logging s t closed).2
    Step-Settled (goroutine {p} {g} {g'} {s} {t} e own stepped) d settled part =
        Settled-stays part p (automatic g) (automatic g') s t (own-IsKept e g g' s t d own stepped)
          (own-step e g g' s t own stepped).2 (settled part)
    Step-Settled (request {p} {g} {s} {t} works) d settled part =
        Settled-stays part p g g s t (works_keep s t works) refl (settled part)

    Reach-Settled :
        {p q : Program State}
        → Reach logger close_simulator proxy file_logging Works p q
        → p.stage ≡ waiting
        → Drives p.generator
        → Drives q.generator × ((part : Part) → Settled q part)
    Reach-Settled {p} here waits d = (d, λ part. inl (ap (λ st. past st part) waits))
    Reach-Settled (next reach alive st) waits d =
        let (d', settled) = Reach-Settled reach waits d in
        (Step-Drives st d', Step-Settled st d' settled)

    -- On such a simulator, proxy and log file: from a program that waits, with a generator that drives
    -- the simulator, under every interleaving with the generator's goroutine and with requests, each
    -- part that the function is past is closed: the generator, then the simulator, then the proxy's
    -- workers, then the log file; and so all four are once the function has returned.
    pub reached-IsClosed :
        (p q : Program State) (part : Part)
        → Reach logger close_simulator proxy file_logging Works p q
        → p.stage ≡ waiting
        → Drives p.generator
        → past q.stage part ≡ true
        → IsClosed part q.generator q.state
    reached-IsClosed p q part reach waits drives behind =
        elim ((Reach-Settled reach waits drives).1 part) [
          | inl before ↦ absurd (ground (arith, before))
          | inr closed ↦ closed
        ]
