-- ===== src/Launch/Shutdown.antt =====
-- `startChainSimulator` of cmd/chainsimulator/main.go from the wait for a signal to its end, with the
-- blocks generator's goroutine and the requests that run beside it. A step of the relation is one call
-- of the function, one event of the goroutine, or some work of another goroutine on the state.
use mx_chain_simulator_go.Common.{⊤, ◌≡◌, Bool, true, false, not, Option, none, some}
use mx_chain_simulator_go.Common.Outcome.{ok, Action, pure}
use mx_chain_simulator_go.Creator.Defs.{ProxyHandler, ignored}
use mx_chain_simulator_go.Creator.Library.{Components}
use mx_chain_simulator_go.Process.Factory.{AnyGenerator, disabled, automatic, close_any}
use mx_chain_simulator_go.Process.Generator.{
  Phase, crashed, BlocksGenerator, Event, start, tick, take_tick, take_done, step,
}
use mx_chain_simulator_go.Startup.Logger.{Logger}

-- Where the function is: it waits, or it is about to close a part, or it has returned.
pub data Stage : Type 0 where
  waiting : Stage
  closing_generator : Stage
  closing_simulator : Stage
  closing_proxy : Stage
  closing_log : Stage
  ended : Stage

pub record Program (State : Type 0) : Type 0 where
  pub stage : Stage
  pub generator : AnyGenerator State
  pub state : State

-- The events of the goroutine itself.
abbrev pub is_own : {State : Type 0} → Event State → Bool
is_own start = true
is_own tick = true
is_own take_tick = true
is_own take_done = true
is_own _ = false

abbrev pub is_crashed : Phase → Bool
is_crashed crashed = true
is_crashed _ = false

-- The process runs.
abbrev pub is_alive : {State : Type 0} → Stage → AnyGenerator State → Bool
is_alive ended g = false
is_alive _ disabled = true
is_alive _ (automatic g) = not (is_crashed g.phase)

-- The log file is closed if there is one, and an error of that is logged.
unfoldable pub close_log :
    {State : Type 0} (logger : Logger State) → Option logger.FileLogging → Action State ⊤
close_log logger none = pure tt
close_log logger (some f) = ignored (logger.close f)

module _ {State : Type 0} (logger : Logger State) {c : Components}
    (close_simulator : Action State ⊤) (proxy : ProxyHandler c State)
    (file_logging : Option logger.FileLogging) (Works : State → State → Type 0) where
  pub data Step : Program State → Program State → Type 0 where
    interrupt :
        {g : AnyGenerator State} {s : State}
        → Step
            (record { stage = waiting; generator = g; state = s })
            (record { stage = closing_generator; generator = g; state = s })
    close_generator :
        {g : AnyGenerator State} {s : State}
        → Step
            (record { stage = closing_generator; generator = g; state = s })
            (record { stage = closing_simulator; generator = close_any g; state = s })
    close_chain :
        {g : AnyGenerator State} {s t : State}
        → close_simulator s ≡ (ok tt, t)
        → Step
            (record { stage = closing_simulator; generator = g; state = s })
            (record { stage = closing_proxy; generator = g; state = t })
    close_proxy :
        {g : AnyGenerator State} {s t : State}
        → proxy.close s ≡ (ok tt, t)
        → Step
            (record { stage = closing_proxy; generator = g; state = s })
            (record { stage = closing_log; generator = g; state = t })
    close_file :
        {g : AnyGenerator State} {s t : State}
        → close_log logger file_logging s ≡ (ok tt, t)
        → Step
            (record { stage = closing_log; generator = g; state = s })
            (record { stage = ended; generator = g; state = t })
    goroutine :
        {p : Stage} {g g' : BlocksGenerator State} {s t : State}
        → (e : Event State) → is_own e ≡ true
        → step e (g, s) ≡ some (g', t)
        → Step
            (record { stage = p; generator = automatic g; state = s })
            (record { stage = p; generator = automatic g'; state = t })
    request :
        {p : Stage} {g : AnyGenerator State} {s t : State}
        → Works s t
        → Step
            (record { stage = p; generator = g; state = s })
            (record { stage = p; generator = g; state = t })

  -- What can come of a program. The process ends with the function, or when the goroutine panics.
  pub data Reach (p : Program State) : Program State → Type 0 where
    here : Reach p p
    next :
        {q r : Program State}
        → Reach p q
        → is_alive q.stage q.generator ≡ true
        → Step q r
        → Reach p r
