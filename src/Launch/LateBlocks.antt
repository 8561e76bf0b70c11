-- ===== src/Launch/LateBlocks.antt =====
-- The generator's goroutine behind the closing of the simulator.
use mx_chain_simulator_go.Common.{
  ⊤, ℕ, zero, suc, ◌+◌, ◌≡◌, refl, true, false, Option, arith, iterate,
}
use mathlib.Core.Path.{subst}
use mx_chain_simulator_go.Common.Int.{pos}
use mx_chain_simulator_go.Common.Outcome.{ok, Action}
use mx_chain_simulator_go.Creator.Library.{Components}
use mx_chain_simulator_go.Creator.Defs.{ProxyHandler}
use mx_chain_simulator_go.Process.Factory.{automatic, close_any}
use mx_chain_simulator_go.Process.Generator.{
  BlocksGenerator, looping, tick, take_tick, step, on_tick, close,
}
use mx_chain_simulator_go.Startup.Logger.{Logger}
use mx_chain_simulator_go.Launch.Shutdown.{
  Stage, waiting, closing_proxy, Program, interrupt, close_generator, close_chain, goroutine, Reach,
  here, next,
}

module _ {State : Type 0} (logger : Logger State) {c : Components}
    (close_simulator : Action State ⊤) (proxy : ProxyHandler c State)
    (file_logging : Option logger.FileLogging) (Works : State → State → Type 0)
    (block : State → State) where
  abbrev at : Stage → BlocksGenerator State → State → Program State
  at p g s = record { stage = p; generator = automatic g; state = s }

  -- A tick that is taken is a block.
  Reach-block :
      (p : Program State) (g : BlocksGenerator State) (s : State)
      → ((t : State) → g.simulator.generate_blocks (pos 1) t ≡ (ok tt, block t))
      → g.phase ≡ looping
      → g.ticked ≡ false
      → Reach logger close_simulator proxy file_logging Works p (at closing_proxy g s)
      → Reach logger close_simulator proxy file_logging Works p
          (at closing_proxy (record g { generated = suc g.generated }) (block s))
  unfolding step on_tick
  Reach-block p g s law waits fresh reach =
      next
        (next reach (ground (arith, waits))
          (goroutine {g' = record g { ticked = true }} {t = s} tick refl (ground (arith, waits))))
        (ground (arith, waits))
        (goroutine {t = block s} take_tick refl (ground (arith, law s, waits, fresh)))

  Reach-blocks :
      (n m : ℕ) (p : Program State) (g : BlocksGenerator State) (s : State)
      → m ≡ n + g.generated
      → ((t : State) → g.simulator.generate_blocks (pos 1) t ≡ (ok tt, block t))
      → g.phase ≡ looping
      → g.ticked ≡ false
      → Reach logger close_simulator proxy file_logging Works p (at closing_proxy g s)
      → Reach logger close_simulator proxy file_logging Works p
          (at closing_proxy (record g { generated = m }) (iterate block n s))
  Reach-blocks zero m p g s total law waits fresh reach =
      subst
        (λ k.
          Reach logger close_simulator proxy file_logging Works p
            (at closing_proxy (record g { generated = k }) s))
        (omega (arith, total)) reach
  Reach-blocks (suc n) m p g s total law waits fresh reach =
      Reach-blocks n m p (record g { generated = suc g.generated }) (block s) (omega (arith, total))
        law waits fresh (Reach-block p g s law waits fresh reach)

  -- `generator.Close()` does not wait for the goroutine: if closing the simulator returns and blocks
  -- can be made, a program that waits, with a generator between two ticks, can reach a state in which
  -- it has closed the simulator and the goroutine has since asked it for any number of blocks.
  pub blocks_behind_close :
      (n : ℕ) (g : BlocksGenerator State) (s t : State)
      → close_simulator s ≡ (ok tt, t)
      → ((u : State) → g.simulator.generate_blocks (pos 1) u ≡ (ok tt, block u))
      → g.phase ≡ looping
      → g.ticked ≡ false
      → Reach logger close_simulator proxy file_logging Works
          (record { stage = waiting; generator = automatic g; state = s })
          (record {
            stage = closing_proxy;
            generator = automatic (record g { cancelled = true; generated = n + g.generated });
            state = iterate block n t;
          })
  unfolding close_any close
  blocks_behind_close n g s t closed law waits fresh =
      Reach-blocks n (n + g.generated) (at waiting g s) (record g { cancelled = true }) t refl law
        waits fresh
        (next
          (next (next here (ground (arith, waits)) interrupt) (ground (arith, waits))
            close_generator)
          (ground (arith, waits)) (close_chain closed))
