-- ===== src/Tests/ShutdownRuns.antt =====
-- The end of the program behind a launch over the small library.
use mx_chain_simulator_go.Common.{◌+◌, refl, sym, ap, true, false, some, arith, iterate}
use mx_chain_simulator_go.Common.Int.{pos}
use mx_chain_simulator_go.Creator.Defs.{proxy_handler, close}
use mx_chain_simulator_go.Creator.Closing.{close-stops}
use mx_chain_simulator_go.Launch.Closed.{ClosesParts, IsClosed}
use mx_chain_simulator_go.Launch.Parts.{Part}
use mx_chain_simulator_go.Launch.Ends.{ComesBack, program-ends}
use mx_chain_simulator_go.Launch.LateBlocks.{blocks_behind_close}
use mx_chain_simulator_go.Launch.Shutdown
use mx_chain_simulator_go.Launch.Shutdown.{
  waiting, closing_proxy, closing_log, Program, Reach, here, next, interrupt, close_generator,
  close_chain, close_proxy, close_file, close_log,
}
use mx_chain_simulator_go.Process.Factory.{AnyGenerator, automatic}
use mx_chain_simulator_go.Process.Generator.{BlocksGenerator, looping}
use mx_chain_simulator_go.Tests.ProxyRuns.{
  Site, running, library, lawful, args, empty_site, created_site, created, creates,
}
use mx_chain_simulator_go.Tests.LaunchRuns.{
  Idle, same_running, closed_log_running, one_more, sim, logger, around, with_wallets, with_proxy,
}

-- The generator waits between two ticks.
abbrev generator : BlocksGenerator Site
generator = record {
  simulator = record { generate_blocks = sim.generate_blocks };
  block_time = pos 6000000000;
  phase = looping;
  cancelled = false;
  ticked = false;
  generated = 2;
}

abbrev closed_chain : Site
closed_chain = record with_proxy { serving = true; sim_closed = true }

abbrev Reached : Program Site → Program Site → Type 0
Reached = Reach logger around.close_simulator created.proxy_handler (some tt) Idle

blocks_behind_close_example :
    Reached
      (record {
        stage = waiting;
        generator = automatic generator;
        state = record with_proxy { serving = true };
      })
      (record {
        stage = closing_proxy;
        generator = automatic (record generator { cancelled = true; generated = 3 + 2 });
        state = iterate one_more 3 closed_chain;
      })
blocks_behind_close_example =
    blocks_behind_close logger around.close_simulator created.proxy_handler (some tt) Idle one_more
      3 generator (record with_proxy { serving = true }) closed_chain refl (λ u. refl) refl refl

blocks_behind_close_run :
    Reached
      (record {
        stage = waiting;
        generator = automatic generator;
        state = record with_proxy { serving = true };
      })
      (record {
        stage = closing_proxy;
        generator = automatic (record generator { cancelled = true; generated = 3 + 2 });
        state = iterate one_more 3 closed_chain;
      })
blocks_behind_close_run =
    blocks_behind_close logger around.close_simulator created.proxy_handler (some tt) Idle one_more
      3 generator (record with_proxy { serving = true }) closed_chain refl (λ u. refl) refl refl

closes_parts :
    ClosesParts logger around.close_simulator created.proxy_handler
      (some tt)
      Idle
      (record { generate_blocks = sim.generate_blocks })
      (λ s. s.sim_closed)
      running
      (λ s. s.log_open)
unfolding proxy_handler close
closes_parts = record {
  generate_keeps =
      λ s. record { sim_kept = refl; workers_kept = λ k. same_running s k; log_kept = refl };
  works_keep = λ s t same. record {
    sim_kept = ap (λ u. u.sim_closed) (sym same);
    workers_kept = λ k. ap (λ u. running u k) (sym same);
    log_kept = ap (λ u. u.log_open) (sym same);
  };
  chain_closes = λ s t h. ground (arith, h);
  proxy_keeps = λ s t h. ground (arith, h);
  proxy_stops = λ s t h.
      close-stops library running lawful args empty_site created_site created s t creates h;
  log_closes = λ f s. (refl, λ k. closed_log_running s k, refl);
}

-- Three blocks are made behind the closing of the simulator; then the rest is closed.
abbrev late_generator : BlocksGenerator Site
late_generator = record generator { cancelled = true; generated = 3 + 2 }

abbrev end_state : Site
end_state = record empty_site {
  disk = with_wallets;
  sim_closed = true;
  log_open = false;
  blocks = 3;
}

abbrev started_program : Program Site
started_program = record {
  stage = waiting;
  generator = automatic generator;
  state = record with_proxy { serving = true };
}

ends :
    Reached started_program
      (record { stage = Shutdown.ended; generator = automatic late_generator; state = end_state })
unfolding proxy_handler close close_log
ends =
    next
      (next blocks_behind_close_run refl
        (close_proxy {t = record end_state { log_open = true }} refl))
      refl (close_file refl)

comes_back : ComesBack logger around.close_simulator created.proxy_handler (some tt) Idle
unfolding proxy_handler close close_log
comes_back = record {
  simulator_returns = λ s. (record s { sim_closed = true }, refl);
  proxy_returns = λ s.
      (record s { checks = false; val_stats = false; node_status = false; serving = false }, refl);
  log_returns = λ s. (record s { log_open = false }, refl);
}

program-ends_example :
    (g : AnyGenerator Site) × (t : Site) × Reached
      (record {
        stage = closing_proxy;
        generator = automatic late_generator;
        state = iterate one_more 3 closed_chain;
      })
      (record { stage = Shutdown.ended; generator = g; state = t })
    × ((part : Part)
        → IsClosed logger around.close_simulator created.proxy_handler
            (some tt)
            Idle
            (record { generate_blocks = sim.generate_blocks })
            (λ s. s.sim_closed)
            running
            (λ s. s.log_open)
            part
            g
            t)
program-ends_example =
    program-ends logger around.close_simulator created.proxy_handler (some tt) Idle
      (record { generate_blocks = sim.generate_blocks }) (λ s. s.sim_closed) running
      (λ s. s.log_open) comes_back closes_parts started_program
      (record {
        stage = closing_proxy;
        generator = automatic late_generator;
        state = iterate one_more 3 closed_chain;
      })
      refl refl blocks_behind_close_run refl
