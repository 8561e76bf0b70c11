-- ===== src/Tests/ProcessRuns.antt =====
-- The blocks generator under schedules.
use mx_chain_simulator_go.Common.{
  ℕ, ◌+◌, ◌≤◌, ◌≡◌, refl, true, false, some, List, [], ◌∷◌, arith, codes,
}
use mathlib.Core.List.{Memᴰ}
use mx_chain_simulator_go.Common.Int.{pos, rounds}
use mx_chain_simulator_go.Common.Outcome.{message, ok, err, value}
use mx_chain_simulator_go.Process.Generator.{
  SimulatorHandler, BlocksGenerator, World, Event, start, tick, take_tick, take_done, call_close,
  looping, starting, stopped, crashed, step, run,
}
use mx_chain_simulator_go.Process.Traces.{blocks-le-ticks, stopped_needs_close}
use mx_chain_simulator_go.Process.Factory.{
  create_blocks_generator, create_blocks_generator_overflow, automatic,
}

-- The state counts the blocks that were made.
abbrev counting : SimulatorHandler ℕ
counting = record { generate_blocks = λ n s. (ok tt, rounds n + s) }

counting-law : (n s : ℕ) → (counting.generate_blocks (pos n) s).1 ≤ n + s
counting-law n s = omega arith

abbrev failing : SimulatorHandler ℕ
failing = record { generate_blocks = λ n s. (err (message (codes "no block")), s) }

abbrev fresh : SimulatorHandler ℕ → World ℕ
fresh simulator = (
  record {
    simulator = simulator;
    block_time = pos 6000000000;
    phase = starting;
    cancelled = false;
    ticked = false;
    generated = 0;
  },
  0,
)

-- Three ticks fire and two blocks are made: the second tick meets a full channel.
abbrev schedule : List (Event ℕ)
schedule = start ∷ tick ∷ tick ∷ take_tick ∷ tick ∷ take_tick ∷ call_close ∷ take_done ∷ []

abbrev final : SimulatorHandler ℕ → ℕ → World ℕ
final simulator s =
    (record (fresh simulator).0 { phase = stopped; cancelled = true; generated = 2 }, s)

run-schedule : run schedule (fresh counting) ≡ some (final counting 2)
unfolding run step
run-schedule = refl

-- A simulator that fails does not stop the goroutine.
run-schedule-failing : run schedule (fresh failing) ≡ some (final failing 0)
unfolding run step
run-schedule-failing = refl

blocks-le-ticks_example : 2 ≤ 3
blocks-le-ticks_example =
    blocks-le-ticks (λ made. made) schedule (fresh counting) (final counting 2) counting-law tt refl
      run-schedule

stopped_needs_close_example : Memᴰ call_close schedule
stopped_needs_close_example =
    stopped_needs_close schedule (fresh failing) (final failing 0) refl (cc) run-schedule-failing
      refl

abbrev waiting : World ℕ
waiting = (record (fresh counting).0 { phase = looping }, 0)

create_blocks_generator_overflow_example :
    (g : BlocksGenerator ℕ) × (create_blocks_generator
        (some counting)
        (record { auto_generate_blocks = true; block_time_in_ms = 10000000000000 })
      ≡ value (automatic g))
    × (step start (g, 0) ≡ some (record g { phase = crashed }, 0))
create_blocks_generator_overflow_example =
    create_blocks_generator_overflow counting
      (record { auto_generate_blocks = true; block_time_in_ms = 10000000000000 }) 0 refl
      (omega arith) (omega arith)
