-- ===== src/Process/Factory.antt =====
-- pkg/factory/blocksGeneratorFactory.go and pkg/process/disabled: which generator is made, and what
-- its ticker does.
use mx_chain_simulator_go.Common.{
  ℕ, ◌*◌, ◌^◌, ◌≤◌, ◌<◌, ◌≡◌, refl, true, false, Option, some, arith, if◌then◌else◌,
}
use mx_chain_simulator_go.Common.Int.{pos}
use mx_chain_simulator_go.Common.Outcome.{Try, value, error}
use mx_chain_simulator_go.Process.Generator.{
  SimulatorHandler, BlocksGenerator, starting, looping, crashed, start, block_duration,
  new_blocks_generator, close, step,
}
use mx_chain_simulator_go.Config.{BlocksGeneratorConfig}

-- `process.BlocksGenerator`: the disabled generator, or one with a goroutine.
pub data AnyGenerator (State : Type 0) : Type 0 where
  disabled : AnyGenerator State
  automatic : BlocksGenerator State → AnyGenerator State

-- The longest block time, in milliseconds, that a `time.Duration` holds.
abbrev pub max_block_time_in_ms : ℕ
max_block_time_in_ms = 9223372036854

module _ {State : Type 0} where
  abbrev automatic_or_error : Try (BlocksGenerator State) → Try (AnyGenerator State)
  automatic_or_error (value g) = value (automatic g)
  automatic_or_error (error e) = error e

  unfoldable pub create_blocks_generator :
      Option (SimulatorHandler State) → BlocksGeneratorConfig → Try (AnyGenerator State)
  create_blocks_generator simulator config =
      if config.auto_generate_blocks
      then automatic_or_error (
          new_blocks_generator
            (record { simulator = simulator; block_time_in_ms = config.block_time_in_ms }))
      else value disabled

  -- `Close`, of either generator.
  unfoldable pub close_any : AnyGenerator State → AnyGenerator State
  close_any disabled = disabled
  close_any (automatic g) = automatic (close g)

  -- With block generation on, a simulator, and a block time from 1 ms to the longest that fits, a
  -- generator is made whose period is that time and whose goroutine starts to wait for ticks.
  pub create_blocks_generator_starts :
      (simulator : SimulatorHandler State) (config : BlocksGeneratorConfig) (s : State)
      → config.auto_generate_blocks ≡ true
      → 1 ≤ config.block_time_in_ms
      → config.block_time_in_ms ≤ max_block_time_in_ms
      → (g : BlocksGenerator State) × (create_blocks_generator (some simulator) config
          ≡ value (automatic g))
        × (g.block_time ≡ pos (config.block_time_in_ms * 1000000))
        × (step start (g, s) ≡ some (record g { phase = looping }, s))
  unfolding create_blocks_generator new_blocks_generator step block_duration
  create_blocks_generator_starts simulator config s auto low high = (
    record {
      simulator = simulator;
      block_time = pos (config.block_time_in_ms * 1000000);
      phase = starting;
      cancelled = false;
      ticked = false;
      generated = 0;
    },
    ground arith,
    refl,
    ground arith,
  )

  -- With block generation on, a simulator, and a block time of 2 ^ 63 nanoseconds at least and below
  -- 2 ^ 64, the period wraps around to a negative one, the generator is made all the same, and its
  -- goroutine panics when it makes the ticker.
  pub create_blocks_generator_overflow :
      (simulator : SimulatorHandler State) (config : BlocksGeneratorConfig) (s : State)
      → config.auto_generate_blocks ≡ true
      → 2 ^ 63 ≤ config.block_time_in_ms * 1000000
      → config.block_time_in_ms * 1000000 < 2 ^ 64
      → (g : BlocksGenerator State) × (create_blocks_generator (some simulator) config
          ≡ value (automatic g))
        × (step start (g, s) ≡ some (record g { phase = crashed }, s))
  unfolding create_blocks_generator new_blocks_generator step block_duration
  create_blocks_generator_overflow simulator config s auto low high = (
    record {
      simulator = simulator;
      block_time = block_duration config.block_time_in_ms;
      phase = starting;
      cancelled = false;
      ticked = false;
      generated = 0;
    },
    ground arith,
    ground arith,
  )
