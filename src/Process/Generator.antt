-- ===== src/Process/Generator.antt =====
-- pkg/process/blocksGenerator.go, errors.go and interface.go. The goroutine, the ticker and the
-- callers of `Close` are interleaved by a schedule of events; `step` is `none` at an event that cannot
-- happen.
use mx_chain_simulator_go.Common.{
  ⊤, ℕ, suc, ◌-◌, ◌*◌, ◌%◌, ◌^◌, Bool, true, false, Option, none, some, List, [], ◌∷◌, ◌++◌, codes,
  ltb, if◌then◌else◌,
}
use mx_chain_simulator_go.Common.Int.{ℤ, pos, negsuc, is_nonpositive}
use mx_chain_simulator_go.Common.Outcome.{
  Error, message, wrap, Outcome, ok, err, panics, runs_on, Action, Try, value, error,
}
use mx_chain_simulator_go.Go.Strconv.{format_uint}

abbrev pub err_nil_chain_simulator : Error
err_nil_chain_simulator = message (codes "nil chain simulator")

abbrev pub err_invalid_value : Error
err_invalid_value = message (codes "invalid value")

abbrev pub min_block_time_in_ms : ℕ
min_block_time_in_ms = 1

-- `SimulatorHandler` of this package, over the simulator's state.
pub record SimulatorHandler (State : Type 0) : Type 0 where
  pub generate_blocks : ℤ → Action State ⊤

-- `ArgBlocksGenerator`; a nil simulator is `none`, and the time is a uint64.
pub record ArgBlocksGenerator (State : Type 0) : Type 0 where
  pub simulator : Option (SimulatorHandler State)
  pub block_time_in_ms : ℕ

-- The goroutine: it has yet to make its ticker, it waits in `select`, it has returned, it has
-- panicked, or it waits for a call of the simulator that does not return.
pub data Phase : Type 0 where
  starting looping stopped crashed blocked : Phase

-- `blocksGenerator` with its goroutine: `cancelled` is its context's, `ticked` says that the ticker's
-- channel, which holds one tick, is full, and `generated` counts the calls of `GenerateBlocks`.
pub record BlocksGenerator (State : Type 0) : Type 0 where
  pub simulator : SimulatorHandler State
  pub block_time : ℤ
  pub phase : Phase
  pub cancelled : Bool
  pub ticked : Bool
  pub generated : ℕ

-- The generator with its goroutine, and the simulator's state.
abbrev pub World : Type 0 → Type 0
World State = BlocksGenerator State × State

-- 64 bits read as a signed number.
abbrev pub signed64 : ℕ → ℤ
signed64 u = if ltb u (2 ^ 63) then pos u else negsuc (2 ^ 64 - 1 - u)

-- `time.Duration(ms) * time.Millisecond`, in nanoseconds; both wrap around at 64 bits.
unfoldable pub block_duration : ℕ → ℤ
block_duration ms = signed64 (ms * 1000000 % 2 ^ 64)

-- `fmt.Errorf("%w for BlockTimeInMs, received %d, min expected %d", ...)`
abbrev pub invalid_block_time : ℕ → Error
invalid_block_time ms = wrap [] err_invalid_value (
    codes " for BlockTimeInMs, received "
    ++ (format_uint ms ++ (codes ", min expected " ++ format_uint min_block_time_in_ms)))

-- The goroutine goes on behind a call of `GenerateBlocks(1)`; an error is logged.
abbrev after_generate : Outcome ⊤ → Phase
after_generate (ok _) = looping
after_generate (err _) = looping
after_generate panics = crashed
after_generate runs_on = blocked

module _ {State : Type 0} where
  unfoldable pub new_blocks_generator : ArgBlocksGenerator State → Try (BlocksGenerator State)
  unfolding block_duration
  new_blocks_generator args = elim args.simulator [
    | none ↦ error err_nil_chain_simulator
    | some simulator ↦
        if ltb args.block_time_in_ms min_block_time_in_ms
        then error (invalid_block_time args.block_time_in_ms)
        else value (record {
          simulator = simulator;
          block_time = block_duration args.block_time_in_ms;
          phase = starting;
          cancelled = false;
          ticked = false;
          generated = 0;
        })
  ]

  -- `Close`
  unfoldable pub close : BlocksGenerator State → BlocksGenerator State
  close generator = record generator { cancelled = true }

  -- `time.NewTicker` panics unless the interval is positive.
  unfoldable pub make_ticker : BlocksGenerator State → BlocksGenerator State
  make_ticker generator = record generator {
    phase = if is_nonpositive generator.block_time then crashed else looping;
  }

  -- The case of the `select` that a tick enables.
  unfoldable pub on_tick : BlocksGenerator State → State → BlocksGenerator State × State
  on_tick generator s =
      let (result, t) = generator.simulator.generate_blocks (pos 1) s in
      (
        record generator {
          phase = after_generate result;
          ticked = false;
          generated = suc generator.generated;
        },
        t,
      )

-- What can happen: the goroutine starts, the ticker fires, the goroutine takes a tick or sees that its
-- context is done, somebody calls `Close`, or somebody else works on the simulator.
pub data Event (State : Type 0) : Type 0 where
  start : Event State
  tick : Event State
  take_tick : Event State
  take_done : Event State
  call_close : Event State
  elsewhere : State → Event State

module _ {State : Type 0} where
  -- A step of the goroutine, by where it is.
  abbrev goroutine : Phase → Event State → World State → Option (World State)
  goroutine starting start (g, s) = some (make_ticker g, s)
  goroutine looping tick (g, s) = some (record g { ticked = true }, s)
  goroutine looping take_tick (g, s) = if g.ticked then some (on_tick g s) else none
  goroutine looping take_done (g, s) =
      if g.cancelled then some (record g { phase = stopped }, s) else none
  goroutine _ _ _ = none

  unfoldable pub step : Event State → World State → Option (World State)
  unfolding make_ticker on_tick close
  step call_close (g, s) = some (close g, s)
  step (elsewhere t) (g, s) = some (g, t)
  step start w = goroutine w.0.phase start w
  step tick w = goroutine w.0.phase tick w
  step take_tick w = goroutine w.0.phase take_tick w
  step take_done w = goroutine w.0.phase take_done w

  -- A whole schedule.
  unfoldable pub run : List (Event State) → World State → Option (World State)
  run [] w = some w
  run (e ∷ es) w = elim (step e w) [ none ↦ none | some w' ↦ run es w' ]
