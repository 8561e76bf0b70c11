-- ===== src/Process.antt =====
-- pkg/process, pkg/process/disabled and pkg/factory: the generator that makes a block at every tick
-- of a clock, in a goroutine of its own.
pub mod Generator
pub mod Traces
pub mod Factory
