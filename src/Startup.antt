-- ===== src/Startup.antt =====
-- cmd/chainsimulator: the command line, and the start and the end of the program.
pub mod Flags
pub mod FetchLaws
pub mod FlagLaws
pub mod OverrideFiles
pub mod Logger
pub mod Fetch
pub mod Prepare
pub mod PrepareLaws
pub mod Chain
pub mod ChainLaws
