-- ===== src/Launch.antt =====
-- `startChainSimulator` of cmd/chainsimulator/main.go from the proxy on, as a whole, and the order in
-- which the program closes its parts.
pub mod Defs
pub mod Laws
pub mod Serves
pub mod Shutdown
pub mod Parts
pub mod Closed
pub mod LateBlocks
pub mod Ends
pub mod Started
pub mod WholeRun
pub mod FetchOnly
pub mod Main
