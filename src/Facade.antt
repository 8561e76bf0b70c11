-- ===== src/Facade.antt =====
-- pkg/facade: the simulator facade (simulatorFacade.go, errors.go, interface.go). The chain simulator
-- of mx-chain-go and the transactions handler of the proxy are records of operations over an unknown
-- state; a Go map is the list of its entries, in the order in which one `range` visits them.
pub mod Interface
pub mod Keys
pub mod Observers
pub mod Defs
pub mod New
pub mod Epoch
pub mod Transaction
pub mod Overwrite
pub mod Refinement
pub mod KeyLaws
pub mod ObserverLaws
pub mod ObserverMap
