-- ===== src/Testscommon.antt =====
-- testscommon: the doubles that the program's tests put in place of the simulator, of a node, of git
-- and of the proxy.
pub mod Simulator
pub mod Node
pub mod Small
