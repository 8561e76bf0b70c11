-- ===== src/Tests.antt =====
-- Runs of the model, and the theorems at concrete inputs, over a small chain that meets what the
-- theorems rely on.
mod Chain
mod Context
mod FacadeRuns
mod ApiRuns
mod StateRequestRuns
mod ProcessRuns
mod ConfigRuns
mod FetchRuns
mod FetchBothRuns
mod StartRuns
mod ProxyConfigRuns
mod ProxyRuns
mod LaunchRuns
mod ShutdownRuns
mod WholeRuns
mod RouteRuns
