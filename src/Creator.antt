-- ===== src/Creator.antt =====
-- pkg/proxy/creator/creator.go and pkg/proxy/interface.go: the proxy is made of the components of
-- mx-chain-proxy-go, started, and closed.
pub mod Library
pub mod Defs
pub mod Quiet
pub mod Lifecycle
pub mod Closing
pub mod ServerPort
