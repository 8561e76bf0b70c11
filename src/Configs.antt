-- ===== src/Configs.antt =====
-- pkg/proxy/configs: the configurations of the node and of the proxy.
pub mod Tags
pub mod Copy
pub mod Fetcher
pub mod ProxyConfigs
