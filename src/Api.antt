-- ===== src/Api.antt =====
-- pkg/proxy/api: the extra endpoints of the proxy server (endpoints.go, interface.go). gin and the
-- response helpers of mx-chain-proxy-go are a record of operations over an unknown request context,
-- and the facade is a record of operations that pkg/facade fills.
pub mod Interface
pub mod Endpoints
pub mod Routes
pub mod RouteLaws
pub mod StateRequests
pub mod Responses
pub mod Served
pub mod Requests
