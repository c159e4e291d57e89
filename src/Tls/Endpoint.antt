-- ===== src/Tls/Endpoint.antt =====
-- src/tls/endpoint: the pools of a worker and the opening of its connections.
pub mod Bootstrap
pub mod Layout
pub mod Open
pub mod Ready
