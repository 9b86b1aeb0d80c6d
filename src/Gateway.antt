-- ===== src/Gateway.antt =====
-- crates/api/src/gateway: sessions, the hub that routes to them, and the connection of a client.
pub mod Session
pub mod Hub
pub mod Connection
pub mod Ready
