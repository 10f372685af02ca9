-- ===== src/Relay.antt =====
-- internal/relay: the connection to the relay.
pub mod WebSocket
pub mod Session
mod Tests
