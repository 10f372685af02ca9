-- ===== src/E2ee.antt =====
-- internal/e2ee: the CMDC2 protocol.
pub mod Wire
pub mod Padding
pub mod Crypto
pub mod Header
pub mod Ratchet
pub mod Session
pub mod Identity
pub mod Auth
pub mod Handshake
pub mod Tests
