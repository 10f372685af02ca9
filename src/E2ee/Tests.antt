-- ===== src/E2ee/Tests.antt =====
-- The theorems of internal/e2ee at concrete inputs, and runs of the definitions.
mod Wire
pub mod Ratchet
pub mod Session
pub mod Handshake
mod Meeting
