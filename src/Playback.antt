-- ===== src/Playback.antt =====
-- src/state.rs and src/domain.rs: the shared playback sessions, one to an account.
pub mod Types
pub mod Session
pub mod Operations
pub mod Invariant
pub mod Preservation
pub mod Store
pub mod Calls
pub mod Safety
pub mod Events
pub mod Effects
pub mod Answers
pub mod Preview
pub mod Stream
pub mod Transfers
pub mod SonosPreservation
pub mod Tests
