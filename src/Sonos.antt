-- ===== src/Sonos.antt =====
-- src/sonos.rs: the Sonos players that the server controls, one session for each player.
pub mod Types
pub mod Session
pub mod Changes
pub mod Rounds
pub mod Sessions
pub mod Refresh
pub mod Report
pub mod Summary
pub mod Claims
pub mod System
mod Samples
mod Tests
