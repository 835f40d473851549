-- ===== src/Tests.antt =====
-- Concrete runs of each part.
pub mod Transfers
pub mod Bridge
pub mod Registry
pub mod Capture
pub mod Playback
pub mod Launch
pub mod Program
pub mod Screen
