-- ===== src/Sft.antt =====
-- The Switch Frame Tap backend.
pub mod Protocol
pub mod Audio
pub mod Backend
pub mod Discovery
pub mod Session
