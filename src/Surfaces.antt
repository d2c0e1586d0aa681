-- ===== src/Surfaces.antt =====
-- The widget platform, dragon_voice/surfaces.
pub mod Outcome
pub mod Message
pub mod Tab5Surface
pub mod Manager
pub mod TurnGate
mod Tests
