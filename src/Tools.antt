-- ===== src/Tools.antt =====
-- The tools of the language model, dragon_voice/tools.
mod Tests
pub mod Value
pub mod Parser
pub mod Registry
