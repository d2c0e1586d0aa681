-- ===== src/Conversation.antt =====
-- dragon_voice/conversation.py: the conversation engine.
mod Tests
pub mod Markers
pub mod Openers
pub mod Streaming
pub mod Engine
pub mod Turns
pub mod Rounds
pub mod Compact
pub mod Caps
pub mod Paths
pub mod Native
pub mod Whole
pub mod NativeRounds
pub mod LocalText
