-- ===== src/Messages.antt =====
-- dragon_voice/db_messages.py, db_events.py and messages.py: the messages of the sessions, the log of
-- events, and the context that a language model is given.
mod Tests
pub mod Table
pub mod Purge
pub mod Polling
pub mod Counts
pub mod Context
pub mod Trim
pub mod Latest
