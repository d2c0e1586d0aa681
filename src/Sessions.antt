-- ===== src/Sessions.antt =====
-- dragon_voice/sessions.py over dragon_voice/db_sessions.py: the sessions of the devices, kept in a
-- table of SQLite, and their lifecycle. The children are the table, the manager, and what is proved
-- of them.
mod Tests
mod Table
mod Manager
pub mod Legal
pub mod Calls
pub mod Machine
pub mod Audit
pub mod Cleanup
pub mod Race
unfoldable pub use Table.*
unfoldable pub use Manager.*
