-- ===== src/Connections.antt =====
-- The connections of the voice WebSocket: dragon_voice/ws_voice_admission.py lets them in,
-- dragon_voice/server.py registers them, dragon_voice/stale_conn_eviction.py drops those that a
-- device has left behind, and dragon_voice/disconnect_handler.py ends them.
mod Tests
mod Server
pub mod Admission
pub mod Eviction
pub mod Disconnect
unfoldable pub use Server.*
