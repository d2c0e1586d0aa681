-- ===== src/Frames.antt =====
-- dragon_voice/binary_frame_dispatch.py: the binary frames of a WebSocket.
mod Tests
pub mod Wire
pub mod Dispatch
pub mod Exact
pub mod Targets
