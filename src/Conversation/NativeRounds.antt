-- ===== src/Conversation/NativeRounds.antt =====
-- A turn over structured calls: it ends, and what it stores.
use tinker_box.Base.{List}
use tinker_box.Tools.Value.{Value}
use tinker_box.Conversation.Engine.{Engine}
use tinker_box.Conversation.Native.{Native}
