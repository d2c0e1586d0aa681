-- ===== src/Lib.antt =====
-- TinkerBox: the reminder scheduler, the widget surfaces, the HTTP middlewares, the sessions, the
-- messages, the conversation, the connections, the binary frames and the parser of tool calls of the
-- voice server, dragon_voice.
--
-- Parts, and how they interact. A reminder is a `Notification`. `SchedulerManager` keeps it in a
-- notification store, sleeps in one task for each pending notification, and at the end of the sleep
-- renders a card. If the device has an active session, the card goes to the session's surface,
-- through the turn gate of `SurfaceManager`, which holds cards back while the assistant speaks;
-- otherwise it goes to the store's offline queue, from which it is replayed when the device comes
-- back. The time of a reminder is a text that the parser reads. The middlewares stand in front of
-- every HTTP handler. A device opens a WebSocket, which is admitted or refused; when it registers,
-- the connections that it left behind are evicted, which pauses their sessions, and it resumes a
-- session or is given a new one. The end of a connection pauses its session, and a loop in the
-- background ends the sessions that stay idle. A turn of the conversation stores the text of the user,
-- builds a context of the session's messages, and streams what the language model writes, but for what
-- may be the markup of a tool call; that is searched for calls, which are run and stored, and the model
-- is asked again. Binary frames go to the other connections or to the speech pipeline.
--
-- Which file models what:
--   Base: Boolean tests, lists over native numbers, texts as lists of code points, Python's `dict`,
--     and a stable sort (`sorted(…, key=…)` and `ORDER BY … ASC`).
--   Surfaces/Outcome, Surfaces/Message, Surfaces/Tab5Surface: dragon_voice/surfaces/base.py. A
--     method call of `Tab5Surface` is a value of `Call`, `message` the frame, `perform` the method.
--   Surfaces/Manager: dragon_voice/surfaces/manager.py, one function for each method.
--   Surfaces/TurnGate: dragon_voice/text_turn_gate.py, the busy bracket around a text turn.
--   Scheduler/Notification: dragon_voice/scheduler/models.py; `post_init` is `__post_init__`.
--   Scheduler/Store: the protocol `NotificationStore` of dragon_voice/scheduler/store.py as a record
--     of operations, with its contract; Scheduler/Memory and Scheduler/Sqlite are the two classes
--     that implement it, the second over the tables of schema.sql.
--   Scheduler/Delivery, Scheduler/Manager: dragon_voice/scheduler/manager.py, one function for each
--     method. `fire_one` is `_fire_one`, `run_task` the rest of `_run` after the sleep.
--     Scheduler/Manager/Steps composes them to runs: any order of calls and of tasks that wake up.
--   Scheduler/Parser: dragon_voice/scheduler/parser.py, one function for each form of the grammar,
--     over the patterns of Parser/Patterns; Parser/Bounds, Weekday and Durations are its properties.
--   Tools/Value, Tools/Parser: dragon_voice/tools/parser.py. In Parser/Walks `walk_json` is
--     `_walk_json`, in Parser/Anchors an `anchor_…` is a pattern, and in Tools/Parser a `found_…` is
--     what one of its matches comes to.
--   Sessions/Table: dragon_voice/db_sessions.py over the table of schema.sql. Sessions/Manager:
--     dragon_voice/sessions.py, one function for each method; `cleanup` is a round of
--     `_cleanup_loop`. Sessions/Machine has the calls as values and runs of them; Legal, Calls, Audit,
--     Cleanup and Race are the proofs.
--   Connections/Server: dragon_voice/stale_conn_eviction.py, disconnect_handler.py, conn_state.py
--     and the part of `_handle_register` of server.py that claims the device and the session.
--     Connections/Admission: dragon_voice/ws_voice_admission.py and config_update_rate_limit.py.
--   Messages/Table: dragon_voice/db_messages.py and db_events.py over the tables of schema.sql; Purge,
--     Counts and Polling are the proofs. Messages/Context: dragon_voice/messages.py, with the proofs in
--     Trim and Latest.
--   Conversation: dragon_voice/conversation.py. Markers has `_split_at_marker_boundary`, the loop over
--     the tokens and `_strip_tool_markup`, Engine `_build_context`, Turns `process_text_stream` and
--     `process_text`, Native `_process_text_stream_native`, Compact `_compact_tool_result`. Openers,
--     Streaming, Rounds, Whole, NativeRounds, Paths and Caps are the proofs. LocalText is
--     dragon_voice/local_text_stream.py. Tools/Registry: dragon_voice/tools/registry.py.
--   Frames: dragon_voice/binary_frame_dispatch.py, video_upstream.py and the framing and the choice of
--     the codec of audio_codec.py.
--   Middleware: dragon_voice/middleware/rate_limit.py, auth.py, cors.py and security_headers.py.
--
-- Choices. A time is a natural number of milliseconds since an instant before every time that the
-- program handles, and the clock is an argument. The world outside, such as the sockets, is a type
-- parameter `W` that callables act on; a callable ends, or raises one of the exceptions that the
-- code tells apart. Every function is structurally recursive. Two loops run on fuel: the batches of a
-- purge, which end in the first round that is not full, and the answers of a turn, where 4 is enough
-- since a turn runs at most 3 tools. A method runs to its end before the next begins, but for those
-- that are said to be in halves. A row of the queue keeps its payload as what `json.loads` makes
-- of it. Floats of widgets are thousandths, and the limits that a device announces are natural
-- numbers: a negative one, which the code does not refuse, is not covered. Header names are in lower case.
-- The items of a list or prompt are pairs of texts. The texts that the parsers read are ASCII, and
-- the patterns are written out as functions. What belongs to other libraries is a parameter: the zone
-- and `fromisoformat` of `datetime`, `json.loads`, `json.dumps` (which may raise for the result of a
-- native tool), the text and the truth of a JSON value, and Python's reading of keyword arguments. The
-- language model, the memory service, the media store, the descriptions of the tools and the line for
-- an empty answer are parameters of a turn. The objects of the connections are in a store by their id,
-- since the handler and the table share them. `pause_session` and `resume_session` are in two halves, between which other calls may run.
--
-- Not modelled: calls of the scheduler that overlap, such as two of `schedule` that both count before
-- either creates (its runs here have none), other awaits inside a method that let other tasks run,
-- failures of the database other than a refused row, logging, `list_all`, the registration of a
-- connection behind the claim of its session, the swap of the language model, writers between two
-- batches of a purge, the speech pipeline, the codec of Opus, the clients of language models and of
-- other services, the REST routes, and the configuration.
pub mod Base
pub mod Surfaces
pub mod Scheduler
pub mod Middleware
pub mod Tools
pub mod Sessions
pub mod Connections
pub mod Messages
pub mod Conversation
pub mod Frames
