-- ===== src/Conversation/Turns.antt =====
-- dragon_voice/conversation.py: `process_text_stream` without native tools, and `process_text`. The
-- fuel is the number of answers that the language model may be asked for.
use tinker_box.Base.{
  ℕ, zero, suc, Bool, ◌&&◌, Option, none, some, List, [], ◌∷◌, ◌++◌, map, leb, ltb, if◌then◌else◌,
  Text, codes,
}
use tinker_box.Sessions.{touch_session}
use tinker_box.Tools.Value.{Value, obj, Fields, end, field_of}
use tinker_box.Tools.Parser.{
  ToolCall, has_tool_call, parse_tool_calls, parse_tool_calls_with_errors,
}
use tinker_box.Tools.Registry.{Tool, tool_names, execute}
use tinker_box.Messages.Table.{user, assistant, tool, InputMode, from_text, from_system}
use tinker_box.Messages.Context.{Entry}
use tinker_box.Conversation.Markers.{stream, join, strip_tool_markup}
use tinker_box.Conversation.Engine.{
  Engine, State, Output, text, on_tool_call, on_tool_result, on_tool_error, on_limit_reached, Turn,
  out_of_fuel, raised, ended, details, default_options, build_context, context_of, store,
  with_session_id, max_tool_calls,
}

-- `yield cleaned`, if it is not empty
abbrev pub yields : Text → List Output
yields [] = []
yields (c ∷ t) = text (c ∷ t) ∷ []

-- `result.get("result", result)`
unfoldable pub result_of : Fields → Value
unfolding field_of
result_of fs = elim (field_of (codes "result") fs) [ some v ↦ v | none ↦ obj fs ]

module _ {W : Type 0} (e : Engine W) (session_id : Text) where
  -- `dict(args or {})`; nothing is the exception of a value that is no dictionary.
  abbrev pub fields_of : Value → Option Fields
  fields_of (obj fs) = some fs
  fields_of v = if e.truthy v then none else some end

  -- Both sides of a call are stored: the answer, and the result of the tool.
  unfoldable pub store_round : Text → Fields → State W → Option (State W)
  unfolding store result_of
  store_round response result st =
      let content =
        codes "<tool_result>" ++ (e.dumps (result_of result) ++ codes "</tool_result>") in
      elim (store e session_id assistant response (details from_system none (some e.llm_name) none)
        none st) [
          | none ↦ none
          | some st1 ↦ store e session_id tool content (details from_system none none none) none st1
        ]

  -- The context is built again, without the media store and the options of the first one.
  abbrev pub rebuilt : Fields → Option (State W) → Option (State W × Fields × List Entry)
  rebuilt result none = none
  rebuilt result (some st) = elim (context_of e session_id 20 none st.db) [
    | none ↦ none
    | some context ↦ some (st, result, context)
  ]

  abbrev pub run_tool :
      List (Text × Tool W)
      → Text
      → Text
      → State W
      → Option Fields
      → Option (State W × Fields × List Entry)
  run_tool tools response name st none = none
  run_tool tools response name st (some args) =
      let (result, w) =
        execute tools name (with_session_id session_id args) (e.took st.stored) st.world in
      rebuilt result (store_round response result (record st { world = w }))

  -- A call that was found is run, and stored. What the tool gave, and the context for the next answer.
  unfoldable pub use_tool :
      List (Text × Tool W) → Text → ToolCall → State W → Option (State W × Fields × List Entry)
  unfolding with_session_id execute store_round
  use_tool tools response c st = run_tool tools response c.tool st (fields_of c.args)

  -- One answer of the model, streamed: what is yielded, and what is held at its end.
  unfoldable pub streamed : Option (List (Text × Tool W)) → List Text → List Output × Text
  unfolding stream
  streamed none tokens = (map text tokens, [])
  streamed (some tools) tokens =
      let (l, held) = stream (tool_names tools) [] tokens in (map text l, held)

  -- `MAX_TOOL_CALLS` was reached before.
  abbrev pub limit_of : Bool → ℕ → List Output
  limit_of has_call made = if has_call && leb max_tool_calls made then on_limit_reached ∷ [] else []

  -- Outputs in front of those of the rest of the turn.
  abbrev pub behind_outputs : List Output → Turn W → Turn W
  behind_outputs l out_of_fuel = out_of_fuel
  behind_outputs l raised = raised
  behind_outputs l (ended st m response) = ended st (l ++ m) response

  -- Behind the run of a tool the loop goes on with its context.
  abbrev pub go_on :
      (List Entry → State W → Turn W)
      → List Output
      → ToolCall
      → Option (State W × Fields × List Entry)
      → Turn W
  go_on next l c none = raised
  go_on next l c (some (st, result, context)) =
      behind_outputs (l ++ on_tool_call c ∷ on_tool_result result ∷ []) (next context st)

  -- One call is executed at a time; an answer without one is the last.
  abbrev pub first_call :
      (List Entry → State W → Turn W)
      → List (Text × Tool W)
      → Text
      → List Output
      → List Output
      → State W
      → List ToolCall
      → Turn W
  first_call next tools response l last st [] = ended st (l ++ last) response
  first_call next tools response l last st (c ∷ cs) = go_on next l c (use_tool tools response c st)

  -- What is done with an answer.
  abbrev pub answered :
      (List Entry → State W → Turn W)
      → ℕ
      → Text
      → List Output
      → Text
      → State W
      → Option (List (Text × Tool W))
      → Turn W
  answered next made response l held st none = ended st l response
  answered next made response l held st (some tools) =
      let names = tool_names tools in
      let has_call = has_tool_call names response in
      let l1 = l ++ limit_of has_call made in
      let last = yields (strip_tool_markup held) in
      let (calls, errors) = parse_tool_calls_with_errors e.loads e.keywords names response in
      if has_call && ltb made max_tool_calls
      then first_call next tools response (l1 ++ map on_tool_error errors) last st calls
      else ended st (l1 ++ last) response

  -- The `while True` of `process_text_stream`.
  unfoldable pub stream_loop : ℕ → ℕ → List Entry → State W → Turn W
  unfolding streamed has_tool_call parse_tool_calls_with_errors use_tool strip_tool_markup
  stream_loop zero made context st = out_of_fuel
  stream_loop (suc fuel) made context st =
      let (tokens, w) = e.generate context st.world in
      let (l, held) = streamed e.tools tokens in
      answered (stream_loop fuel (suc made)) made (join tokens) l held (record st { world = w })
        e.tools

  -- `process_text` has no callbacks, and yields nothing.
  abbrev pub answered_sync :
      (List Entry → State W → Turn W) → ℕ → Text → State W → Option (List (Text × Tool W)) → Turn W
  answered_sync next made response st none = ended st [] response
  answered_sync next made response st (some tools) =
      let names = tool_names tools in
      let calls = parse_tool_calls e.loads e.keywords names response in
      if has_tool_call names response && ltb made max_tool_calls
      then first_call next tools response [] [] st calls
      else ended st [] response

  -- The `while True` of `process_text`; its outputs are the calls that it logs.
  unfoldable pub text_loop : ℕ → ℕ → List Entry → State W → Turn W
  unfolding has_tool_call parse_tool_calls use_tool
  text_loop zero made context st = out_of_fuel
  text_loop (suc fuel) made context st =
      let (tokens, w) = e.generate context st.world in
      answered_sync (text_loop fuel (suc made)) made (join tokens) (record st { world = w }) e.tools

  -- The end of a turn: the answer is stored, with the time that the turn took.
  unfoldable pub store_answer : ℕ → Turn W → Turn W
  unfolding store
  store_answer latency_ms out_of_fuel = out_of_fuel
  store_answer latency_ms raised = raised
  store_answer latency_ms (ended st l response) =
      elim (store e session_id assistant response
        (details from_system none (some e.llm_name) (some latency_ms)) none st) [
          | none ↦ raised
          | some st' ↦ ended st' l response
        ]

  -- The begin of a turn: the text is stored, the session touched, and the context built.
  unfoldable pub begin_turn :
      Text → InputMode → Option ℕ → Option Text → State W → Option (State W × List Entry)
  unfolding store touch_session build_context
  begin_turn user_text input_mode audio_duration_s media_id st =
      elim (store e session_id user user_text (details input_mode audio_duration_s none none)
        media_id st) [
          | none ↦ none
          | some st1 ↦
              let st2 = record st1 {
                db = record st1.db {
                  sessions = touch_session session_id (e.now st1.stored) st1.db.sessions;
                };
              } in
              elim (build_context e session_id user_text default_options st2.db) [
                | none ↦ none
                | some c ↦ some (st2, c)
              ]
        ]

  abbrev pub mode_of : InputMode → Option Text → InputMode
  mode_of input_mode (some (c ∷ t)) = from_text
  mode_of input_mode _ = input_mode

  unfoldable pub process_text_stream :
      ℕ → ℕ → Text → InputMode → Option ℕ → Option Text → State W → Turn W
  unfolding begin_turn stream_loop store_answer
  process_text_stream fuel latency_ms user_text input_mode audio_duration_s media_id st =
      elim (begin_turn user_text (mode_of input_mode media_id) audio_duration_s media_id st) [
        | none ↦ raised
        | some (st1, c) ↦ store_answer latency_ms (stream_loop fuel 0 c st1)
      ]

  unfoldable pub process_text : ℕ → ℕ → Text → InputMode → Option ℕ → State W → Turn W
  unfolding begin_turn text_loop store_answer
  process_text fuel latency_ms user_text input_mode audio_duration_s st =
      elim (begin_turn user_text input_mode audio_duration_s none st) [
        | none ↦ raised
        | some (st1, c) ↦ store_answer latency_ms (text_loop fuel 0 c st1)
      ]
