-- ===== src/Conversation/Native.antt =====
-- dragon_voice/conversation.py: `_process_text_stream_native`, a turn over structured calls of tools.
-- `synthesize_wrap` of tools/response_wrap.py and `openai_tools` of the registry are parameters.
use tinker_box.Base.{
  ℕ, zero, suc, true, false, Option, none, some, List, [], ◌∷◌, ◌++◌, map, keep, ltb, if◌then◌else◌,
  Text, codes, strip,
}
use tinker_box.Sessions.{touch_session}
use tinker_box.Tools.Value.{Value, Fields, obj}
use tinker_box.Tools.Parser.{ToolCall, is_member}
use tinker_box.Tools.Registry.{Tool, get_tool, execute}
use tinker_box.Messages.Table.{user, assistant, system, tool, InputMode, from_system}
use tinker_box.Messages.Context.{Entry, plain, multimodal}
use tinker_box.Conversation.Engine.{
  Engine, State, Output, on_tool_call, on_tool_result, on_limit_reached, on_unknown_tool, Turn,
  out_of_fuel, raised, ended, Options, details, build_context, store, with_session_id,
  max_tool_calls,
}
use tinker_box.Conversation.Compact.{compact_tool_result}
use tinker_box.Conversation.Turns.{yields, result_of, behind_outputs, store_answer, mode_of}

-- A message in the OpenAI format: of the history, a structured call, or its result.
pub data Item : Type 0 where
  message : Entry → Item
  call : Text → Text → Text → Item
  result : Text → Text → Item

-- A function schema.
pub record Schema : Type 0 where
  pub name : Text
  pub description : Text
  pub parameters : Value

-- What `generate_with_tools` decides.
pub record Decision : Type 0 where
  pub tool_calls : List (Text × Fields)
  pub content : Text

-- The tools that the fast tier offers.
abbrev pub fast_native_tools : List Text
fast_native_tools =
    codes "calendar_today"
    ∷ codes "calendar_create"
    ∷ codes "calendar_cancel"
    ∷ codes "gmail_unread"
    ∷ codes "gmail_search"
    ∷ codes "gmail_send"
    ∷ codes "tasks_list"
    ∷ codes "tasks_add"
    ∷ codes "tasks_complete"
    ∷ codes "weather"
    ∷ codes "datetime"
    ∷ codes "calculator"
    ∷ codes "remember"
    ∷ codes "recall"
    ∷ codes "schedule_reminder"
    ∷ []

-- `[t for t in … if …] or …`
unfoldable pub curated : List Schema → List Schema
unfolding keep is_member
curated all = elim (keep (λ (t : Schema). is_member t.name fast_native_tools) all) [
  | [] ↦ all
  | t ∷ l ↦ t ∷ l
]

-- `native_tool_desc` is the table of the sharper descriptions.
unfoldable pub sharpened : (Text → Option Text) → List Schema → List Schema
sharpened native_tool_desc = map (λ (t : Schema). elim (native_tool_desc t.name) [
  | none ↦ t
  | some d ↦ record t { description = d }
])

-- What the native path has beside the engine. `guidance` and `fewshot` are the texts of the recipe.
pub record Native (W : Type 0) : Type 0 where
  pub generate_with_tools : List Item → List Schema → W → Decision × W
  pub openai_tools : List Schema
  pub native_tool_desc : Text → Option Text
  pub guidance : Text
  pub fewshot : List Item
  pub synthesize_wrap : List (Text × Fields × Value) → Text
  pub show : ℕ → Text
  -- `json.dumps(…, ensure_ascii=False)`, nothing where it raises, and `str`
  pub dumps_result : Value → Option Text
  pub text : Value → Text

abbrev pub native_options : Options
native_options = record {
  inject_tool_prose = false;
  light_memory = true;
  max_msgs = some 6;
  inject_memory = false;
  drop_tool_history = true;
}

-- The guidance goes to the end of the system prompt, and the examples behind it.
unfoldable pub with_recipe : Text → List Item → List Entry → List Item
unfolding strip
with_recipe guidance fewshot [] =
    message (record { role = system; content = plain (strip guidance) }) ∷ fewshot
with_recipe guidance fewshot (e ∷ l) =
    let other =
      message (record { role = system; content = plain (strip guidance) }) ∷ fewshot
      ++ map message (e ∷ l) in
    elim e.role [
      | system ↦ elim e.content [
        | plain t ↦
            message (record { role = system; content = plain (t ++ guidance) }) ∷ fewshot
            ++ map message l
        | multimodal _ _ ↦ other
      ]
      | _ ↦ other
    ]

-- What a round leaves: the state, the result, and the text that the model reads of it.
abbrev pub Round : Type 0 → Type 0
Round W = State W × Fields × Text

module _ {W : Type 0} (e : Engine W) (n : Native W) (session_id : Text) where
  -- Both sides of a call are stored, in the markup of the other path.
  unfoldable pub store_native : Text → Fields → Text → State W → Option (State W)
  unfolding store
  store_native name args compact st =
      let markup =
        codes "<tool>"
        ++ (name
            ++ (codes "</tool>" ++ (codes "<args>" ++ (e.dumps (obj args) ++ codes "</args>")))) in
      elim (store e session_id assistant markup (details from_system none (some e.llm_name) none)
        none st) [
          | none ↦ none
          | some st1 ↦
              store e session_id tool (codes "<tool_result>" ++ (compact ++ codes "</tool_result>"))
                (details from_system none none none) none st1
        ]

  unfoldable pub use_native : List (Text × Tool W) → Text → Fields → State W → Option (Round W)
  unfolding execute with_session_id compact_tool_result store_native result_of
  use_native tools name args st =
      let (fs, w) =
        execute tools name (with_session_id session_id args) (e.took st.stored) st.world in
      let compact = compact_tool_result n.show n.dumps_result n.text (result_of fs) in
      elim (store_native name args compact (record st { world = w })) [
        | none ↦ none
        | some st1 ↦ some (st1, fs, compact)
      ]

  -- The answer, or a line about the calls if it is empty.
  unfoldable pub wrapped : List (Text × Fields × Value) → Text → Text
  wrapped turn_calls (c ∷ t) = c ∷ t
  wrapped [] [] = []
  wrapped (c ∷ cs) [] = n.synthesize_wrap (c ∷ cs)

  abbrev pub a_call : Text → Fields → ToolCall
  a_call name args = record { tool = name; args = obj args }

  abbrev pub NativeLoop : Type 0
  NativeLoop = ℕ → List (Text × Fields × Value) → List Item → State W → Turn W

  -- Behind the run of a tool the loop goes on, with the call and its result in the context.
  abbrev pub go_on_native :
      NativeLoop
      → ℕ
      → List (Text × Fields × Value)
      → List Item
      → Text
      → Fields
      → Option (Round W)
      → Turn W
  go_on_native next made turn_calls context name args none = raised
  go_on_native next made turn_calls context name args (some (st, fs, compact)) =
      let id = codes "c" ++ n.show (suc made) in
      behind_outputs e session_id (on_tool_call (a_call name args) ∷ on_tool_result fs ∷ []) (
        next (suc made) (turn_calls ++ (name, args, result_of fs) ∷ [])
          (context ++ call id name (e.dumps (obj args)) ∷ result id compact ∷ []) st)

  -- A tool that there is not ends the turn; the content of the decision is kept, not yielded.
  abbrev pub called :
      NativeLoop
      → ℕ
      → List (Text × Fields × Value)
      → List Item
      → Text
      → Text
      → Fields
      → State W
      → List (Text × Tool W)
      → Option (Tool W)
      → Turn W
  called next made turn_calls context content name args st tools none =
      ended st (on_tool_call (a_call name args) ∷ on_unknown_tool name ∷ []) content
  called next made turn_calls context content name args st tools (some _) =
      go_on_native next made turn_calls context name args (use_native tools name args st)

  abbrev pub last_native : List Output → List (Text × Fields × Value) → Text → State W → Turn W
  last_native l turn_calls content st =
      let response = wrapped turn_calls content in ended st (l ++ yields response) response

  abbrev pub decided :
      NativeLoop
      → ℕ
      → List (Text × Fields × Value)
      → List Item
      → List (Text × Tool W)
      → State W
      → Text
      → List (Text × Fields)
      → Turn W
  decided next made turn_calls context tools st content [] = last_native [] turn_calls content st
  decided next made turn_calls context tools st content ((name, args) ∷ calls) =
      if ltb made max_tool_calls
      then called next made turn_calls context content name args st tools (get_tool name tools)
      else last_native (on_limit_reached ∷ []) turn_calls content st

  unfoldable pub native_loop : List (Text × Tool W) → List Schema → ℕ → NativeLoop
  unfolding get_tool use_native wrapped
  native_loop tools schemas zero made turn_calls context st = out_of_fuel
  native_loop tools schemas (suc fuel) made turn_calls context st =
      let (d, w) = n.generate_with_tools context schemas st.world in
      decided (native_loop tools schemas fuel) made turn_calls context tools
        (record st { world = w }) d.content d.tool_calls

  unfoldable pub begin_native :
      Text → InputMode → Option ℕ → Option Text → State W → Option (State W × List Item)
  unfolding store touch_session build_context with_recipe
  begin_native user_text input_mode audio_duration_s media_id st =
      elim (store e session_id user user_text
        (details (mode_of e session_id input_mode media_id) audio_duration_s none none) media_id
        st) [
          | none ↦ none
          | some st1 ↦
              let st2 = record st1 {
                db = record st1.db {
                  sessions = touch_session session_id (e.now st1.stored) st1.db.sessions;
                };
              } in
              elim (build_context e session_id user_text native_options st2.db) [
                | none ↦ none
                | some c ↦ some (st2, with_recipe n.guidance n.fewshot c)
              ]
        ]

  unfoldable pub process_text_stream_native :
      List (Text × Tool W) → ℕ → ℕ → Text → InputMode → Option ℕ → Option Text → State W → Turn W
  unfolding begin_native native_loop store_answer curated sharpened
  process_text_stream_native tools fuel latency_ms user_text input_mode audio_duration_s media_id
        st =
      let schemas = sharpened n.native_tool_desc (curated n.openai_tools) in
      elim (begin_native user_text input_mode audio_duration_s media_id st) [
        | none ↦ raised
        | some (st1, c) ↦
            store_answer e session_id latency_ms (native_loop tools schemas fuel 0 [] c st1)
      ]
