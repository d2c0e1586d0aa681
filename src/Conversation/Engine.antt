-- ===== src/Conversation/Engine.antt =====
-- dragon_voice/conversation.py: the turns of `ConversationEngine`. What the engine stands on is a
-- record: the language model and the tools act on a world `W`; the clock and the ids of messages are
-- given by the number of messages stored before in the turn.
use tinker_box.Base.{
  ℕ, suc, Bool, true, false, not, Option, none, some, List, [], ◌∷◌, ◌++◌, keep, if◌then◌else◌,
  Text, codes, starts_with, lstrip,
}
use tinker_box.Tools.Value.{Value, str, Fields, field, end, field_of}
use tinker_box.Tools.Parser.{ToolCall, ParseError, is_member}
use tinker_box.Tools.Registry.{Tool}
use tinker_box.Messages.Table.{Role, assistant, system, tool, InputMode, Details, Db}
use tinker_box.Messages.Context.{
  Entry, plain, multimodal, store_message, get_context, trim_context_to_budget,
  context_budget_local, context_budget_cloud,
}

abbrev pub max_tool_calls : ℕ
max_tool_calls = 3

-- `memory` is the relevant context, with or without documents: empty where there is no service, where
-- it raises, or where it knows nothing. A registry that is absent is none. `took` is what the execution
-- of a tool takes.
pub record Engine (W : Type 0) : Type 0 where
  pub backend : Text
  pub llm_name : Text
  pub generate : List Entry → W → List Text × W
  pub tools : Option (List (Text × Tool W))
  pub format_for_llm : Bool → Text
  pub memory : Bool → Text → Text
  pub media_store : Option (Value → Option Text)
  pub loads : Text → Option Value
  pub dumps : Value → Text
  pub keywords : Text → Option Fields
  pub truthy : Value → Bool
  pub format : Value → Text
  pub new_id : ℕ → Text
  pub now : ℕ → ℕ
  pub took : ℕ → Text

pub record State (W : Type 0) : Type 0 where
  pub db : Db
  pub stored : ℕ
  pub world : W

-- What the caller of a turn sees: the texts that are yielded, and the calls of its callbacks.
pub data Output : Type 0 where
  text : Text → Output
  on_tool_call : ToolCall → Output
  on_tool_result : Fields → Output
  on_tool_error : ParseError → Output
  on_limit_reached : Output
  on_unknown_tool : Text → Output

-- How a loop ends: the fuel is used up, a call of the store raises, or there is an answer.
pub data Turn (W : Type 0) : Type 0 where
  out_of_fuel : Turn W
  raised : Turn W
  ended : State W → List Output → Text → Turn W

-- The options of `_build_context`.
pub record Options : Type 0 where
  pub inject_tool_prose : Bool
  pub light_memory : Bool
  pub max_msgs : Option ℕ
  pub inject_memory : Bool
  pub drop_tool_history : Bool

abbrev pub default_options : Options
default_options = record {
  inject_tool_prose = true;
  light_memory = false;
  max_msgs = none;
  inject_memory = true;
  drop_tool_history = false;
}

abbrev pub details : InputMode → Option ℕ → Option Text → Option ℕ → Details
details input_mode audio_duration_s model latency_ms = record {
  input_mode = input_mode;
  interrupted = false;
  audio_duration_s = audio_duration_s;
  token_count = none;
  model = model;
  latency_ms = latency_ms;
}

-- A message of an earlier call of a tool: its result, or the assistant's markup.
unfoldable pub is_tool_history : Entry → Bool
unfolding starts_with lstrip
is_tool_history e = elim e.role [
  | tool ↦ true
  | assistant ↦ elim e.content [
    | plain t ↦ starts_with (codes "<tool>") (lstrip t)
    | multimodal _ _ ↦ false
  ]
  | _ ↦ false
]

unfoldable pub without_tool_history : List Entry → List Entry
unfolding keep is_tool_history
without_tool_history [] = []
without_tool_history (e ∷ l) = e ∷ keep (λ x. not (is_tool_history x)) l

-- `context[0]["content"] += …`, if the first message is the system's
unfoldable pub augment : Text → List Entry → List Entry
augment extra [] = []
augment extra (e ∷ l) = elim e.role [
  | system ↦ elim e.content [
    | plain t ↦ (record e { content = plain (t ++ extra) }) ∷ l
    | multimodal _ _ ↦ e ∷ l
  ]
  | _ ↦ e ∷ l
]

-- The separator and the text, or nothing for an empty text.
abbrev pub behind : Text → Text → Text
behind separator [] = []
behind separator (c ∷ t) = separator ++ (c ∷ t)

-- `args.setdefault("session_id", …)`
abbrev pub add_last : Text → Value → Fields → Fields
add_last k v end = field k v end
add_last k v (field j u fs) = field j u (add_last k v fs)

unfoldable pub with_session_id : Text → Fields → Fields
unfolding field_of
with_session_id id fs = elim (field_of (codes "session_id") fs) [
  | some _ ↦ fs
  | none ↦ add_last (codes "session_id") (str id) fs
]

module _ {W : Type 0} (e : Engine W) where
  abbrev pub is_local : Bool
  is_local = is_member e.backend (codes "ollama" ∷ codes "npu_genie" ∷ codes "lmstudio" ∷ [])

  abbrev pub context_of : Text → ℕ → Option (Value → Option Text) → Db → Option (List Entry)
  context_of session_id n media_store d =
      get_context e.loads e.truthy e.format media_store session_id n none d

  unfoldable pub build_context : Text → Text → Options → Db → Option (List Entry)
  unfolding get_context without_tool_history augment is_member trim_context_to_budget
  build_context session_id user_text o d =
      let n : ℕ = elim o.max_msgs [ none ↦ if is_local then 10 else 30 | some n ↦ n ] in
      elim (context_of session_id n e.media_store d) [
        | none ↦ none
        | some c ↦
            let c1 = if o.drop_tool_history then without_tool_history c else c in
            let c2 =
              if o.inject_memory
              then augment (behind (codes "\n\n") (e.memory o.light_memory user_text)) c1
              else c1 in
            let c3 : List Entry = elim e.tools [
              | none ↦ c2
              | some _ ↦
                  if o.inject_tool_prose
                  then augment (behind (codes "\n") (e.format_for_llm is_local)) c2
                  else c2
            ] in
            some (
              trim_context_to_budget c3
                (if is_local then context_budget_local else context_budget_cloud))
      ]

  -- A message that the turn stores; nothing is the exception of the database.
  unfoldable pub store : Text → Role → Text → Details → Option Text → State W → Option (State W)
  unfolding store_message
  store session_id role content x media_id st =
      elim (store_message e.dumps (e.new_id st.stored) session_id role content x media_id
        (e.now st.stored) st.db) [
          | none ↦ none
          | some (d, _) ↦ some (record st { db = d; stored = suc st.stored })
        ]
