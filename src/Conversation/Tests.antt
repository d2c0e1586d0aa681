-- ===== src/Conversation/Tests.antt =====
-- The conversation on small inputs: each theorem at a case, and runs of the code.
use tinker_box.Base.{
  ℕ, suc, zero, ◌≡◌, ◌≤◌, refl, inl, inr, Bool, false, true, Option, none, some, List, [], ◌∷◌,
  ◌++◌, arith, length, All, Text, codes,
}
use tinker_box.Sessions.{conversation, Params, row_of}
use tinker_box.Tools.Value.{Value, null, str, arr, obj, nil, cons, end, field}
use tinker_box.Tools.Registry.{Tool, returns}
use tinker_box.Messages.Table.{from_text}
use tinker_box.Messages.Context.{Entry}
use tinker_box.Conversation.Markers.{stream, join, split_at_marker_boundary}
use tinker_box.Conversation.Streaming.{NoStart, stream-NoStart}
use tinker_box.Conversation.Engine.{Engine, State, Turn, out_of_fuel, raised, ended}
use tinker_box.Conversation.Turns.{process_text_stream}
use tinker_box.Conversation.Rounds.{calls_in}
use tinker_box.Conversation.Native.{Native, Item, Schema, Decision, process_text_stream_native}
use tinker_box.Conversation.Compact.{compact_tool_result, capped, shorten, dumped}
use tinker_box.Conversation.Caps.{IsShort, compact_tool_result_bounds}
use tinker_box.Conversation.Paths.{Step, at_key, at_index, at, IsKept, IsCapOf}
use tinker_box.Conversation.LocalText.{local_frames}

abbrev pieces : List Text
pieces = codes "Hi <" ∷ codes "tool>x" ∷ []

stream-NoStart_example :
    (join (stream [] [] pieces).0 ++ (stream [] [] pieces).1 ≡ join pieces)
    × NoStart (codes "<tool>") (join (stream [] [] pieces).0) (stream [] [] pieces).1
stream-NoStart_example = stream-NoStart [] (codes "<tool>") pieces (inl refl)

-- The openers of the Gemma dialect are not held back.
gemma_streamed :
    split_at_marker_boundary [] (codes "<|tool_call>call:") ≡ (codes "<|tool_call>call:", [])
unfolding split_at_marker_boundary
gemma_streamed = refl

-- The name of a call is sent, although its opener is held, once the close of the name comes.
name_sent :
    local_frames [] (codes "<tool>date" ∷ codes "</tool>" ∷ [])
    ≡ codes "<tool>date" ∷ codes "</tool>" ∷ []
unfolding local_frames tinker_box.Base.after tinker_box.Base.lower
name_sent = refl

abbrev clock : Tool ℕ
clock = record { name = codes "datetime"; run = λ args w. (returns (str (codes "noon")), w) }

-- The first answer calls the tool.
abbrev answer : List Entry → ℕ → List Text × ℕ
answer context zero = (codes "<tool>datetime</tool><args>{}</args>" ∷ [], 1)
answer context (suc n) = (codes "It is noon." ∷ [], suc (suc n))

abbrev id_of : ℕ → Text
id_of n = n ∷ []

abbrev engine : Engine ℕ
engine = record {
  backend = codes "ollama";
  llm_name = codes "m";
  generate = answer;
  tools = some ((codes "datetime", clock) ∷ []);
  format_for_llm = λ compact. codes "tools";
  memory = λ light t. [];
  media_store = none;
  loads = λ t. some (Value.obj end);
  dumps = λ v. codes "{}";
  keywords = λ t. none;
  truthy = λ v. false;
  format = λ v. [];
  new_id = id_of;
  now = λ n. n;
  took = λ n. codes "1";
}

abbrev params : Params
params = record {
  device_id = none;
  session_type = conversation;
  system_prompt = codes "Be brief.";
  config = codes "{}";
  voice_mode = 0;
  llm_model = [];
}

abbrev start : State ℕ
start = record {
  db = record {
    sessions = row_of (codes "a1") params 0 ∷ [];
    messages = [];
    events = [];
    next_id = 1;
  };
  stored = 0;
  world = 0;
}

-- The first decision calls the tool.
abbrev decide : List Item → List Schema → ℕ → Decision × ℕ
decide context schemas zero =
    (record { tool_calls = (codes "datetime", end) ∷ []; content = [] }, 1)
decide context schemas (suc n) =
    (record { tool_calls = []; content = codes "It is noon." }, suc (suc n))

abbrev native : Native ℕ
native = record {
  generate_with_tools = decide;
  openai_tools = [];
  native_tool_desc = λ t. none;
  guidance = codes "Use tools.";
  fewshot = [];
  synthesize_wrap = λ calls. codes "Done.";
  show = id_of;
  dumps_result = λ v. some (codes "{}");
  text = λ v. [];
}

-- Five elements: the last is left out.
abbrev five : Value
five = arr (
    cons (obj (field (codes "title") (str (codes "tea")) end))
      (cons null (cons null (cons null (cons null nil)))))

abbrev to_title : List Step
to_title = at_index 0 ∷ at_key (codes "title") ∷ []

title_there : at to_title five ≡ some (str (codes "tea"))
unfolding at tinker_box.Tools.Value.field_of tinker_box.Base.text_dec
title_there = refl

title-IsKept : All IsKept to_title
unfolding tinker_box.Conversation.Compact.is_dropped tinker_box.Base.contains tinker_box.Base.lower
title-IsKept = (omega arith, (refl, tt))

-- The result cannot be dumped, so its text is taken.
compact_tool_result_bounds_example :
    IsShort (shorten id_of five)
    × ((y : Value) × (at to_title (shorten id_of five) ≡ some y)
        × IsCapOf id_of (str (codes "tea")) y)
    × (compact_tool_result id_of (λ v. none) (λ v. codes "x") five
        ≡ capped 1400 (dumped (codes "x") none))
    × (length (compact_tool_result id_of (λ v. none) (λ v. codes "x") five) ≤ 1401)
compact_tool_result_bounds_example =
    compact_tool_result_bounds id_of (λ v. none) (λ v. codes "x") five to_title (str (codes "tea"))
      title-IsKept title_there

abbrev ended_with : Turn ℕ → Option (ℕ × Text)
ended_with out_of_fuel = none
ended_with raised = none
ended_with (ended st l response) = some (calls_in l, response)

-- The turn runs the tool once, and ends.
time_told :
    ended_with
      (process_text_stream engine (codes "a1") 4 9 (codes "time?") from_text none none start)
    ≡ some (1, codes "It is noon.")
unfolding process_text_stream
time_told = refl

native_time_told :
    ended_with (
      process_text_stream_native engine native
        (codes "a1")
        ((codes "datetime", clock) ∷ [])
        4
        9
        (codes "time?")
        from_text
        none
        none
        start)
    ≡ some (1, codes "It is noon.")
unfolding process_text_stream_native
native_time_told = refl
