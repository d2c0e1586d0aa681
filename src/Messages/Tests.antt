-- ===== src/Messages/Tests.antt =====
-- The messages and the log on small inputs: each theorem at a case.
use tinker_box.Base.{
  ℕ, ◌+◌, ◌-◌, ◌≤◌, ◌<◌, ◌≡◌, ◌⊎◌, inl, inr, refl, Bool, false, Option, none, some, List, [], ◌∷◌,
  ◌++◌, arith, length, drop, Text, codes,
}
use tinker_box.Sessions.{ended, conversation, Session, Params, row_of, get_session}
use tinker_box.Tools.Value.{Value}
use tinker_box.Messages.Table.{
  Db, Message, Event, Filter, Details, from_text, user, assistant, system, message_of, add_message,
  purge_old_messages, delete_messages,
}
use tinker_box.Messages.Purge.{purge_old_messages_exact}
use tinker_box.Messages.Polling.{poll, news, repeat, last_id, poll-everything, poll-news}
use tinker_box.Messages.Counts.{IsCounted, after_add}
use tinker_box.Messages.Counts.Runs.{Reach, goes, stays, adds, Reach-IsCounted}
use tinker_box.Messages.Context.{
  Entry, Content, plain, tokens, trim_context_to_budget, get_context, store_message, prompt_of,
}
use tinker_box.Messages.Trim.{trim_context_to_budget_exact}
use tinker_box.Messages.Latest.{store_message-context}
use mathlib.Core.Option

abbrev params : Params
params = record {
  device_id = none;
  session_type = conversation;
  system_prompt = codes "Be brief.";
  config = codes "{}";
  voice_mode = 0;
  llm_model = [];
}

abbrev first : Text
first = codes "a1"

abbrev details : Details
details = record {
  input_mode = from_text;
  interrupted = false;
  audio_duration_s = none;
  token_count = none;
  model = none;
  latency_ms = none;
}

abbrev start : Db
start = record { sessions = row_of first params 0 ∷ []; messages = []; events = []; next_id = 1 }

abbrev hello : Message
hello = message_of (codes "m1") first user (codes "hi") details 5

start-IsCounted : IsCounted start
unfolding tinker_box.Messages.Table.count_messages tinker_box.Base.count
start-IsCounted = ((inr refl, tt), tt)

one_added : Reach start (after_add first hello start)
unfolding add_message
one_added =
    goes
      (adds (codes "m1") first user (codes "hi") details 5 start (after_add first hello start) hello
        refl)
      stays

Reach-IsCounted_example : IsCounted (after_add first hello start)
Reach-IsCounted_example = Reach-IsCounted one_added start-IsCounted

-- Two old messages of a session that is over, and a new one.
abbrev over : Session
over = record (row_of first params 0) { status = ended; ended_at = some 7 }

abbrev message_at : Text → ℕ → Message
message_at id t = message_of id first user (codes "hi") details t

abbrev late : ℕ
late = 3000000000

abbrev old_db : Db
old_db = record {
  sessions = over ∷ [];
  messages =
      message_at (codes "m1") 1 ∷ message_at (codes "m2") 2 ∷ message_at (codes "m3") late ∷ [];
  events = [];
  next_id = 1;
}

purge_old_messages_exact_example :
    purge_old_messages 30 1 3 late old_db
    ≡ some (record old_db { messages = message_at (codes "m3") late ∷ [] }, 2, 0)
unfolding tinker_box.Base.count tinker_box.Base.keep tinker_box.Messages.Table.is_old_message
purge_old_messages_exact_example =
    purge_old_messages_exact 30 1 3 late old_db (omega arith) (omega arith) (omega arith)

abbrev event : ℕ → Event
event n = record {
  id = n;
  type = codes "tick";
  session_id = none;
  device_id = none;
  json_data = codes "{}";
  created_at = n;
}

abbrev all : Filter
all = record { event_type = none; session_id = none; device_id = none }

abbrev three : List Event
three = event 1 ∷ event 2 ∷ event 3 ∷ []

poll-everything_example : poll all 2 0 three (repeat 2 []) ≡ news all 0 three
unfolding tinker_box.Base.keep tinker_box.Messages.Table.selects
poll-everything_example =
    poll-everything all 2 0 2 three
      ((omega arith, (omega arith, tt)), ((omega arith, tt), (tt, tt))) (omega arith)

abbrev arrivals : List (List Event)
arrivals = (event 1 ∷ []) ∷ (event 2 ∷ event 3 ∷ []) ∷ []

poll-news_example :
    poll all 1 0 [] arrivals ++ news all (last_id 0 (poll all 1 0 [] arrivals)) three
    ≡ news all 0 three
poll-news_example =
    poll-news all 1 0 [] arrivals ((omega arith, (omega arith, tt)), ((omega arith, tt), (tt, tt)))

abbrev entry : Text → Entry
entry t = record { role = user; content = plain t }

abbrev long_text : Text
long_text = codes "abcdefgh"

abbrev talk : List Entry
talk = entry long_text ∷ entry (codes "hi") ∷ []

trim_context_to_budget_exact_example :
    (k : ℕ) × (trim_context_to_budget (entry (codes "sys") ∷ talk) 2
      ≡ entry (codes "sys") ∷ drop k talk)
    × (k ≤ length talk - 1)
    × ((tokens (entry (codes "sys") ∷ drop k talk) ≤ 2) ⊎ (length (drop k talk) ≤ 1))
    × (¬ ((j : ℕ) × (j < k) × (tokens (entry (codes "sys") ∷ drop j talk) ≤ 2)))
trim_context_to_budget_exact_example = trim_context_to_budget_exact (entry (codes "sys")) talk 2

abbrev no_json : Text → Option Value
no_json t = none

abbrev as_text : Value → Text
as_text v = []

abbrev falsy : Value → Bool
falsy v = false

store_message-context_example :
    (es : List Entry) × (Option.map
        (λ c. trim_context_to_budget c 100)
        (get_context no_json falsy as_text none first 10 none (after_add first hello start))
      ≡ some (
          (record {
            role = system;
            content =
                plain (prompt_of none (get_session first (after_add first hello start).sessions));
          })
            ∷ es
          ++ (record { role = user; content = plain (codes "hi") }) ∷ []))
unfolding store_message tinker_box.Messages.Context.is_multimodal_content
store_message-context_example =
    store_message-context no_json falsy as_text none as_text (codes "m1") first (codes "hi") details
      5 10 100 none start (after_add first hello start) hello (omega arith) refl tt tt refl
