-- ===== src/Messages/Table.antt =====
-- dragon_voice/db_messages.py and db_events.py: the tables of messages and of events. A table is the
-- list of its rows in the order of their row ids. A time is in milliseconds; `now` is what
-- `time.time()` gives to the call. The order of rows that a `LIMIT` without `ORDER BY` takes is that of
-- the table.
use tinker_box.Base.{
  ℕ, zero, suc, ◌+◌, ◌*◌, Bool, true, false, not, ◌&&◌, ◌||◌, Option, none, some, List, [], ◌∷◌,
  ◌++◌, ltb, leb, if◌then◌else◌, ite, keep, count, take, drop, Text, text_dec,
}
use tinker_box.Base.Sort.{sort}
use tinker_box.Sessions.{
  active, paused, Session, get_session, update_where, increment_message_count, is_status,
  status_dec,
}

pub data Role : Type 0 where
  user assistant system tool : Role

pub data InputMode : Type 0 where
  from_voice from_text from_system : InputMode

-- A row; `audio_duration_s` and `latency_ms` are in milliseconds.
pub record Message : Type 0 where
  pub id : Text
  pub session_id : Text
  pub role : Role
  pub content : Text
  pub input_mode : InputMode
  pub interrupted : Bool
  pub audio_duration_s : Option ℕ
  pub token_count : Option ℕ
  pub model : Option Text
  pub latency_ms : Option ℕ
  pub created_at : ℕ

-- A row of the log. `json_data` is the column `data`, a JSON text.
pub record Event : Type 0 where
  pub id : ℕ
  pub type : Text
  pub session_id : Option Text
  pub device_id : Option Text
  pub json_data : Text
  pub created_at : ℕ

-- `next_id` is the counter of `AUTOINCREMENT`.
pub record Db : Type 0 where
  pub sessions : List Session
  pub messages : List Message
  pub events : List Event
  pub next_id : ℕ

-- The optional arguments of `add_message`.
pub record Details : Type 0 where
  pub input_mode : InputMode
  pub interrupted : Bool
  pub audio_duration_s : Option ℕ
  pub token_count : Option ℕ
  pub model : Option Text
  pub latency_ms : Option ℕ

unfoldable pub get_message : Text → List Message → Option Message
unfolding text_dec
get_message id [] = none
get_message id (m ∷ rows) = ite (text_dec m.id id) (some m) (get_message id rows)

abbrev pub message_of : Text → Text → Role → Text → Details → ℕ → Message
message_of id session_id role content x now = record {
  id = id;
  session_id = session_id;
  role = role;
  content = content;
  input_mode = x.input_mode;
  interrupted = x.interrupted;
  audio_duration_s = x.audio_duration_s;
  token_count = x.token_count;
  model = x.model;
  latency_ms = x.latency_ms;
  created_at = now;
}

-- Nothing is the IntegrityError of a key that is there, or of a session that is not.
unfoldable pub add_message : Text → Text → Role → Text → Details → ℕ → Db → Option (Db × Message)
unfolding get_message get_session increment_message_count
add_message id session_id role content x now d =
    let m = message_of id session_id role content x now in
    elim (get_message id d.messages) [
      | some _ ↦ none
      | none ↦ elim (get_session session_id d.sessions) [
        | none ↦ none
        | some _ ↦ some (
          record d {
            sessions = increment_message_count session_id d.sessions;
            messages = d.messages ++ m ∷ [];
          },
          m,
        )
      ]
    ]

-- `WHERE session_id = ?`
unfoldable pub is_of : Text → Message → Bool
unfolding text_dec
is_of session_id m = ite (text_dec m.session_id session_id) true false

abbrev pub earlier : Message → Message → Bool
earlier a b = leb a.created_at b.created_at

unfoldable pub get_messages : Text → ℕ → ℕ → List Message → List Message
unfolding keep sort is_of
get_messages session_id limit offset rows =
    take limit (drop offset (sort earlier (keep (is_of session_id) rows)))

unfoldable pub count_messages : Text → List Message → ℕ
unfolding count is_of
count_messages session_id rows = count (is_of session_id) rows

-- `id IN (SELECT id FROM sessions WHERE status IN ('active', 'paused'))`
unfoldable pub is_live : Text → List Session → Bool
unfolding text_dec status_dec
is_live id [] = false
is_live id (r ∷ rows) =
    (ite (text_dec r.id id) true false && (is_status active r || is_status paused r))
    || is_live id rows

-- `created_at < cutoff`, the cutoff being the age before now; it may lie before the first instant
unfoldable pub is_old_message : List Session → ℕ → ℕ → Message → Bool
unfolding is_live
is_old_message sessions age now m =
    ltb (m.created_at + age) now && not (is_live m.session_id sessions)

unfoldable pub is_old_event : List Session → ℕ → ℕ → Event → Bool
unfolding is_live
is_old_event sessions age now e =
    ltb (e.created_at + age) now
    && elim e.session_id [ none ↦ true | some id ↦ not (is_live id sessions) ]

module _ {A : Type 0} (p : A → Bool) where
  -- One `DELETE … LIMIT ?`: how many rows went, and those that stay.
  unfoldable pub delete_some : ℕ → List A → ℕ × List A
  delete_some limit [] = (0, [])
  delete_some zero (x ∷ rows) = (0, x ∷ rows)
  delete_some (suc limit) (x ∷ rows) =
      let (k, taken) = delete_some limit rows in
      let (n, kept) = delete_some (suc limit) rows in if p x then (suc k, taken) else (n, x ∷ kept)

  -- The `while True` of the batched deletes; nothing is a loop that the fuel did not let end.
  unfoldable pub batched_delete : ℕ → ℕ → List A → Option (ℕ × List A)
  unfolding delete_some
  batched_delete batch_size zero rows = none
  batched_delete batch_size (suc fuel) rows =
      let (deleted, rows') = delete_some batch_size rows in
      let more = batched_delete batch_size fuel rows' in
      if ltb deleted batch_size
      then some (deleted, rows')
      else elim more [ none ↦ none | some r ↦ some (deleted + r.0, r.1) ]

-- The tables, and the numbers of messages and of events that went.
unfoldable pub purge_old_messages : ℕ → ℕ → ℕ → ℕ → Db → Option (Db × ℕ × ℕ)
unfolding is_old_message is_old_event batched_delete
purge_old_messages days batch_size fuel now d =
    let age = days * 86400000 in
    if leb days 0
    then some (d, 0, 0)
    else elim (batched_delete (is_old_message d.sessions age now) batch_size fuel d.messages) [
      | none ↦ none
      | some (n, messages) ↦
          elim (batched_delete (is_old_event d.sessions age now) batch_size fuel d.events) [
            | none ↦ none
            | some (k, events) ↦ some (record d { messages = messages; events = events }, n, k)
          ]
    ]

unfoldable pub delete_messages : Text → Db → Db × ℕ
unfolding count_messages keep is_of update_where
delete_messages session_id d = (
  record d {
    sessions = update_where session_id (λ r. record r { message_count = 0 }) d.sessions;
    messages = keep (λ m. not (is_of session_id m)) d.messages;
  },
  count_messages session_id d.messages,
)

unfoldable pub add_event : Text → Option Text → Option Text → Text → ℕ → Db → Db × ℕ
add_event type session_id device_id json_data now d = (
  record d {
    events =
        d.events
        ++ (record {
          id = d.next_id;
          type = type;
          session_id = session_id;
          device_id = device_id;
          json_data = json_data;
          created_at = now;
        })
          ∷ [];
    next_id = suc d.next_id;
  },
  d.next_id,
)

-- A filter of `get_events` that is absent or empty passes every row.
unfoldable pub passes : Option Text → Option Text → Bool
unfolding text_dec
passes none column = true
passes (some []) column = true
passes (some (c ∷ t)) column = elim column [
  | none ↦ false
  | some u ↦ ite (text_dec u (c ∷ t)) true false
]

-- The arguments of `get_events` beside `since_id` and `limit`.
pub record Filter : Type 0 where
  pub event_type : Option Text
  pub session_id : Option Text
  pub device_id : Option Text

unfoldable pub selects : Filter → Event → Bool
unfolding passes
selects f e =
    passes f.event_type (some e.type)
    && (passes f.session_id e.session_id && passes f.device_id e.device_id)

abbrev pub by_id : Event → Event → Bool
by_id a b = leb a.id b.id

unfoldable pub get_events : Filter → ℕ → ℕ → List Event → List Event
unfolding keep sort selects
get_events f since_id limit rows =
    take limit (sort by_id (keep (λ e. ltb since_id e.id && selects f e) rows))
