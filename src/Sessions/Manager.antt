-- ===== src/Sessions/Manager.antt =====
-- dragon_voice/sessions.py: the manager. Its state is the table and the log of events. A call is
-- given the time of its awaits, which is one instant.
use mathlib.Core.Option
use tinker_box.Base.{
  ℕ, Bool, true, false, Option, none, some, List, [], ◌∷◌, ◌++◌, if◌then◌else◌, Text,
}
use tinker_box.Sessions.Table.{
  Status, active, paused, ended, Session, SessionType, Params, Change, row_of, get_session,
  insert_session, update_session_status, update_session_status_if, touch_session, update_session,
  list_sessions, get_stale_sessions, get_old_paused_sessions,
}

pub data EventType : Type 0 where
  session_created : SessionType → ℕ → Text → EventType
  session_resumed session_paused session_ended : EventType

pub record Event : Type 0 where
  pub event_type : EventType
  pub session_id : Text
  pub device_id : Option Text

pub record Db : Type 0 where
  pub sessions : List Session
  pub events : List Event

abbrev pub add_event : EventType → Text → Option Text → Db → Db
add_event e id device_id d = record d {
  events = d.events ++ (record { event_type = e; session_id = id; device_id = device_id }) ∷ [];
}

-- Nothing is the exception of a key that is there.
unfoldable pub create_session : Text → Params → ℕ → Db → Option (Db × Session)
unfolding insert_session
create_session id p now d = elim (insert_session id p now d.sessions) [
  | none ↦ none
  | some rows ↦ some (
    add_event (session_created p.session_type p.voice_mode p.llm_model) id p.device_id
        (record d { sessions = rows }),
    row_of id p now,
  )
]

-- The manager's `update_session`
unfoldable pub update_fields : Text → List Change → ℕ → Db → Db × Option Session
unfolding get_session update_session
update_fields id kwargs now d = elim (get_session id d.sessions) [
  | none ↦ (d, none)
  | some _ ↦
      let rows = update_session id kwargs now d.sessions in
      (record d { sessions = rows }, get_session id rows)
]

unfoldable pub set_status : Text → Status → ℕ → Db → Db
unfolding update_session_status
set_status id status now d = record d { sessions = update_session_status id status now d.sessions }

-- `resume_session` behind the look at the row `r`, which is an await before.
unfoldable pub resume_paused : Text → Session → ℕ → Db → Db × Option Session
unfolding get_session set_status
resume_paused id r now d =
    let d' = add_event session_resumed id r.device_id (set_status id active now d) in
    (d', get_session id d'.sessions)

unfoldable pub resume_session : Text → ℕ → Db → Db × Option Session
unfolding get_session touch_session resume_paused
resume_session id now d = elim (get_session id d.sessions) [
  | none ↦ (d, none)
  | some r ↦ elim r.status [
    | ended ↦ (d, none)
    | active ↦
        let rows = touch_session id now d.sessions in
        (record d { sessions = rows }, get_session id rows)
    | paused ↦ resume_paused id r now d
  ]
]

abbrev pub device_of : Option Session → Option Text
device_of none = none
device_of (some r) = r.device_id

-- `pause_session` in its two halves, between which other calls may run: the update, and the event.
unfoldable pub pause_update : Text → ℕ → Db → Db × Bool
unfolding update_session_status_if
pause_update id now d =
    let (rows, updated) = update_session_status_if id paused active now d.sessions in
    (record d { sessions = rows }, updated)

unfoldable pub pause_event : Text → Bool → Db → Db
unfolding get_session
pause_event id updated d =
    if updated then add_event session_paused id (device_of (get_session id d.sessions)) d else d

unfoldable pub pause_session : Text → ℕ → Db → Db
unfolding pause_update pause_event
pause_session id now d = let (d', updated) = pause_update id now d in pause_event id updated d'

unfoldable pub end_session : Text → ℕ → Db → Db
unfolding get_session set_status
end_session id now d = elim (get_session id d.sessions) [
  | none ↦ d
  | some r ↦ elim r.status [
    | ended ↦ d
    | active ↦ add_event session_ended id r.device_id (set_status id ended now d)
    | paused ↦ add_event session_ended id r.device_id (set_status id ended now d)
  ]
]

-- The requested session if it can be resumed, else a new one, and whether it was resumed.
unfoldable pub get_or_create_session :
    Option Text → Text → Params → ℕ → Db → Option (Db × Session × Bool)
unfolding resume_session create_session
get_or_create_session none fresh p now d =
    Option.map (λ (x : Db × Session). (x.0, x.1, false)) (create_session fresh p now d)
get_or_create_session (some []) fresh p now d =
    Option.map (λ (x : Db × Session). (x.0, x.1, false)) (create_session fresh p now d)
get_or_create_session (some (c ∷ id)) fresh p now d =
    let (d', found) = resume_session (c ∷ id) now d in
    elim found [
      | some r ↦ some (d', r, true)
      | none ↦ Option.map (λ (x : Db × Session). (x.0, x.1, false)) (create_session fresh p now d')
    ]

-- One round of `_cleanup_loop`.
unfoldable pub end_all : List Session → ℕ → Db → Db
unfolding end_session
end_all [] now d = d
end_all (r ∷ rows) now d = end_all rows now (end_session r.id now d)

unfoldable pub cleanup : ℕ → ℕ → ℕ → Db → Db
unfolding get_stale_sessions get_old_paused_sessions end_all
cleanup timeout retention_days now d =
    let d' = end_all (get_stale_sessions timeout now d.sessions) now d in
    end_all (get_old_paused_sessions retention_days now d'.sessions) now d'

-- `update_session_status` on each of the rows that a query gave
unfoldable pub set_all : Status → List Session → ℕ → Db → Db
unfolding set_status
set_all status [] now d = d
set_all status (r ∷ rows) now d = set_all status rows now (set_status r.id status now d)

unfoldable pub cleanup_stale_on_startup : ℕ → ℕ → Db → Db
unfolding get_stale_sessions list_sessions set_all
cleanup_stale_on_startup timeout now d =
    let d' = set_all ended (get_stale_sessions timeout now d.sessions) now d in
    set_all paused (list_sessions none (some active) 100 0 d'.sessions) now d'
