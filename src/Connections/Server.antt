-- ===== src/Connections/Server.antt =====
-- dragon_voice/stale_conn_eviction.py, dragon_voice/disconnect_handler.py, and the part of
-- `_handle_register` of dragon_voice/server.py that claims the device and the session. A `ConnState`
-- is an object that its handler and `_active_connections` share, so the objects are in a store by
-- their `ws_id`, and `_active_connections` is the list of its keys.
use tinker_box.Base.{
  ℕ, suc, Bool, true, false, not, ◌&&◌, ◌||◌, Option, none, some, List, [], ◌∷◌, ◌++◌, map,
  if◌then◌else◌, ite, keep, Text, text_dec,
}
use tinker_box.Base.Dict.{get, put}
use tinker_box.Sessions.{Db, Params, pause_session, get_or_create_session}

-- The fields of `ConnState` that count here. `pipeline` and `on_event` tell whether there is one,
-- `closed` is the property of the WebSocket, and the tasks are numbered.
pub record Conn : Type 0 where
  pub session_id : Option Text
  pub device_id : Option Text
  pub registered : Bool
  pub pipeline : Bool
  pub on_event : Bool
  pub closed : Bool
  pub bg_tasks : List ℕ
  pub handler_tasks : List ℕ

-- What the code does to the outside, each with the `ws_id`.
pub data Effect : Type 0 where
  device_evicted shut_down going_away : Text → Effect
  cancelled : Text → ℕ → Effect
  unregistered : Text → Effect
  device_connected device_disconnected : Text → Effect

pub record World : Type 0 where
  pub conns : List (Text × Conn)
  pub active_connections : List Text
  pub online : List (Text × Bool)
  pub db : Db
  pub log : List Effect

abbrev pub same_text : Text → Text → Bool
same_text s t = ite (text_dec s t) true false

-- The connection is registered to the device.
abbrev pub holds : Text → Option Conn → Bool
holds device none = false
holds device (some c) = elim c.device_id [
  | none ↦ false
  | some d ↦ same_text d device && c.registered
]

-- `if session_id:`, which an empty text does not pass
abbrev pub truthy : Option Text → Option Text
truthy none = none
truthy (some []) = none
truthy (some (x ∷ s)) = some (x ∷ s)

abbrev pub paused_session : Option Text → ℕ → Db → Db
paused_session id now db = elim (truthy id) [ none ↦ db | some s ↦ pause_session s now db ]

-- The loop's body behind its guards.
unfoldable pub evict : Text → Conn → ℕ → World → World
unfolding put pause_session keep text_dec
evict id c now w = record {
  conns =
      put text_dec id (record c { pipeline = false; registered = false; closed = true }) w.conns;
  active_connections = keep (λ j. not (same_text j id)) w.active_connections;
  online = w.online;
  db = paused_session c.session_id now w.db;
  log =
      w.log
      ++ ((if c.on_event then device_evicted id ∷ [] else [])
          ++ ((if c.pipeline then shut_down id ∷ [] else [])
              ++ (if c.closed then [] else going_away id ∷ [])));
}

unfoldable pub evict_if_stale : Text → Text → ℕ → Text → World × ℕ → World × ℕ
unfolding get evict text_dec
evict_if_stale device new now id (w, n) = elim (get text_dec id w.conns) [
  | none ↦ (w, n)
  | some c ↦
      if not (same_text id new) && holds device (some c) then (evict id c now w, suc n) else (w, n)
]

unfoldable pub evict_each : Text → Text → ℕ → List Text → World × ℕ → World × ℕ
unfolding evict_if_stale
evict_each device new now [] x = x
evict_each device new now (id ∷ ids) x =
    evict_each device new now ids (evict_if_stale device new now id x)

unfoldable pub evict_stale_connections_for_device : Text → Text → ℕ → World → World × ℕ
unfolding evict_each
evict_stale_connections_for_device device new now w =
    evict_each device new now w.active_connections (w, 0)

abbrev pub any : {A : Type 0} → (A → Bool) → List A → Bool
any p [] = false
any p (x ∷ l) = p x || any p l

-- Another connection than `id` is registered to the device.
unfoldable pub other_active : Text → Text → World → Bool
unfolding get text_dec
other_active device id w =
    any (λ j. not (same_text j id) && holds device (get text_dec j w.conns)) w.active_connections

unfoldable pub mark_offline : Text → Text → World → World
unfolding other_active put text_dec
mark_offline device id w = if other_active device id w then w else record w {
  online = put text_dec device false w.online;
  log = w.log ++ device_disconnected device ∷ [];
}

abbrev pub emit : List Effect → World → World
emit l w = record w { log = w.log ++ l }

-- `handle_disconnect` of the connection's object: the tasks, the surface and the session
unfoldable pub release : Text → Conn → ℕ → World → World
unfolding pause_session
release id c now w = record w {
  db = paused_session c.session_id now w.db;
  log =
      w.log
      ++ (map (cancelled id) c.bg_tasks
          ++ (map (cancelled id) c.handler_tasks
              ++ elim (truthy c.session_id) [ none ↦ [] | some s ↦ unregistered s ∷ [] ]));
}

-- the device and the pipeline
unfoldable pub disconnect : Text → Conn → ℕ → World → World
unfolding release mark_offline
disconnect id c now w =
    let w' : World = elim (truthy c.device_id) [
      | none ↦ release id c now w
      | some device ↦ mark_offline device id (release id c now w)
    ] in
    if c.pipeline then emit (shut_down id ∷ []) w' else w'

-- The end of `_handle_ws_voice`: the chain, and the entry is dropped.
unfoldable pub handle_disconnect : Text → ℕ → World → World
unfolding get disconnect keep text_dec
handle_disconnect id now w = elim (get text_dec id w.conns) [
  | none ↦ w
  | some c ↦
      let w' = disconnect id c now w in
      record w' { active_connections = keep (λ j. not (same_text j id)) w'.active_connections }
]

-- `_handle_register` up to `conn_state["registered"]`. The first half claims the device: the update
-- of its row is the database's, which refuses a hardware id that another device has; the result
-- tells whether the registration goes on. The second half claims the session.
unfoldable pub claim_device : (Text → Bool) → Text → Text → ℕ → World → World × Bool
unfolding evict_stale_connections_for_device put text_dec
claim_device accepts device id now w =
    let w' = (evict_stale_connections_for_device device id now w).0 in
    if accepts device
    then (
      record w' {
        online = put text_dec device true w'.online;
        log = w'.log ++ device_connected device ∷ [];
      },
      true,
    )
    else (w', false)

unfoldable pub claim_session : Text → Text → Option Text → Text → Params → ℕ → World → Option World
unfolding get_or_create_session get put text_dec
claim_session device id requested fresh p now w =
    elim (get_or_create_session requested fresh p now w.db) [
      | none ↦ none
      | some (db, session, resumed) ↦ elim (get text_dec id w.conns) [
        | none ↦ none
        | some c ↦ some (record w {
          db = db;
          conns =
              put text_dec id
                (record c {
                  session_id = some session.id;
                  device_id = some device;
                  registered = true;
                })
                w.conns;
        })
      ]
    ]
