-- ===== src/Connections/Tests.antt =====
-- The connections on small inputs: each theorem at a case.
use tinker_box.Base.{
  ℕ, ◌≡◌, ◌≢◌, ◌↔◌, inl, refl, true, false, none, some, [], ◌∷◌, arith, Elem, Text, codes, text_dec,
}
use tinker_box.Base.Dict.{get}
use tinker_box.Sessions.{paused, Params, conversation, row_of, get_session}
use tinker_box.Sessions.Legal.{status_of}
use tinker_box.Connections.Server.{
  Conn, World, evict_stale_connections_for_device, claim_device, claim_session, handle_disconnect,
}
use tinker_box.Connections.Eviction.{after_eviction, evict_exact}
use tinker_box.Connections.Disconnect.{handle_disconnect-pauses}

abbrev tab5 : Text
tab5 = codes "tab5"

abbrev phone : Text
phone = codes "phone"

abbrev room : Text
room = codes "a1"

abbrev params : Params
params = record {
  device_id = some tab5;
  session_type = conversation;
  system_prompt = [];
  config = codes "{}";
  voice_mode = 0;
  llm_model = [];
}

abbrev old : Conn
old = record {
  session_id = some room;
  device_id = some tab5;
  registered = true;
  pipeline = true;
  on_event = true;
  closed = false;
  bg_tasks = 7 ∷ [];
  handler_tasks = [];
}

abbrev fresh : Conn
fresh = record {
  session_id = none;
  device_id = none;
  registered = false;
  pipeline = false;
  on_event = true;
  closed = false;
  bg_tasks = [];
  handler_tasks = [];
}

abbrev world : World
world = record {
  conns = (codes "ws0", old) ∷ (codes "ws1", fresh) ∷ [];
  active_connections = codes "ws0" ∷ codes "ws1" ∷ [];
  online = (tab5, true) ∷ (phone, true) ∷ [];
  db = record { sessions = row_of room params 1000 ∷ []; events = [] };
  log = [];
}

evict_exact_example :
    let w' = (evict_stale_connections_for_device tab5 (codes "ws1") 5 world).0 in
    (Elem (codes "ws0") w'.active_connections ↔ (true ≡ false))
    × (get text_dec (codes "ws0") w'.conns ≡ after_eviction true (some old))
unfolding get text_dec
evict_exact_example = evict_exact tab5 (codes "ws1") 5 world (codes "ws0") (inl refl)

-- The device connects anew, and resumes its session, before the old connection has ended.
abbrev anew : World
anew =
    elim (claim_session tab5 (codes "ws1") (some room) (codes "b2") params 6
      (claim_device (λ d. true) tab5 (codes "ws1") 5 world).0) [ some w ↦ w | none ↦ world ]

abbrev evicted : Conn
evicted = record old { pipeline = false; registered = false; closed = true }

abbrev resumed : Conn
resumed = record fresh { session_id = some room; device_id = some tab5; registered = true }

ws_ne : (c d : ℕ) → c ≢ d → b'w' ∷ b's' ∷ c ∷ [] ≢ b'w' ∷ b's' ∷ d ∷ []
ws_ne c d ne e = ne (cc)

handle_disconnect-pauses_example :
    let w' = handle_disconnect (codes "ws0") 7 anew in
    (status_of (get_session room w'.db.sessions) ≡ some paused)
    × Elem (codes "ws1") w'.active_connections
    × (get text_dec (codes "ws1") w'.conns ≡ some resumed)
unfolding get text_dec claim_session claim_device
handle_disconnect-pauses_example =
    handle_disconnect-pauses (codes "ws0") (codes "ws1") room evicted resumed 7 anew
      (ws_ne 48 49 (λ e. omega (arith, e))) refl refl (inl refl) refl (refl, refl) refl
