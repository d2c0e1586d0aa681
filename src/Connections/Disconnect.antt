-- ===== src/Connections/Disconnect.antt =====
-- What the end of a connection leaves.
use mathlib.Core.Option
use tinker_box.Base.{
  ℕ, ◌≡◌, ◌≢◌, refl, sym, ap, ◌∙◌, ite, if_pos, if_neg, Bool, true, false, not, Option, none, some,
  [], ◌∷◌, ◌++◌, arith, Elem, Elem-keep, Text, text_dec, if◌then◌else◌,
}
use tinker_box.Base.Dict.{get, put}
use tinker_box.Sessions.{
  Db, Session, active, paused, status_dec, get_session, with_status, update_session_status_if,
  pause_session,
}
use tinker_box.Sessions.Legal.{status_of, get-update_where}
use tinker_box.Sessions.Calls.{pause_row-id, pause_session_rows}
use tinker_box.Connections.Server.{
  Conn, World, same_text, truthy, paused_session, other_active, mark_offline, emit, disconnect,
  release, handle_disconnect, device_disconnected, shut_down,
}

-- The device goes offline exactly if no other connection holds it.
abbrev pub after_disconnect : Bool → Option Bool → Option Bool
after_disconnect other before = if other then before else some false

-- The parts of the world that the flag of the device does not touch.
abbrev Same : World → World → Type 0
Same w w' = (w'.db ≡ w.db) × (w'.conns ≡ w.conns) × (w'.active_connections ≡ w.active_connections)

mark_offline-Same : (device id : Text) (w : World) → Same w (mark_offline device id w)
unfolding mark_offline
mark_offline-Same device id w =
    elim (other_active device id w)
      as (λ (b : Bool). Same w (
        if b then w else record w {
          online = put text_dec device false w.online;
          log = w.log ++ device_disconnected device ∷ [];
        })) [ true ↦ (refl, refl, refl) | false ↦ (refl, refl, refl) ]

marked-Same :
    (o : Option Text) (id : Text) (w : World)
    → Same w (elim o [ none ↦ w | some device ↦ mark_offline device id w ])
marked-Same none id w = (refl, refl, refl)
marked-Same (some device) id w = mark_offline-Same device id w

emitted-Same :
    (b : Bool) (id : Text) (w w' : World)
    → Same w w'
    → Same w (if b then emit (shut_down id ∷ []) w' else w')
emitted-Same true id w w' s = s
emitted-Same false id w w' s = s

disconnect-Same :
    (id : Text) (c : Conn) (now : ℕ) (w : World) → Same (release id c now w) (disconnect id c now w)
unfolding disconnect
disconnect-Same id c now w =
    emitted-Same c.pipeline id (release id c now w) _
      (marked-Same (truthy c.device_id) id (release id c now w))

disconnect-rest :
    (id : Text) (c : Conn) (now : ℕ) (w : World)
    → ((disconnect id c now w).db ≡ paused_session c.session_id now w.db)
      × ((disconnect id c now w).conns ≡ w.conns)
      × ((disconnect id c now w).active_connections ≡ w.active_connections)
unfolding release
disconnect-rest id c now w = disconnect-Same id c now w

paused-row :
    (o : Option Session) (now : ℕ)
    → status_of o ≡ some active
    → status_of (Option.map (λ r. ite (status_dec r.status active) (with_status paused now r) r) o)
      ≡ some paused
unfolding with_status status_dec
paused-row none now e = ground arith
paused-row (some r) now e = ground arith

pause_session-paused :
    (id : Text) (now : ℕ) (db : Db)
    → status_of (get_session id db.sessions) ≡ some active
    → status_of (get_session id (pause_session id now db).sessions) ≡ some paused
unfolding update_session_status_if
pause_session-paused id now db e =
    ap (λ rows. status_of (get_session id rows)) (pause_session_rows id now db)
    ∙ ap status_of
        (get-update_where id _ (pause_row-id now) id db.sessions ∙ if_pos (text_dec id id) refl _ _)
    ∙ paused-row (get_session id db.sessions) now e

-- The end of a connection pauses its session if it is active, although another connection in the
-- table is registered with the same session and stays so. So the end of an evicted connection
-- pauses the session that the connection behind it has resumed.
pub handle_disconnect-pauses :
    (id new session : Text) (c c' : Conn) (now : ℕ) (w : World)
    → id ≢ new
    → get text_dec id w.conns ≡ some c
    → get text_dec new w.conns ≡ some c'
    → Elem new w.active_connections
    → truthy c.session_id ≡ some session
    → (c'.registered ≡ true) × (c'.session_id ≡ c.session_id)
    → status_of (get_session session w.db.sessions) ≡ some active
    → let w' = handle_disconnect id now w in
      (status_of (get_session session w'.db.sessions) ≡ some paused)
      × Elem new w'.active_connections
      × (get text_dec new w'.conns ≡ some c')
unfolding handle_disconnect
handle_disconnect-pauses id new session c c' now w ne e e' m s r a =
    let (db, conns, active_same) = disconnect-rest id c now w in
    let keeps = Elem-keep (λ j. not (same_text j id)) new w.active_connections in
    (
      rw (handle_disconnect, e)
          (ap (λ (x : Db). status_of (get_session session x.sessions))
              (db ∙ ap (λ o. elim o [ none ↦ w.db | some t ↦ pause_session t now w.db ]) s)
            ∙ pause_session-paused session now w.db a),
      rw (handle_disconnect, e)
          (rw active_same
            (keeps.1 (m, ap not (if_neg (text_dec new id) (λ x. ne (sym x)) true false)))),
      rw (handle_disconnect, e) (ap (get text_dec new) conns ∙ e'),
    )
