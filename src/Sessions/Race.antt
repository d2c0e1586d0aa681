-- ===== src/Sessions/Race.antt =====
-- `resume_session` looks at the row and changes it in two awaits, between which the session may end.
use mathlib.Core.Option
use tinker_box.Base.{ℕ, ◌≡◌, refl, ap, ◌∙◌, if_pos, Option, none, some, arith, Text, text_dec}
use tinker_box.Sessions.Table.{
  Status, active, paused, ended, Session, get_session, with_status, update_session_status,
}
use tinker_box.Sessions.Manager.{Db, resume_paused, end_session, set_status}
use tinker_box.Sessions.Legal.{get-update_where}
use tinker_box.Sessions.Calls.{id-with_status}

get-set_status :
    (id : Text) (s : Status) (now : ℕ) (d : Db)
    → get_session id (set_status id s now d).sessions
      ≡ Option.map (with_status s now) (get_session id d.sessions)
unfolding set_status update_session_status
get-set_status id s now d =
    get-update_where id (with_status s now) (id-with_status s now) id d.sessions
    ∙ if_pos (text_dec id id) refl _ _

abbrev pub state_of : Option Session → Option (Status × Option ℕ)
state_of none = none
state_of (some r) = some (r.status, r.ended_at)

resumed-state :
    (q : Option Session) (now t : ℕ) (r : Session)
    → q ≡ some r
    → state_of (Option.map (with_status active now) (Option.map (with_status ended t) q))
      ≡ some (active, some t)
unfolding with_status
resumed-state none now t r e = ground arith
resumed-state (some s) now t r e = refl

ended-row :
    (id : Text) (t : ℕ) (d : Db) (r : Session)
    → get_session id d.sessions ≡ some r
    → r.status ≡ paused
    → get_session id (end_session id t d).sessions
      ≡ get_session id (set_status id ended t d).sessions
unfolding end_session
ended-row id t d r e p = rw (end_session, e, p) refl

-- A paused session that ends after `resume_session` has looked at its row, and before it changes the
-- row, is active afterwards although it has an end: the table is not valid any more.
pub resume_paused-revives :
    (id : Text) (r : Session) (t now : ℕ) (d : Db)
    → get_session id d.sessions ≡ some r
    → r.status ≡ paused
    → state_of (get_session id (resume_paused id r now (end_session id t d)).0.sessions)
      ≡ some (active, some t)
unfolding resume_paused
resume_paused-revives id r t now d e p =
    ap state_of (
      get-set_status id active now (end_session id t d)
      ∙ ap (Option.map (with_status active now))
          (ended-row id t d r e p ∙ get-set_status id ended t d))
    ∙ resumed-state (get_session id d.sessions) now t r e
