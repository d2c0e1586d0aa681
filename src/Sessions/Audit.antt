-- ===== src/Sessions/Audit.antt =====
-- The log of events when several disconnects pause one session at the same time: `pause_session`
-- waits between its update and its event, and the others may run there.
use mathlib.Core.Option
use tinker_box.Base.{
  ℕ, zero, suc, ◌+◌, ◌≡◌, refl, sym, ap, ◌∙◌, ite, if_pos, Bool, true, false, Option, none, some,
  List, [], ◌∷◌, ◌++◌, arith, Text, text_dec, count, count-append, drop, take, if◌then◌else◌,
}
use tinker_box.Sessions.Table.{
  active, paused, status_dec, with_status, Session, get_session, update_where,
  update_session_status_if, is_status,
}
use tinker_box.Sessions.Manager.{
  Db, Event, session_created, session_resumed, session_paused, session_ended, pause_update,
  pause_event,
}
use tinker_box.Sessions.Legal.{get-update_where}
use tinker_box.Sessions.Calls.{pause_row-id}

-- The pauses that have made their update and not yet their event, with what the update returned.
pub record Pausing : Type 0 where
  pub db : Db
  pub waiting : List Bool

pub data PauseStep : Type 0 where
  begin finish : ℕ → PauseStep

-- `begin` is at a time; `finish` is of the pause at an index of `waiting`.
unfoldable pub finish_at : Text → List Bool → List Bool → Db → Pausing
unfolding pause_event
finish_at id before [] d = record { db = d; waiting = before }
finish_at id before (u ∷ rest) d = record { db = pause_event id u d; waiting = before ++ rest }

unfoldable pub pause_step : Text → PauseStep → Pausing → Pausing
unfolding pause_update finish_at
pause_step id (begin now) s =
    let (d, updated) = pause_update id now s.db in
    record { db = d; waiting = s.waiting ++ updated ∷ [] }
pause_step id (finish n) s = finish_at id (take n s.waiting) (drop n s.waiting) s.db

abbrev pub pause_steps : Text → List PauseStep → Pausing → Pausing
pause_steps id [] s = s
pause_steps id (x ∷ l) s = pause_steps id l (pause_step id x s)

abbrev pub is_pause_of : Text → Event → Bool
is_pause_of id e = elim e.event_type [
  | session_paused ↦ ite (text_dec e.session_id id) true false
  | session_resumed ↦ false
  | session_ended ↦ false
  | session_created t v m ↦ false
]

abbrev pub pauses_in : Text → Db → ℕ
pauses_in id d = count (is_pause_of id) d.events

abbrev pub is_active : Option Session → ℕ
is_active none = 0
is_active (some r) = if is_status active r then 1 else 0

-- The events that are there, those that are to come, and the one that a pause would add.
abbrev budget : Text → Pausing → ℕ
budget id s =
    pauses_in id s.db + count (λ u. u) s.waiting + is_active (get_session id s.db.sessions)

pause_row : ℕ → Session → Session
pause_row now r = ite (status_dec r.status active) (with_status paused now r) r

update-budget :
    (now : ℕ) (o : Option Session)
    → (if elim o [ none ↦ false | some r ↦ ite (status_dec r.status active) true false ]
          then 1
          else 0)
        + is_active
            (Option.map (λ r. ite (status_dec r.status active) (with_status paused now r) r) o)
      ≡ is_active o
unfolding with_status status_dec
update-budget now none = omega arith
update-budget now (some r) = ground arith

get-same :
    (f : Session → Session)
    → ((r : Session) → (f r).id ≡ r.id)
    → (id : Text) (rows : List Session)
    → get_session id (update_where id f rows) ≡ Option.map f (get_session id rows)
get-same f keeps id rows = get-update_where id f keeps id rows ∙ if_pos (text_dec id id) refl _ _

-- The update of a pause takes the one event that a session has left to give.
pause_update-budget :
    (id : Text) (now : ℕ) (d : Db)
    → (if (pause_update id now d).1 then 1 else 0)
        + is_active (get_session id (pause_update id now d).0.sessions)
      ≡ is_active (get_session id d.sessions)
unfolding pause_update update_session_status_if
pause_update-budget id now d =
    ap (λ q. (if (pause_update id now d).1 then 1 else 0) + is_active q)
      (get-same _ (pause_row-id now) id d.sessions)
    ∙ update-budget now (get_session id d.sessions)

pause_update-events : (id : Text) (now : ℕ) (d : Db) → (pause_update id now d).0.events ≡ d.events
unfolding pause_update
pause_update-events id now d = refl

count_one : (u : Bool) → count (λ v. v) (u ∷ []) ≡ (if u then 1 else 0)
unfolding count
count_one true = refl
count_one false = refl

own_event :
    (id : Text) (device_id : Option Text)
    → count
        (is_pause_of id)
        ((record { event_type = session_paused; session_id = id; device_id = device_id }) ∷ [])
      ≡ 1
unfolding count
own_event id device_id = rw (if_pos (text_dec id id) refl true false) refl

pause_event-events :
    (id : Text) (u : Bool) (d : Db)
    → pauses_in id (pause_event id u d) ≡ pauses_in id d + (if u then 1 else 0)
unfolding pause_event
pause_event-events id true d =
    count-append (is_pause_of id) d.events _ ∙ ap (λ n. pauses_in id d + n) (own_event id _)
pause_event-events id false d = omega arith

pause_event-sessions : (id : Text) (u : Bool) (d : Db) → (pause_event id u d).sessions ≡ d.sessions
unfolding pause_event
pause_event-sessions id true d = refl
pause_event-sessions id false d = refl

count-cons :
    (u : Bool) (l : List Bool) → count (λ v. v) (u ∷ l) ≡ (if u then 1 else 0) + count (λ v. v) l
unfolding count
count-cons true l = omega arith
count-cons false l = omega arith

append_nil : (l : List Bool) → l ++ [] ≡ l
append_nil [] = refl
append_nil (u ∷ l) = ap (u ∷◌) (append_nil l)

finish-budget :
    (id : Text) (before after : List Bool) (d : Db)
    → budget id (finish_at id before after d)
      ≡ budget id (record { db = d; waiting = before ++ after })
unfolding finish_at
finish-budget id before [] d =
    ap (λ l. budget id (record { db = d; waiting = l })) (sym (append_nil before))
finish-budget id before (u ∷ rest) d =
    rw
      (
        pause_event-sessions id u d,
        pause_event-events id u d,
        count-append (λ v. v) before rest,
        count-append (λ v. v) before (u ∷ rest),
        count-cons u rest,
      )
      (omega arith)

take-drop : (n : ℕ) (l : List Bool) → take n l ++ drop n l ≡ l
take-drop zero l = refl
take-drop (suc n) [] = refl
take-drop (suc n) (u ∷ l) = ap (u ∷◌) (take-drop n l)

step-budget :
    (id : Text) (x : PauseStep) (s : Pausing) → budget id (pause_step id x s) ≡ budget id s
unfolding pause_step
step-budget id (begin now) s =
    rw
      (
        count-append (λ v. v) s.waiting ((pause_update id now s.db).1 ∷ []),
        count_one (pause_update id now s.db).1,
        pause_update-events id now s.db,
      )
      (omega (arith, pause_update-budget id now s.db))
step-budget id (finish n) s =
    finish-budget id (take n s.waiting) (drop n s.waiting) s.db
    ∙ ap (λ l. budget id (record { db = s.db; waiting = l })) (take-drop n s.waiting)

steps-budget :
    (id : Text) (l : List PauseStep) (s : Pausing) → budget id (pause_steps id l s) ≡ budget id s
steps-budget id [] s = refl
steps-budget id (x ∷ l) s = steps-budget id l (pause_step id x s) ∙ step-budget id x s

row-inactive :
    (now : ℕ) (o : Option Session)
    → is_active (Option.map (λ r. ite (status_dec r.status active) (with_status paused now r) r) o)
      ≡ 0
unfolding with_status status_dec
row-inactive now none = refl
row-inactive now (some r) = ground arith

begin-inactive :
    (id : Text) (now : ℕ) (d : Db)
    → is_active (get_session id (pause_update id now d).0.sessions) ≡ 0
unfolding pause_update update_session_status_if
begin-inactive id now d =
    ap is_active (get-same _ (pause_row-id now) id d.sessions)
    ∙ row-inactive now (get_session id d.sessions)

finish_at-sessions :
    (id : Text) (before after : List Bool) (d : Db)
    → (finish_at id before after d).db.sessions ≡ d.sessions
unfolding finish_at
finish_at-sessions id before [] d = refl
finish_at-sessions id before (u ∷ rest) d = pause_event-sessions id u d

steps-inactive :
    (id : Text) (l : List PauseStep) (s : Pausing)
    → is_active (get_session id s.db.sessions) ≡ 0
    → is_active (get_session id (pause_steps id l s).db.sessions) ≡ 0
unfolding pause_step
steps-inactive id [] s e = e
steps-inactive id (begin now ∷ l) s e =
    steps-inactive id l (pause_step id (begin now) s) (begin-inactive id now s.db)
steps-inactive id (finish n ∷ l) s e = steps-inactive id l (pause_step id (finish n) s) (
    ap (λ rows. is_active (get_session id rows))
      (finish_at-sessions id (take n s.waiting) (drop n s.waiting) s.db)
    ∙ e)

-- Pauses of one session, at least one and any number, that run at the same time in any order of
-- their halves: when all are done, the log has one more "session.paused" of the session if it was
-- active before, and no more otherwise.
pub pause_steps-one_event :
    (id : Text) (now : ℕ) (l : List PauseStep) (d : Db)
    → (pause_steps id (begin now ∷ l) (record { db = d; waiting = [] })).waiting ≡ []
    → pauses_in id (pause_steps id (begin now ∷ l) (record { db = d; waiting = [] })).db
      ≡ pauses_in id d + is_active (get_session id d.sessions)
unfolding count
pause_steps-one_event id now l d w =
    let s : Pausing = record { db = d; waiting = [] } in
    let f = pause_steps id (begin now ∷ l) s in
    let conserved = steps-budget id (begin now ∷ l) s in
    let inactive =
      steps-inactive id l (pause_step id (begin now) s)
        (unfold pause_step in begin-inactive id now d) in
    let waited : count (λ u. u) f.waiting ≡ 0 = ap (λ q. count (λ u. u) q) w in
    omega (arith, conserved, inactive, waited)
