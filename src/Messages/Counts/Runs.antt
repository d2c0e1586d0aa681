-- ===== src/Messages/Counts/Runs.antt =====
-- Runs of the operations on the tables of sessions and of messages, in any order.
use mathlib.Core.Path.{subst}
use tinker_box.Base.{ℕ, ◌≡◌, ◌≢◌, refl, sym, inl, inr, Option, some, List, Text}
use tinker_box.Sessions.{
  Status, ended, Session, Params, insert_session, update_session_status, update_session_status_if,
  with_status, touch_session,
}
use tinker_box.Messages.Table.{
  Db, Message, Role, Details, add_message, delete_messages, purge_old_messages, add_event,
}
use tinker_box.Messages.Counts.{IsCounted, add_message-IsCounted, delete_messages-IsCounted}
use tinker_box.Messages.Counts.Steps.{
  update-IsCounted, update_session_status_if-IsCounted, insert_session-IsCounted, purged-IsCounted,
  purge_old_messages-some, with_status-id, with_status-count, ended_last,
}

-- One operation that succeeds. A session that is ended is not brought back.
pub data Step : Db → Db → Type 0 where
  adds :
      (id session_id : Text) (role : Role) (content : Text) (x : Details) (now : ℕ) (d d' : Db)
      (m : Message)
      → add_message id session_id role content x now d ≡ some (d', m)
      → Step d d'
  deletes : (session_id : Text) (d : Db) → Step d (delete_messages session_id d).0
  purges :
      (days batch_size fuel now n k : ℕ) (d d' : Db)
      → purge_old_messages days batch_size fuel now d ≡ some (d', n, k)
      → Step d d'
  logs :
      (type : Text) (session_id device_id : Option Text) (json : Text) (now : ℕ) (d : Db)
      → Step d (add_event type session_id device_id json now d).0
  creates :
      (id : Text) (p : Params) (now : ℕ) (d : Db) (rows : List Session)
      → insert_session id p now d.sessions ≡ some rows
      → Step d (record d { sessions = rows })
  touches :
      (id : Text) (now : ℕ) (d : Db)
      → Step d (record d { sessions = touch_session id now d.sessions })
  moves :
      (id : Text) (s expected : Status) (now : ℕ) (d : Db)
      → expected ≢ ended
      → Step d (record d { sessions = (update_session_status_if id s expected now d.sessions).0 })
  ends :
      (id : Text) (now : ℕ) (d : Db)
      → Step d (record d { sessions = update_session_status id ended now d.sessions })

pub data Reach : Db → Db → Type 0 where
  stays : {d : Db} → Reach d d
  goes : {a b c : Db} → Step a b → Reach b c → Reach a c

Step-IsCounted : {d d' : Db} → Step d d' → IsCounted d → IsCounted d'
unfolding touch_session update_session_status add_event
Step-IsCounted (adds _ _ _ _ _ _ _ _ _ e) h = add_message-IsCounted _ _ _ _ _ _ _ _ _ h e
Step-IsCounted (deletes _ _) h = delete_messages-IsCounted _ _ h
Step-IsCounted (purges days _ _ now _ _ d _ e) h =
    elim (purge_old_messages-some _ _ _ _ _ _ _ _ e) [
      | inl same ↦ subst IsCounted (sym same) h
      | inr (events, is) ↦ subst IsCounted (sym is) (purged-IsCounted days now d events h)
    ]
Step-IsCounted (logs _ _ _ _ _ _) h = h
Step-IsCounted (creates id p now d rows e) h = insert_session-IsCounted id p now d rows e h
Step-IsCounted (touches id now d) h =
    update-IsCounted id (λ r. record r { last_active_at = now }) d (λ r. refl) (λ r. refl)
      (λ r e. e) h
Step-IsCounted (moves id s expected now d ne) h =
    update_session_status_if-IsCounted id s expected now d ne h
Step-IsCounted (ends id now d) h =
    update-IsCounted id (with_status ended now) d (with_status-id ended now)
      (with_status-count ended now) (λ r e. ended_last now r) h

-- Whatever is added, deleted, purged, created, moved and ended, in any order: a session that is not
-- ended has the number of messages that its row says, and every message belongs to a session.
pub Reach-IsCounted : {d d' : Db} → Reach d d' → IsCounted d → IsCounted d'
Reach-IsCounted stays h = h
Reach-IsCounted (goes s r) h = Reach-IsCounted r (Step-IsCounted s h)
