-- ===== src/Sessions/Machine.antt =====
-- The calls of the manager, and the lifecycle that they keep to.
use mathlib.Core.Option
use tinker_box.Base.{
  ℕ, ◌≡◌, refl, sym, ◌∙◌, inl, inr, ite, Bool, true, false, ◌&&◌, Option, none, some, List, [], ◌∷◌,
  arith, All, All_imp, All-of_Elem, Text, text_dec, Elem-keep, Elem-of_Elem-take, Option-cases,
}
use tinker_box.Base.Sort.{Elem-of_Elem-sort}
use tinker_box.Sessions.Table.{
  Status, active, paused, ended, status_dec, Session, Params, Change, get_session, insert_session,
  with_status, update_session_status, touch_session, increment_message_count, list_sessions,
  get_stale_sessions, get_old_paused_sessions, later, is_status, is_status_of, is_device,
}
use tinker_box.Sessions.Manager.{
  Db, create_session, update_fields, set_status, resume_session, pause_session, end_session,
  get_or_create_session, end_all, cleanup, set_all, cleanup_stale_on_startup,
}
use tinker_box.Sessions.Legal.{
  Step, creates, pauses, resumes, ends_active, ends_paused, Moves, stays, goes, status_of, IsValid,
  Legal, Legal-refl, Legal-trans, insert_session-Legal, get_of_Elem, get-update_where,
}
use tinker_box.Sessions.Calls.{
  LegalCall, Allows, subst_Legal, touch_session-Legal, increment_message_count-Legal,
  id-with_status, update_session-Legal, update_session_status-Legal, resume_session-Legal,
  pause_session-Legal, end_session-Legal,
}

-- A call that raises leaves the state as it is.
abbrev pub created : Db → Option (Db × Session) → Db
created d none = d
created d (some (d', r)) = d'

abbrev pub found_or_created : Db → Option (Db × Session × Bool) → Db
found_or_created d none = d
found_or_created d (some (d', r, resumed)) = d'

create_session-Legal :
    (id : Text) (p : Params) (now : ℕ) (d : Db)
    → LegalCall d (created d (create_session id p now d))
unfolding create_session
create_session-Legal id p now d = elim (Option-cases (insert_session id p now d.sessions)) [
  | inl e ↦ subst_Legal d.sessions (rw (create_session, e) refl) (Legal-refl d.sessions)
  | inr (rows, e) ↦
      subst_Legal d.sessions (rw (create_session, e) refl)
        (insert_session-Legal id p now d.sessions rows e)
]

update_fields-Legal :
    (id : Text) (kwargs : List Change) (now : ℕ) (d : Db)
    → LegalCall d (update_fields id kwargs now d).0
unfolding update_fields
update_fields-Legal id kwargs now d = elim (Option-cases (get_session id d.sessions)) [
  | inl e ↦ subst_Legal d.sessions (rw (update_fields, e) refl) (Legal-refl d.sessions)
  | inr (r, e) ↦
      subst_Legal d.sessions (rw (update_fields, e) refl)
        (update_session-Legal id kwargs now d.sessions)
]

fresh-Legal :
    (d d' : Db) (o : Option (Db × Session))
    → LegalCall d d'
    → LegalCall d' (created d' o)
    → LegalCall d (found_or_created d (Option.map (λ (x : Db × Session). (x.0, x.1, false)) o))
fresh-Legal d d' none l m = Legal-refl d.sessions
fresh-Legal d d' (some x) l m = Legal-trans d.sessions d'.sessions x.0.sessions l m

resumed-Legal :
    (fresh : Text) (p : Params) (now : ℕ) (d d' : Db) (found : Option Session)
    → LegalCall d d'
    → LegalCall d (
        found_or_created d (elim found [
          | some r ↦ some (d', r, true)
          | none ↦
              Option.map (λ (x : Db × Session). (x.0, x.1, false)) (create_session fresh p now d')
        ]))
resumed-Legal fresh p now d d' none l =
    fresh-Legal d d' (create_session fresh p now d') l (create_session-Legal fresh p now d')
resumed-Legal fresh p now d d' (some r) l = l

get_or_create_session-Legal :
    (requested : Option Text) (fresh : Text) (p : Params) (now : ℕ) (d : Db)
    → LegalCall d (found_or_created d (get_or_create_session requested fresh p now d))
unfolding get_or_create_session
get_or_create_session-Legal none fresh p now d =
    fresh-Legal d d (create_session fresh p now d) (Legal-refl d.sessions)
      (create_session-Legal fresh p now d)
get_or_create_session-Legal (some []) fresh p now d =
    fresh-Legal d d (create_session fresh p now d) (Legal-refl d.sessions)
      (create_session-Legal fresh p now d)
get_or_create_session-Legal (some (c ∷ id)) fresh p now d =
    let (d', found) = resume_session (c ∷ id) now d in
    resumed-Legal fresh p now d d' found (resume_session-Legal (c ∷ id) now d)

pub end_all-Legal : (l : List Session) (now : ℕ) (d : Db) → LegalCall d (end_all l now d)
unfolding end_all
end_all-Legal [] now d = Legal-refl d.sessions
end_all-Legal (r ∷ l) now d =
    Legal-trans d.sessions _ _ (end_session-Legal r.id now d)
      (end_all-Legal l now (end_session r.id now d))

pub cleanup-Legal :
    (timeout retention_days now : ℕ) (d : Db) → LegalCall d (cleanup timeout retention_days now d)
unfolding cleanup
cleanup-Legal timeout retention_days now d =
    let l = get_stale_sessions timeout now d.sessions in
    let d' = end_all l now d in
    let l' = get_old_paused_sessions retention_days now d'.sessions in
    Legal-trans d.sessions d'.sessions (end_all l' now d').sessions (end_all-Legal l now d)
      (end_all-Legal l' now d')

set_all_ended-Legal : (l : List Session) (now : ℕ) (d : Db) → LegalCall d (set_all ended l now d)
unfolding set_all set_status
set_all_ended-Legal [] now d = Legal-refl d.sessions
set_all_ended-Legal (r ∷ l) now d =
    let d' = set_status r.id ended now d in
    Legal-trans d.sessions d'.sessions (set_all ended l now d').sessions
      (update_session_status-Legal r.id ended now d.sessions (λ _ _. tt))
      (set_all_ended-Legal l now d')

-- A session that may be paused, and stays so when others are.
abbrev IsLive : List Session → Text → Type 0
IsLive rows id = (r : Session) → get_session id rows ≡ some r → Allows paused r.status

live-ite :
    {P : Type 0} (d : Dec P) (o : Option Session) (now : ℕ) (r : Session)
    → ((s : Session) → o ≡ some s → Allows paused s.status)
    → ite d (Option.map (with_status paused now) o) o ≡ some r
    → Allows paused r.status
unfolding with_status
live-ite (yes e) none now r h m = ground arith
live-ite (yes e) (some s) now r h m = ground arith
live-ite (no ne) o now r h m = h r m

pause-IsLive :
    (id : Text) (now : ℕ) (rows : List Session) (j : Text)
    → IsLive rows j
    → IsLive (update_session_status id paused now rows) j
unfolding update_session_status
pause-IsLive id now rows j h r e =
    live-ite (text_dec id j) (get_session j rows) now r h
      (sym (get-update_where id (with_status paused now) (id-with_status paused now) j rows) ∙ e)

set_all_paused-Legal :
    (l : List Session) (now : ℕ) (d : Db)
    → All (λ r. IsLive d.sessions r.id) l
    → LegalCall d (set_all paused l now d)
unfolding set_all set_status
set_all_paused-Legal [] now d h = Legal-refl d.sessions
set_all_paused-Legal (r ∷ l) now d h =
    let d' = set_status r.id paused now d in
    Legal-trans d.sessions d'.sessions (set_all paused l now d').sessions
      (update_session_status-Legal r.id paused now d.sessions h.0)
      (set_all_paused-Legal l now d' (
        All_imp (λ s. IsLive d.sessions s.id) (λ s. IsLive d'.sessions s.id)
          (λ s. pause-IsLive r.id now d.sessions s.id) l h.1))

active-Allows :
    (s : Session) (q : Option Session)
    → is_status active s ≡ true
    → q ≡ some s
    → (r : Session) → q ≡ some r
    → Allows paused r.status
unfolding status_dec
active-Allows s q a e r m = ground arith

listed-IsLive :
    (limit : ℕ) (rows : List Session)
    → IsValid rows
    → All (λ r. IsLive rows r.id) (list_sessions none (some active) limit 0 rows)
unfolding list_sessions
listed-IsLive limit rows v =
    All-of_Elem (λ r. IsLive rows r.id) _
      (λ r m.
        let (held, is) =
          (Elem-keep (λ s. is_device none s && is_status_of (some active) s) r rows).0
            (Elem-of_Elem-sort later r _ (Elem-of_Elem-take r limit _ m)) in
        active-Allows r (get_session r.id rows) is (get_of_Elem r rows v.0 held))

cleanup_stale_on_startup-Legal :
    (timeout now : ℕ) (d : Db) → LegalCall d (cleanup_stale_on_startup timeout now d)
unfolding cleanup_stale_on_startup
cleanup_stale_on_startup-Legal timeout now d v =
    let l = get_stale_sessions timeout now d.sessions in
    let d' = set_all ended l now d in
    let ended_legal = set_all_ended-Legal l now d in
    let l' = list_sessions none (some active) 100 0 d'.sessions in
    Legal-trans d.sessions d'.sessions (set_all paused l' now d').sessions ended_legal
      (set_all_paused-Legal l' now d' (listed-IsLive 100 d'.sessions (ended_legal v).0)) v

-- The calls on the manager, and the two that other parts make on the table.
pub data Call : Type 0 where
  create : Text → Params → Call
  update : Text → List Change → Call
  resume pause end touch count_message : Text → Call
  get_or_create : Option Text → Text → Params → Call
  sweep startup : Call

-- The settings of a manager.
pub record Settings : Type 0 where
  pub timeout : ℕ
  pub paused_retention_days : ℕ

unfoldable pub run : Settings → ℕ → Call → Db → Db
unfolding create_session update_fields resume_session pause_session end_session
    get_or_create_session cleanup cleanup_stale_on_startup touch_session increment_message_count
run c now (create id p) d = created d (create_session id p now d)
run c now (update id kwargs) d = (update_fields id kwargs now d).0
run c now (resume id) d = (resume_session id now d).0
run c now (pause id) d = pause_session id now d
run c now (end id) d = end_session id now d
run c now (touch id) d = record d { sessions = touch_session id now d.sessions }
run c now (count_message id) d = record d { sessions = increment_message_count id d.sessions }
run c now (get_or_create requested fresh p) d =
    found_or_created d (get_or_create_session requested fresh p now d)
run c now sweep d = cleanup c.timeout c.paused_retention_days now d
run c now startup d = cleanup_stale_on_startup c.timeout now d

abbrev pub run_all : Settings → List (ℕ × Call) → Db → Db
run_all c [] d = d
run_all c ((now, x) ∷ l) d = run_all c l (run c now x d)

run-Legal : (c : Settings) (now : ℕ) (x : Call) (d : Db) → Legal d.sessions (run c now x d).sessions
unfolding run
run-Legal c now (create id p) d = create_session-Legal id p now d
run-Legal c now (update id kwargs) d = update_fields-Legal id kwargs now d
run-Legal c now (resume id) d = resume_session-Legal id now d
run-Legal c now (pause id) d = pause_session-Legal id now d
run-Legal c now (end id) d = end_session-Legal id now d
run-Legal c now (touch id) d = touch_session-Legal id now d.sessions
run-Legal c now (count_message id) d = increment_message_count-Legal id d.sessions
run-Legal c now (get_or_create requested fresh p) d =
    get_or_create_session-Legal requested fresh p now d
run-Legal c now sweep d = cleanup-Legal c.timeout c.paused_retention_days now d
run-Legal c now startup d = cleanup_stale_on_startup-Legal c.timeout now d

-- Every call of the manager on a valid table (ids are distinct, a session has an end exactly if it is
-- ended) leaves a valid table and takes every session along the lifecycle: it is made active, an active
-- one is paused or ended, a paused one is resumed or ended, and an ended one stays ended.
pub run_lifecycle :
    (c : Settings) (now : ℕ) (x : Call) (d : Db) (j : Text)
    → IsValid d.sessions
    → IsValid (run c now x d).sessions
      × Moves
          (status_of (get_session j d.sessions))
          (status_of (get_session j (run c now x d).sessions))
run_lifecycle c now x d j v = let (v', m) = run-Legal c now x d v in (v', m j)

no-Step : {a b : Option Status} → a ≡ some ended → Step a b → ⊥
no-Step e creates = cc
no-Step e pauses = cc
no-Step e resumes = cc
no-Step e ends_active = cc
no-Step e ends_paused = cc

ended-Moves : {a b : Option Status} → a ≡ some ended → Moves a b → b ≡ some ended
ended-Moves e stays = e
ended-Moves e (goes s m) = absurd (no-Step e s)

-- A session that is ended stays so, through every sequence of calls on a valid table.
pub run_all-ended :
    (c : Settings) (l : List (ℕ × Call)) (d : Db) (id : Text)
    → IsValid d.sessions
    → status_of (get_session id d.sessions) ≡ some ended
    → status_of (get_session id (run_all c l d).sessions) ≡ some ended
run_all-ended c [] d id v e = e
run_all-ended c ((now, x) ∷ l) d id v e =
    let (v', m) = run-Legal c now x d v in
    run_all-ended c l (run c now x d) id v' (ended-Moves e (m id))
