-- ===== src/Sessions/Calls.antt =====
-- The calls that change one session keep the table valid and its sessions on their lifecycle.
use mathlib.Core.Path.{subst}
use tinker_box.Base.{
  ℕ, ◌≡◌, refl, sym, ◌∙◌, ◌⊎◌, inl, inr, ite, some, List, [], ◌∷◌, arith, Option-cases, Text, keep,
}
use tinker_box.Sessions.Table.{
  Status, active, paused, ended, status_dec, Session, Change, change, change_all, is_allowed, title,
  system_prompt, metadata, config, llm_model, voice_mode, other, get_session, update_where,
  with_status, update_session_status, update_session_status_if, touch_session,
  increment_message_count, update_session,
}
use tinker_box.Sessions.Manager.{
  resume_paused, Db, set_status, resume_session, pause_update, pause_event, pause_session,
  end_session,
}
use tinker_box.Sessions.Legal.{
  Moves, stays, goes, pauses, resumes, ends_active, ends_paused, IsRow, Legal, Legal-refl, Advances,
  update_where-Legal,
}

-- A change that leaves the lifecycle alone.
abbrev Leaves : (Session → Session) → Type 0
Leaves f =
    (r : Session) → ((f r).id ≡ r.id) × ((f r).status ≡ r.status) × ((f r).ended_at ≡ r.ended_at)

Leaves-Advances : (f : Session → Session) → Leaves f → (r : Session) → Advances r (f r)
Leaves-Advances f l r = let (_, s, e) = l r in (rw (s, e) (λ h. h), rw s stays)

Leaves-Legal :
    (id : Text) (f : Session → Session) (rows : List Session)
    → Leaves f
    → Legal rows (update_where id f rows)
Leaves-Legal id f rows l =
    update_where-Legal id f (λ r. (l r).0) rows (λ r _. Leaves-Advances f l r)

pub touch_session-Legal :
    (id : Text) (now : ℕ) (rows : List Session) → Legal rows (touch_session id now rows)
unfolding touch_session
touch_session-Legal id now rows = Leaves-Legal id _ rows (λ r. (refl, refl, refl))

change-Leaves : (c : Change) → Leaves (change c)
unfolding change
change-Leaves (title t) r = (refl, refl, refl)
change-Leaves (system_prompt t) r = (refl, refl, refl)
change-Leaves (metadata t) r = (refl, refl, refl)
change-Leaves (config t) r = (refl, refl, refl)
change-Leaves (llm_model t) r = (refl, refl, refl)
change-Leaves (voice_mode t) r = (refl, refl, refl)
change-Leaves (other k v) r = (refl, refl, refl)

change_all-Leaves : (cs : List Change) → Leaves (change_all cs)
change_all-Leaves [] r = (refl, refl, refl)
change_all-Leaves (c ∷ cs) r =
    let (i, s, e) = change-Leaves c r in
    let (i', s', e') = change_all-Leaves cs (change c r) in (i' ∙ i, s' ∙ s, e' ∙ e)

pub update_session-Legal :
    (id : Text) (kwargs : List Change) (now : ℕ) (rows : List Session)
    → Legal rows (update_session id kwargs now rows)
unfolding update_session
update_session-Legal id kwargs now rows =
    elim (keep is_allowed kwargs)
      as (λ k. Legal rows (elim k [
        | [] ↦ rows
        | c ∷ cs ↦
            update_where id (λ r. record (change_all (c ∷ cs) r) { last_active_at = now }) rows
      ])) [ [] ↦ Legal-refl rows | c ∷ cs ↦ Leaves-Legal id _ rows (change_all-Leaves (c ∷ cs)) ]

-- A change of the status that the lifecycle has.
abbrev pub Allows : Status → Status → Type 0
Allows ended s = Unit
Allows paused ended = ⊥
Allows paused s = Unit
Allows active paused = Unit
Allows active s = ⊥

Allows-Moves : (s q : Status) → Allows s q → Moves (some q) (some s)
Allows-Moves ended ended a = stays
Allows-Moves ended active a = goes ends_active stays
Allows-Moves ended paused a = goes ends_paused stays
Allows-Moves paused paused a = stays
Allows-Moves paused active a = goes pauses stays
Allows-Moves active paused a = goes resumes stays
Allows-Moves active active a = elim a [ ]
Allows-Moves active ended a = elim a [ ]
Allows-Moves paused ended a = elim a [ ]

with_status-IsRow :
    (s : Status) (now : ℕ) (r : Session) → Allows s r.status → IsRow r → IsRow (with_status s now r)
unfolding with_status
with_status-IsRow ended now r a i = tt
with_status-IsRow paused now r a i = ground arith
with_status-IsRow active now r a i = ground arith

pub status-with_status : (s : Status) (now : ℕ) (r : Session) → (with_status s now r).status ≡ s
unfolding with_status
status-with_status ended now r = refl
status-with_status paused now r = refl
status-with_status active now r = refl

pub id-with_status : (s : Status) (now : ℕ) (r : Session) → (with_status s now r).id ≡ r.id
unfolding with_status
id-with_status ended now r = refl
id-with_status paused now r = refl
id-with_status active now r = refl

with_status-Advances :
    (s : Status) (now : ℕ) (r : Session) → Allows s r.status → Advances r (with_status s now r)
with_status-Advances s now r a = (
  with_status-IsRow s now r a,
  subst (λ q. Moves (some r.status) (some q)) (sym (status-with_status s now r))
      (Allows-Moves s r.status a),
)

pub update_session_status-Legal :
    (id : Text) (s : Status) (now : ℕ) (rows : List Session)
    → ((r : Session) → get_session id rows ≡ some r → Allows s r.status)
    → Legal rows (update_session_status id s now rows)
unfolding update_session_status
update_session_status-Legal id s now rows a =
    update_where-Legal id (with_status s now) (id-with_status s now) rows
      (λ r e. with_status-Advances s now r (a r e))

-- The update of `pause_session` checks the status itself.
pause_row-Advances :
    (now : ℕ) (r : Session)
    → Advances r (ite (status_dec r.status active) (with_status paused now r) r)
pause_row-Advances now r =
    elim (status_dec r.status active) as (λ d. Advances r (ite d (with_status paused now r) r)) [
      | yes e ↦ with_status-Advances paused now r (rw e tt)
      | no ne ↦ ((λ h. h), stays)
    ]

pub pause_row-id :
    (now : ℕ) (r : Session)
    → (ite (status_dec r.status active) (with_status paused now r) r).id ≡ r.id
pause_row-id now r =
    elim (status_dec r.status active) as (λ d. (ite d (with_status paused now r) r).id ≡ r.id) [
      | yes e ↦ id-with_status paused now r
      | no ne ↦ refl
    ]

pause-Legal :
    (id : Text) (now : ℕ) (rows : List Session)
    → Legal rows (update_session_status_if id paused active now rows).0
unfolding update_session_status_if
pause-Legal id now rows =
    update_where-Legal id _ (pause_row-id now) rows (λ r _. pause_row-Advances now r)

pub Status-cases : (s : Status) → (s ≡ active) ⊎ (s ≡ paused) ⊎ (s ≡ ended)
Status-cases active = inl refl
Status-cases paused = inr (inl refl)
Status-cases ended = inr (inr refl)

-- The calls, each on the rows of its state.
abbrev pub LegalCall : Db → Db → Type 0
LegalCall d d' = Legal d.sessions d'.sessions

pub subst_Legal : {a b : List Session} (rows : List Session) → b ≡ a → Legal rows a → Legal rows b
subst_Legal rows e l = subst (Legal rows) (sym e) l

data Resumed (id : Text) (now : ℕ) (rows rows' : List Session) : Type 0 where
  same : rows' ≡ rows → Resumed id now rows rows'
  touched : rows' ≡ touch_session id now rows → Resumed id now rows rows'
  revived :
      (r : Session)
      → get_session id rows ≡ some r
      → r.status ≡ paused
      → rows' ≡ update_session_status id active now rows
      → Resumed id now rows rows'

resume-cases :
    (id : Text) (now : ℕ) (d : Db) → Resumed id now d.sessions (resume_session id now d).0.sessions
unfolding resume_session resume_paused set_status
resume-cases id now d = elim (Option-cases (get_session id d.sessions)) [
  | inl e ↦ same (rw (resume_session, e) refl)
  | inr (r, e) ↦ elim (Status-cases r.status) [
    | inl x ↦ touched (rw (resume_session, e, x) refl)
    | inr (inl x) ↦ revived r e x (rw (resume_session, e, x) refl)
    | inr (inr x) ↦ same (rw (resume_session, e, x) refl)
  ]
]

pub resume_session-Legal : (id : Text) (now : ℕ) (d : Db) → LegalCall d (resume_session id now d).0
resume_session-Legal id now d = elim (resume-cases id now d) [
  | same e ↦ subst_Legal d.sessions e (Legal-refl d.sessions)
  | touched e ↦ subst_Legal d.sessions e (touch_session-Legal id now d.sessions)
  | revived r e x h ↦
      subst_Legal d.sessions h
        (update_session_status-Legal id active now d.sessions (λ s m. ground (arith, e, m, x)))
]

pub pause_session_rows :
    (id : Text) (now : ℕ) (d : Db)
    → (pause_session id now d).sessions
      ≡ (update_session_status_if id paused active now d.sessions).0
unfolding pause_session pause_update pause_event
pause_session_rows id now d = ground arith

pub pause_session-Legal : (id : Text) (now : ℕ) (d : Db) → LegalCall d (pause_session id now d)
pause_session-Legal id now d =
    subst_Legal d.sessions (pause_session_rows id now d) (pause-Legal id now d.sessions)

pub end-cases :
    (id : Text) (now : ℕ) (d : Db)
    → ((end_session id now d).sessions ≡ d.sessions)
      ⊎ ((end_session id now d).sessions ≡ update_session_status id ended now d.sessions)
unfolding end_session set_status
end-cases id now d = elim (Option-cases (get_session id d.sessions)) [
  | inl e ↦ inl (rw (end_session, e) refl)
  | inr (r, e) ↦ elim (Status-cases r.status) [
    | inl x ↦ inr (rw (end_session, e, x) refl)
    | inr (inl x) ↦ inr (rw (end_session, e, x) refl)
    | inr (inr x) ↦ inl (rw (end_session, e, x) refl)
  ]
]

pub end_session-Legal : (id : Text) (now : ℕ) (d : Db) → LegalCall d (end_session id now d)
end_session-Legal id now d = elim (end-cases id now d) [
  | inl e ↦ subst_Legal d.sessions e (Legal-refl d.sessions)
  | inr e ↦
      subst_Legal d.sessions e (update_session_status-Legal id ended now d.sessions (λ r m. tt))
]

pub increment_message_count-Legal :
    (id : Text) (rows : List Session) → Legal rows (increment_message_count id rows)
unfolding increment_message_count
increment_message_count-Legal id rows = Leaves-Legal id _ rows (λ r. (refl, refl, refl))
