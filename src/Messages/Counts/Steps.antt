-- ===== src/Messages/Counts/Steps.antt =====
-- Every change of the tables keeps the numbers of messages right.
use mathlib.Core.Path.{subst}
use tinker_box.Base.{
  ℕ, suc, ◌*◌, ◌≡◌, ◌≢◌, refl, sym, ap, ◌∙◌, ◌⊎◌, inl, inr, true, false, not, none, some, List, [],
  ◌∷◌, ◌++◌, arith, keep, count, leb, Bool-cases, All, All_imp, All-keep, All-snoc, All-of_Elem,
  Text, text_dec, Option-cases, ite, if◌then◌else◌,
}
use tinker_box.Base.Pieces.{All_Elem}
use tinker_box.Sessions.{
  Status, ended, Session, Params, get_session, update_where, status_dec, insert_session, row_of,
  update_session_status_if, with_status,
}
use tinker_box.Messages.Table.{
  Db, Message, Event, is_of, count_messages, is_old_message, purge_old_messages, batched_delete,
}
use tinker_box.Messages.Purge.{batched_delete_lem, old_message, old_event}
use tinker_box.Messages.Counts.{
  IsRight, IsRight-map, HasSession, HasSession-update_where, All-update_where, IsCounted,
  is_live_of_Elem, purged_same,
}

-- A change of a session that keeps its id and number, and leaves an ended one ended.
pub update-IsCounted :
    (id : Text) (f : Session → Session) (d : Db)
    → ((r : Session) → (f r).id ≡ r.id)
    → ((r : Session) → (f r).message_count ≡ r.message_count)
    → ((r : Session) → r.status ≡ ended → (f r).status ≡ ended)
    → IsCounted d
    → IsCounted (record d { sessions = update_where id f d.sessions })
update-IsCounted id f d ids counts ends h = (
  All-update_where (IsRight d.messages) (IsRight d.messages) id f d.sessions
      (λ r e.
        IsRight-map d.messages d.messages r (f r) (ends r)
          (λ n. counts r ∙ n ∙ ap (λ k. count_messages k d.messages) (sym (ids r))))
      (λ r ne right. right) h.0,
  All_imp _ _ (λ m. HasSession-update_where id f m d.sessions ids) d.messages h.1,
)

pub with_status-id : (s : Status) (now : ℕ) (r : Session) → (with_status s now r).id ≡ r.id
unfolding with_status
with_status-id s now r = ground arith

pub with_status-count :
    (s : Status) (now : ℕ) (r : Session) → (with_status s now r).message_count ≡ r.message_count
unfolding with_status
with_status-count s now r = ground arith

pub ended_last : (now : ℕ) (r : Session) → (with_status ended now r).status ≡ ended
unfolding with_status
ended_last now r = refl

pub update_session_status_if-IsCounted :
    (id : Text) (s expected : Status) (now : ℕ) (d : Db)
    → expected ≢ ended
    → IsCounted d
    → IsCounted (record d { sessions = (update_session_status_if id s expected now d.sessions).0 })
unfolding update_session_status_if
update_session_status_if-IsCounted id s expected now d ne =
    update-IsCounted id (λ r. ite (status_dec r.status expected) (with_status s now r) r) d
      (λ r. ground (arith, with_status-id s now r)) (λ r. ground (arith, with_status-count s now r))
      (λ r e.
        elim (status_dec r.status expected)
          as (λ q. (ite q (with_status s now r) r).status ≡ ended) [
            | yes x ↦ absurd (ne (sym x ∙ e))
            | no x ↦ e
          ])

-- A session that is created has no messages: those that are there belong to others.
messages_none :
    (id : Text) (rows : List Session) (l : List Message)
    → get_session id rows ≡ none
    → All (HasSession rows) l
    → 0 ≡ count_messages id l
unfolding count_messages count is_of
messages_none id rows [] e h = refl
messages_none id rows (m ∷ l) e h =
    elim (text_dec m.session_id id)
      as (λ q. 0 ≡ (if ite q true false then suc (count (is_of id) l) else count (is_of id) l)) [
        | yes here ↦ absurd (h.0 (ap (λ k. get_session k rows) here ∙ e))
        | no other ↦ messages_none id rows l e h.1
      ]

HasSession-snoc :
    (r : Session) (m : Message) (rows : List Session)
    → HasSession rows m
    → HasSession (rows ++ r ∷ []) m
unfolding get_session
HasSession-snoc r m [] h = absurd (h refl)
HasSession-snoc r m (s ∷ rows) h =
    elim (text_dec s.id m.session_id)
        as (λ q.
          ite q (some s) (get_session m.session_id rows) ≢ none
          → ite q (some s) (get_session m.session_id (rows ++ r ∷ [])) ≢ none) [
            | yes e ↦ λ g. g
            | no ne ↦ λ g. HasSession-snoc r m rows g
          ]
      h

insert_session-some :
    (id : Text) (p : Params) (now : ℕ) (rows rows' : List Session)
    → insert_session id p now rows ≡ some rows'
    → (get_session id rows ≡ none) × (rows' ≡ rows ++ row_of id p now ∷ [])
unfolding insert_session
insert_session-some id p now rows rows' e = elim (Option-cases (get_session id rows)) [
  | inl free ↦ ground arith
  | inr (r, taken) ↦ ground arith
]

pub insert_session-IsCounted :
    (id : Text) (p : Params) (now : ℕ) (d : Db) (rows : List Session)
    → insert_session id p now d.sessions ≡ some rows
    → IsCounted d
    → IsCounted (record d { sessions = rows })
insert_session-IsCounted id p now d rows e h =
    let (free, is) = insert_session-some id p now d.sessions rows e in
    subst (λ rows. IsCounted (record d { sessions = rows })) (sym is)
      (
        All-snoc _ d.sessions _ h.0 (inr (messages_none id d.sessions d.messages free h.1)),
        All_imp _ _ (λ m. HasSession-snoc (row_of id p now) m d.sessions) d.messages h.1,
      )

-- What a purge changes.
abbrev pub purged : ℕ → ℕ → Db → List Event → Db
purged days now d events = record d {
  messages = keep (λ m. not (is_old_message d.sessions (days * 86400000) now m)) d.messages;
  events = events;
}

pub purged-IsCounted :
    (days now : ℕ) (d : Db) (events : List Event)
    → IsCounted d
    → IsCounted (purged days now d events)
purged-IsCounted days now d events h =
    let old = is_old_message d.sessions (days * 86400000) now in
    let l = keep (λ m. not (old m)) d.messages in
    (
      All-of_Elem (IsRight l) d.sessions (λ r m. elim (status_dec r.status ended) [
        | yes e ↦ inl e
        | no ne ↦
            IsRight-map d.messages l r r (λ x. x)
              (λ n.
                n
                ∙ sym (
                    purged_same r.id d.sessions (days * 86400000) now d.messages
                      (is_live_of_Elem r d.sessions ne m)))
              (All_Elem (IsRight d.messages) r d.sessions h.0 m)
      ]),
      All-keep _ _ d.messages h.1,
    )

pub purge_old_messages-some :
    (days b fuel now : ℕ) (d d' : Db) (n k : ℕ)
    → purge_old_messages days b fuel now d ≡ some (d', n, k)
    → (d' ≡ d) ⊎ ((events : List Event) × (d' ≡ purged days now d events))
unfolding purge_old_messages
purge_old_messages-some days b fuel now d d' n k e = elim (Bool-cases (leb days 0)) [
  | inl off ↦ inl (ground arith)
  | inr on ↦ elim (Option-cases (batched_delete (old_event days b fuel now d) b fuel d.events)) [
    | inl never ↦
        absurd
          (ground (arith, batched_delete_lem (old_message days b fuel now d) b fuel d.messages))
    | inr ((j, events), q) ↦ inr (
      events,
      ground (arith, batched_delete_lem (old_message days b fuel now d) b fuel d.messages),
    )
  ]
]
