-- ===== src/Messages/Counts.antt =====
-- `sessions.message_count`, the denormalized number of a session's messages.
pub mod Steps
pub mod Runs
use mathlib.Core.Option
use mathlib.Core.Path.{subst}
use tinker_box.Base.{
  ℕ, suc, ◌+◌, ◌≡◌, ◌≢◌, refl, sym, ap, ◌∙◌, ◌⊎◌, inl, inr, ite, if_pos, if_neg, Bool, true, false,
  not, ◌&&◌, ◌||◌, Option, none, some, List, [], ◌∷◌, ◌++◌, arith, keep, count, count-append, leb,
  ltb, if◌then◌else◌, Bool-cases, All, All_imp, All-keep, All-snoc, Elem, Text, text_dec,
  Option-cases,
}
use tinker_box.Sessions.{
  Status, active, paused, ended, Session, Params, get_session, update_where, is_status, status_dec,
  increment_message_count, insert_session, row_of, update_session_status, update_session_status_if,
  with_status, touch_session,
}
use tinker_box.Sessions.Legal.{get-update_where}
use tinker_box.Messages.Table.{
  Db, Message, Role, Details, add_message, message_of, is_of, is_live, count_messages,
  delete_messages, is_old_message, is_old_event, purge_old_messages, get_message,
}
use tinker_box.Messages.Purge.{purge_old_messages_exact}

-- The number of a session that is not ended is right, and messages belong to sessions.
abbrev pub IsRight : List Message → Session → Type 0
IsRight l r = (r.status ≡ ended) ⊎ (r.message_count ≡ count_messages r.id l)

abbrev pub HasSession : List Session → Message → Type 0
HasSession rows m = get_session m.session_id rows ≢ none

abbrev pub IsCounted : Db → Type 0
IsCounted d = All (IsRight d.messages) d.sessions × All (HasSession d.sessions) d.messages

pub All-update_where :
    (P Q : Session → Type 0) (id : Text) (f : Session → Session) (rows : List Session)
    → ((r : Session) → r.id ≡ id → P r → Q (f r))
    → ((r : Session) → r.id ≢ id → P r → Q r)
    → All P rows
    → All Q (update_where id f rows)
unfolding update_where text_dec
All-update_where P Q id f [] hit miss h = tt
All-update_where P Q id f (r ∷ rows) hit miss h =
    elim (text_dec r.id id) as (λ e. Q (ite e (f r) r) × All Q (update_where id f rows)) [
      | yes e ↦ (hit r e h.0, All-update_where P Q id f rows hit miss h.1)
      | no ne ↦ (miss r ne h.0, All-update_where P Q id f rows hit miss h.1)
    ]

-- A change that keeps the ids loses no session.
pub HasSession-update_where :
    (id : Text) (f : Session → Session) (m : Message) (rows : List Session)
    → ((r : Session) → (f r).id ≡ r.id)
    → HasSession rows m
    → HasSession (update_where id f rows) m
HasSession-update_where id f m rows same h =
    rw (get-update_where id f same m.session_id rows)
      (elim (Option-cases (get_session m.session_id rows)) [
        | inl e ↦ absurd (h e)
        | inr (r, e) ↦ λ n. ground arith
      ])

pub count_message_snoc :
    (id : Text) (l : List Message) (m : Message)
    → count_messages id (l ++ m ∷ [])
      ≡ ite (text_dec m.session_id id) (suc (count_messages id l)) (count_messages id l)
unfolding count_messages count is_of
count_message_snoc id l m = count-append (is_of id) l (m ∷ []) ∙ ground arith

counted_more :
    (id : Text) (n : ℕ) (l : List Message) (m : Message)
    → m.session_id ≡ id
    → n ≡ count_messages id l
    → suc n ≡ count_messages id (l ++ m ∷ [])
counted_more id n l m e h = ground (arith, count_message_snoc id l m)

counted_same :
    (id : Text) (n : ℕ) (l : List Message) (m : Message)
    → m.session_id ≢ id
    → n ≡ count_messages id l
    → n ≡ count_messages id (l ++ m ∷ [])
counted_same id n l m e h = ground (arith, count_message_snoc id l m)

pub IsRight-map :
    (l m : List Message) (r s : Session)
    → (r.status ≡ ended → s.status ≡ ended)
    → (r.message_count ≡ count_messages r.id l → s.message_count ≡ count_messages s.id m)
    → IsRight l r
    → IsRight m s
IsRight-map l m r s f g (inl e) = inl (f e)
IsRight-map l m r s f g (inr e) = inr (g e)

add_message-IsRight :
    (session_id : Text) (l : List Message) (m : Message) (rows : List Session)
    → m.session_id ≡ session_id
    → All (IsRight l) rows
    → All (IsRight (l ++ m ∷ [])) (increment_message_count session_id rows)
unfolding increment_message_count
add_message-IsRight session_id l m rows same h =
    All-update_where (IsRight l) (IsRight (l ++ m ∷ [])) session_id _ rows
      (λ r e.
        IsRight-map l (l ++ m ∷ []) r (record r { message_count = suc r.message_count }) (λ x. x)
          (counted_more r.id r.message_count l m (same ∙ sym e)))
      (λ r ne.
        IsRight-map l (l ++ m ∷ []) r r (λ x. x)
          (counted_same r.id r.message_count l m (λ x. ne (sym x ∙ same))))
      h

-- What a message that was stored changes.
abbrev pub after_add : Text → Message → Db → Db
after_add session_id m d = record d {
  sessions = increment_message_count session_id d.sessions;
  messages = d.messages ++ m ∷ [];
}

pub add_message-some :
    (id session_id : Text) (role : Role) (content : Text) (x : Details) (now : ℕ) (d d' : Db)
    (m : Message)
    → add_message id session_id role content x now d ≡ some (d', m)
    → (get_session session_id d.sessions ≢ none)
      × (m ≡ message_of id session_id role content x now)
      × (d' ≡ after_add session_id m d)
unfolding add_message
add_message-some id session_id role content x now d d' m e =
    elim (Option-cases (get_message id d.messages)) [
      | inr (_, taken) ↦ ground arith
      | inl free ↦ elim (Option-cases (get_session session_id d.sessions)) [
        | inl gone ↦ ground arith
        | inr (r, there) ↦ ground arith
      ]
    ]

after_add-IsCounted :
    (session_id : Text) (m : Message) (d : Db)
    → m.session_id ≡ session_id
    → get_session session_id d.sessions ≢ none
    → IsCounted d
    → IsCounted (after_add session_id m d)
unfolding increment_message_count
after_add-IsCounted session_id m d e there h =
    let keeps = λ (m : Message).
      HasSession-update_where session_id (λ r. record r { message_count = suc r.message_count }) m
        d.sessions (λ r. refl) in
    (
      add_message-IsRight session_id d.messages m d.sessions e h.0,
      All-snoc _ d.messages m (All_imp _ _ keeps d.messages h.1)
          (keeps m (λ n. there (ap (λ k. get_session k d.sessions) (sym e) ∙ n))),
    )

pub add_message-IsCounted :
    (id session_id : Text) (role : Role) (content : Text) (x : Details) (now : ℕ) (d d' : Db)
    (m : Message)
    → IsCounted d
    → add_message id session_id role content x now d ≡ some (d', m)
    → IsCounted d'
add_message-IsCounted id session_id role content x now d d' m h e =
    let (there, is, after) = add_message-some id session_id role content x now d d' m e in
    subst IsCounted (sym after)
      (after_add-IsCounted session_id m d (ap (λ (m : Message). m.session_id) is) there h)

counted_none :
    (id session_id : Text) (l : List Message)
    → id ≢ session_id
    → count_messages id (keep (λ m. not (is_of session_id m)) l) ≡ count_messages id l
unfolding count_messages count keep is_of
counted_none id session_id [] ne = refl
counted_none id session_id (m ∷ l) ne = ground (arith, counted_none id session_id l ne)

deleted_none :
    (id : Text) (l : List Message) → count_messages id (keep (λ m. not (is_of id m)) l) ≡ 0
unfolding count_messages count keep is_of
deleted_none id [] = refl
deleted_none id (m ∷ l) = ground (arith, deleted_none id l)

pub delete_messages-IsCounted :
    (session_id : Text) (d : Db) → IsCounted d → IsCounted (delete_messages session_id d).0
unfolding delete_messages
delete_messages-IsCounted session_id d h =
    let l' = keep (λ m. not (is_of session_id m)) d.messages in
    (
      All-update_where (IsRight d.messages) (IsRight l') session_id _ d.sessions
          (λ r e _.
            inr (sym (deleted_none session_id d.messages) ∙ ap (λ k. count_messages k l') (sym e)))
          (λ r ne.
            IsRight-map d.messages l' r r (λ x. x)
              (λ n. n ∙ sym (counted_none r.id session_id d.messages ne)))
          h.0,
      All-keep _ _ d.messages (
          All_imp _ _ (λ m. HasSession-update_where session_id _ m d.sessions (λ r. refl))
            d.messages h.1),
    )

live_status : (r : Session) → r.status ≢ ended → (is_status active r || is_status paused r) ≡ true
unfolding status_dec
live_status r ne = ground arith

-- A live session is one of those that a purge spares.
pub is_live_of_Elem :
    (r : Session) (rows : List Session) → r.status ≢ ended → Elem r rows → is_live r.id rows ≡ true
unfolding is_live text_dec status_dec
is_live_of_Elem r [] ne m = elim m [ ]
is_live_of_Elem r (s ∷ rows) ne (inl here) =
    subst (λ (q : Session). is_live q.id (s ∷ rows) ≡ true) here
      (ground (arith, live_status s (λ e. ne (ap (λ (q : Session). q.status) (sym here) ∙ e))))
is_live_of_Elem r (s ∷ rows) ne (inr there) = ground (arith, is_live_of_Elem r rows ne there)

is_old_message-live :
    (sessions : List Session) (age now : ℕ) (m : Message)
    → is_live m.session_id sessions ≡ true
    → is_old_message sessions age now m ≡ false
unfolding is_old_message
is_old_message-live sessions age now m e = ground arith

pub purged_same :
    (id : Text) (sessions : List Session) (age now : ℕ) (l : List Message)
    → is_live id sessions ≡ true
    → count_messages id (keep (λ m. not (is_old_message sessions age now m)) l)
      ≡ count_messages id l
unfolding count_messages count keep is_of is_old_message
purged_same id sessions age now [] e = refl
purged_same id sessions age now (m ∷ l) e = elim (text_dec m.session_id id) [
  | yes here ↦ ground (
    arith,
    purged_same id sessions age now l e,
    is_old_message-live sessions age now m (ap (λ k. is_live k sessions) here ∙ e),
  )
  | no other ↦ ground (arith, purged_same id sessions age now l e)
]
