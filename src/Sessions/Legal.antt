-- ===== src/Sessions/Legal.antt =====
-- Changes of the table that keep it valid and move every session along its lifecycle.
use mathlib.Core.Option
use mathlib.Core.Path.{subst}
use tinker_box.Base.{
  ℕ, ◌≡◌, refl, sym, ◌∙◌, inl, inr, ite, if_pos, if_neg, Option, none, some, List, [], ◌∷◌, ◌++◌,
  arith, All, All-snoc, Elem, Text, text_dec,
}
use tinker_box.Sessions.Table.{
  Status, active, paused, ended, Session, Params, get_session, insert_session, row_of, update_where,
}

-- The lifecycle of one session; no status is a session that does not exist.
pub data Step : Option Status → Option Status → Type 0 where
  creates : Step none (some active)
  pauses : Step (some active) (some paused)
  resumes : Step (some paused) (some active)
  ends_active : Step (some active) (some ended)
  ends_paused : Step (some paused) (some ended)

pub data Moves : Option Status → Option Status → Type 0 where
  stays : {a : Option Status} → Moves a a
  goes : {a b c : Option Status} → Step a b → Moves b c → Moves a c

pub Moves-trans : {a b c : Option Status} → Moves a b → Moves b c → Moves a c
Moves-trans stays n = n
Moves-trans (goes s m) n = goes s (Moves-trans m n)

abbrev pub status_of : Option Session → Option Status
status_of none = none
status_of (some r) = some r.status

-- The primary key.
abbrev pub IsDistinct : List Session → Type 0
IsDistinct [] = Unit
IsDistinct (r ∷ rows) = (get_session r.id rows ≡ none) × IsDistinct rows

-- A session has an end if and only if it is ended.
abbrev pub EndedRow : Status → Option ℕ → Type 0
EndedRow ended (some t) = Unit
EndedRow ended none = ⊥
EndedRow active none = Unit
EndedRow active (some t) = ⊥
EndedRow paused none = Unit
EndedRow paused (some t) = ⊥

abbrev pub IsRow : Session → Type 0
IsRow r = EndedRow r.status r.ended_at

abbrev pub IsValid : List Session → Type 0
IsValid rows = IsDistinct rows × All IsRow rows

abbrev pub Legal : List Session → List Session → Type 0
Legal rows rows' =
    IsValid rows
    → IsValid rows'
      × ((j : Text) → Moves (status_of (get_session j rows)) (status_of (get_session j rows')))

pub Legal-refl : (rows : List Session) → Legal rows rows
Legal-refl rows v = (v, λ j. stays)

pub Legal-trans : (a b c : List Session) → Legal a b → Legal b c → Legal a c
Legal-trans a b c f g v =
    let (v', m) = f v in let (v'', n) = g v' in (v'', λ j. Moves-trans (m j) (n j))

module _ (id : Text) (f : Session → Session) (keeps : (r : Session) → (f r).id ≡ r.id) where
  pub get-update_where :
      (j : Text) (rows : List Session)
      → get_session j (update_where id f rows)
        ≡ ite (text_dec id j) (Option.map f (get_session j rows)) (get_session j rows)
  unfolding get_session update_where
  get-update_where j [] = ground arith
  get-update_where j (r ∷ rows) = ground (arith, keeps r, get-update_where j rows)

  update_where-IsDistinct :
      (rows : List Session) → IsDistinct rows → IsDistinct (update_where id f rows)
  unfolding update_where
  update_where-IsDistinct [] d = tt
  update_where-IsDistinct (r ∷ rows) d =
      ground (arith, keeps r, update_where-IsDistinct rows d.1, get-update_where r.id rows)

pub get-Elem :
    (id : Text) (r : Session) (rows : List Session)
    → get_session id rows ≡ some r
    → Elem r rows × (r.id ≡ id)
unfolding get_session
get-Elem id r [] e = ground arith
get-Elem id r (s ∷ rows) e = ground (arith, get-Elem id r rows)

pub get_of_Elem :
    (r : Session) (rows : List Session)
    → IsDistinct rows
    → Elem r rows
    → get_session r.id rows ≡ some r
unfolding get_session
get_of_Elem r [] d m = elim m [ ]
get_of_Elem r (s ∷ rows) d (inl e) = ground arith
get_of_Elem r (s ∷ rows) d (inr m) = ground (arith, get_of_Elem r rows d.1 m)

-- The row of a session is replaced by one that is valid and at most a step further.
abbrev pub Advances : Session → Session → Type 0
Advances r s = (IsRow r → IsRow s) × Moves (some r.status) (some s.status)

module _ (id : Text) (f : Session → Session) (keeps : (r : Session) → (f r).id ≡ r.id) where
  All-update_where :
      (rows : List Session)
      → IsDistinct rows
      → All IsRow rows
      → ((r : Session) → get_session id rows ≡ some r → Advances r (f r))
      → All IsRow (update_where id f rows)
  unfolding update_where get_session
  All-update_where [] d h a = tt
  All-update_where (r ∷ rows) d h a = elim (text_dec r.id id) [
    | yes e ↦ (
      subst IsRow (sym (if_pos (text_dec r.id id) e (f r) r))
          ((a r (if_pos (text_dec r.id id) e (some r) _)).0 h.0),
      All-update_where rows d.1 h.1 (λ s m. absurd (ground (arith, d.0))),
    )
    | no ne ↦ (
      subst IsRow (sym (if_neg (text_dec r.id id) ne (f r) r)) h.0,
      All-update_where rows d.1 h.1 (λ s m. a s (if_neg (text_dec r.id id) ne (some r) _ ∙ m)),
    )
  ]

  Moves-map :
      (o : Option Session)
      → ((r : Session) → o ≡ some r → Advances r (f r))
      → Moves (status_of o) (status_of (Option.map f o))
  Moves-map none a = stays
  Moves-map (some r) a = (a r refl).1

  Moves-update_where :
      (rows : List Session) (j : Text)
      → ((r : Session) → get_session id rows ≡ some r → Advances r (f r))
      → Moves (status_of (get_session j rows)) (status_of (get_session j (update_where id f rows)))
  Moves-update_where rows j a =
      rw (get-update_where id f keeps j rows)
        (elim (text_dec id j)
          as (λ d.
            Moves (status_of (get_session j rows))
              (status_of (ite d (Option.map f (get_session j rows)) (get_session j rows)))) [
                | yes e ↦ Moves-map (get_session j rows) (
                    subst (λ k. (r : Session) → get_session k rows ≡ some r → Advances r (f r)) e a)
                | no ne ↦ stays
              ])

  pub update_where-Legal :
      (rows : List Session)
      → ((r : Session) → get_session id rows ≡ some r → Advances r (f r))
      → Legal rows (update_where id f rows)
  update_where-Legal rows a v = (
    (update_where-IsDistinct id f keeps rows v.0, All-update_where rows v.0 v.1 a),
    λ j. Moves-update_where rows j a,
  )

get-append :
    (j : Text) (rows : List Session) (r : Session)
    → get_session j (rows ++ r ∷ [])
      ≡ elim (get_session j rows) [ some s ↦ some s | none ↦ ite (text_dec r.id j) (some r) none ]
unfolding get_session
get-append j [] r = refl
get-append j (s ∷ rows) r = ground (arith, get-append j rows r)

IsDistinct-append :
    (rows : List Session) (r : Session)
    → IsDistinct rows
    → get_session r.id rows ≡ none
    → IsDistinct (rows ++ r ∷ [])
unfolding get_session
IsDistinct-append [] r d e = (refl, tt)
IsDistinct-append (s ∷ rows) r d e =
    ground (arith, IsDistinct-append rows r d.1, get-append s.id rows r)

Moves-append :
    {P : Type 0} (o : Option Session) (r : Session) (d : Dec P)
    → r.status ≡ active
    → Moves (status_of o) (status_of (elim o [ some s ↦ some s | none ↦ ite d (some r) none ]))
Moves-append none r (yes e) a = rw a (goes creates stays)
Moves-append none r (no ne) a = stays
Moves-append (some s) r d a = stays

append-Legal :
    (rows : List Session) (r : Session)
    → get_session r.id rows ≡ none
    → r.status ≡ active
    → r.ended_at ≡ none
    → Legal rows (rows ++ r ∷ [])
append-Legal rows r e a o v = (
  (IsDistinct-append rows r v.0 e, All-snoc IsRow rows r v.1 (rw (a, o) tt)),
  λ j.
      subst (λ x. Moves (status_of (get_session j rows)) (status_of x)) (sym (get-append j rows r))
        (Moves-append (get_session j rows) r (text_dec r.id j) a),
)

insert_session_lem :
    (id : Text) (p : Params) (now : ℕ) (rows rows' : List Session)
    → insert_session id p now rows ≡ some rows'
    → (get_session id rows ≡ none) × (rows ++ row_of id p now ∷ [] ≡ rows')
unfolding insert_session
insert_session_lem id p now rows rows' e = ground arith

pub insert_session-Legal :
    (id : Text) (p : Params) (now : ℕ) (rows rows' : List Session)
    → insert_session id p now rows ≡ some rows'
    → Legal rows rows'
insert_session-Legal id p now rows rows' e =
    let (fresh, same) = insert_session_lem id p now rows rows' e in
    subst (Legal rows) same (append-Legal rows (row_of id p now) fresh refl refl)
