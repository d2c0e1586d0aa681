-- ===== src/Sessions/Cleanup/Endings.antt =====
-- What ending some sessions does to each of them.
use mathlib.Core.Option
use mathlib.Core.Option.{some-injective}
use mathlib.Core.Path.{subst}
use tinker_box.Base.{
  ℕ, ◌≡◌, refl, sym, ap, ◌∙◌, ◌≢◌, ◌⊎◌, inl, inr, ite, if_pos, if_neg, Option, none, some, List, [],
  ◌∷◌, arith, Elem, Text, text_dec, Option-cases,
}
use tinker_box.Sessions.Table.{ended, Session, get_session, with_status, update_session_status}
use tinker_box.Sessions.Manager.{Db, end_session, end_all, set_status}
use tinker_box.Sessions.Legal.{status_of, get-update_where}
use tinker_box.Sessions.Calls.{id-with_status, Status-cases, end-cases}

-- A session is as it was, or it is ended.
abbrev pub Spared : Option Session → Option Session → Type 0
Spared q q' = (q' ≡ q) ⊎ (status_of q' ≡ some ended)

pub Spared-trans : {a b c : Option Session} → Spared a b → Spared b c → Spared a c
Spared-trans (inl e) (inl f) = inl (f ∙ e)
Spared-trans (inl e) (inr f) = inr f
Spared-trans (inr e) (inl f) = inr (ap status_of f ∙ e)
Spared-trans (inr e) (inr f) = inr f

pub Spared-ite :
    {P : Type 0} (d : Dec P) (o : Option Session) (now : ℕ)
    → Spared o (ite d (Option.map (with_status ended now) o) o)
unfolding with_status
Spared-ite (yes e) none now = inl refl
Spared-ite (yes e) (some r) now = inr refl
Spared-ite (no ne) o now = inl refl

pub get-set_ended :
    (id : Text) (now : ℕ) (rows : List Session) (j : Text)
    → get_session j (update_session_status id ended now rows)
      ≡ ite
          (text_dec id j)
          (Option.map (with_status ended now) (get_session j rows))
          (get_session j rows)
unfolding update_session_status
get-set_ended id now rows j =
    get-update_where id (with_status ended now) (id-with_status ended now) j rows

pub end_session-Spared :
    (id : Text) (now : ℕ) (d : Db) (j : Text)
    → Spared (get_session j d.sessions) (get_session j (end_session id now d).sessions)
end_session-Spared id now d j = elim (end-cases id now d) [
  | inl e ↦ inl (ap (get_session j) e)
  | inr e ↦
      subst (Spared (get_session j d.sessions))
        (sym (ap (get_session j) e ∙ get-set_ended id now d.sessions j))
        (Spared-ite (text_dec id j) (get_session j d.sessions) now)
]

pub end_all-Spared :
    (l : List Session) (now : ℕ) (d : Db) (j : Text)
    → Spared (get_session j d.sessions) (get_session j (end_all l now d).sessions)
unfolding end_all
end_all-Spared [] now d j = inl refl
end_all-Spared (r ∷ l) now d j =
    Spared-trans (end_session-Spared r.id now d j) (end_all-Spared l now (end_session r.id now d) j)

-- A session that has an ended row, or no row, keeps it.
abbrev pub IsOver : Option Session → Type 0
IsOver none = Unit
IsOver (some r) = r.status ≡ ended

pub Spared-IsOver : {q q' : Option Session} → Spared q q' → IsOver q → IsOver q'
Spared-IsOver {q = q} (inl e) o = subst IsOver (sym e) o
Spared-IsOver {q' = none} (inr e) o = tt
Spared-IsOver {q' = some r} (inr e) o = ground arith

pub ended-IsOver : (q : Option Session) → status_of q ≡ some ended → IsOver q
ended-IsOver none e = tt
ended-IsOver (some r) e = ground arith

pub map-IsOver : (o : Option Session) (now : ℕ) → IsOver (Option.map (with_status ended now) o)
unfolding with_status
map-IsOver none now = tt
map-IsOver (some r) now = refl

pub end_session-IsOver :
    (id : Text) (now : ℕ) (d : Db) → IsOver (get_session id (end_session id now d).sessions)
unfolding end_session set_status
end_session-IsOver id now d =
    let set =
      subst IsOver (sym (get-set_ended id now d.sessions id ∙ if_pos (text_dec id id) refl _ _))
        (map-IsOver (get_session id d.sessions) now) in
    elim (Option-cases (get_session id d.sessions)) [
      | inl e ↦ rw (end_session, e, e) tt
      | inr (r, e) ↦ elim (Status-cases r.status) [
        | inl x ↦ rw (end_session, e, x) set
        | inr (inl x) ↦ rw (end_session, e, x) set
        | inr (inr x) ↦ rw (end_session, e, x, e) x
      ]
    ]

pub end_all-IsOver :
    (l : List Session) (now : ℕ) (d : Db) (r : Session)
    → Elem r l
    → IsOver (get_session r.id (end_all l now d).sessions)
unfolding end_all
end_all-IsOver [] now d r m = elim m [ ]
end_all-IsOver (s ∷ l) now d r (inl e) =
    Spared-IsOver (end_all-Spared l now (end_session s.id now d) r.id) (
      subst (λ k. IsOver (get_session k (end_session s.id now d).sessions))
        (ap (λ (x : Session). x.id) e) (end_session-IsOver s.id now d))
end_all-IsOver (s ∷ l) now d r (inr m) = end_all-IsOver l now (end_session s.id now d) r m

pub end_session-other :
    (id : Text) (now : ℕ) (d : Db) (j : Text)
    → id ≢ j
    → get_session j (end_session id now d).sessions ≡ get_session j d.sessions
end_session-other id now d j ne = elim (end-cases id now d) [
  | inl e ↦ ap (get_session j) e
  | inr e ↦ ap (get_session j) e ∙ get-set_ended id now d.sessions j ∙ if_neg (text_dec id j) ne _ _
]

pub end_all-other :
    (l : List Session) (now : ℕ) (d : Db) (j : Text)
    → ((s : Session) → Elem s l → s.id ≢ j)
    → get_session j (end_all l now d).sessions ≡ get_session j d.sessions
unfolding end_all
end_all-other [] now d j h = refl
end_all-other (s ∷ l) now d j h =
    end_all-other l now (end_session s.id now d) j (λ t m. h t (inr m))
    ∙ end_session-other s.id now d j (h s (inl refl))

pub over_some :
    {q : Option Session} (r : Session) → Spared (some r) q → IsOver q → status_of q ≡ some ended
over_some r (inr e) o = e
over_some r (inl e) o = ap status_of e ∙ ap some (subst IsOver e o)
