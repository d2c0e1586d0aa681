-- ===== src/Sessions/Cleanup.antt =====
-- What one round of the cleanup loop leaves.
pub mod Endings
use mathlib.Core.Option
use mathlib.Core.Option.{some-injective}
use mathlib.Core.Path.{subst}
use tinker_box.Base.{
  ℕ, ◌+◌, ◌*◌, ◌<◌, ◌≡◌, refl, sym, ap, ◌∙◌, ◌≢◌, ◌↔◌, ◌⊎◌, inl, inr, ite, if_pos, if_neg, Bool,
  true, ◌&&◌, ◌||◌, Option, none, some, List, [], ◌∷◌, arith, Elem, Text, text_dec, Elem-keep, keep,
  leb, if◌then◌else◌, Option-cases,
}
use tinker_box.Base.Sort.{sort, Elem-of_Elem-sort, Elem-sort_of_Elem}
use tinker_box.Sessions.Table.{
  active, paused, ended, status_dec, Session, get_session, with_status, update_session_status,
  get_stale_sessions, get_old_paused_sessions, earlier, is_older, is_status,
}
use tinker_box.Sessions.Manager.{Db, end_session, end_all, cleanup, set_status}
use tinker_box.Sessions.Legal.{status_of, IsValid, get-update_where, get-Elem, get_of_Elem}
use tinker_box.Sessions.Calls.{id-with_status, Status-cases, end-cases}
use tinker_box.Sessions.Machine.{end_all-Legal}
use tinker_box.Sessions.Cleanup.Endings.{
  Spared, Spared-trans, Spared-ite, get-set_ended, end_session-Spared, end_all-Spared, IsOver,
  Spared-IsOver, ended-IsOver, map-IsOver, end_session-IsOver, end_all-IsOver, end_session-other,
  end_all-other, over_some,
}

cleanup-Spared :
    (timeout retention_days now : ℕ) (d : Db) (j : Text)
    → Spared
        (get_session j d.sessions)
        (get_session j (cleanup timeout retention_days now d).sessions)
unfolding cleanup
cleanup-Spared timeout retention_days now d j =
    let l = get_stale_sessions timeout now d.sessions in
    let d' = end_all l now d in
    Spared-trans (end_all-Spared l now d j)
      (end_all-Spared (get_old_paused_sessions retention_days now d'.sessions) now d' j)

-- What the round looks for: a session that was not active for the timeout, or one that is paused
-- and was not active for the days that paused sessions are kept.
abbrev pub IsStale : ℕ → ℕ → Session → Type 0
IsStale timeout now r =
    ((r.status ≡ active) ⊎ (r.status ≡ paused)) × (r.last_active_at + timeout < now)

abbrev pub IsAbandoned : ℕ → ℕ → Session → Type 0
IsAbandoned retention_days now r =
    (0 < retention_days)
    × (r.status ≡ paused)
    × (r.last_active_at + retention_days * 86400000 < now)

IsStale-test :
    (timeout now : ℕ) (r : Session)
    → (((is_status active r || is_status paused r) && is_older timeout now r) ≡ true)
      ↔ IsStale timeout now r
unfolding status_dec
IsStale-test timeout now r = (λ e. ground arith, λ e. ground arith)

abandoned_test :
    (retention_days now : ℕ) (r : Session)
    → ((is_status paused r && is_older (retention_days * 86400000) now r) ≡ true)
      ↔ ((r.status ≡ paused) × (r.last_active_at + retention_days * 86400000 < now))
unfolding status_dec
abandoned_test retention_days now r = (λ e. ground arith, λ e. ground arith)

Elem-IsStale :
    (timeout now : ℕ) (rows : List Session) (r : Session)
    → Elem r (get_stale_sessions timeout now rows) ↔ (Elem r rows × IsStale timeout now r)
unfolding get_stale_sessions
Elem-IsStale timeout now rows r =
    let p : Session → Bool =
      λ r. (is_status active r || is_status paused r) && is_older timeout now r in
    (
      λ m.
          let (held, e) = (Elem-keep p r rows).0 (Elem-of_Elem-sort earlier r (keep p rows) m) in
          (held, (IsStale-test timeout now r).0 e),
      λ h.
          Elem-sort_of_Elem earlier r (keep p rows)
            ((Elem-keep p r rows).1 (h.0, (IsStale-test timeout now r).1 h.1)),
    )

enabled_list :
    (n : ℕ) (r : Session) (l : List Session)
    → Elem r (if leb n 0 then [] else l)
    → (0 < n) × Elem r l
enabled_list n r l m = ground arith

enabled_same : (n : ℕ) (l : List Session) → 0 < n → (if leb n 0 then [] else l) ≡ l
enabled_same n l h = ground arith

Elem-IsAbandoned :
    (retention_days now : ℕ) (rows : List Session) (r : Session)
    → Elem r (get_old_paused_sessions retention_days now rows)
      ↔ (Elem r rows × IsAbandoned retention_days now r)
unfolding get_old_paused_sessions
Elem-IsAbandoned retention_days now rows r =
    let p : Session → Bool =
      λ r. is_status paused r && is_older (retention_days * 86400000) now r in
    let l = sort earlier (keep p rows) in
    (
      λ m.
          let (on, m') = enabled_list retention_days r l m in
          let (held, e) = (Elem-keep p r rows).0 (Elem-of_Elem-sort earlier r (keep p rows) m') in
          let (is, old) = (abandoned_test retention_days now r).0 e in (held, (on, is, old)),
      λ h. subst (Elem r) (sym (enabled_same retention_days l h.1.0)) (
          Elem-sort_of_Elem earlier r (keep p rows)
            ((Elem-keep p r rows).1 (h.0, (abandoned_test retention_days now r).1 (h.1.1, h.1.2)))),
    )

-- A row of the table with the id of `r` is `r`.
same_row :
    (rows : List Session) (r s : Session)
    → IsValid rows
    → get_session r.id rows ≡ some r
    → Elem s rows
    → s.id ≡ r.id
    → s ≡ r
same_row rows r s v e m x =
    some-injective _ _ (sym (get_of_Elem s rows v.0 m) ∙ ap (λ k. get_session k rows) x ∙ e)

module _ (timeout retention_days now : ℕ) (d : Db) (r : Session) (valid : IsValid d.sessions)
    (at : get_session r.id d.sessions ≡ some r) where
  cleanup-stale :
      IsStale timeout now r
      → IsOver (get_session r.id (cleanup timeout retention_days now d).sessions)
  unfolding cleanup
  cleanup-stale h =
      let l = get_stale_sessions timeout now d.sessions in
      let d' = end_all l now d in
      let held = (get-Elem r.id r d.sessions at).0 in
      Spared-IsOver
        (end_all-Spared (get_old_paused_sessions retention_days now d'.sessions) now d' r.id)
        (end_all-IsOver l now d r ((Elem-IsStale timeout now d.sessions r).1 (held, h)))

  cleanup-abandoned :
      IsAbandoned retention_days now r
      → IsOver (get_session r.id (cleanup timeout retention_days now d).sessions)
  unfolding cleanup
  cleanup-abandoned h =
      let d' = end_all (get_stale_sessions timeout now d.sessions) now d in
      let l' = get_old_paused_sessions retention_days now d'.sessions in
      elim (end_all-Spared (get_stale_sessions timeout now d.sessions) now d r.id) [
        | inl e ↦ end_all-IsOver l' now d' r (
            (Elem-IsAbandoned retention_days now d'.sessions r).1
              ((get-Elem r.id r d'.sessions (e ∙ at)).0, h))
        | inr e ↦ Spared-IsOver (end_all-Spared l' now d' r.id) (ended-IsOver _ e)
      ]

  cleanup-kept :
      (IsStale timeout now r → ⊥)
      → (IsAbandoned retention_days now r → ⊥)
      → get_session r.id (cleanup timeout retention_days now d).sessions ≡ some r
  unfolding cleanup
  cleanup-kept fresh kept =
      let l = get_stale_sessions timeout now d.sessions in
      let d' = end_all l now d in
      let l' = get_old_paused_sessions retention_days now d'.sessions in
      let first : get_session r.id d'.sessions ≡ some r =
        end_all-other l now d r.id (λ s m x.
          let (held, h) = (Elem-IsStale timeout now d.sessions s).0 m in
          fresh (subst (IsStale timeout now) (same_row d.sessions r s valid at held x) h))
        ∙ at in
      end_all-other l' now d' r.id (λ s m x.
        let (held, h) = (Elem-IsAbandoned retention_days now d'.sessions s).0 m in
        kept (
          subst (IsAbandoned retention_days now)
            (same_row d'.sessions r s (end_all-Legal l now d valid).0 first held x) h))
      ∙ first

  due-IsOver :
      IsStale timeout now r ⊎ IsAbandoned retention_days now r
      → IsOver (get_session r.id (cleanup timeout retention_days now d).sessions)
  due-IsOver (inl x) = cleanup-stale x
  due-IsOver (inr x) = cleanup-abandoned x

  due_live : IsStale timeout now r ⊎ IsAbandoned retention_days now r → r.status ≡ ended → ⊥
  due_live h e = ground arith

  -- One round of the cleanup, on a valid table: a session is left as it is or ended, and it is left
  -- exactly if it is neither active nor paused with no activity for the timeout, nor paused with no
  -- activity for the days that paused sessions are kept, if that number is positive.
  pub cleanup_exact :
      Spared (some r) (get_session r.id (cleanup timeout retention_days now d).sessions)
      × ((get_session r.id (cleanup timeout retention_days now d).sessions ≡ some r)
          ↔ (¬ (IsStale timeout now r ⊎ IsAbandoned retention_days now r)))
  cleanup_exact =
      let q = get_session r.id (cleanup timeout retention_days now d).sessions in
      (
        subst (λ o. Spared o q) at (cleanup-Spared timeout retention_days now d r.id),
        (
          λ e h. due_live h (subst IsOver e (due-IsOver h)),
          λ h. cleanup-kept (λ x. h (inl x)) (λ x. h (inr x)),
        ),
      )
