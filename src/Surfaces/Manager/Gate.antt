-- ===== src/Surfaces/Manager/Gate.antt =====
-- The turn gate: out-of-band emits wait for the end of a turn, in order, and are sent once.
use tinker_box.Base.{
  ◌≡◌, refl, ap, ◌∙◌, true, false, some, List, [], ◌∷◌, ◌++◌, Text, text_dec, arith, ite, if_pos,
  if_neg, Option-cases, Bool-cases, inl, inr,
}
use mathlib.Core.Option
use mathlib.Core.List.{append-nil, append_assoc}
use tinker_box.Base.Dict
use tinker_box.Surfaces.Outcome.{Outcome, Emit}
use tinker_box.Surfaces.Message.{Message, Caps}
use tinker_box.Surfaces.Manager.{
  Handler, SessionState, SurfaceManager, session_of, set_session, register_session,
  unregister_session, on_session, register_action, unregister_action, mark_turn_start,
  mark_turn_end, drain, discard_deferred, defer_or_send,
}
use tinker_box.Surfaces.Manager.Drain.{Ran, drain-Ran}

module _ {W : Type 0} where
  session_of-set_session :
      (sid k : Text) (st : SessionState W) (m : SurfaceManager W)
      → session_of k (set_session sid st m) ≡ ite (text_dec sid k) (some st) (session_of k m)
  unfolding session_of
  session_of-set_session sid k st m = Dict.get-put_lem text_dec sid k st m.sessions

  session_of-on_session :
      (f : SessionState W → SessionState W) (sid k : Text) (m : SurfaceManager W)
      → session_of k (on_session f sid m)
        ≡ ite (text_dec sid k) (Option.map f (session_of k m)) (session_of k m)
  unfolding on_session
  session_of-on_session f sid k m = elim (Option-cases (session_of sid m)) [
    | inl absent ↦
        rw (absent, on_session)
          (elim (text_dec sid k) [
            | yes e ↦ rw (if_pos _ e, ← e, absent)
            | no ne ↦ rw (if_neg _ ne)
          ])
    | inr (st, there) ↦
        rw (there, on_session, session_of-set_session)
          (elim (text_dec sid k) [
            | yes e ↦ rw (if_pos _ e, if_pos _ e, ← e, there)
            | no ne ↦ rw (if_neg _ ne, if_neg _ ne)
          ])
  ]

  -- A session that is not in a turn has nothing deferred.
  abbrev pub IsGated : SurfaceManager W → Type 0
  IsGated m =
      (sid : Text) (st : SessionState W)
      → session_of sid m ≡ some st
      → st.turn_busy ≡ false
      → st.deferred_emits ≡ []

-- The calls that change the manager.
pub data Event (W : Type 0) : Type 0 where
  register : (sid : Text) (send : Message → Emit W) (caps : Caps) → Event W
  unregister : (sid : Text) → Event W
  on_action : (sid cid : Text) (handler : Handler W) → Event W
  off_action : (sid cid : Text) → Event W
  turn_start : (sid : Text) → Event W
  turn_end : (sid : Text) → Event W
  discard : (sid : Text) → Event W
  emit : (sid : Text) (f : Emit W) → Event W

module _ {W : Type 0} where
  unfoldable pub handle : Event W → SurfaceManager W × W → SurfaceManager W × W
  handle (register sid send caps) (m, w) = ((register_session sid send caps m).1, w)
  handle (unregister sid) (m, w) = (unregister_session sid m, w)
  handle (on_action sid cid h) (m, w) = (register_action sid cid h m, w)
  handle (off_action sid cid) (m, w) = (unregister_action sid cid m, w)
  handle (turn_start sid) (m, w) = (mark_turn_start sid m, w)
  handle (turn_end sid) (m, w) = let (r, m', w') = mark_turn_end sid m w in (m', w')
  handle (discard sid) (m, w) = ((discard_deferred sid m).1, w)
  handle (emit sid f) (m, w) = let (r, now, m', w') = defer_or_send sid f m w in (m', w')

  set_session-IsGated :
      (sid : Text) (st : SessionState W) (m : SurfaceManager W)
      → (st.turn_busy ≡ false → st.deferred_emits ≡ [])
      → IsGated m
      → IsGated (set_session sid st m)
  set_session-IsGated sid st m h g k st' e idle =
      ground (arith, session_of-set_session sid k st m, g k st')

  on_session-IsGated :
      (f : SessionState W → SessionState W) (sid : Text) (m : SurfaceManager W)
      → ((st : SessionState W)
          → ((f st).deferred_emits ≡ st.deferred_emits)
            × ((f st).turn_busy ≡ false → st.turn_busy ≡ false))
      → IsGated m
      → IsGated (on_session f sid m)
  unfolding on_session
  on_session-IsGated f sid m keeps g = elim (Option-cases (session_of sid m)) [
    | inl absent ↦ rw (absent, on_session) g
    | inr (st, there) ↦
        rw (there, on_session)
          (set_session-IsGated sid (f st) m
            (λ idle. (keeps st).0 ∙ g sid st there ((keeps st).1 idle)) g)
  ]

  unregister-IsGated :
      (sid : Text) (m : SurfaceManager W) → IsGated m → IsGated (unregister_session sid m)
  unfolding unregister_session session_of
  unregister-IsGated sid m g k st e idle =
      ground (arith, Dict.get-pop_lem text_dec sid k m.sessions, g k st)

  turn_end-IsGated :
      (sid : Text) (m : SurfaceManager W) (w : W) → IsGated m → IsGated (mark_turn_end sid m w).1
  unfolding mark_turn_end
  turn_end-IsGated sid m w g = elim (Option-cases (session_of sid m)) [
    | inl absent ↦ rw (absent, mark_turn_end) g
    | inr (st, there) ↦
        rw (there, mark_turn_end)
          (set_session-IsGated sid (record st { turn_busy = false; deferred_emits = [] }) m
            (λ _. refl) g)
  ]

  discard-IsGated :
      (sid : Text) (m : SurfaceManager W) → IsGated m → IsGated (discard_deferred sid m).1
  unfolding discard_deferred
  discard-IsGated sid m g = elim (Option-cases (session_of sid m)) [
    | inl absent ↦ rw (absent, discard_deferred) g
    | inr (st, there) ↦
        rw (there, discard_deferred)
          (set_session-IsGated sid (record st { deferred_emits = [] }) m (λ _. refl) g)
  ]

  emit-IsGated :
      (sid : Text) (f : Emit W) (m : SurfaceManager W) (w : W)
      → IsGated m
      → IsGated (defer_or_send sid f m w).2
  unfolding defer_or_send
  emit-IsGated sid f m w g = elim (Option-cases (session_of sid m)) [
    | inl absent ↦ rw (absent, defer_or_send) g
    | inr (st, there) ↦
        rw (there, defer_or_send)
          (elim (Bool-cases st.turn_busy) [
            | inl busy ↦ rw busy (
                set_session-IsGated sid
                  (record st { turn_busy = true; deferred_emits = st.deferred_emits ++ f ∷ [] }) m
                  (λ idle. cc) g)
            | inr idle ↦ rw idle g
          ])
  ]

  -- Every call keeps the gate: outside a turn nothing is ever deferred.
  pub handle-IsGated :
      (e : Event W) (m : SurfaceManager W) (w : W) → IsGated m → IsGated (handle e (m, w)).0
  unfolding handle register_session register_action unregister_action mark_turn_start
  handle-IsGated (register sid send caps) m w g = set_session-IsGated sid _ m (λ _. refl) g
  handle-IsGated (unregister sid) m w g = unregister-IsGated sid m g
  handle-IsGated (on_action sid cid h) m w g =
      on_session-IsGated _ sid m (λ st. (refl, λ idle. idle)) g
  handle-IsGated (off_action sid cid) m w g =
      on_session-IsGated _ sid m (λ st. (refl, λ idle. idle)) g
  handle-IsGated (turn_start sid) m w g = on_session-IsGated _ sid m (λ st. (refl, λ idle. cc)) g
  handle-IsGated (turn_end sid) m w g = turn_end-IsGated sid m w g
  handle-IsGated (discard sid) m w g = discard-IsGated sid m g
  handle-IsGated (emit sid f) m w g = emit-IsGated sid f m w g

  -- The emits of a turn, one after the other.
  unfoldable pub emit_all : Text → List (Emit W) → SurfaceManager W × W → SurfaceManager W × W
  emit_all sid [] s = s
  emit_all sid (f ∷ fs) s = emit_all sid fs (handle (emit sid f) s)

  emit_busy :
      (sid : Text) (f : Emit W) (m : SurfaceManager W) (w : W) (st : SessionState W)
      → session_of sid m ≡ some st
      → st.turn_busy ≡ true
      → handle (emit sid f) (m, w)
        ≡ (set_session sid (record st { deferred_emits = st.deferred_emits ++ f ∷ [] }) m, w)
  unfolding handle defer_or_send
  emit_busy sid f m w st there busy = rw (there, defer_or_send, busy)

  session_of-set_self :
      (sid : Text) (st : SessionState W) (m : SurfaceManager W)
      → session_of sid (set_session sid st m) ≡ some st
  session_of-set_self sid st m =
      session_of-set_session sid sid st m ∙ if_pos (text_dec sid sid) refl _ _

  emit_all_busy :
      (fs : List (Emit W)) (sid : Text) (m : SurfaceManager W) (w : W) (st : SessionState W)
      → session_of sid m ≡ some st
      → st.turn_busy ≡ true
      → (m' : SurfaceManager W) × (emit_all sid fs (m, w) ≡ (m', w))
        × (session_of sid m' ≡ some (record st { deferred_emits = st.deferred_emits ++ fs }))
  unfolding emit_all
  emit_all_busy [] sid m w st there busy = (m, refl, rw append-nil there)
  emit_all_busy (f ∷ fs) sid m w st there busy =
      let st' : SessionState W = record st { deferred_emits = st.deferred_emits ++ f ∷ [] } in
      let m1 = set_session sid st' m in
      let (m2, ran, after) = emit_all_busy fs sid m1 w st' (session_of-set_self sid st' m) busy in
      (
        m2,
        rw (emit_busy sid f m w st there busy) ran,
        after
            ∙ ap (λ l. some (record st { deferred_emits = l }))
                (append_assoc st.deferred_emits (f ∷ []) fs),
      )

  -- During a turn emits do not touch the world. When the turn ends they run in the order in which
  -- they came, behind what was deferred before, each once on the world that those before it left,
  -- although some fail, unless one is cancelled: then those behind it do not run, and the end of the
  -- turn is cancelled too. In both cases nothing stays deferred.
  pub turn_end-emit_all :
      (fs : List (Emit W)) (sid : Text) (m : SurfaceManager W) (w : W) (st : SessionState W)
      → session_of sid m ≡ some st
      → st.turn_busy ≡ true
      → (m' m'' : SurfaceManager W) × (s : Outcome × W) × (emit_all sid fs (m, w) ≡ (m', w))
        × (mark_turn_end sid m' w ≡ (s.0, m'', s.1))
        × Ran (st.deferred_emits ++ fs) w s
        × (session_of sid m'' ≡ some (record st { turn_busy = false; deferred_emits = [] }))
  unfolding mark_turn_end
  turn_end-emit_all fs sid m w st there busy =
      let (m', ran, after) = emit_all_busy fs sid m w st there busy in
      let st' : SessionState W = record st { turn_busy = false; deferred_emits = [] } in
      (
        m',
        set_session sid st' m',
        drain (st.deferred_emits ++ fs) w,
        ran,
        rw (after, mark_turn_end),
        drain-Ran (st.deferred_emits ++ fs) w,
        session_of-set_self sid st' m',
      )
