-- ===== src/Surfaces/Manager.antt =====
-- `SurfaceManager` of dragon_voice/surfaces/manager.py: the sessions, their surfaces and action
-- handlers, and the turn gate. A callable that is deferred acts on the world outside alone, and
-- each call here runs to its end before the next begins (the lock of the manager is not modelled).
pub mod Gate
pub mod Drain
use tinker_box.Base.{
  ℕ, ◌≡◌, Bool, true, false, Option, none, some, List, [], ◌∷◌, ◌++◌, length, Text, codes, text_dec,
  if◌then◌else◌,
}
use tinker_box.Base.Dict
use tinker_box.Surfaces.Outcome.{Outcome, Exn, cancelled, done, raised, Emit, swallow}
use tinker_box.Surfaces.Message.{Message, Caps}
use tinker_box.Surfaces.Tab5Surface.{Surface, Call, perform, safe_send, for_skill, message}
use tinker_box.Surfaces.Tab5Surface

-- A handler takes the event and the payload of the tap.
abbrev pub Handler : Type 0 → Type 0
Handler W = Text → List (Text × Text) → Emit W

pub record SessionState (W : Type 0) : Type 0 where
  pub surface : Surface W
  pub action_handlers : List (Text × Handler W)
  pub turn_busy : Bool
  pub deferred_emits : List (Emit W)

pub record SurfaceManager (W : Type 0) : Type 0 where
  pub sessions : List (Text × SessionState W)

module _ {W : Type 0} where
  unfoldable pub session_of : Text → SurfaceManager W → Option (SessionState W)
  session_of sid m = Dict.get text_dec sid m.sessions

  abbrev pub set_session : Text → SessionState W → SurfaceManager W → SurfaceManager W
  set_session sid st m = record { sessions = Dict.put text_dec sid st m.sessions }

  unfoldable pub register_session :
      Text → (Message → Emit W) → Caps → SurfaceManager W → Surface W × SurfaceManager W
  register_session sid send caps m =
      let surface : Surface W = record {
        send = send;
        skill_id = codes "session";
        caps = caps;
        session_id = some sid;
      } in
      (
        surface,
        set_session sid
            (record {
              surface = surface;
              action_handlers = [];
              turn_busy = false;
              deferred_emits = [];
            })
            m,
      )

  unfoldable pub unregister_session : Text → SurfaceManager W → SurfaceManager W
  unregister_session sid m = record { sessions = Dict.pop text_dec sid m.sessions }

  unfoldable pub surface_for : Text → Text → SurfaceManager W → Option (Surface W)
  unfolding session_of
  surface_for sid skill_id m = elim (session_of sid m) [
    | none ↦ none
    | some st ↦ some (for_skill skill_id st.surface)
  ]

  -- The guard of the calls that do nothing for an unknown session.
  unfoldable pub on_session :
      (SessionState W → SessionState W) → Text → SurfaceManager W → SurfaceManager W
  unfolding session_of
  on_session f sid m = elim (session_of sid m) [ none ↦ m | some st ↦ set_session sid (f st) m ]

  unfoldable pub register_action : Text → Text → Handler W → SurfaceManager W → SurfaceManager W
  unfolding on_session
  register_action sid cid handler =
      on_session
        (λ st. record st { action_handlers = Dict.put text_dec cid handler st.action_handlers }) sid

  unfoldable pub unregister_action : Text → Text → SurfaceManager W → SurfaceManager W
  unfolding on_session
  unregister_action sid cid =
      on_session (λ st. record st { action_handlers = Dict.pop text_dec cid st.action_handlers })
        sid

  unfoldable pub mark_turn_start : Text → SurfaceManager W → SurfaceManager W
  unfolding on_session
  mark_turn_start = on_session (λ st. record st { turn_busy = true })

  -- The drain: an exception in one callable does not stop the rest, a cancellation does.
  unfoldable pub drain : List (Emit W) → Emit W
  unfolding swallow
  drain [] w = (done, w)
  drain (f ∷ rest) w =
      let (r, w') = swallow f w in
      let next = drain rest w' in elim r [ done ↦ next | raised e ↦ (raised e, w') ]

  unfoldable pub mark_turn_end : Text → SurfaceManager W → W → Outcome × SurfaceManager W × W
  unfolding session_of drain
  mark_turn_end sid m w = elim (session_of sid m) [
    | none ↦ (done, m, w)
    | some st ↦
        let m' = set_session sid (record st { turn_busy = false; deferred_emits = [] }) m in
        let (r, w') = drain st.deferred_emits w in (r, m', w')
  ]

  unfoldable pub discard_deferred : Text → SurfaceManager W → ℕ × SurfaceManager W
  unfolding session_of
  discard_deferred sid m = elim (session_of sid m) [
    | none ↦ (0, m)
    | some st ↦ (length st.deferred_emits, set_session sid (record st { deferred_emits = [] }) m)
  ]

  unfoldable pub is_turn_busy : Text → SurfaceManager W → Bool
  unfolding session_of
  is_turn_busy sid m = elim (session_of sid m) [ none ↦ false | some st ↦ st.turn_busy ]

  -- The outcome, whether the callable ran at once, and what is left behind.
  unfoldable pub defer_or_send :
      Text → Emit W → SurfaceManager W → W → Outcome × Bool × SurfaceManager W × W
  unfolding session_of
  defer_or_send sid f m w =
      let run_now : Outcome × Bool × SurfaceManager W × W = let (r, w') = f w in (r, true, m, w') in
      elim (session_of sid m) [
        | none ↦ run_now
        | some st ↦
            if st.turn_busy
            then (
              done,
              false,
              set_session sid (record st { deferred_emits = st.deferred_emits ++ f ∷ [] }) m,
              w,
            )
            else run_now
      ]

  -- A tap: the handler of the card, or the default dismissal; an exception of either is logged.
  unfoldable pub handle_action : Text → Text → Text → List (Text × Text) → SurfaceManager W → Emit W
  unfolding session_of swallow
  handle_action sid cid event payload m w = elim (session_of sid m) [
    | none ↦ (done, w)
    | some st ↦ elim (Dict.get text_dec cid st.action_handlers) [
      | none ↦ swallow (safe_send st.surface (message st.surface (Tab5Surface.dismiss cid))) w
      | some handler ↦ swallow (handler event payload) w
    ]
  ]
