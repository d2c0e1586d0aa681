-- ===== src/Surfaces/Tests.antt =====
-- The widget platform on small inputs. The world is the list of the frames that went out.
use tinker_box.Base.{
  ◌⊎◌, ℕ, ◌≡◌, ◌≢◌, refl, true, false, Option, none, some, List, [], ◌∷◌, ◌++◌, Text, codes,
}
use tinker_box.Surfaces.Outcome.{Outcome, cancelled, other, done, raised, Emit}
use tinker_box.Surfaces.Message.{Message, Caps, widget_dismiss}
use tinker_box.Surfaces.Tab5Surface.{Surface, Call, card}
use tinker_box.Surfaces.Manager.{
  SessionState, SurfaceManager, session_of, mark_turn_start, mark_turn_end, drain, defer_or_send,
  is_turn_busy,
}
use tinker_box.Surfaces.TurnGate.{
  Body, run_turn, invoke_with_text_turn_gate, invoke_with_text_turn_gate_lem,
}
use tinker_box.Surfaces.Manager.Drain.{Ran}
use tinker_box.Surfaces.Manager.Gate.{
  IsGated, turn_start, handle, handle-IsGated, emit_all, turn_end-emit_all,
}

none_is_some : {A : Type 0} {a : A} → none ≢ some a
none_is_some e = cc

abbrev World : Type 0
World = List Message

abbrev deliver_frame : Message → Emit World
deliver_frame msg w = (done, w ++ msg ∷ [])

abbrev small : Caps
small = record {
  list_max_items = some 2;
  media_max_w = none;
  media_max_h = none;
  prompt_max_choices = some 0;
  chart_max_points = none;
}

abbrev screen : Surface World
screen = record {
  send = deliver_frame;
  skill_id = codes "session";
  caps = small;
  session_id = some (codes "s1");
}

abbrev tea_card : Call
tea_card =
    card none (codes "c1") (codes "Tea") [] (codes "info")
      (some (codes "a name of an icon, too long")) none
      (some (codes "Dismiss it right now", codes "x"))

abbrev busy_session : SessionState World
busy_session = record {
  surface = screen;
  action_handlers = [];
  turn_busy = true;
  deferred_emits = deliver_frame (widget_dismiss (codes "c0")) ∷ [];
}

abbrev in_turn : SurfaceManager World
in_turn = record { sessions = (codes "s1", busy_session) ∷ [] }

abbrev no_sessions : SurfaceManager World
no_sessions = record { sessions = [] }

no_sessions-IsGated : IsGated no_sessions
unfolding session_of tinker_box.Base.Dict.get
no_sessions-IsGated sid st e idle = absurd (none_is_some e)

handle-IsGated_example : IsGated (handle (turn_start (codes "s1")) (no_sessions, [])).0
handle-IsGated_example = handle-IsGated (turn_start (codes "s1")) no_sessions [] no_sessions-IsGated

-- It fails, which does not keep the rest from running.
abbrev broken : Emit World
broken w = (raised other, w)

abbrev two_emits : List (Emit World)
two_emits =
    deliver_frame (widget_dismiss (codes "c1")) ∷ deliver_frame (widget_dismiss (codes "c2")) ∷ []

in_turn_there : session_of (codes "s1") in_turn ≡ some busy_session
unfolding session_of tinker_box.Base.Dict.get tinker_box.Base.text_dec
in_turn_there = refl

turn_end-emit_all_example :
    (m' m'' : SurfaceManager World) × (s : Outcome × World) × (emit_all
        (codes "s1")
        (broken ∷ two_emits)
        (in_turn, [])
      ≡ (m', []))
    × (mark_turn_end (codes "s1") m' [] ≡ (s.0, m'', s.1))
    × Ran (busy_session.deferred_emits ++ broken ∷ two_emits) [] s
    × (session_of (codes "s1") m''
        ≡ some (record busy_session { turn_busy = false; deferred_emits = [] }))
turn_end-emit_all_example =
    turn_end-emit_all (broken ∷ two_emits) (codes "s1") in_turn [] busy_session in_turn_there refl

three_frames : drain (busy_session.deferred_emits ++ broken ∷ two_emits) [] ≡ (
  done,
  widget_dismiss (codes "c0") ∷ widget_dismiss (codes "c1") ∷ widget_dismiss (codes "c2") ∷ [],
)
unfolding drain
three_frames = refl

hi_ne_nil : codes "hi" ≢ []
hi_ne_nil e = cc

s1_ne_nil : codes "s1" ≢ []
s1_ne_nil e = cc

-- A turn whose body emits a frame and then fails.
abbrev failing_body : Body World
failing_body conn m w =
    let (r, sent, m', w') =
      defer_or_send (codes "s1") (deliver_frame (widget_dismiss (codes "c3"))) m w in
    (raised other, conn, m', w')

abbrev quiet_error : Emit World
quiet_error w = (done, w)

invoke_with_text_turn_gate_lem_example :
    let after =
      invoke_with_text_turn_gate true quiet_error failing_body
        (codes "hi")
        (record { session_id = some (codes "s1"); tool_calls_this_turn = [] })
        in_turn
        [] in
    let ended =
      failing_body
        (record { session_id = some (codes "s1"); tool_calls_this_turn = [] })
        (mark_turn_start (codes "s1") in_turn)
        [] in
    ((session_of (codes "s1") after.2 ≡ none)
      ⊎ ((st : SessionState World) × (session_of (codes "s1") after.2 ≡ some st)
          × (st.turn_busy ≡ false)
          × (st.deferred_emits ≡ [])))
    × ((after.0 ≡ ended.0) ⊎ (after.0 ≡ raised cancelled))
invoke_with_text_turn_gate_lem_example =
    invoke_with_text_turn_gate_lem quiet_error failing_body (codes "hi") (codes "s1") [] in_turn []
      hi_ne_nil s1_ne_nil

nothing_is_left :
    is_turn_busy
      (codes "s1")
      (run_turn failing_body
        (codes "s1")
        (record { session_id = some (codes "s1"); tool_calls_this_turn = [] })
        in_turn
        []).2
    ≡ false
unfolding run_turn is_turn_busy tinker_box.Base.Dict.get mark_turn_end defer_or_send mark_turn_start
    tinker_box.Base.text_dec tinker_box.Base.Dict.put
nothing_is_left = refl
