-- ===== src/Surfaces/TurnGate.antt =====
-- `invoke_with_text_turn_gate` of dragon_voice/text_turn_gate.py: the guard of a text turn, and the
-- bracket that marks the session as busy while the turn runs. The body of the turn and the sending
-- of the error are parameters. The conversation engine is there or not, and the text of the
-- command comes stripped. A server without a surface manager is not modelled.
use tinker_box.Base.{
  ◌≡◌, ◌⊎◌, ◌≢◌, refl, Bool, true, false, Option, none, some, List, [], ◌∷◌, arith, if◌then◌else◌,
  Option-cases, inl, inr, Text, text_dec,
}
use tinker_box.Base.Dict
use tinker_box.Surfaces.Outcome.{Outcome, cancelled, done, raised, Emit}
use tinker_box.Surfaces.Manager.{
  SessionState, SurfaceManager, session_of, mark_turn_start, mark_turn_end,
}

-- The part of `conn_state` that the gate reads and writes.
pub record ConnState : Type 0 where
  pub session_id : Option Text
  pub tool_calls_this_turn : List Text

-- The body may change all that it is given, and may raise.
abbrev pub Body : Type 0 → Type 0
Body W = ConnState → SurfaceManager W → W → Outcome × ConnState × SurfaceManager W × W

-- `finally`: an exception of the drain is logged, a cancellation takes the place of the outcome.
unfoldable pub after_turn : Outcome → Outcome → Outcome
after_turn r (raised cancelled) = raised cancelled
after_turn r other = r

after_turn_lem : (r r' : Outcome) → (after_turn r r' ≡ r) ⊎ (after_turn r r' ≡ raised cancelled)
unfolding after_turn
after_turn_lem r r' = ground arith

module _ {W : Type 0} where
  unfoldable pub run_turn : Body W → Text → Body W
  unfolding after_turn
  run_turn body sid conn m w =
      let (r, conn', m1, w1) =
        body (record conn { tool_calls_this_turn = [] }) (mark_turn_start sid m) w in
      let (r', m2, w2) = mark_turn_end sid m1 w1 in (after_turn r r', conn', m2, w2)

  unfoldable pub invoke_with_text_turn_gate : Bool → Emit W → Body W → Text → Body W
  unfolding run_turn
  invoke_with_text_turn_gate conversation send_error body content conn m w =
      let refused : Outcome × ConnState × SurfaceManager W × W =
        let (r, w') = send_error w in (r, conn, m, w') in
      if conversation
      then elim conn.session_id [
        | none ↦ refused
        | some [] ↦ refused
        | some (c ∷ sid) ↦ elim content [
          | [] ↦ (done, conn, m, w)
          | d ∷ text ↦ run_turn body (c ∷ sid) conn m w
        ]
      ]
      else refused

  idle-turn_end :
      (sid : Text) (m : SurfaceManager W) (w : W)
      → (session_of sid (mark_turn_end sid m w).1 ≡ none)
        ⊎ ((st : SessionState W) × (session_of sid (mark_turn_end sid m w).1 ≡ some st)
            × (st.turn_busy ≡ false)
            × (st.deferred_emits ≡ []))
  unfolding mark_turn_end session_of
  idle-turn_end sid m w = elim (Option-cases (session_of sid m)) [
    | inl gone ↦ inl (ground (arith, gone))
    | inr (st, there) ↦
        let st' : SessionState W = record st { turn_busy = false; deferred_emits = [] } in
        inr
          (st', ground (arith, there, Dict.get-put_lem text_dec sid sid st' m.sessions), refl, refl)
  ]

  -- Where a turn runs, for a registered session with an engine and a text that is not blank, then
  -- however its body ends and whatever it does to the surfaces, the session is gone afterwards or
  -- is not busy and has nothing deferred; and the outcome is the body's or a cancellation.
  pub invoke_with_text_turn_gate_lem :
      (send_error : Emit W) (body : Body W) (content sid : Text) (tools : List Text)
      (m : SurfaceManager W) (w : W)
      → content ≢ []
      → sid ≢ []
      → let conn : ConnState = record { session_id = some sid; tool_calls_this_turn = tools } in
        let after = invoke_with_text_turn_gate true send_error body content conn m w in
        let ended = body (record conn { tool_calls_this_turn = [] }) (mark_turn_start sid m) w in
        ((session_of sid after.2 ≡ none)
          ⊎ ((st : SessionState W) × (session_of sid after.2 ≡ some st)
              × (st.turn_busy ≡ false)
              × (st.deferred_emits ≡ [])))
        × ((after.0 ≡ ended.0) ⊎ (after.0 ≡ raised cancelled))
  unfolding invoke_with_text_turn_gate run_turn
  invoke_with_text_turn_gate_lem send_error body [] sid tools m w text named = absurd (text refl)
  invoke_with_text_turn_gate_lem send_error body (d ∷ content) [] tools m w text named =
      absurd (named refl)
  invoke_with_text_turn_gate_lem send_error body (d ∷ content) (c ∷ sid) tools m w text named =
      let conn : ConnState = record { session_id = some (c ∷ sid); tool_calls_this_turn = tools } in
      let (r, conn', m1, w1) =
        body (record conn { tool_calls_this_turn = [] }) (mark_turn_start (c ∷ sid) m) w in
      (idle-turn_end (c ∷ sid) m1 w1, after_turn_lem r (mark_turn_end (c ∷ sid) m1 w1).0)
