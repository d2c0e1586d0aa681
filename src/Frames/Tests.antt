-- ===== src/Frames/Tests.antt =====
-- Frames on small inputs: each theorem at a case.
use tinker_box.Base.{
  ◌≡◌, ◌<◌, ◌↔◌, refl, none, some, List, [], ◌∷◌, ◌++◌, ℕ, arith, Elem, true, length, codes,
}
use tinker_box.Frames.Wire.{parse_frame, parse_call_audio_frame}
use tinker_box.Frames.Dispatch.{Peer, sends, dispatch_binary_frame}
use tinker_box.Frames.Exact.{pack_be, parse_frame_exact}
use tinker_box.Frames.Targets.{IsTarget, IsRelayed, dispatch_binary_frame-IsTarget}

-- `AUD0`, the length 2, and two bytes.
abbrev audio : List ℕ
audio = 65 ∷ 85 ∷ 68 ∷ 48 ∷ 0 ∷ 0 ∷ 0 ∷ 2 ∷ 7 ∷ 9 ∷ []

abbrev body : List ℕ
body = 7 ∷ 9 ∷ []

parse_frame_exact_example :
    (parse_frame (65 ∷ 85 ∷ 68 ∷ 48 ∷ []) audio ≡ some body)
    ↔ ((audio ≡ 65 ∷ 85 ∷ 68 ∷ 48 ∷ pack_be (length body) ++ body) × (length body < 4294967296))
parse_frame_exact_example = parse_frame_exact 65 85 68 48 audio body (
  omega arith,
  (
    omega arith,
    (
      omega arith,
      (
        omega arith,
        (
          omega arith,
          (omega arith, (omega arith, (omega arith, (omega arith, (omega arith, tt))))),
        ),
      ),
    ),
  ),
)

abbrev peers : List Peer
peers =
    (record { ws_id = codes "w1"; session_id = some (codes "a"); is_open = true })
    ∷ (record { ws_id = codes "w2"; session_id = some (codes "b"); is_open = true })
    ∷ []

dispatch_binary_frame-IsTarget_example :
    Elem
      (sends (codes "w2") audio)
      (dispatch_binary_frame audio (some (codes "a")) true peers 0 []).1
    ↔ ((audio ≡ audio) × IsTarget (some (codes "a")) peers (codes "w2") × IsRelayed audio)
dispatch_binary_frame-IsTarget_example =
    dispatch_binary_frame-IsTarget audio (some (codes "a")) true peers 0 [] audio (codes "w2")

-- A frame with the magic of a call's audio is relayed although it cannot be parsed.
unparsed : parse_call_audio_frame (65 ∷ 85 ∷ 68 ∷ 48 ∷ []) ≡ none
unfolding parse_frame
unparsed = refl

relayed :
    (dispatch_binary_frame (65 ∷ 85 ∷ 68 ∷ 48 ∷ []) (some (codes "a")) true peers 0 []).1
    ≡ sends (codes "w2") (65 ∷ 85 ∷ 68 ∷ 48 ∷ []) ∷ []
unfolding dispatch_binary_frame tinker_box.Frames.Wire.peek
relayed = refl
