-- ===== src/Frames/Dispatch.antt =====
-- dragon_voice/binary_frame_dispatch.py, and `VideoUpstreamHandler` of dragon_voice/video_upstream.py.
use tinker_box.Base.{
  ℕ, suc, ◌+◌, Bool, true, false, not, refl, Option, none, some, List, [], ◌∷◌, if◌then◌else◌, ite,
  length, Text, text_dec,
}
use tinker_box.Base.Dict.{get, put}
use tinker_box.Frames.Wire.{parse_video_frame, peek_video, peek_call_audio_magic}

-- A connection in `_active_connections`; its WebSocket is open if there is one that is not closed.
pub record Peer : Type 0 where
  pub ws_id : Text
  pub session_id : Option Text
  pub is_open : Bool

pub record SessionVideoStats : Type 0 where
  pub frames : ℕ
  pub bytes_in : ℕ
  pub last_jpeg_bytes : ℕ
  pub last_ts : ℕ
  pub parse_errors : ℕ

abbrev pub no_stats : SessionVideoStats
no_stats = record { frames = 0; bytes_in = 0; last_jpeg_bytes = 0; last_ts = 0; parse_errors = 0 }

-- What is done to the outside: bytes are sent to a connection, which may fail without effect, the
-- last picture is written, or the pipeline is fed.
pub data Effect : Type 0 where
  sends : Text → List ℕ → Effect
  writes : List ℕ → Effect
  feeds : List ℕ → Effect

unfoldable pub session_dec : Discrete (Option Text)
unfolding text_dec
session_dec none none = yes refl
session_dec none (some t) = no (λ e. cc)
session_dec (some s) none = no (λ e. cc)
session_dec (some s) (some t) = elim (text_dec s t) [
  | yes e ↦ yes (λ i. some (e i))
  | no ne ↦ no (λ e. ne (cc))
]

-- The loop over the other connections.
unfoldable pub relay : Option Text → List ℕ → List Peer → List Effect
unfolding session_dec
relay sender wire_bytes [] = []
relay sender wire_bytes (p ∷ peers) =
    let rest = relay sender wire_bytes peers in
    if ite (session_dec p.session_id sender) true false
    then rest
    else if not p.is_open
    then rest
    else sends p.ws_id wire_bytes ∷ rest

abbrev pub stats_or : Option SessionVideoStats → SessionVideoStats
stats_or none = no_stats
stats_or (some s) = s

abbrev pub Stats : Type 0
Stats = List (Option Text × SessionVideoStats)

unfoldable pub stats : Option Text → Stats → SessionVideoStats
unfolding get session_dec
stats session_id all = stats_or (get session_dec session_id all)

unfoldable pub on_frame : Option Text → List ℕ → List Peer → ℕ → Stats → Stats × List Effect
unfolding put stats relay
on_frame session_id wire_bytes active_connections now all =
    let s = stats session_id all in
    elim (parse_video_frame wire_bytes) [
      | none ↦ (put session_dec session_id (record s { parse_errors = suc s.parse_errors }) all, [])
      | some jpeg ↦ (
        put session_dec session_id
            (record s {
              frames = suc s.frames;
              bytes_in = s.bytes_in + length wire_bytes;
              last_jpeg_bytes = length jpeg;
              last_ts = now;
            })
            all,
        writes jpeg ∷ relay session_id wire_bytes active_connections,
      )
    ]

-- `has_pipeline` tells whether the connection has one.
unfoldable pub dispatch_binary_frame :
    List ℕ → Option Text → Bool → List Peer → ℕ → Stats → Stats × List Effect
unfolding on_frame relay
dispatch_binary_frame msg_data session_id has_pipeline active_connections now all =
    if peek_video msg_data
    then on_frame session_id msg_data active_connections now all
    else if peek_call_audio_magic msg_data
    then (all, relay session_id msg_data active_connections)
    else (all, if has_pipeline then feeds msg_data ∷ [] else [])
