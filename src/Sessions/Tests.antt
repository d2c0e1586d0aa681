-- ===== src/Sessions/Tests.antt =====
-- The sessions on small inputs: each theorem at a case.
use tinker_box.Base.{◌≡◌, ◌⊎◌, ◌↔◌, refl, count, some, [], ◌∷◌, Text, codes, text_dec}
use tinker_box.Sessions.Table.{
  active, paused, ended, conversation, Session, Params, get_session, row_of,
}
use tinker_box.Sessions.Manager.{Db, cleanup}
use tinker_box.Sessions.Legal.{Moves, status_of, IsValid}
use tinker_box.Sessions.Machine.{Settings, run, sweep, run_lifecycle}
use tinker_box.Sessions.Audit.{
  begin, finish, pause_step, pause_steps, pauses_in, pause_steps-one_event,
}
use tinker_box.Sessions.Race.{state_of, resume_paused-revives}
use tinker_box.Sessions.Manager.{resume_paused, end_session}
use tinker_box.Sessions.Cleanup.{IsStale, IsAbandoned, cleanup_exact}
use tinker_box.Sessions.Cleanup.Endings.{Spared}

abbrev settings : Settings
settings = record { timeout = 1800000; paused_retention_days = 30 }

abbrev params : Params
params = record {
  device_id = some (codes "tab5");
  session_type = conversation;
  system_prompt = [];
  config = codes "{}";
  voice_mode = 0;
  llm_model = [];
}

abbrev first : Text
first = codes "a1"

abbrev second : Text
second = codes "b2"

abbrev one : Session
one = row_of first params 1000

abbrev two : Session
two = record (row_of second params 2000000) { status = paused; last_active_at = 2000000 }

abbrev gone : Session
gone = record (row_of second params 500) { status = ended; ended_at = some 600 }

abbrev rooms : Db
rooms = record { sessions = one ∷ two ∷ []; events = [] }

abbrev closed : Db
closed = record { sessions = one ∷ gone ∷ []; events = [] }

rooms-IsValid : IsValid rooms.sessions
unfolding get_session text_dec
rooms-IsValid = ((refl, (refl, tt)), (tt, (tt, tt)))

run_lifecycle_example :
    IsValid (run settings 2500000 sweep rooms).sessions
    × Moves
        (some active)
        (status_of (get_session first (run settings 2500000 sweep rooms).sessions))
unfolding get_session
run_lifecycle_example = run_lifecycle settings 2500000 sweep rooms first rooms-IsValid

pause_steps-one_event_example :
    pauses_in first
      (pause_steps first
        (begin 5 ∷ begin 6 ∷ finish 1 ∷ finish 0 ∷ [])
        (record { db = rooms; waiting = [] })).db
    ≡ 1
unfolding pause_step count
pause_steps-one_event_example =
    pause_steps-one_event first 5 (begin 6 ∷ finish 1 ∷ finish 0 ∷ []) rooms refl

cleanup_exact_example :
    Spared (some two) (get_session second (cleanup 1800000 30 2500000 rooms).sessions)
    × ((get_session second (cleanup 1800000 30 2500000 rooms).sessions ≡ some two)
        ↔ (¬ (IsStale 1800000 2500000 two ⊎ IsAbandoned 30 2500000 two)))
unfolding get_session
cleanup_exact_example = cleanup_exact 1800000 30 2500000 rooms two rooms-IsValid refl

resume_paused-revives_example :
    state_of (
      get_session second
        (resume_paused second two 2500000 (end_session second 2400000 rooms)).0.sessions)
    ≡ some (active, some 2400000)
unfolding get_session
resume_paused-revives_example = resume_paused-revives second two 2400000 2500000 rooms refl refl
