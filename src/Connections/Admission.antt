-- ===== src/Connections/Admission.antt =====
-- dragon_voice/ws_voice_admission.py and dragon_voice/config_update_rate_limit.py: what a client may
-- open, and how often it may change the configuration.
use tinker_box.Base.{
  ℕ, ◌+◌, ◌-◌, ◌≤◌, ◌<◌, Bool, true, false, not, ◌||◌, Option, none, some, List, [], ◌∷◌, arith,
  ltb, leb, if◌then◌else◌, ite, drop, Text, codes, text_dec, starts_with, strip,
}

pub data Rejection : Type 0 where
  auth_failed server_full : Rejection

-- The token of an `Authorization` header; no header is an empty text.
unfoldable pub supplied : Text → Text
unfolding starts_with strip
supplied header = if starts_with (codes "Bearer ") header then strip (drop 7 header) else []

abbrev pub is_empty : Text → Bool
is_empty [] = true
is_empty (c ∷ s) = false

unfoldable pub check_ws_voice_admission : Text → Text → ℕ → ℕ → Option Rejection
unfolding supplied text_dec
check_ws_voice_admission header expected_token active_connection_count max_connections =
    let full = if leb max_connections active_connection_count then some server_full else none in
    if is_empty expected_token
    then full
    else if is_empty (supplied header)
        || not (ite (text_dec (supplied header) expected_token) true false)
    then some auth_failed
    else full

unfoldable pub check_config_update_rate_limit : ℕ → ℕ → ℕ → Bool × ℕ
check_config_update_rate_limit min_interval now last =
    if ltb (now - last) min_interval then (false, last) else (true, now)

-- The times at which a change of the configuration goes on, of those at which one is asked for.
abbrev pub accepted : ℕ → ℕ → List ℕ → List ℕ
accepted min_interval last [] = []
accepted min_interval last (now ∷ times) =
    let (go_on, last') = check_config_update_rate_limit min_interval now last in
    let rest = accepted min_interval last' times in if go_on then now ∷ rest else rest

-- Each comes the interval or more after the one before it.
abbrev pub IsSpaced : ℕ → ℕ → List ℕ → Type 0
IsSpaced min_interval last [] = Unit
IsSpaced min_interval last (t ∷ times) = (last + min_interval ≤ t) × IsSpaced min_interval t times

-- The changes that go on are at least the interval apart, and the first is that long after the last
-- one before them; this holds for every sequence of times, if the interval is positive.
pub accepted-IsSpaced :
    (min_interval last : ℕ) (times : List ℕ)
    → 0 < min_interval
    → IsSpaced min_interval last (accepted min_interval last times)
unfolding check_config_update_rate_limit
accepted-IsSpaced min_interval last [] h = tt
accepted-IsSpaced min_interval last (now ∷ times) h =
    ground (
      arith,
      accepted-IsSpaced min_interval last times h,
      accepted-IsSpaced min_interval now times h,
    )
