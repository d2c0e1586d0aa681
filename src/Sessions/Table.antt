-- ===== src/Sessions/Table.antt =====
-- dragon_voice/db_sessions.py: the table of sessions and its queries. `config` and `metadata` are
-- JSON texts. A time is in milliseconds; `now` is what `time.time()` gives to the call.
use tinker_box.Base.{
  ℕ, suc, ◌+◌, ◌*◌, refl, Bool, true, false, ◌&&◌, ◌||◌, Option, none, some, List, [], ◌∷◌, ◌++◌,
  ltb, leb, if◌then◌else◌, ite, keep, take, drop, Text, codes, text_dec,
}
use tinker_box.Base.Sort.{sort}

pub data Status : Type 0 where
  active paused ended : Status

unfoldable pub status_dec : Discrete Status
status_dec active active = yes refl
status_dec paused paused = yes refl
status_dec ended ended = yes refl
status_dec active paused = no (λ e. cc)
status_dec active ended = no (λ e. cc)
status_dec paused active = no (λ e. cc)
status_dec paused ended = no (λ e. cc)
status_dec ended active = no (λ e. cc)
status_dec ended paused = no (λ e. cc)

-- The types that the table admits.
pub data SessionType : Type 0 where
  conversation recording skill : SessionType

-- A row, with the columns of SESSION_COLUMNS.
pub record Session : Type 0 where
  pub id : Text
  pub device_id : Option Text
  pub type : SessionType
  pub status : Status
  pub title : Text
  pub system_prompt : Text
  pub config : Text
  pub metadata : Text
  pub message_count : ℕ
  pub voice_mode : ℕ
  pub llm_model : Text
  pub created_at : ℕ
  pub last_active_at : ℕ
  pub ended_at : Option ℕ

-- What `create_session` is given beside the id.
pub record Params : Type 0 where
  pub device_id : Option Text
  pub session_type : SessionType
  pub system_prompt : Text
  pub config : Text
  pub voice_mode : ℕ
  pub llm_model : Text

unfoldable pub get_session : Text → List Session → Option Session
unfolding text_dec
get_session id [] = none
get_session id (r ∷ rows) = ite (text_dec r.id id) (some r) (get_session id rows)

abbrev pub row_of : Text → Params → ℕ → Session
row_of id p now = record {
  id = id;
  device_id = p.device_id;
  type = p.session_type;
  status = active;
  title = [];
  system_prompt = p.system_prompt;
  config = p.config;
  metadata = codes "{}";
  message_count = 0;
  voice_mode = p.voice_mode;
  llm_model = p.llm_model;
  created_at = now;
  last_active_at = now;
  ended_at = none;
}

-- `INSERT`, with nothing as its result when the key is there: SQLite raises IntegrityError then.
-- The device of a session is in its table before.
unfoldable pub insert_session : Text → Params → ℕ → List Session → Option (List Session)
unfolding get_session
insert_session id p now rows = elim (get_session id rows) [
  | some _ ↦ none
  | none ↦ some (rows ++ row_of id p now ∷ [])
]

-- `UPDATE sessions SET … WHERE id = ?`
unfoldable pub update_where : Text → (Session → Session) → List Session → List Session
unfolding text_dec
update_where id f [] = []
update_where id f (r ∷ rows) = ite (text_dec r.id id) (f r) r ∷ update_where id f rows

-- The columns that a change of the status sets; `COALESCE(?, ended_at)` keeps an earlier end.
unfoldable pub with_status : Status → ℕ → Session → Session
with_status ended now r = record r { status = ended; last_active_at = now; ended_at = some now }
with_status active now r = record r { status = active; last_active_at = now }
with_status paused now r = record r { status = paused; last_active_at = now }

unfoldable pub update_session_status : Text → Status → ℕ → List Session → List Session
unfolding update_where with_status
update_session_status id status now = update_where id (with_status status now)

-- The rows, and whether one was changed.
unfoldable pub update_session_status_if :
    Text → Status → Status → ℕ → List Session → List Session × Bool
unfolding update_where with_status get_session status_dec
update_session_status_if id status expected now rows = (
  update_where id (λ r. ite (status_dec r.status expected) (with_status status now r) r) rows,
  elim (get_session id rows) [
    | none ↦ false
    | some r ↦ ite (status_dec r.status expected) true false
  ],
)

unfoldable pub touch_session : Text → ℕ → List Session → List Session
unfolding update_where
touch_session id now = update_where id (λ r. record r { last_active_at = now })

unfoldable pub increment_message_count : Text → List Session → List Session
unfolding update_where
increment_message_count id = update_where id (λ r. record r { message_count = suc r.message_count })

-- A keyword argument of `update_session`; `other` is one that is not allowed.
pub data Change : Type 0 where
  title system_prompt metadata config llm_model : Text → Change
  voice_mode : ℕ → Change
  other : Text → Text → Change

unfoldable pub is_allowed : Change → Bool
is_allowed (other k v) = false
is_allowed _ = true

unfoldable pub change : Change → Session → Session
change (title t) r = record r { title = t }
change (system_prompt t) r = record r { system_prompt = t }
change (metadata j) r = record r { metadata = j }
change (config j) r = record r { config = j }
change (llm_model t) r = record r { llm_model = t }
change (voice_mode n) r = record r { voice_mode = n }
change (other k v) r = r

abbrev pub change_all : List Change → Session → Session
change_all [] r = r
change_all (c ∷ cs) r = change_all cs (change c r)

unfoldable pub update_session : Text → List Change → ℕ → List Session → List Session
unfolding keep is_allowed change update_where
update_session id kwargs now rows = elim (keep is_allowed kwargs) [
  | [] ↦ rows
  | c ∷ cs ↦ update_where id (λ r. record (change_all (c ∷ cs) r) { last_active_at = now }) rows
]

abbrev pub is_status : Status → Session → Bool
is_status s r = ite (status_dec r.status s) true false

-- `if device_id:`, which an empty text does not pass
abbrev pub is_device : Option Text → Session → Bool
is_device none r = true
is_device (some []) r = true
is_device (some (c ∷ d)) r = elim r.device_id [
  | none ↦ false
  | some d' ↦ ite (text_dec d' (c ∷ d)) true false
]

-- `ORDER BY last_active_at DESC` and `ASC`
abbrev pub later : Session → Session → Bool
later a b = leb b.last_active_at a.last_active_at

abbrev pub earlier : Session → Session → Bool
earlier a b = leb a.last_active_at b.last_active_at

-- `is_status`, for a status that is given
abbrev pub is_status_of : Option Status → Session → Bool
is_status_of none r = true
is_status_of (some s) r = is_status s r

unfoldable pub list_sessions : Option Text → Option Status → ℕ → ℕ → List Session → List Session
unfolding keep sort status_dec text_dec
list_sessions device_id status limit offset rows =
    take limit
      (drop offset (sort later (keep (λ r. is_device device_id r && is_status_of status r) rows)))

-- `last_active_at < cutoff`; the cutoff may lie before the first instant
abbrev pub is_older : ℕ → ℕ → Session → Bool
is_older age now r = ltb (r.last_active_at + age) now

unfoldable pub get_stale_sessions : ℕ → ℕ → List Session → List Session
unfolding keep sort status_dec
get_stale_sessions timeout now rows =
    sort earlier
      (keep (λ r. (is_status active r || is_status paused r) && is_older timeout now r) rows)

unfoldable pub get_old_paused_sessions : ℕ → ℕ → List Session → List Session
unfolding keep sort status_dec
get_old_paused_sessions retention_days now rows =
    if leb retention_days 0
    then []
    else sort earlier
        (keep (λ r. is_status paused r && is_older (retention_days * 86400000) now r) rows)
