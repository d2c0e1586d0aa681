-- ===== src/Scheduler/Notification.antt =====
-- dragon_voice/scheduler/models.py: the notification, and what its constructor enforces.
-- A time is a number of milliseconds since a fixed instant that lies before every time that the
-- program handles, so the floats of `time.time()` become natural numbers.
use tinker_box.Base.{
  ℕ, ◌≤◌, ◌≡◌, Bool, true, false, Option, arith, ltb, if◌then◌else◌, ite, length, take, length-take,
  take_of_length-le, Text, codes, text_dec,
}

pub data Tone : Type 0 where
  info warn success danger : Tone

pub data Status : Type 0 where
  pending fired cancelled failed : Status

-- The fields that the constructor is given; tone and status are texts at this point.
pub record Fields : Type 0 where
  pub id : Text
  pub device_id : Option Text
  pub originating_session_id : Option Text
  pub fire_at : ℕ
  pub title : Text
  pub body : Text
  pub tone : Text
  pub status : Text
  pub recurrence : Option Text
  pub created_at : ℕ
  pub fired_at : Option ℕ
  pub cancelled_at : Option ℕ

pub record Notification : Type 0 where
  pub id : Text
  pub device_id : Option Text
  pub originating_session_id : Option Text
  pub fire_at : ℕ
  pub title : Text
  pub body : Text
  pub tone : Tone
  pub status : Status
  pub recurrence : Option Text
  pub created_at : ℕ
  pub fired_at : Option ℕ
  pub cancelled_at : Option ℕ

-- A text that is none of the four tones becomes "info".
unfoldable pub tone_of : Text → Tone
unfolding text_dec
tone_of t =
    ite (text_dec t (codes "warn")) warn
      (ite (text_dec t (codes "success")) success (ite (text_dec t (codes "danger")) danger info))

unfoldable pub status_of : Text → Status
unfolding text_dec
status_of t = ite (text_dec t (codes "fired")) fired (
    ite (text_dec t (codes "cancelled")) cancelled
      (ite (text_dec t (codes "failed")) failed pending))

-- `if len(s) > n: s = s[:n]`
unfoldable pub trim : ℕ → Text → Text
trim n s = if ltb n (length s) then take n s else s

unfoldable pub post_init : Fields → Notification
unfolding tone_of status_of trim
post_init f = record {
  id = f.id;
  device_id = f.device_id;
  originating_session_id = f.originating_session_id;
  fire_at = f.fire_at;
  title = trim 63 f.title;
  body = trim 255 f.body;
  tone = tone_of f.tone;
  status = status_of f.status;
  recurrence = f.recurrence;
  created_at = f.created_at;
  fired_at = f.fired_at;
  cancelled_at = f.cancelled_at;
}

unfoldable pub is_pending : Notification → Bool
is_pending n = elim n.status [ pending ↦ true | _ ↦ false ]

-- The name by which a tone or a status is written.
unfoldable pub tone_text : Tone → Text
tone_text info = codes "info"
tone_text warn = codes "warn"
tone_text success = codes "success"
tone_text danger = codes "danger"

pub length-trim-le : (n : ℕ) (s : Text) → length (trim n s) ≤ n
unfolding trim
length-trim-le n s = ground (arith, length-take n s)

pub trim-take : (n : ℕ) (s : Text) → trim n s ≡ take n s
unfolding trim
trim-take n s = ground (arith, take_of_length-le n s)

-- Whatever it is given, the constructor yields a title of at most 63 and a body of at most 255
-- characters: the first ones of what it is given.
pub post_init_bounds :
    (f : Fields)
    → (length (post_init f).title ≤ 63)
      × (length (post_init f).body ≤ 255)
      × ((post_init f).title ≡ take 63 f.title)
      × ((post_init f).body ≡ take 255 f.body)
unfolding post_init
post_init_bounds f = (
  length-trim-le 63 f.title,
  length-trim-le 255 f.body,
  trim-take 63 f.title,
  trim-take 255 f.body,
)
