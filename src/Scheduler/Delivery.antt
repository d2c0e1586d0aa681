-- ===== src/Scheduler/Delivery.antt =====
-- How dragon_voice/scheduler/manager.py renders a notification as a card and hands cards to the
-- surface of a session.
use tinker_box.Base.{ℕ, ◌+◌, Option, none, some, List, [], ◌∷◌, ◌++◌, take, Text, codes, erase_all}
use tinker_box.Surfaces.Outcome.{Outcome, cancelled, done, raised, Emit}
use tinker_box.Surfaces.Message.{Action}
use tinker_box.Surfaces.Tab5Surface.{Surface, card, message, safe_send}
use tinker_box.Scheduler.Notification.{Notification, tone_text}
use tinker_box.Scheduler.Store.{Payload}

-- `sched_` and the first eight characters of the id behind its prefix
unfoldable pub card_id_of : Text → Text
unfolding erase_all
card_id_of id = codes "sched_" ++ take 8 (erase_all (codes "sched_") 0 id)

unfoldable pub rendered : Notification → Payload
unfolding card_id_of tone_text
rendered n = record {
  skill_id = codes "scheduler";
  card_id = card_id_of n.id;
  title = n.title;
  body = n.body;
  tone = tone_text n.tone;
  icon = some (codes "bell");
  image_url = none;
  action = some (codes "Dismiss", codes "scheduler.dismiss");
}

-- An action is passed on if neither part of it is empty.
unfoldable pub action_of : Option (Text × Text) → Option Action
action_of none = none
action_of (some ([], event)) = none
action_of (some (c ∷ t, [])) = none
action_of (some (c ∷ t, d ∷ u)) = some (c ∷ t, d ∷ u)

-- `surface.card(…)` with the fields of a payload
unfoldable pub send_card : {W : Type 0} → Surface W → Payload → Emit W
unfolding safe_send message action_of
send_card s p = safe_send s (
    message s (
      card (some p.skill_id) p.card_id p.title p.body p.tone p.icon p.image_url
        (action_of p.action)))

module _ {W : Type 0} where
  -- The loop over the frames; a frame that fails is skipped, and not counted.
  unfoldable pub deliver : Surface W → List Payload → W → Outcome × ℕ × W
  unfolding send_card
  deliver surface [] w = (done, 0, w)
  deliver surface (p ∷ l) w =
      let (r, w') = send_card surface p w in
      let (r', n, w'') = deliver surface l w' in
      elim r [
        | done ↦ (r', n + 1, w'')
        | raised cancelled ↦ (raised cancelled, 0, w')
        | raised e ↦ (r', n, w'')
      ]
