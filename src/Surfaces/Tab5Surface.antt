-- ===== src/Surfaces/Tab5Surface.antt =====
-- `Tab5Surface` of dragon_voice/surfaces/base.py: the calls by which a skill shows a widget. A
-- call is a value of `Call`, `message` the frame that it builds, and `perform` the whole method.
pub mod Limits
use tinker_box.Base.{
  ℕ, ◌≤◌, ◌≡◌, refl, Bool, true, false, Option, none, some, List, [], ◌∷◌, map, arith, length, take,
  keep, not, ite, Text, codes, text_dec, if◌then◌else◌,
}
use mathlib.Core.Option
use tinker_box.Surfaces.Outcome.{
  Exn, cancelled, connection_error, other, Outcome, done, raised, Emit,
}
use tinker_box.Surfaces.Message.{
  ℤ, clamp, Caps, cap_or, Action, Head, Message, widget_live, widget_list, widget_live_update,
  widget_live_dismiss, widget_media, widget_prompt, widget_card, widget_chart, widget_dismiss, cut,
  cut_action, cut_pairs, cut_head, nonzero,
}

-- The set of card ids that `live_clear` goes through is shared by a surface and its children; it
-- is threaded through the calls. The manager and session to which a surface is bound are those
-- of the session table that holds it.
pub record Surface (W : Type 0) : Type 0 where
  pub send : Message → Emit W
  pub skill_id : Text
  pub caps : Caps
  pub session_id : Option Text

-- The methods with their arguments. The card id is the caller's or a generated one, which the
-- method returns; the skill id is the caller's or the surface's.
pub data Call : Type 0 where
  live :
      (skill_id : Option Text) (cid title body tone : Text) (icon : Option Text)
      (progress : Option ℤ) (action : Option Action) (priority : ℤ) (expires_ms : Option ℕ)
      → Call
  list_ :
      (skill_id : Option Text) (cid title : Text) (items : List (Text × Text)) (priority : ℤ)
      (tone : Text)
      → Call
  live_update :
      (cid : Text) (body tone : Option Text) (progress : Option ℤ) (action : Option Action) → Call
  media : (skill_id : Option Text) (cid url alt title body tone : Text) (priority : ℤ) → Call
  prompt :
      (skill_id : Option Text) (cid title : Text) (choices : List (Text × Text)) (body tone : Text)
      (priority : ℤ)
      → Call
  card :
      (skill_id : Option Text) (cid title body tone : Text) (icon image_url : Option Text)
      (action : Option Action)
      → Call
  chart :
      (skill_id : Option Text) (cid title : Text) (values : List ℤ) (body tone : Text)
      (chart_max priority : ℤ)
      → Call
  dismiss : (cid : Text) → Call

-- `skill_id or self._skill_id`
unfoldable pub skill_or : Text → Option Text → Text
skill_or own none = own
skill_or own (some []) = own
skill_or own (some (c ∷ t)) = c ∷ t

-- The frame of each method.
module _ {W : Type 0} (s : Surface W) where
  unfoldable pub live_frame :
      (sid : Option Text) (cid : Text) (title : Text) (body : Text) (tone : Text)
      (icon : Option Text) (progress : Option ℤ) (action : Option Action) (priority : ℤ)
      (expires_ms : Option ℕ)
      → Message
  unfolding skill_or cut_head clamp cut cut_action nonzero
  live_frame sid cid title body tone icon progress action priority expires_ms =
      widget_live (cut_head (skill_or s.skill_id sid) cid title body tone) (clamp 100 priority)
        (cut 15 icon) (Option.map (clamp 1000) progress) (cut_action action) (nonzero expires_ms)

  unfoldable pub list_frame :
      (sid : Option Text) (cid : Text) (title : Text) (items : List (Text × Text)) (priority : ℤ)
      (tone : Text)
      → Message
  unfolding skill_or cut_head clamp cut_pairs cap_or
  list_frame sid cid title items priority tone =
      widget_list (cut_head (skill_or s.skill_id sid) cid title [] tone) (clamp 100 priority)
        (cut_pairs 79 15 (take (cap_or 5 s.caps.list_max_items) items))

  unfoldable pub live_update_frame :
      (cid : Text) (body tone : Option Text) (progress : Option ℤ) (action : Option Action)
      → Message
  unfolding clamp cut_action
  live_update_frame cid body tone progress action =
      widget_live_update cid (Option.map (take 255) body) tone (Option.map (clamp 1000) progress)
        (cut_action action)

  unfoldable pub media_frame :
      (sid : Option Text) (cid : Text) (url : Text) (alt : Text) (title : Text) (body : Text)
      (tone : Text) (priority : ℤ)
      → Message
  unfolding skill_or cut_head clamp cap_or
  media_frame sid cid url alt title body tone priority =
      widget_media (cut_head (skill_or s.skill_id sid) cid title body tone) (clamp 100 priority) url
        (take 95 alt) (cap_or 660 s.caps.media_max_w) (cap_or 440 s.caps.media_max_h)

  unfoldable pub prompt_frame :
      (sid : Option Text) (cid : Text) (title : Text) (choices : List (Text × Text)) (body : Text)
      (tone : Text) (priority : ℤ)
      → Message
  unfolding skill_or cut_head clamp cut_pairs cap_or
  prompt_frame sid cid title choices body tone priority =
      widget_prompt (cut_head (skill_or s.skill_id sid) cid title body tone) (clamp 100 priority)
        (cut_pairs 47 47 (take (cap_or 3 s.caps.prompt_max_choices) choices))

  unfoldable pub card_frame :
      (sid : Option Text) (cid : Text) (title : Text) (body : Text) (tone : Text)
      (icon : Option Text) (image_url : Option Text) (action : Option Action)
      → Message
  unfolding skill_or cut_head cut cut_action
  card_frame sid cid title body tone icon image_url action =
      widget_card (cut_head (skill_or s.skill_id sid) cid title body tone) (cut 15 icon)
        (elim image_url [ none ↦ none | some u ↦ elim u [ [] ↦ none | c ∷ t ↦ some (c ∷ t) ] ])
        (cut_action action)

  unfoldable pub chart_frame :
      (sid : Option Text) (cid : Text) (title : Text) (values : List ℤ) (body : Text) (tone : Text)
      (chart_max : ℤ) (priority : ℤ)
      → Message
  unfolding skill_or cut_head clamp cap_or
  chart_frame sid cid title values body tone chart_max priority =
      widget_chart (cut_head (skill_or s.skill_id sid) cid title body tone) (clamp 100 priority)
        (take (cap_or 12 s.caps.chart_max_points) values) chart_max

  unfoldable pub dismiss_frame : (cid : Text) → Message
  dismiss_frame cid = widget_dismiss cid

  unfoldable pub message : Call → Message
  unfolding live_frame list_frame live_update_frame media_frame prompt_frame card_frame chart_frame
      dismiss_frame
  message (live sid cid title body tone icon progress action priority expires_ms) =
      live_frame sid cid title body tone icon progress action priority expires_ms
  message (list_ sid cid title items priority tone) = list_frame sid cid title items priority tone
  message (live_update cid body tone progress action) =
      live_update_frame cid body tone progress action
  message (media sid cid url alt title body tone priority) =
      media_frame sid cid url alt title body tone priority
  message (prompt sid cid title choices body tone priority) =
      prompt_frame sid cid title choices body tone priority
  message (card sid cid title body tone icon image_url action) =
      card_frame sid cid title body tone icon image_url action
  message (chart sid cid title values body tone chart_max priority) =
      chart_frame sid cid title values body tone chart_max priority
  message (dismiss cid) = dismiss_frame cid

-- `_safe_send`: a cancellation and a lost connection pass through, all else is logged and dropped.
unfoldable pub safe_send : {W : Type 0} → Surface W → Message → Emit W
safe_send s msg w =
    let (r, w') = s.send msg w in
    elim r [
      | done ↦ (done, w')
      | raised cancelled ↦ (raised cancelled, w')
      | raised connection_error ↦ (raised connection_error, w')
      | raised other ↦ (done, w')
    ]

-- The card that the method adds to the live set once the frame is out.
unfoldable pub live_card : Call → Option Text
live_card (live _ cid _ _ _ _ _ _ _ _) = some cid
live_card (list_ _ cid _ _ _ _) = some cid
live_card (media _ cid _ _ _ _ _ _) = some cid
live_card (prompt _ cid _ _ _ _ _) = some cid
live_card (chart _ cid _ _ _ _ _ _) = some cid
live_card (live_update _ _ _ _ _) = none
live_card (card _ _ _ _ _ _ _ _) = none
live_card (dismiss _) = none

unfoldable pub is_in : Text → List Text → Bool
unfolding text_dec
is_in t [] = false
is_in t (u ∷ l) = let rest = is_in t l in ite (text_dec u t) true rest

-- `set.add` and `set.discard`
unfoldable pub add : Text → List Text → List Text
unfolding is_in
add t cards = if is_in t cards then cards else t ∷ cards

unfoldable pub discard : Text → List Text → List Text
unfolding text_dec
discard t = keep (λ u. ite (text_dec u t) false true)

unfoldable pub perform : {W : Type 0} → Surface W → Call → List Text → W → Outcome × List Text × W
unfolding message safe_send live_card add
perform s c cards w =
    let (r, w') = safe_send s (message s c) w in
    elim r [
      | raised e ↦ (raised e, cards, w')
      | done ↦ elim (live_card c) [
        | none ↦ (done, cards, w')
        | some cid ↦ (done, add cid cards, w')
      ]
    ]

-- `live_clear(card_id)`, and the loop of `live_clear()` over a copy of the set.
unfoldable pub clear_one : {W : Type 0} → Surface W → Text → List Text → W → Outcome × List Text × W
unfolding safe_send discard
clear_one s cid cards w =
    let (r, w') = safe_send s (widget_live_dismiss cid) w in
    elim r [ raised e ↦ (raised e, cards, w') | done ↦ (done, discard cid cards, w') ]

unfoldable pub dismiss_all : {W : Type 0} → Surface W → List Text → Emit W
unfolding safe_send
dismiss_all s [] w = (done, w)
dismiss_all s (cid ∷ rest) w =
    let (r, w') = safe_send s (widget_live_dismiss cid) w in
    let next = dismiss_all s rest w' in elim r [ raised e ↦ (raised e, w') | done ↦ next ]

unfoldable pub clear_all : {W : Type 0} → Surface W → List Text → W → Outcome × List Text × W
unfolding dismiss_all
clear_all s cards w =
    let (r, w') = dismiss_all s cards w in
    elim r [ raised e ↦ (raised e, cards, w') | done ↦ (done, [], w') ]

-- `for_skill`: the same connection, limits and binding under another skill.
unfoldable pub for_skill : {W : Type 0} → Text → Surface W → Surface W
for_skill skill_id s = record s { skill_id = skill_id }
