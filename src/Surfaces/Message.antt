-- ===== src/Surfaces/Message.antt =====
-- The frames of dragon_voice/surfaces/base.py, and the limits of the device that they respect.
-- A progress and the points of a chart are floats in the source; here they are thousandths.
use tinker_box.Base.{ℕ, zero, suc, Option, none, some, List, [], ◌∷◌, map, take, min, Text}
use mathlib.Core.Option

-- `negsuc n` is -(n + 1).
pub data ℤ : Type 0 where
  pos : ℕ → ℤ
  negsuc : ℕ → ℤ

-- `max(0, min(bound, x))`
unfoldable pub clamp : ℕ → ℤ → ℕ
clamp bound (pos n) = min bound n
clamp bound (negsuc n) = 0

-- What a client declares of itself. A missing entry or a zero means the default.
pub record Caps : Type 0 where
  pub list_max_items : Option ℕ
  pub media_max_w : Option ℕ
  pub media_max_h : Option ℕ
  pub prompt_max_choices : Option ℕ
  pub chart_max_points : Option ℕ

-- `int(caps.get(name, d) or d)`
unfoldable pub cap_or : ℕ → Option ℕ → ℕ
cap_or d none = d
cap_or d (some zero) = d
cap_or d (some (suc n)) = suc n

-- `(label, event)`
abbrev pub Action : Type 0
Action = Text × Text

-- The fields that most widgets share.
pub record Head : Type 0 where
  pub skill_id : Text
  pub card_id : Text
  pub title : Text
  pub body : Text
  pub tone : Text

pub data Message : Type 0 where
  widget_live :
      (head : Head) (priority : ℕ) (icon : Option Text) (progress : Option ℕ)
      (action : Option Action) (expires_ms : Option ℕ)
      → Message
  widget_list : (head : Head) (priority : ℕ) (items : List (Text × Text)) → Message
  widget_live_update :
      (card_id : Text) (body tone : Option Text) (progress : Option ℕ) (action : Option Action)
      → Message
  widget_live_dismiss : (card_id : Text) → Message
  widget_media : (head : Head) (priority : ℕ) (url alt : Text) (width height : ℕ) → Message
  widget_prompt : (head : Head) (priority : ℕ) (choices : List (Text × Text)) → Message
  widget_card : (head : Head) (icon image_url : Option Text) (action : Option Action) → Message
  widget_chart : (head : Head) (priority : ℕ) (values : List ℤ) (max : ℤ) → Message
  widget_dismiss : (card_id : Text) → Message

-- `"…"[:n]` on an optional argument; Python takes an empty text for none.
unfoldable pub cut : ℕ → Option Text → Option Text
cut n none = none
cut n (some []) = none
cut n (some (c ∷ t)) = some (take n (c ∷ t))

unfoldable pub cut_action : Option Action → Option Action
cut_action = Option.map (λ a. (take 15 a.0, take 47 a.1))

unfoldable pub cut_pairs : ℕ → ℕ → List (Text × Text) → List (Text × Text)
cut_pairs n m = map (λ p. (take n p.0, take m p.1))

-- `if expires_ms:`
unfoldable pub nonzero : Option ℕ → Option ℕ
nonzero none = none
nonzero (some zero) = none
nonzero (some (suc n)) = some (suc n)

unfoldable pub cut_head : Text → Text → Text → Text → Text → Head
cut_head sid cid title body tone = record {
  skill_id = sid;
  card_id = cid;
  title = take 63 title;
  body = take 255 body;
  tone = tone;
}
