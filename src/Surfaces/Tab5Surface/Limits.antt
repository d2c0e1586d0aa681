-- ===== src/Surfaces/Tab5Surface/Limits.antt =====
-- Every frame that `Tab5Surface` builds is within the field widths and counts of the device.
use tinker_box.Base.{ℕ, ◌≤◌, Option, none, some, List, length, All, Text}
use mathlib.Core.Option
use tinker_box.Surfaces.Message.{
  Caps, cap_or, Action, Head, Message, widget_live, widget_list, widget_live_update, widget_media,
  widget_prompt, widget_card, widget_chart,
}

abbrev AtMost : ℕ → Option Text → Type 0
AtMost n none = Unit
AtMost n (some t) = length t ≤ n

abbrev ActionFits : Option Action → Type 0
ActionFits none = Unit
ActionFits (some (label, event)) = (length label ≤ 15) × (length event ≤ 47)

abbrev PairsFit : ℕ → ℕ → List (Text × Text) → Type 0
PairsFit n m = All (λ p. (length p.0 ≤ n) × (length p.1 ≤ m))

abbrev HeadFits : Head → Type 0
HeadFits h = (length h.title ≤ 63) × (length h.body ≤ 255)

abbrev ProgressFits : Option ℕ → Type 0
ProgressFits none = Unit
ProgressFits (some p) = p ≤ 1000

-- The limits of the device, with the counts that the client declares or their defaults.
abbrev pub FitsDevice : Caps → Message → Type 0
FitsDevice caps (widget_live h priority icon progress action _) =
    HeadFits h × (priority ≤ 100) × AtMost 15 icon × ProgressFits progress × ActionFits action
FitsDevice caps (widget_list h priority items) =
    HeadFits h
    × (priority ≤ 100)
    × (length items ≤ cap_or 5 caps.list_max_items)
    × PairsFit 79 15 items
FitsDevice caps (widget_live_update _ body _ progress action) =
    AtMost 255 body × ProgressFits progress × ActionFits action
FitsDevice caps (widget_media h priority _ alt _ _) =
    HeadFits h × (priority ≤ 100) × (length alt ≤ 95)
FitsDevice caps (widget_prompt h priority choices) =
    HeadFits h
    × (priority ≤ 100)
    × (length choices ≤ cap_or 3 caps.prompt_max_choices)
    × PairsFit 47 47 choices
FitsDevice caps (widget_card h icon _ action) = HeadFits h × AtMost 15 icon × ActionFits action
FitsDevice caps (widget_chart h priority values _) =
    HeadFits h × (priority ≤ 100) × (length values ≤ cap_or 12 caps.chart_max_points)
FitsDevice caps _ = Unit
