-- ===== src/Scheduler/Parser/Weekday.antt =====
-- The weekday form of the parser: "friday at 3pm", "next tue at 9".
use mathlib.Core.Path.{subst}
use tinker_box.Base.{
  ℕ, suc, ◌+◌, ◌-◌, ◌≤◌, ◌<◌, ◌≡◌, ap, refl, Bool, true, false, Option, none, some, arith, zero,
  is_lower, Text, lower, span, lstrip,
}
use tinker_box.Scheduler.Parser.{
  Zone, ok, resolve_clock, weekday, days_ahead, weekday_time, try_parse_weekday,
}
use tinker_box.Scheduler.Parser.Patterns.{
  ◌>>=◌, Clock, WeekdayMatch, weekday_index, weekday_natural, next_prefix, at_clock,
}

-- How far ahead the date may lie.
abbrev pub Within : Bool → ℕ → Type 0
Within true days = (7 ≤ days) × (days ≤ 13)
Within false days = days ≤ 7

weekday_index-bound : (t : Text) (n : ℕ) → weekday_index t ≡ some n → n < 7
unfolding weekday_index
weekday_index-bound t n e = ground arith

resolve_clock-bound : (c : Clock) (h m : ℕ) → resolve_clock c ≡ ok (h, m) → (h < 24) × (m < 60)
unfolding resolve_clock
resolve_clock-bound c h m e = ground arith

days_ahead-Within :
    (next : Bool) (target hour minute now : ℕ) (z : Zone)
    → target < 7
    → Within next (days_ahead next target hour minute now z)
unfolding days_ahead
days_ahead-Within true target hour minute now z h = ground arith
days_ahead-Within false target hour minute now z h = ground arith

days_ahead-weekday :
    (next : Bool) (target hour minute now : ℕ) (z : Zone)
    → target < 7
    → weekday (z.date_of now + days_ahead next target hour minute now z) ≡ target
unfolding days_ahead
days_ahead-weekday next target hour minute now z h = ground arith

-- Either the date is a later one, or the clock of today is still ahead.
days_ahead-later :
    (next : Bool) (target hour minute now : ℕ) (z : Zone)
    → days_ahead next target hour minute now z ≡ 0
    → now < z.at (z.date_of now) hour minute
unfolding days_ahead
days_ahead-later next target hour minute now z h = ground arith

match-bound :
    (next : Bool) (o : Option ℕ) (c : Option Clock) (w : WeekdayMatch)
    → ((n : ℕ) → o ≡ some n → n < 7)
    → (o >>= λ wday. c >>= λ c. some (record { next = next; wday = wday; clock = c })) ≡ some w
    → w.wday < 7
match-bound next none c w h e = ground arith
match-bound next (some n) none w h e = ground arith
match-bound next (some n) (some c) w h e = ground (arith, h n refl)

-- The word of a match stands in the table.
natural-bound : (s : Text) (w : WeekdayMatch) → weekday_natural s ≡ some w → w.wday < 7
unfolding weekday_natural
natural-bound s w e =
    let p = next_prefix (lstrip s) in
    let (word, rest) = span is_lower p.1 in
    match-bound p.0 (weekday_index word) (at_clock rest) w (weekday_index-bound word) e

-- A zone whose dates and times agree: a clock of a date falls on that date, and a later date is a
-- later time.
module _ (z : Zone) (date-at : (d h m : ℕ) → h < 24 → m < 60 → z.date_of (z.at d h m) ≡ d)
    (later : (t u : ℕ) → z.date_of t < z.date_of u → t < u) where
  ahead-after :
      (d h m now n : ℕ)
      → z.date_of now ≡ d
      → h < 24
      → m < 60
      → (n ≡ 0 → now < z.at d h m)
      → now < z.at (d + n) h m
  ahead-after d h m now zero e x y f = subst (λ k. now < z.at k h m) (omega arith) (f refl)
  ahead-after d h m now (suc n) e x y f =
      later now (z.at (d + suc n) h m) (rw (date-at (d + suc n) h m x y, e) omega arith)

  abbrev Meets : WeekdayMatch → ℕ → ℕ → Type 0
  Meets w now t =
      (now < t) × (weekday (z.date_of t) ≡ w.wday) × Within w.next (z.date_of t - z.date_of now)

  clock-Meets :
      (w : WeekdayMatch) (now h m : ℕ)
      → w.wday < 7
      → h < 24
      → m < 60
      → Meets w now (z.at (z.date_of now + days_ahead w.next w.wday h m now z) h m)
  clock-Meets w now h m b x y =
      let n = days_ahead w.next w.wday h m now z in
      let d = z.date_of now in
      (
        ahead-after d h m now n refl x y (days_ahead-later w.next w.wday h m now z),
        rw (date-at (d + n) h m x y) (days_ahead-weekday w.next w.wday h m now z b),
        rw (date-at (d + n) h m x y)
            (subst (Within w.next) (omega arith) (days_ahead-Within w.next w.wday h m now z b)),
      )

  -- For a zone whose dates and times agree: a text of the weekday form with a valid clock gives the
  -- clock of a date that is the weekday it names. The time is after now. The date is at most 7 days
  -- ahead without the word "next", and from 7 to 13 days ahead with it.
  pub try_parse_weekday-date :
      (s : Text) (now h m : ℕ) (w : WeekdayMatch)
      → weekday_natural (lower s) ≡ some w
      → resolve_clock w.clock ≡ ok (h, m)
      → (t : ℕ) × (try_parse_weekday s now z ≡ ok (some t))
        × Meets w now t
        × (z.at (z.date_of t) h m ≡ t)
  unfolding try_parse_weekday weekday_time
  try_parse_weekday-date s now h m w e f =
      let (x, y) = resolve_clock-bound w.clock h m f in
      let d = z.date_of now + days_ahead w.next w.wday h m now z in
      (
        z.at d h m,
        rw (try_parse_weekday, e, f) refl,
        clock-Meets w now h m (natural-bound (lower s) w e) x y,
        ap (λ k. z.at k h m) (date-at d h m x y),
      )
