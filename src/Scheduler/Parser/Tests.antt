-- ===== src/Scheduler/Parser/Tests.antt =====
-- The parser of times on small inputs: each theorem at a case, in a zone that is UTC.
use tinker_box.Base.{
  ℕ, ◌+◌, ◌-◌, ◌*◌, ◌/◌, ◌<◌, ◌≡◌, refl, true, none, some, [], ◌∷◌, arith, codes, lower,
}
use tinker_box.Scheduler.Parser.{Zone, ok, weekday, resolve_clock, try_parse_weekday, parse_when}
use tinker_box.Scheduler.Parser.Patterns.{WeekdayMatch, pm, weekday_natural}
use tinker_box.Scheduler.Parser.Bounds.{InRange, parse_when-InRange}
use tinker_box.Scheduler.Parser.Weekday.{Within, try_parse_weekday-date}
use tinker_box.Scheduler.Parser.Durations.{Part, hours, minutes, print, total, parse_when-print}

abbrev utc : Zone
utc = record {
  date_of = λ t. t / 86400000;
  at = λ d h m. d * 86400000 + h * 3600000 + m * 60000;
  iso = λ s. none;
}

utc-date : (d h m : ℕ) → h < 24 → m < 60 → (d * 86400000 + h * 3600000 + m * 60000) / 86400000 ≡ d
utc-date d h m x y = omega arith

utc-later : (t u : ℕ) → t / 86400000 < u / 86400000 → t < u
utc-later t u h = omega arith

parse_when-InRange_example : InRange 5000 (parse_when (codes " 2h ") 5000 utc)
parse_when-InRange_example = parse_when-InRange (codes " 2h ") 5000 utc

abbrev next_friday : WeekdayMatch
next_friday = record { next = true; wday = 4; clock = record { hour = 3; minute = 30; half = pm } }

-- Said on a Thursday, the day 739 of the zone.
try_parse_weekday-date_example :
    (t : ℕ) × (try_parse_weekday (codes "Next Fri at 3:30pm") 63900000000 utc ≡ ok (some t))
    × ((63900000000 < t)
        × (weekday (t / 86400000) ≡ 4)
        × Within true (t / 86400000 - 63900000000 / 86400000))
    × (t / 86400000 * 86400000 + 15 * 3600000 + 30 * 60000 ≡ t)
unfolding weekday_natural lower resolve_clock
try_parse_weekday-date_example =
    try_parse_weekday-date utc utc-date utc-later (codes "Next Fri at 3:30pm") 63900000000 15 30
      next_friday refl refl

abbrev one_hour : Part
one_hour = record { first = b'1'; digits = []; time_unit = hours }

abbrev half_hour : Part
half_hour = record { first = b'3'; digits = b'0' ∷ []; time_unit = minutes }

-- The minutes come twice.
parse_when-print_example :
    parse_when (print one_hour (half_hour ∷ half_hour ∷ [])) 5000 utc
    ≡ ok (5000 + total one_hour (half_hour ∷ half_hour ∷ []) * 1000)
unfolding total
parse_when-print_example =
    parse_when-print one_hour (half_hour ∷ half_hour ∷ []) 5000 utc (refl, tt)
      ((refl, (refl, tt)), ((refl, (refl, tt)), tt)) (omega arith)
