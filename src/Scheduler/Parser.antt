-- ===== src/Scheduler/Parser.antt =====
-- dragon_voice/scheduler/parser.py: the texts that say when a reminder is due. The texts are ASCII;
-- a time is in milliseconds, as in the notifications. A zone of `datetime` is a parameter: a date
-- is its ordinal, the number of days that `toordinal` gives. The patterns that ignore case are
-- matched on the text in lower case.
pub mod Patterns
pub mod Bounds
pub mod Weekday
pub mod Durations
mod Tests
use tinker_box.Base.{
  ℕ, zero, suc, ◌+◌, ◌-◌, ◌*◌, ◌%◌, ◌≤◌, Bool, true, false, not, ◌&&◌, ◌||◌, Option, none, some,
  List, [], ◌∷◌, ltb, leb, ◌==◌, if◌then◌else◌, ite, length, Text, codes, text_dec, starts_with,
  is_space, is_digit, is_lower, lstrip, strip, lower, contains, after, span,
}
use mathlib.Core.Option
use tinker_box.Scheduler.Parser.Patterns.{
  ◌>>=◌, value, unit_seconds, durations, number, spaces, ends, verbose_unit, verbose_prefix,
  from_now, verbose_suffix, Half, am, pm, neither, Clock, short_number, minutes, half_of, clock,
  at_clock, day_word, natural, weekday_index, WeekdayMatch, next_prefix, weekday_natural, tod_hour,
  tod_suffix, tod_natural,
}

-- What the code asks of `datetime` with the zone of the server: the date of a time, and the time of
-- a date, an hour and a minute. `iso` is `fromisoformat`, a bare time read in the zone.
pub record Zone : Type 0 where
  pub date_of : ℕ → ℕ
  pub at : ℕ → ℕ → ℕ → ℕ
  pub iso : Text → Option ℕ

pub data Error : Type 0 where
  empty negative bad_clock past far_future unparseable : Error

pub data Result (A : Type 0) : Type 0 where
  ok : A → Result A
  err : Error → Result A

unfoldable pub try_parse_relative : Text → ℕ → Result (Option ℕ)
unfolding durations starts_with
try_parse_relative s now = elim (durations false 0 0 s) [
  | some seconds ↦ ok (some (now + seconds * 1000))
  | none ↦ if starts_with (codes "-") s then err negative else ok none
]

unfoldable pub try_parse_verbose_relative : Text → ℕ → Option ℕ
unfolding verbose_prefix verbose_suffix lower
try_parse_verbose_relative s now = elim (verbose_prefix (lower s)) [
  | some seconds ↦ some (now + seconds * 1000)
  | none ↦ Option.map (λ seconds. now + seconds * 1000) (verbose_suffix (lower s))
]

unfoldable pub try_parse_iso : Text → Zone → Option ℕ
unfolding contains
try_parse_iso s z = if not (contains (codes "T") s) || ltb (length s) 10 then none else z.iso s

-- `_resolve_clock`: the hour of 24, or an error
unfoldable pub resolve_clock : Clock → Result (ℕ × ℕ)
resolve_clock c =
    let hour : ℕ = elim c.half [
      | pm ↦ if c.hour == 12 then 12 else c.hour + 12
      | am ↦ if c.hour == 12 then 0 else c.hour
      | neither ↦ c.hour
    ] in
    if leb hour 23 && leb c.minute 59 then ok (hour, c.minute) else err bad_clock

unfoldable pub try_parse_natural : Text → ℕ → Zone → Result (Option ℕ)
unfolding natural resolve_clock lower
try_parse_natural s now z = elim (natural (lower s)) [
  | none ↦ ok none
  | some (days, c) ↦ elim (resolve_clock c) [
    | err e ↦ err e
    | ok (hour, minute) ↦ ok (some (z.at (z.date_of now + days) hour minute))
  ]
]

-- `date.weekday()`: the ordinal 1 is a Monday
abbrev pub weekday : ℕ → ℕ
weekday date = (date + 6) % 7

-- How many days the date lies ahead.
unfoldable pub days_ahead : Bool → ℕ → ℕ → ℕ → ℕ → Zone → ℕ
days_ahead next target hour minute now z =
    let days = (target + 7 - weekday (z.date_of now)) % 7 in
    let days' = if days == 0 && leb (z.at (z.date_of now) hour minute) now then 7 else days in
    if next && ltb days' 7 then days' + 7 else days'

-- `_try_parse_weekday` behind the match.
unfoldable pub weekday_time : Result (ℕ × ℕ) → WeekdayMatch → ℕ → Zone → Result (Option ℕ)
unfolding days_ahead
weekday_time (err e) w now z = err e
weekday_time (ok (hour, minute)) w now z =
    ok (some (z.at (z.date_of now + days_ahead w.next w.wday hour minute now z) hour minute))

unfoldable pub try_parse_weekday : Text → ℕ → Zone → Result (Option ℕ)
unfolding weekday_natural resolve_clock weekday_time lower
try_parse_weekday s now z = elim (weekday_natural (lower s)) [
  | none ↦ ok none
  | some w ↦ weekday_time (resolve_clock w.clock) w now z
]

unfoldable pub try_parse_time_of_day : Text → ℕ → Zone → Option ℕ
unfolding tod_natural lower
try_parse_time_of_day s now z =
    Option.map (λ (d : ℕ × ℕ). z.at (z.date_of now + d.0) d.1 0) (tod_natural (lower s))

-- _MAX_FUTURE_SECONDS, in milliseconds
abbrev pub max_future : ℕ
max_future = 31536000000

unfoldable pub check_far_future : ℕ → ℕ → Result ℕ
check_far_future now t = if ltb max_future (t - now) then err far_future else ok t

-- `_check_past`, and `_check_far_future` behind it
unfoldable pub check_both : ℕ → ℕ → Result ℕ
unfolding check_far_future
check_both now t = if ltb t now then err past else check_far_future now t

-- One form of the grammar: its result is checked, an error ends the parse, and a text that is not
-- of the form goes on.
abbrev pub orelse : Result (Option ℕ) → (ℕ → Result ℕ) → Result ℕ → Result ℕ
orelse (err e) check rest = err e
orelse (ok (some t)) check rest = check t
orelse (ok none) check rest = rest

-- `parse_when` on the text that is left of its argument.
unfoldable pub parse_stripped : Text → ℕ → Zone → Result ℕ
unfolding try_parse_relative try_parse_verbose_relative try_parse_iso try_parse_natural
    try_parse_weekday try_parse_time_of_day check_far_future check_both
parse_stripped [] now z = err empty
parse_stripped (x ∷ xs) now z = orelse (try_parse_relative (x ∷ xs) now) (check_far_future now) (
    orelse (ok (try_parse_verbose_relative (x ∷ xs) now)) (check_far_future now) (
      orelse (ok (try_parse_iso (x ∷ xs) z)) (check_both now) (
        orelse (try_parse_natural (x ∷ xs) now z) (check_both now) (
          orelse (try_parse_weekday (x ∷ xs) now z) (check_both now) (
            orelse (ok (try_parse_time_of_day (x ∷ xs) now z)) (check_both now)
              (err unparseable))))))

unfoldable pub parse_when : Text → ℕ → Zone → Result ℕ
unfolding parse_stripped strip
parse_when s = parse_stripped (strip s)
