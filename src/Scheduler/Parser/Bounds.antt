-- ===== src/Scheduler/Parser/Bounds.antt =====
-- When a reminder is due, whatever the text and the zone.
use mathlib.Core.Option
use tinker_box.Base.{ℕ, ◌+◌, ◌*◌, ◌≤◌, Option, none, some, [], ◌∷◌, arith, Text, strip, lower}
use tinker_box.Scheduler.Parser.{
  Zone, Result, ok, err, orelse, max_future, try_parse_relative, try_parse_verbose_relative,
  try_parse_iso, try_parse_natural, try_parse_weekday, try_parse_time_of_day, check_far_future,
  check_both, parse_stripped, parse_when,
}
use tinker_box.Scheduler.Parser.Patterns.{verbose_prefix, verbose_suffix}

-- A result is neither past nor more than 365 days ahead.
abbrev pub InRange : ℕ → Result ℕ → Type 0
InRange now (ok t) = (now ≤ t) × (t ≤ now + max_future)
InRange now (err e) = Unit

both-InRange : (now t : ℕ) → InRange now (check_both now t)
unfolding check_both check_far_future
both-InRange now t = ground arith

far-InRange : (now n : ℕ) → InRange now (check_far_future now (now + n))
unfolding check_far_future
far-InRange now n = ground arith

-- A form of the grammar that gives only times from `now` on.
abbrev Ahead : ℕ → Result (Option ℕ) → Type 0
Ahead now (ok (some t)) = now ≤ t
Ahead now (ok none) = Unit
Ahead now (err e) = Unit

far-Ahead : (now t : ℕ) → now ≤ t → InRange now (check_far_future now t)
unfolding check_far_future
far-Ahead now t h = ground arith

orelse-far :
    (now : ℕ) (r : Result (Option ℕ)) (rest : Result ℕ)
    → Ahead now r
    → InRange now rest
    → InRange now (orelse r (check_far_future now) rest)
orelse-far now (ok (some t)) rest a h = far-Ahead now t a
orelse-far now (ok none) rest a h = h
orelse-far now (err e) rest a h = tt

orelse-both :
    (now : ℕ) (r : Result (Option ℕ)) (rest : Result ℕ)
    → InRange now rest
    → InRange now (orelse r (check_both now) rest)
orelse-both now (ok (some t)) rest h = both-InRange now t
orelse-both now (ok none) rest h = h
orelse-both now (err e) rest h = tt

relative-Ahead : (s : Text) (now : ℕ) → Ahead now (try_parse_relative s now)
unfolding try_parse_relative
relative-Ahead s now = ground arith

either-Ahead :
    (now : ℕ) (a b : Option ℕ)
    → Ahead now
        (ok (elim a [ some n ↦ some (now + n * 1000) | none ↦ Option.map (λ n. now + n * 1000) b ]))
either-Ahead now (some n) b = omega arith
either-Ahead now none (some n) = omega arith
either-Ahead now none none = tt

verbose-Ahead : (s : Text) (now : ℕ) → Ahead now (ok (try_parse_verbose_relative s now))
unfolding try_parse_verbose_relative
verbose-Ahead s now = either-Ahead now (verbose_prefix (lower s)) (verbose_suffix (lower s))

stripped-InRange : (c : Text) (now : ℕ) (z : Zone) → InRange now (parse_stripped c now z)
unfolding parse_stripped
stripped-InRange [] now z = tt
stripped-InRange (x ∷ xs) now z =
    orelse-far now (try_parse_relative (x ∷ xs) now) _ (relative-Ahead (x ∷ xs) now) (
      orelse-far now (ok (try_parse_verbose_relative (x ∷ xs) now)) _ (verbose-Ahead (x ∷ xs) now) (
        orelse-both now (ok (try_parse_iso (x ∷ xs) z)) _ (
          orelse-both now (try_parse_natural (x ∷ xs) now z) _ (
            orelse-both now (try_parse_weekday (x ∷ xs) now z) _
              (orelse-both now (ok (try_parse_time_of_day (x ∷ xs) now z)) _ tt)))))

-- What `parse_when` returns lies between now and 365 days ahead, for every text and every zone: the
-- relative forms, which are not checked for the past, never reach back.
pub parse_when-InRange : (s : Text) (now : ℕ) (z : Zone) → InRange now (parse_when s now z)
unfolding parse_when
parse_when-InRange s now z = stripped-InRange (strip s) now z
