-- ===== src/Scheduler/Parser/Durations.antt =====
-- The short relative form: "30s", "1h30m".
use tinker_box.Base.{
  ℕ, ◌+◌, ◌-◌, ◌*◌, ◌≤◌, ◌≡◌, ◌∙◌, refl, ap, Bool, true, false, Option, some, List, [], ◌∷◌, ◌++◌,
  arith, Text, All, is_digit, is_space, strip, lstrip, rstrip,
}
use tinker_box.Scheduler.Parser.{
  Zone, Result, ok, orelse, max_future, try_parse_relative, check_far_future, parse_stripped,
  parse_when,
}
use tinker_box.Scheduler.Parser.Patterns.{value, unit_seconds, durations}

pub data TimeUnit : Type 0 where
  seconds minutes hours days : TimeUnit

pub record Part : Type 0 where
  pub first : ℕ
  pub digits : List ℕ
  pub time_unit : TimeUnit

abbrev pub letter : TimeUnit → ℕ
letter seconds = b's'
letter minutes = b'm'
letter hours = b'h'
letter days = b'd'

abbrev pub factor : TimeUnit → ℕ
factor seconds = 1
factor minutes = 60
factor hours = 60 * 60
factor days = 24 * (60 * 60)

abbrev pub IsDigit : ℕ → Type 0
IsDigit c = is_digit c ≡ true

abbrev pub IsPart : Part → Type 0
IsPart p = IsDigit p.first × All IsDigit p.digits

-- A duration as it is written, and the seconds it stands for.
unfoldable pub print : Part → List Part → Text
print p [] = p.first ∷ p.digits ++ letter p.time_unit ∷ []
print p (q ∷ ps) = p.first ∷ p.digits ++ letter p.time_unit ∷ print q ps

unfoldable pub total : Part → List Part → ℕ
total p [] = value 0 (p.first ∷ p.digits) * factor p.time_unit
total p (q ∷ ps) = value 0 (p.first ∷ p.digits) * factor p.time_unit + total q ps

durations-unit :
    (u : TimeUnit) (n sum : ℕ) (s : Text)
    → durations true n sum (letter u ∷ s) ≡ durations false 0 (sum + n * factor u) s
unfolding durations unit_seconds
durations-unit seconds n sum s = refl
durations-unit minutes n sum s = refl
durations-unit hours n sum s = refl
durations-unit days n sum s = refl

durations-digit :
    (seen : Bool) (c n sum : ℕ) (s : Text)
    → IsDigit c
    → durations seen n sum (c ∷ s) ≡ durations true (n * 10 + (c - b'0')) sum s
unfolding durations
durations-digit seen c n sum s h = rw h

durations-digits :
    (t s : Text) (n sum : ℕ)
    → All IsDigit t
    → durations true n sum (t ++ s) ≡ durations true (value n t) sum s
durations-digits [] s n sum h = refl
durations-digits (c ∷ t) s n sum h =
    durations-digit true c n sum (t ++ s) h.0 ∙ durations-digits t s (n * 10 + (c - b'0')) sum h.1

durations-part :
    (p : Part) (sum : ℕ) (s : Text)
    → IsPart p
    → durations false 0 sum (p.first ∷ p.digits ++ letter p.time_unit ∷ s)
      ≡ durations false 0 (sum + value 0 (p.first ∷ p.digits) * factor p.time_unit) s
durations-part p sum s h =
    durations-digit false p.first 0 sum _ h.0
    ∙ durations-digits p.digits _ (0 * 10 + (p.first - b'0')) sum h.1
    ∙ durations-unit p.time_unit _ sum s

durations-print :
    (p : Part) (ps : List Part) (sum : ℕ)
    → IsPart p
    → All IsPart ps
    → durations false 0 sum (print p ps) ≡ some (sum + total p ps)
unfolding print total durations
durations-print p [] sum h hs = durations-part p sum [] h
durations-print p (q ∷ ps) sum h hs =
    durations-part p sum (print q ps) h ∙ durations-print q ps _ hs.0 hs.1 ∙ ap some (omega arith)

abbrev IsSolid : ℕ → Type 0
IsSolid c = is_space c ≡ false

rstrip-solid : (s : Text) → All IsSolid s → rstrip s ≡ s
unfolding rstrip
rstrip-solid [] h = refl
rstrip-solid (c ∷ []) h = rw (h.0) refl
rstrip-solid (c ∷ d ∷ s) h = rw (rstrip-solid (d ∷ s) h.1)

strip-solid : (s : Text) → All IsSolid s → strip s ≡ s
unfolding strip lstrip
strip-solid [] h = rstrip-solid [] tt
strip-solid (c ∷ s) h = rw (h.0) (rstrip-solid (c ∷ s) h)

digit-IsSolid : (c : ℕ) → IsDigit c → IsSolid c
digit-IsSolid c h = ground arith

letter-IsSolid : (u : TimeUnit) → IsSolid (letter u)
letter-IsSolid seconds = refl
letter-IsSolid minutes = refl
letter-IsSolid hours = refl
letter-IsSolid days = refl

part-IsSolid :
    (c : ℕ) (t : List ℕ) (u : TimeUnit) (s : Text)
    → IsDigit c
    → All IsDigit t
    → All IsSolid s
    → All IsSolid (c ∷ t ++ letter u ∷ s)
part-IsSolid c [] u s h hs k = (digit-IsSolid c h, (letter-IsSolid u, k))
part-IsSolid c (d ∷ t) u s h hs k = (digit-IsSolid c h, part-IsSolid d t u s hs.0 hs.1 k)

print-IsSolid : (p : Part) (ps : List Part) → IsPart p → All IsPart ps → All IsSolid (print p ps)
unfolding print
print-IsSolid p [] h hs = part-IsSolid p.first p.digits p.time_unit [] h.0 h.1 tt
print-IsSolid p (q ∷ ps) h hs =
    part-IsSolid p.first p.digits p.time_unit (print q ps) h.0 h.1 (print-IsSolid q ps hs.0 hs.1)

relative-some :
    (c : Text) (now n : ℕ)
    → durations false 0 0 c ≡ some n
    → try_parse_relative c now ≡ ok (some (now + n * 1000))
unfolding try_parse_relative
relative-some c now n e = rw (try_parse_relative, e)

orelse-some :
    {r : Result (Option ℕ)} {t : ℕ} (check : ℕ → Result ℕ) (rest : Result ℕ)
    → r ≡ ok (some t)
    → orelse r check rest ≡ check t
orelse-some check rest e = ap (λ r. orelse r check rest) e

far-ok : (now n : ℕ) → n ≤ max_future → check_far_future now (now + n) ≡ ok (now + n)
unfolding check_far_future
far-ok now n h = ground arith

stripped-relative :
    (x : ℕ) (c : Text) (now n : ℕ) (z : Zone)
    → durations false 0 0 (x ∷ c) ≡ some n
    → n * 1000 ≤ max_future
    → parse_stripped (x ∷ c) now z ≡ ok (now + n * 1000)
unfolding parse_stripped
stripped-relative x c now n z e h =
    orelse-some (check_far_future now) _ (relative-some (x ∷ c) now n e) ∙ far-ok now (n * 1000) h

print-stripped :
    (p : Part) (ps : List Part) (now n : ℕ) (z : Zone)
    → durations false 0 0 (print p ps) ≡ some n
    → n * 1000 ≤ max_future
    → parse_stripped (print p ps) now z ≡ ok (now + n * 1000)
unfolding print
print-stripped p [] now n z e h = stripped-relative _ _ now n z e h
print-stripped p (q ∷ ps) now n z e h = stripped-relative _ _ now n z e h

-- A duration of one part or more, each a number in decimal digits and one of the letters "smhd",
-- is read back: the reminder is due after the sum of its parts, if that is at most 365 days.
-- A letter may come more than once.
pub parse_when-print :
    (p : Part) (ps : List Part) (now : ℕ) (z : Zone)
    → IsPart p
    → All IsPart ps
    → total p ps * 1000 ≤ max_future
    → parse_when (print p ps) now z ≡ ok (now + total p ps * 1000)
unfolding parse_when
parse_when-print p ps now z h hs l =
    rw (strip-solid (print p ps) (print-IsSolid p ps h hs)) (
      print-stripped p ps now (total p ps) z (durations-print p ps 0 h hs ∙ ap some (omega arith))
        l)
