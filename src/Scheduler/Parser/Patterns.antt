-- ===== src/Scheduler/Parser/Patterns.antt =====
-- dragon_voice/scheduler/parser.py: the patterns, each with the numbers that its groups make. The
-- patterns that ignore case are matched on a text in lower case.
use tinker_box.Base.{
  ℕ, ◌+◌, ◌-◌, ◌*◌, Bool, true, false, ◌&&◌, Option, none, some, List, [], ◌∷◌, ◌==◌, if◌then◌else◌,
  ite, Text, codes, text_dec, is_space, is_digit, is_lower, lstrip, after, span,
}
use mathlib.Core.Option

infixl 5 ◌>>=◌
abbrev pub ◌>>=◌ : {A B : Type 0} → Option A → (A → Option B) → Option B
none >>= f = none
some a >>= f = f a

abbrev pub value : ℕ → List ℕ → ℕ
value acc [] = acc
value acc (c ∷ s) = value (acc * 10 + (c - b'0')) s

-- _UNIT_TO_SECONDS
unfoldable pub unit_seconds : ℕ → Option ℕ
unit_seconds c =
    if c == b's'
    then some 1
    else if c == b'm'
    then some 60
    else if c == b'h'
    then some 3600
    else if c == b'd'
    then some 86400
    else none

-- `^(?:\d+[smhd])+$` and the sum over its parts: `seen` tells whether a digit was read since the
-- last unit, and `n` is the number that the digits make.
unfoldable pub durations : Bool → ℕ → ℕ → Text → Option ℕ
unfolding unit_seconds
durations seen n total [] = if seen then none else some total
durations seen n total (c ∷ s) =
    let digit = durations true (n * 10 + (c - b'0')) total s in
    if is_digit c
    then digit
    else if seen
    then elim (unit_seconds c) [ none ↦ none | some u ↦ durations false 0 (total + n * u) s ]
    else none

-- `\d+`
unfoldable pub number : Text → Option (ℕ × Text)
unfolding span
number s = let (a, b) = span is_digit s in elim a [ [] ↦ none | c ∷ t ↦ some (value 0 (c ∷ t), b) ]

-- `\s+`
unfoldable pub spaces : Text → Option Text
unfolding lstrip
spaces [] = none
spaces (c ∷ s) = if is_space c then some (lstrip s) else none

-- `\s*$`
unfoldable pub ends : Text → Option (Unit {0})
unfolding lstrip
ends s = elim (lstrip s) [ [] ↦ some tt | _ ∷ _ ↦ none ]

-- `(second|minute|hour|day)s?`, as its seconds
unfoldable pub verbose_unit : Text → Option (ℕ × Text)
unfolding after
verbose_unit s =
    let plural : ℕ → Text → Option (ℕ × Text) =
      λ u t. elim (after (codes "s") t) [ none ↦ some (u, t) | some t' ↦ some (u, t') ] in
    elim (after (codes "second") s) [
      | some t ↦ plural 1 t
      | none ↦ elim (after (codes "minute") s) [
        | some t ↦ plural 60 t
        | none ↦ elim (after (codes "hour") s) [
          | some t ↦ plural 3600 t
          | none ↦ elim (after (codes "day") s) [ some t ↦ plural 86400 t | none ↦ none ]
        ]
      ]
    ]

-- _VERBOSE_PREFIX
unfoldable pub verbose_prefix : Text → Option ℕ
unfolding after spaces number verbose_unit ends
verbose_prefix s = do
  s1 ← after (codes "in") (lstrip s)
  s2 ← spaces s1
  (n, s3) ← number s2
  s4 ← spaces s3
  (u, s5) ← verbose_unit s4
  z ← ends s5
  some (n * u)

-- `(?:from\s+now|later)`
unfoldable pub from_now : Text → Option Text
unfolding after spaces
from_now s = elim (after (codes "later") s) [
  | some t ↦ some t
  | none ↦ do s1 ← after (codes "from") s; s2 ← spaces s1; after (codes "now") s2
]

-- _VERBOSE_SUFFIX
unfoldable pub verbose_suffix : Text → Option ℕ
unfolding spaces number verbose_unit ends from_now lstrip
verbose_suffix s = do
  (n, s1) ← number (lstrip s)
  s2 ← spaces s1
  (u, s3) ← verbose_unit s2
  s4 ← spaces s3
  s5 ← from_now s4
  z ← ends s5
  some (n * u)

pub data Half : Type 0 where
  am pm neither : Half

-- An hour, a minute and the half of the day, as written.
pub record Clock : Type 0 where
  pub hour : ℕ
  pub minute : ℕ
  pub half : Half

-- One or two digits.
unfoldable pub short_number : Text → Option (ℕ × Text)
short_number [] = none
short_number (c ∷ []) = if is_digit c then some (c - b'0', []) else none
short_number (c ∷ d ∷ s) =
    if is_digit c
    then (if is_digit d then some ((c - b'0') * 10 + (d - b'0'), s) else some (c - b'0', d ∷ s))
    else none

-- `(?::(\d{2}))?`
unfoldable pub minutes : Text → ℕ × Text
minutes (c ∷ d ∷ e ∷ s) =
    if c == b':' && is_digit d && is_digit e
    then ((d - b'0') * 10 + (e - b'0'), s)
    else (0, c ∷ d ∷ e ∷ s)
minutes s = (0, s)

-- `(am|pm)?`
unfoldable pub half_of : Text → Half × Text
unfolding after
half_of s = elim (after (codes "am") s) [
  | some t ↦ (am, t)
  | none ↦ elim (after (codes "pm") s) [ some t ↦ (pm, t) | none ↦ (neither, s) ]
]

-- `(\d{1,2})(?::(\d{2}))?\s*(am|pm)?\s*$`
unfoldable pub clock : Text → Option Clock
unfolding short_number minutes half_of ends lstrip
clock s = do
  (hour, s1) ← short_number s
  let (minute, s2) = minutes s1
  let (half, s3) = half_of (lstrip s2)
  z ← ends s3
  some (record { hour = hour; minute = minute; half = half })

-- `\s+at\s+`
unfoldable pub at_clock : Text → Option Clock
unfolding spaces after clock
at_clock s = do s1 ← spaces s; s2 ← after (codes "at") s1; s3 ← spaces s2; clock s3

-- Today, or tomorrow: the number of days ahead.
unfoldable pub day_word : Text → Option (ℕ × Text)
unfolding after
day_word s = elim (after (codes "today") s) [
  | some t ↦ some (0, t)
  | none ↦ Option.map (λ t. (1, t)) (after (codes "tomorrow") s)
]

-- _NATURAL
unfoldable pub natural : Text → Option (ℕ × Clock)
unfolding day_word at_clock lstrip
natural s = do (days, s1) ← day_word (lstrip s); c ← at_clock s1; some (days, c)

-- _WEEKDAY_INDEX, which has the words of the pattern
unfoldable pub weekday_index : Text → Option ℕ
unfolding text_dec
weekday_index t =
    let one : ℕ → Text → Option ℕ → Option ℕ = λ n w rest. ite (text_dec t w) (some n) rest in
    one 0 (codes "mon") (
      one 0 (codes "monday") (
        one 1 (codes "tue") (
          one 1 (codes "tues") (
            one 1 (codes "tuesday") (
              one 2 (codes "wed") (
                one 2 (codes "wednesday") (
                  one 3 (codes "thu") (
                    one 3 (codes "thurs") (
                      one 3 (codes "thursday") (
                        one 4 (codes "fri") (
                          one 4 (codes "friday") (
                            one 5 (codes "sat") (
                              one 5 (codes "saturday")
                                (one 6 (codes "sun") (one 6 (codes "sunday") none)))))))))))))))

pub record WeekdayMatch : Type 0 where
  pub next : Bool
  pub wday : ℕ
  pub clock : Clock

-- `(?P<next>next\s+)?`
unfoldable pub next_prefix : Text → Bool × Text
unfolding after spaces
next_prefix s = elim (after (codes "next") s >>= spaces) [ some t ↦ (true, t) | none ↦ (false, s) ]

-- _WEEKDAY_NATURAL; the word ends where its letters do, since white space has to follow
unfoldable pub weekday_natural : Text → Option WeekdayMatch
unfolding next_prefix span weekday_index at_clock lstrip
weekday_natural s = do
  let (next, s1) = next_prefix (lstrip s)
  let (word, s2) = span is_lower s1
  wday ← weekday_index word
  c ← at_clock s2
  some (record { next = next; wday = wday; clock = c })

-- _TOD_DEFAULT_HOUR
unfoldable pub tod_hour : Text → Option (ℕ × Text)
unfolding after
tod_hour s = elim (after (codes "morning") s) [
  | some t ↦ some (9, t)
  | none ↦ elim (after (codes "afternoon") s) [
    | some t ↦ some (13, t)
    | none ↦ elim (after (codes "evening") s) [
      | some t ↦ some (19, t)
      | none ↦ elim (after (codes "night") s) [ some t ↦ some (21, t) | none ↦ none ]
    ]
  ]
]

-- `(?:\s+(?P<tod>…))?\s*$`: the hour, if there is one
unfoldable pub tod_suffix : Text → Option (Option ℕ)
unfolding spaces tod_hour ends
tod_suffix s = elim (spaces s >>= tod_hour) [
  | some (hour, t) ↦ ends t >>= λ z. some (some hour)
  | none ↦ ends s >>= λ z. some none
]

-- _TOD_NATURAL: the days ahead and the hour
unfoldable pub tod_natural : Text → Option (ℕ × ℕ)
unfolding after day_word tod_suffix lstrip
tod_natural s = elim (after (codes "tonight") (lstrip s)) [
  | some t ↦ tod_suffix t >>= λ tod. some (0, 19)
  | none ↦ do (days, t) ← day_word (lstrip s); tod ← tod_suffix t; hour ← tod; some (days, hour)
]
