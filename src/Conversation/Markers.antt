-- ===== src/Conversation/Markers.antt =====
-- dragon_voice/conversation.py: what of an answer is streamed at once, and what is held back since a
-- tool call may begin there. The texts are ASCII.
use tinker_box.Base.{
  ℕ, zero, suc, ◌-◌, max, Bool, true, false, Option, none, some, List, [], ◌∷◌, ◌++◌, map, length,
  take, drop, if◌then◌else◌, ite, ltb, ◌==◌, Text, codes, text_dec, starts_with, after, lstrip,
  lower,
}
use mathlib.Core.Option

abbrev pub tool_marker_openers_static : List Text
tool_marker_openers_static =
    codes "<tool>" ∷ codes "[tool>" ∷ codes "<tool]" ∷ codes "[tool]" ∷ codes "<tool_call>" ∷ []

-- `s.find(op)`
unfoldable pub find : Text → Text → Option ℕ
unfolding starts_with
find op [] = if starts_with op [] then some 0 else none
find op (c ∷ s) =
    let rest = Option.map suc (find op s) in if starts_with op (c ∷ s) then some 0 else rest

-- `s.endswith(p)`
unfoldable pub ends_with : Text → Text → Bool
unfolding text_dec
ends_with p s = ite (text_dec (drop (length s - length p) s) p) true false

-- The earliest complete opener, if it comes before `hold_at`.
unfoldable pub earliest : List Text → Text → ℕ → ℕ
unfolding find
earliest [] s hold_at = hold_at
earliest (op ∷ ops) s hold_at =
    let next : ℕ = elim (find op s) [
      | none ↦ hold_at
      | some idx ↦ if ltb idx hold_at then idx else hold_at
    ] in
    earliest ops s next

-- `for partial_len in range(…)`: the first start of the opener that the window ends with.
unfoldable pub tail_partial : Text → Text → ℕ → ℕ → Option ℕ
unfolding ends_with
tail_partial op window partial_len zero = none
tail_partial op window partial_len (suc n) =
    let rest = tail_partial op window (suc partial_len) n in
    if ends_with (take partial_len op) window then some partial_len else rest

unfoldable pub earliest_tail : List Text → Text → Text → ℕ → ℕ
unfolding tail_partial
earliest_tail [] window s hold_at = hold_at
earliest_tail (op ∷ ops) window s hold_at =
    let next : ℕ = elim (tail_partial op window 1 (length op - 1)) [
      | none ↦ hold_at
      | some k ↦ if ltb (length s - k) hold_at then length s - k else hold_at
    ] in
    earliest_tail ops window s next

abbrev pub max_op_len : List Text → ℕ
max_op_len [] = 0
max_op_len (op ∷ ops) = max (length op) (max_op_len ops)

-- Where the text is cut.
unfoldable pub hold_at : List Text → Text → ℕ
unfolding earliest earliest_tail
hold_at registered_tool_names s =
    let static_openers = tool_marker_openers_static in
    let dialect3_openers = map (λ n. codes "[" ++ (n ++ codes "]")) registered_tool_names in
    let complete = earliest (static_openers ++ dialect3_openers) s (length s) in
    let window = drop (length s - max_op_len static_openers) s in
    earliest_tail static_openers window s complete

unfoldable pub split_at_marker_boundary : List Text → Text → Text × Text
unfolding hold_at
split_at_marker_boundary registered_tool_names s =
    let k = hold_at registered_tool_names s in (take k s, drop k s)

-- The loop over the tokens of an answer: what is yielded, and what is held at the end.
unfoldable pub stream : List Text → Text → List Text → List Text × Text
unfolding split_at_marker_boundary
stream names held [] = ([], held)
stream names held (token ∷ tokens) =
    let (flushable, held') = split_at_marker_boundary names (held ++ token) in
    let (yielded, last) = stream names held' tokens in
    (elim flushable [ [] ↦ yielded | c ∷ t ↦ (c ∷ t) ∷ yielded ], last)

-- `"".join(l)`
abbrev pub join : List Text → Text
join [] = []
join (t ∷ l) = t ++ join l

-- What is behind `prefix`, in upper or lower case.
unfoldable pub after_any_case : Text → Text → Option Text
after_any_case p s = elim (after p (lower (take (length p) s))) [
  | none ↦ none
  | some _ ↦ some (drop (length p) s)
]

-- `[\s\S]*?</args>\s*>?`, and what stands behind
unfoldable pub close_args : Text → Option Text
unfolding after_any_case lstrip
close_args [] = none
close_args (c ∷ s) = elim (after_any_case (codes "</args>") (c ∷ s)) [
  | none ↦ close_args s
  | some rest ↦ some (elim (lstrip rest) [ [] ↦ [] | d ∷ t ↦ if d == b'>' then t else d ∷ t ])
]

abbrev pub orelse : {A : Type 0} → Option A → Option A → Option A
orelse none o = o
orelse (some a) o = some a

-- `[\s\S]*?</tool>\s*<args>` and the rest of the pattern
unfoldable pub close_tool : Text → Option Text
unfolding after_any_case lstrip close_args
close_tool [] = none
close_tool (c ∷ s) =
    let here : Option Text = elim (after_any_case (codes "</tool>") (c ∷ s)) [
      | none ↦ none
      | some rest ↦ elim (after_any_case (codes "<args>") (lstrip rest)) [
        | none ↦ none
        | some body ↦ close_args body
      ]
    ] in
    orelse here (close_tool s)

-- `_TOOL_MARKUP_RE.sub("", text)`; `skip` counts what is left of a match.
unfoldable pub strip_from : ℕ → Text → Text
unfolding after_any_case close_tool
strip_from skip [] = []
strip_from (suc skip) (c ∷ s) = strip_from skip s
strip_from zero (c ∷ s) = elim (after_any_case (codes "<tool>") (c ∷ s)) [
  | none ↦ c ∷ strip_from zero s
  | some body ↦ elim (close_tool body) [
    | none ↦ c ∷ strip_from zero s
    | some rest ↦ strip_from (length s - length rest) s
  ]
]

unfoldable pub strip_tool_markup : Text → Text
unfolding strip_from
strip_tool_markup = strip_from 0
