-- ===== src/Tools/Parser.antt =====
-- dragon_voice/tools/parser.py: the markers of tool calls in the output of a language model. The
-- texts are ASCII. `json.loads` and the reading of Python keyword arguments by `ast` are the
-- parameters `loads` and `keywords`, `none` where they raise. The matches of a compiled pattern are
-- a list of what each one captures and the text behind it.
pub mod Walks
pub mod Anchors
pub mod Balanced
pub mod Stops
pub mod Markers
pub mod RoundTrip
pub mod Quick
use tinker_box.Base.{
  contains, ℕ, zero, suc, ◌+◌, ◌-◌, ◌≡◌, Bool, true, false, not, ◌&&◌, ◌||◌, Option, none, some,
  List, [], ◌∷◌, ◌++◌, map, leb, ltb, ◌==◌, if◌then◌else◌, ite, length, take, drop, Text, codes,
  text_dec, starts_with, is_space, is_word, is_lower, is_upper, is_digit, lstrip, strip, contains,
  after, span,
}
use mathlib.Core.Option
use tinker_box.Tools.Value.{Value, Fields, obj, str, end, field_of}
use tinker_box.Tools.Parser.Walks.{
  Walk, advance, closes, walk, walk_json, Parens, advance_parens, closes_parens, walk_parens,
  find_parens,
}
use tinker_box.Tools.Parser.Anchors.{
  matches, finditer, ◌>>=◌, some_of, is_ident, ident, one_of, anchor_legacy, anchor_std,
  anchor_gemma, anchor_lfm, anchor_bracket, is_noise_ident, is_blank,
}

pub record ToolCall : Type 0 where
  pub tool : Text
  pub args : Value

pub data Reason : Type 0 where
  json_decode paren_unbalanced syntax : Reason

pub record ParseError : Type 0 where
  pub dialect : ℕ
  pub name : Option Text
  pub reason : Reason

-- What one marker comes to.
pub data Found : Type 0 where
  call : ToolCall → Found
  fault : ParseError → Found
  nothing : Found

abbrev a_call : Text → Value → Found
a_call name args = call (record { tool = name; args = args })

abbrev a_fault : ℕ → Option Text → Reason → Found
a_fault dialect name reason = fault (record { dialect = dialect; name = name; reason = reason })

-- `if not isinstance(args, dict): args = {}`
abbrev or_empty : Value → Value
or_empty (obj fs) = obj fs
or_empty other = obj end

unfoldable pub is_member : Text → List Text → Bool
unfolding text_dec
is_member t [] = false
is_member t (u ∷ l) = ite (text_dec u t) true false || is_member t l

unfoldable pub calls_of : List Found → List ToolCall
calls_of [] = []
calls_of (f ∷ l) = let rest = calls_of l in elim f [ call c ↦ c ∷ rest | _ ↦ rest ]

unfoldable pub errors_of : List Found → List ParseError
errors_of [] = []
errors_of (f ∷ l) = let rest = errors_of l in elim f [ fault e ↦ e ∷ rest | _ ↦ rest ]

module _ (loads : Text → Option Value) (keywords : Text → Option Fields) where
  -- The object that the text starts with, read: `none` if its braces are not balanced.
  unfoldable pub object_at : Text → Option (Option Value)
  unfolding walk_json strip
  object_at s = Option.map (λ n. loads (strip (take n s))) (walk_json s)

  unfoldable pub found_legacy : Text × Text → Found
  unfolding object_at
  found_legacy (name, s) = elim (object_at s) [
    | none ↦ nothing
    | some none ↦ a_fault 1 (some name) json_decode
    | some (some args) ↦ a_call name args
  ]

  -- `parsed.get("name")`, and `parsed.get("arguments", parsed.get("args", {}))`
  unfoldable pub found_object : Value → Found
  unfolding field_of
  found_object (obj fs) = elim (field_of (codes "name") fs) [
    | some (str (c ∷ name)) ↦ a_call (c ∷ name) (elim (field_of (codes "arguments") fs) [
      | some args ↦ or_empty args
      | none ↦ elim (field_of (codes "args") fs) [ some args ↦ or_empty args | none ↦ obj end ]
    ])
    | _ ↦ nothing
  ]
  found_object other = nothing

  unfoldable pub found_std : Unit {0} × Text → Found
  unfolding object_at found_object
  found_std (u, s) = elim (object_at s) [
    | none ↦ nothing
    | some none ↦ a_fault 2 none json_decode
    | some (some parsed) ↦ found_object parsed
  ]

  unfoldable pub found_gemma : List Text → Text × Text → Found
  unfolding object_at is_member starts_with
  found_gemma registered_names (name, s) =
      let tail = take 16 s in
      if starts_with (codes "{") s
      then elim (object_at s) [
        | none ↦ nothing
        | some none ↦ a_fault 4 (some name) json_decode
        | some (some args) ↦ a_call name (or_empty args)
      ]
      else if (starts_with (codes "()") tail || starts_with (codes "<tool_call|>") tail)
          && (elim registered_names [ [] ↦ true | _ ∷ _ ↦ false ]
              || is_member name registered_names)
      then a_call name (obj end)
      else nothing

  unfoldable pub found_lfm : Text × Text → Found
  unfolding walk_parens strip
  found_lfm (name, s) = elim (walk_parens (record { depth = 1; quote = none; esc = false }) s) [
    | none ↦ a_fault 5 (some name) paren_unbalanced
    | some n ↦ elim (strip (take n s)) [
      | [] ↦ a_call name (obj end)
      | _ ∷ _ ↦ elim (keywords (take n s)) [
        | none ↦ a_fault 5 (some name) syntax
        | some args ↦ a_call name (obj args)
      ]
    ]
  ]

  -- The text behind a bracketed name, white space left out.
  unfoldable pub found_body : Text → Text → Found
  unfolding object_at find_parens is_noise_ident strip
  found_body name [] = nothing
  found_body name (c ∷ s) =
      if c == b'{'
      then elim (object_at (c ∷ s)) [
        | none ↦ nothing
        | some none ↦ a_fault 3 (some name) json_decode
        | some (some args) ↦ elim args [ obj fs ↦ a_call name (obj fs) | _ ↦ nothing ]
      ]
      else elim (find_parens 79 (c ∷ s)) [
        | none ↦ nothing
        | some noise ↦ if is_noise_ident (strip noise) then a_call name (obj end) else nothing
      ]

  unfoldable pub found_bracket : List Text → Text × Text → Found
  unfolding found_body is_member span
  found_bracket registered_names (name, s) =
      if is_member name registered_names then found_body name (span is_blank s).1 else nothing

  -- The dialects in the order of the source: 1, 2, 4, 5, and 3 if there are registered names.
  unfoldable pub found : List Text → Text → List Found
  unfolding anchor_legacy anchor_std anchor_gemma anchor_lfm anchor_bracket matches found_legacy
      found_std found_gemma found_lfm found_bracket
  found registered_names text =
      map found_legacy (finditer anchor_legacy text)
      ++ (map found_std (finditer anchor_std text)
          ++ (map (found_gemma registered_names) (finditer anchor_gemma text)
              ++ (map found_lfm (finditer anchor_lfm text)
                  ++ map (found_bracket registered_names) (finditer anchor_bracket text))))

  unfoldable pub parse_tool_calls_with_errors : List Text → Text → List ToolCall × List ParseError
  unfolding found calls_of errors_of
  parse_tool_calls_with_errors registered_names text =
      let fs = found registered_names text in (calls_of fs, errors_of fs)

  unfoldable pub parse_tool_calls : List Text → Text → List ToolCall
  unfolding parse_tool_calls_with_errors
  parse_tool_calls registered_names text = (parse_tool_calls_with_errors registered_names text).0

-- The test of `has_tool_call` on a bracketed name and the text behind it.
unfoldable pub bracket_call : List Text → Text × Text → Bool
unfolding span contains is_member
bracket_call registered_names (name, s) =
    is_member name registered_names && elim (span is_blank s).1 [
      | [] ↦ false
      | c ∷ t ↦ c == b'{' || contains (codes "()") (take 80 (c ∷ t))
    ]

abbrev pub any : {A : Type 0} → (A → Bool) → List A → Bool
any p [] = false
any p (x ∷ l) = p x || any p l

unfoldable pub has_tool_call : List Text → Text → Bool
unfolding contains anchor_bracket bracket_call matches
has_tool_call registered_names text =
    let has_legacy =
      (contains (codes "<tool>") text
        || contains (codes "[tool>") text
        || contains (codes "[tool]") text
        || contains (codes "<tool]") text)
      && contains (codes "</tool>") text in
    let has_std = contains (codes "<tool_call>") text && contains (codes "</tool_call>") text in
    let has_gemma = contains (codes "<|tool_call>") text in
    let has_lfm = contains (codes "<|tool_call_start|>") text in
    has_legacy
    || (has_std
        || (has_gemma
            || (has_lfm || any (bracket_call registered_names) (finditer anchor_bracket text))))
