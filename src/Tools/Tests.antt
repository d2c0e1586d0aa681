-- ===== src/Tools/Tests.antt =====
-- The parser of tool calls on small inputs: each theorem at a case.
use tinker_box.Base.{ℕ, ◌≡◌, refl, Option, none, some, [], ◌∷◌, arith, take, Text, codes}
use tinker_box.Tools.Value.{Value, obj, end}
use tinker_box.Tools.Parser.{has_tool_call}
use tinker_box.Tools.Parser.{ToolCall, parse_tool_calls_with_errors}
use tinker_box.Tools.Parser.Walks.{walk_json}
use tinker_box.Tools.Parser.Balanced.{Body, Quoted, object, walk_json-object}
use tinker_box.Tools.Parser.Stops.{walk_json-stops}
use tinker_box.Tools.Parser.RoundTrip.{print_call, parse_tool_calls_with_errors-print_call}

-- {"}":{}}
abbrev nested : Body
nested =
    Body.quoted (Quoted.plain b'}' (λ e. omega (arith, e)) (λ e. omega (arith, e)) Quoted.done) (
      Body.plain b':' (λ e. omega (arith, e)) (λ e. omega (arith, e)) (λ e. omega (arith, e))
        (Body.braces Body.done Body.done))

walk_json-object_example :
    (n : ℕ) × (walk_json (object nested (codes " {")) ≡ some n)
    × (take n (object nested (codes " {")) ≡ object nested [])
walk_json-object_example = walk_json-object nested (codes " {")

walk_json-stops_example : (b : Body) × (k : Text) × (codes "{{}} and" ≡ object b k)
unfolding walk_json
walk_json-stops_example = walk_json-stops (codes "{{}} and") 4 refl

-- A `json.loads` that knows one text.
abbrev loads : Text → Option Value
loads s = some (obj end)

parse_tool_calls_with_errors-print_call_example :
    parse_tool_calls_with_errors loads
      (λ s. none)
      (codes "recall" ∷ [])
      (print_call (codes "recall") nested)
    ≡ (record { tool = codes "recall"; args = obj end } ∷ [], [])
unfolding tinker_box.Tools.Parser.Balanced.print
parse_tool_calls_with_errors-print_call_example =
    parse_tool_calls_with_errors-print_call loads (λ s. none) (codes "recall" ∷ []) (codes "recall")
      nested (obj end) (λ e. cc) (refl, (refl, (refl, (refl, (refl, (refl, tt)))))) (omega arith)
      refl
