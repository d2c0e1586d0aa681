-- ===== src/Tools/Parser/Walks.antt =====
-- dragon_voice/tools/parser.py: where an object in braces and the arguments in parentheses end.
use tinker_box.Base.{
  ℕ, zero, suc, ◌+◌, ◌-◌, Bool, true, false, not, ◌&&◌, ◌||◌, Option, none, some, [], ◌∷◌, ◌==◌,
  if◌then◌else◌, Text, codes, starts_with,
}
use mathlib.Core.Option

-- The state of the walk over a JSON object.
pub record Walk : Type 0 where
  pub depth : ℕ
  pub in_str : Bool
  pub esc : Bool

-- One character, other than the brace that closes the object.
unfoldable pub advance : ℕ → Walk → Walk
advance ch w =
    if w.in_str
    then (if w.esc
        then record w { esc = false }
        else if ch == b'\\'
        then record w { esc = true }
        else if ch == b'"'
        then record w { in_str = false }
        else w)
    else if ch == b'"'
    then record w { in_str = true }
    else if ch == b'{'
    then record w { depth = w.depth + 1 }
    else if ch == b'}'
    then record w { depth = w.depth - 1 }
    else w

abbrev pub closes : ℕ → Walk → Bool
closes ch w = not w.in_str && ch == b'}' && w.depth == 1

unfoldable pub walk : Walk → Text → Option ℕ
unfolding advance
walk w [] = none
walk w (ch ∷ s) =
    let rest = walk (advance ch w) s in if closes ch w then some 1 else Option.map suc rest

-- `_walk_json(text, start)`, as the number of characters from `start`
unfoldable pub walk_json : Text → Option ℕ
unfolding walk
walk_json [] = none
walk_json (ch ∷ s) =
    if ch == b'{' then walk (record { depth = 0; in_str = false; esc = false }) (ch ∷ s) else none

-- The end of the arguments of dialect 5, as the number of characters before the `)`.
pub record Parens : Type 0 where
  pub depth : ℕ
  pub quote : Option ℕ
  pub esc : Bool

unfoldable pub advance_parens : ℕ → Parens → Parens
advance_parens ch w = elim w.quote [
  | some q ↦
      if w.esc
      then record w { esc = false }
      else if ch == b'\\'
      then record w { esc = true }
      else if ch == q
      then record w { quote = none }
      else w
  | none ↦
      if ch == b'"' || ch == b'\''
      then record w { quote = some ch }
      else if ch == b'('
      then record w { depth = w.depth + 1 }
      else if ch == b')'
      then record w { depth = w.depth - 1 }
      else w
]

abbrev pub closes_parens : ℕ → Parens → Bool
closes_parens ch w = elim w.quote [ some q ↦ false | none ↦ true ] && ch == b')' && w.depth == 1

unfoldable pub walk_parens : Parens → Text → Option ℕ
unfolding advance_parens
walk_parens w [] = none
walk_parens w (ch ∷ s) =
    let rest = walk_parens (advance_parens ch w) s in
    if closes_parens ch w then some 0 else Option.map suc rest

-- `text.find("()", i, i + 80)`, as the text before it
unfoldable pub find_parens : ℕ → Text → Option Text
unfolding starts_with
find_parens zero s = none
find_parens (suc n) [] = none
find_parens (suc n) (c ∷ s) =
    let rest = find_parens n s in
    if starts_with (codes "()") (c ∷ s) then some [] else Option.map (λ t. c ∷ t) rest
