-- ===== src/Tools/Parser/Anchors.antt =====
-- dragon_voice/tools/parser.py: the patterns that open a call.
use tinker_box.Base.{
  ℕ, zero, suc, ◌-◌, Bool, true, false, ◌&&◌, ◌||◌, Option, none, some, List, [], ◌∷◌, leb, ◌==◌,
  if◌then◌else◌, length, Text, codes, is_word, is_lower, is_upper, is_digit, lstrip, after, span,
}

-- `finditer`: from the left, the next match is looked for behind the last one. `skip` counts what
-- is left of a match.
unfoldable pub matches : {A : Type 0} → (Text → Option (A × Text)) → ℕ → Text → List (A × Text)
matches anchor skip [] = []
matches anchor (suc skip) (c ∷ s) = matches anchor skip s
matches anchor zero (c ∷ s) = elim (anchor (c ∷ s)) [
  | none ↦ matches anchor zero s
  | some (a, rest) ↦ (a, rest) ∷ matches anchor (length s - length rest) s
]

abbrev pub finditer : {A : Type 0} → (Text → Option (A × Text)) → Text → List (A × Text)
finditer anchor = matches anchor 0

-- A sequence of steps of a pattern.
infixl 5 ◌>>=◌
abbrev pub ◌>>=◌ : {A B : Type 0} → Option A → (A → Option B) → Option B
none >>= f = none
some a >>= f = f a

-- `x+` for a class of characters
unfoldable pub some_of : (ℕ → Bool) → Text → Option (Text × Text)
unfolding span
some_of p s = let (a, b) = span p s in elim a [ [] ↦ none | c ∷ t ↦ some (c ∷ t, b) ]

abbrev pub is_ident : ℕ → Bool
is_ident c = is_lower c || is_digit c || c == b'_'

-- `[a-z_][a-z0-9_]*`
unfoldable pub ident : Text → Option (Text × Text)
unfolding some_of
ident [] = none
ident (c ∷ s) = if is_lower c || c == b'_' then some_of is_ident (c ∷ s) else none

abbrev pub one_of : ℕ → ℕ → Text → Option Text
one_of a b [] = none
one_of a b (c ∷ s) = if c == a || c == b then some s else none

-- `[<\[]tool[>\]](\w+)</tool>\s*<args>\s*`
unfoldable pub anchor_legacy : Text → Option (Text × Text)
unfolding after some_of lstrip
anchor_legacy s = do
  s1 ← one_of b'<' b'[' s
  s2 ← after (codes "tool") s1
  s3 ← one_of b'>' b']' s2
  (name, s4) ← some_of is_word s3
  s5 ← after (codes "</tool>") s4
  s6 ← after (codes "<args>") (lstrip s5)
  some (name, lstrip s6)

-- `<tool_call>\s*`
unfoldable pub anchor_std : Text → Option (Unit {0} × Text)
unfolding after lstrip
anchor_std s = do s1 ← after (codes "<tool_call>") s; some (tt, lstrip s1)

-- `<\|tool_call>\s*call:\s*([a-z_][a-z0-9_]*)\s*`
unfoldable pub anchor_gemma : Text → Option (Text × Text)
unfolding after ident lstrip
anchor_gemma s = do
  s1 ← after (codes "<|tool_call>") s
  s2 ← after (codes "call:") (lstrip s1)
  (name, s3) ← ident (lstrip s2)
  some (name, lstrip s3)

-- `<\|tool_call_start\|>\s*\[?\s*([a-z_][a-z0-9_]*)\s*\(`
unfoldable pub anchor_lfm : Text → Option (Text × Text)
unfolding after ident lstrip
anchor_lfm s = do
  s1 ← after (codes "<|tool_call_start|>") s
  (name, s2) ←
      ident (lstrip (elim (lstrip s1) [ [] ↦ [] | c ∷ t ↦ if c == b'[' then t else c ∷ t ]))
  s3 ← after (codes "(") (lstrip s2)
  some (name, s3)

-- `\[([a-z_][a-z0-9_]*)\]`
unfoldable pub anchor_bracket : Text → Option (Text × Text)
unfolding after ident
anchor_bracket s = do
  s1 ← after (codes "[") s
  (name, s2) ← ident s1
  s3 ← after (codes "]") s2
  some (name, s3)

-- `^[A-Z][A-Z0-9_]{2,49}$`
unfoldable pub is_noise_ident : Text → Bool
unfolding span
is_noise_ident [] = false
is_noise_ident (c ∷ s) =
    let (a, b) = span (λ d. is_upper d || is_digit d || d == b'_') s in
    is_upper c && leb 2 (length a) && leb (length a) 49 && elim b [ [] ↦ true | _ ∷ _ ↦ false ]

abbrev pub is_blank : ℕ → Bool
is_blank c = c == b' ' || c == b'\t' || c == b'\n' || c == b'\r'
