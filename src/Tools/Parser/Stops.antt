-- ===== src/Tools/Parser/Stops.antt =====
-- Where `_walk_json` finds an end, the text starts with an object in balanced braces.
use mathlib.Core.Option
use mathlib.Core.Path.{subst}
use tinker_box.Base.{
  ℕ, zero, suc, ◌≡◌, ◌≢◌, refl, sym, ap, ◌∙◌, Bool, true, false, Option, none, some, [], ◌∷◌, arith,
  Text, ℕ_discrete,
}
use tinker_box.Tools.Parser.Walks.{advance, walk, walk_json}
use tinker_box.Tools.Parser.Balanced.{
  Quoted, Body, quoted, braces, print, print_quoted, object, inside, outside,
}

-- The text closes `d` braces, one after the other.
abbrev Closes : ℕ → Text → Type 0
Closes zero s = Unit
Closes (suc d) s = (b : Body) × (k : Text) × (s ≡ print b (b'}' ∷ k)) × Closes d k

abbrev Unquotes : ℕ → Text → Type 0
Unquotes d s = (q : Quoted) × (k : Text) × (s ≡ print_quoted q k) × Closes d k

is_found : Option ℕ → Bool
is_found none = false
is_found (some n) = true

found-map : (o : Option ℕ) → is_found (Option.map suc o) ≡ is_found o
unfolding is_found
found-map none = refl
found-map (some n) = refl

nothing_found : (d : ℕ) → is_found (walk (outside (suc d)) []) ≢ true
unfolding walk is_found
nothing_found d h = cc

nothing_found_in : (d : ℕ) → is_found (walk (inside (suc d)) []) ≢ true
unfolding walk is_found
nothing_found_in d h = cc

-- The walk behind the next character.
module _ (d c : ℕ) (s : Text) where
  abbrev Out : ℕ → Type 0
  Out n = is_found (walk (outside n) s) ≡ true

  abbrev In : ℕ → Type 0
  In n = is_found (walk (inside n) s) ≡ true

  out_quote : is_found (walk (outside (suc d)) (c ∷ s)) ≡ true → c ≡ b'"' → In (suc d)
  unfolding walk advance is_found
  out_quote h e = ground (arith, found-map (walk (inside (suc d)) s))

  Out-open : is_found (walk (outside (suc d)) (c ∷ s)) ≡ true → c ≡ b'{' → Out (suc (suc d))
  unfolding walk advance is_found
  Out-open h e = ground (arith, found-map (walk (outside (suc (suc d))) s))

  Out-plain :
      is_found (walk (outside (suc d)) (c ∷ s)) ≡ true
      → c ≢ b'"'
      → c ≢ b'{'
      → c ≢ b'}'
      → Out (suc d)
  unfolding walk advance is_found
  Out-plain h x y z = ground (arith, found-map (walk (outside (suc d)) s))

  in_quote : is_found (walk (inside (suc d)) (c ∷ s)) ≡ true → c ≡ b'"' → Out (suc d)
  unfolding walk advance is_found
  in_quote h e = ground (arith, found-map (walk (outside (suc d)) s))

  In-plain : is_found (walk (inside (suc d)) (c ∷ s)) ≡ true → c ≢ b'"' → c ≢ b'\\' → In (suc d)
  unfolding walk advance is_found
  In-plain h x y = ground (arith, found-map (walk (inside (suc d)) s))

out_close :
    (d c : ℕ) (s : Text)
    → is_found (walk (outside (suc (suc d))) (c ∷ s)) ≡ true
    → c ≡ b'}'
    → is_found (walk (outside (suc d)) s) ≡ true
unfolding walk advance is_found
out_close d c s h e = ground (arith, found-map (walk (outside (suc d)) s))

in_escaped :
    (d c e : ℕ) (s : Text)
    → is_found (walk (inside (suc d)) (c ∷ e ∷ s)) ≡ true
    → c ≡ b'\\'
    → is_found (walk (inside (suc d)) s) ≡ true
unfolding walk advance is_found
in_escaped d c e s h f = ground (
  arith,
  found-map (walk (record { depth = suc d; in_str = true; esc = true }) (e ∷ s)),
  found-map (walk (inside (suc d)) s),
)

in_escape_end : (d c : ℕ) → c ≡ b'\\' → is_found (walk (inside (suc d)) (c ∷ [])) ≢ true
unfolding walk advance is_found
in_escape_end d c e h = ground arith

module _ (d : ℕ) (s : Text) where
  quote-Closes : Unquotes (suc d) s → Closes (suc d) (b'"' ∷ s)
  unfolding print
  quote-Closes (q, k, f, (b, k', g, rest)) =
      (quoted q b, k', ap (◌∷◌ b'"') (f ∙ ap (print_quoted q) g), rest)

  open-Closes : Closes (suc (suc d)) s → Closes (suc d) (b'{' ∷ s)
  unfolding print
  open-Closes (a, k, f, (b, k', g, rest)) =
      (braces a b, k', ap (◌∷◌ b'{') (f ∙ ap (λ t. print a (b'}' ∷ t)) g), rest)

  close-Closes : Closes d s → Closes (suc d) (b'}' ∷ s)
  unfolding print
  close-Closes rest = (Body.done, s, refl, rest)

  plain-Closes :
      (c : ℕ) → c ≢ b'"' → c ≢ b'{' → c ≢ b'}' → Closes (suc d) s → Closes (suc d) (c ∷ s)
  unfolding print
  plain-Closes c x y z (b, k, f, rest) = (Body.plain c x y z b, k, ap (◌∷◌ c) f, rest)

  quote-Unquotes : Closes d s → Unquotes d (b'"' ∷ s)
  unfolding print_quoted
  quote-Unquotes rest = (Quoted.done, s, refl, rest)

  plain-Unquotes : (c : ℕ) → c ≢ b'"' → c ≢ b'\\' → Unquotes d s → Unquotes d (c ∷ s)
  unfolding print_quoted
  plain-Unquotes c x y (q, k, f, rest) = (Quoted.plain c x y q, k, ap (◌∷◌ c) f, rest)

  escaped-Unquotes : (c : ℕ) → Unquotes d s → Unquotes d (b'\\' ∷ c ∷ s)
  unfolding print_quoted
  escaped-Unquotes c (q, k, f, rest) = (Quoted.escaped c q, k, ap (λ t. b'\\' ∷ c ∷ t) f, rest)

Closes-rest :
    (d c : ℕ) (s : Text)
    → ((e : ℕ) → is_found (walk (outside (suc e)) s) ≡ true → Closes (suc e) s)
    → is_found (walk (outside (suc d)) (c ∷ s)) ≡ true
    → c ≡ b'}'
    → Closes d s
Closes-rest zero c s rec h e = tt
Closes-rest (suc d) c s rec h e = rec d (out_close d c s h e)

mutual
  Closes-walk : (s : Text) (d : ℕ) → is_found (walk (outside (suc d)) s) ≡ true → Closes (suc d) s
  Closes-walk [] d h = absurd (nothing_found d h)
  Closes-walk (c ∷ s) d h = elim (ℕ_discrete c b'"') [
    | yes e ↦
        subst (λ x. Closes (suc d) (x ∷ s)) (sym e)
          (quote-Closes d s (Unquotes-walk s d (out_quote d c s h e)))
    | no x ↦ elim (ℕ_discrete c b'{') [
      | yes e ↦
          subst (λ x. Closes (suc d) (x ∷ s)) (sym e)
            (open-Closes d s (Closes-walk s (suc d) (Out-open d c s h e)))
      | no y ↦ elim (ℕ_discrete c b'}') [
        | yes e ↦
            subst (λ x. Closes (suc d) (x ∷ s)) (sym e)
              (close-Closes d s (Closes-rest d c s (Closes-walk s) h e))
        | no z ↦ plain-Closes d s c x y z (Closes-walk s d (Out-plain d c s h x y z))
      ]
    ]
  ]

  Unquotes-walk :
      (s : Text) (d : ℕ) → is_found (walk (inside (suc d)) s) ≡ true → Unquotes (suc d) s
  Unquotes-walk [] d h = absurd (nothing_found_in d h)
  Unquotes-walk (c ∷ s) d h = elim (ℕ_discrete c b'"') [
    | yes e ↦
        subst (λ x. Unquotes (suc d) (x ∷ s)) (sym e)
          (quote-Unquotes (suc d) s (Closes-walk s d (in_quote d c s h e)))
    | no x ↦ elim (ℕ_discrete c b'\\') [
      | no y ↦ plain-Unquotes (suc d) s c x y (Unquotes-walk s d (In-plain d c s h x y))
      | yes e ↦ subst (λ x. Unquotes (suc d) (x ∷ s)) (sym e) (Unquotes-escape s c d h e)
    ]
  ]

  Unquotes-escape :
      (s : Text) (c d : ℕ)
      → is_found (walk (inside (suc d)) (c ∷ s)) ≡ true
      → c ≡ b'\\'
      → Unquotes (suc d) (b'\\' ∷ s)
  Unquotes-escape [] c d h e = absurd (in_escape_end d c e h)
  Unquotes-escape (f ∷ s) c d h e =
      escaped-Unquotes (suc d) s f (Unquotes-walk s d (in_escaped d c f s h e))

-- Where the walk finds an end, the text starts with an object in balanced braces.
pub walk_json-stops :
    (s : Text) (n : ℕ) → walk_json s ≡ some n → (b : Body) × (k : Text) × (s ≡ object b k)
unfolding walk_json walk advance print is_found
walk_json-stops [] n e = cc
walk_json-stops (c ∷ s) n e =
    let opened : c ≡ b'{' = ground (arith, e) in
    let inner : is_found (walk (outside 1) s) ≡ true =
      ground (arith, e, opened, found-map (walk (outside 1) s)) in
    let (b, k, f, rest) = Closes-walk s 0 inner in
    (b, k, subst (λ x. x ∷ s ≡ b'{' ∷ print b (b'}' ∷ k)) (sym opened) (ap (◌∷◌ b'{') f))
