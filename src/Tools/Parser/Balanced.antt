-- ===== src/Tools/Parser/Balanced.antt =====
-- `_walk_json` against the grammar of balanced braces.
use mathlib.Core.Option
use tinker_box.Base.{
  ℕ, suc, ◌+◌, ◌≡◌, ◌≢◌, refl, sym, ap, ◌∙◌, true, false, Option, some, [], ◌∷◌, ◌++◌, arith,
  length, take, Text,
}
use tinker_box.Tools.Parser.Walks.{Walk, advance, walk, walk_json}

-- The inside of a text in quotes: characters, and pairs of a backslash and a character.
pub data Quoted : Type 0 where
  done : Quoted
  plain : (c : ℕ) → c ≢ b'"' → c ≢ b'\\' → Quoted → Quoted
  escaped : (c : ℕ) → Quoted → Quoted

-- The inside of braces: characters, quoted texts, and further braces.
pub data Body : Type 0 where
  done : Body
  plain : (c : ℕ) → c ≢ b'"' → c ≢ b'{' → c ≢ b'}' → Body → Body
  quoted : Quoted → Body → Body
  braces : Body → Body → Body

unfoldable pub print_quoted : Quoted → Text → Text
print_quoted Quoted.done k = b'"' ∷ k
print_quoted (Quoted.plain c _ _ q) k = c ∷ print_quoted q k
print_quoted (Quoted.escaped c q) k = b'\\' ∷ c ∷ print_quoted q k

-- `print b k` is the text of `b`, with `k` behind it.
unfoldable pub print : Body → Text → Text
unfolding print_quoted
print Body.done k = k
print (Body.plain c _ _ _ b) k = c ∷ print b k
print (quoted q b) k = b'"' ∷ print_quoted q (print b k)
print (braces a b) k = b'{' ∷ print a (b'}' ∷ print b k)

unfoldable pub size_quoted : Quoted → ℕ
size_quoted Quoted.done = 1
size_quoted (Quoted.plain c _ _ q) = suc (size_quoted q)
size_quoted (Quoted.escaped c q) = suc (suc (size_quoted q))

unfoldable pub size : Body → ℕ
unfolding size_quoted
size Body.done = 0
size (Body.plain c _ _ _ b) = suc (size b)
size (quoted q b) = suc (size_quoted q + size b)
size (braces a b) = suc (size a + suc (size b))

abbrev pub outside : ℕ → Walk
outside n = record { depth = n; in_str = false; esc = false }

abbrev pub inside : ℕ → Walk
inside n = record { depth = n; in_str = true; esc = false }

-- The count of the characters so far goes in front.
abbrev more : ℕ → Option ℕ → Option ℕ
more n = Option.map (λ m. n + m)

walk-quoted :
    (q : Quoted) (n : ℕ) (k : Text)
    → walk (inside n) (print_quoted q k) ≡ more (size_quoted q) (walk (outside n) k)
unfolding walk print_quoted size_quoted advance
walk-quoted Quoted.done n k = ground arith
walk-quoted (Quoted.plain c x y q) n k = ground (arith, walk-quoted q n k)
walk-quoted (Quoted.escaped c q) n k = ground (arith, walk-quoted q n k)

walk-print :
    (b : Body) (n : ℕ) (k : Text)
    → walk (outside (suc n)) (print b k) ≡ more (size b) (walk (outside (suc n)) k)
unfolding walk print size advance
walk-print Body.done n k = ground arith
walk-print (Body.plain c x y z b) n k = ground (arith, walk-print b n k)
walk-print (quoted q b) n k = ground (arith, walk-quoted q (suc n) (print b k), walk-print b n k)
walk-print (braces a b) n k =
    ground (arith, walk-print a (suc n) (b'}' ∷ print b k), walk-print b n k)

length-print_quoted : (q : Quoted) (k : Text) → length (print_quoted q k) ≡ size_quoted q + length k
unfolding print_quoted size_quoted
length-print_quoted Quoted.done k = omega arith
length-print_quoted (Quoted.plain c x y q) k = omega (arith, length-print_quoted q k)
length-print_quoted (Quoted.escaped c q) k = omega (arith, length-print_quoted q k)

abbrev pub object : Body → Text → Text
object b k = b'{' ∷ print b (b'}' ∷ k)

print_quoted-append : (q : Quoted) (k m : Text) → print_quoted q k ++ m ≡ print_quoted q (k ++ m)
unfolding print_quoted
print_quoted-append Quoted.done k m = refl
print_quoted-append (Quoted.plain c x y q) k m = ap (◌∷◌ c) (print_quoted-append q k m)
print_quoted-append (Quoted.escaped c q) k m = ap (λ t. b'\\' ∷ c ∷ t) (print_quoted-append q k m)

pub print-append : (b : Body) (k m : Text) → print b k ++ m ≡ print b (k ++ m)
unfolding print
print-append Body.done k m = refl
print-append (Body.plain c x y z b) k m = ap (◌∷◌ c) (print-append b k m)
print-append (quoted q b) k m =
    ap (◌∷◌ b'"') (print_quoted-append q (print b k) m ∙ ap (print_quoted q) (print-append b k m))
print-append (braces a b) k m =
    ap (◌∷◌ b'{')
      (print-append a (b'}' ∷ print b k) m ∙ ap (λ t. print a (b'}' ∷ t)) (print-append b k m))

length-print : (b : Body) (k : Text) → length (print b k) ≡ size b + length k
unfolding print size
length-print Body.done k = omega arith
length-print (Body.plain c x y z b) k = omega (arith, length-print b k)
length-print (quoted q b) k = omega (arith, length-print_quoted q (print b k), length-print b k)
length-print (braces a b) k = omega (arith, length-print a (b'}' ∷ print b k), length-print b k)

take-append : (s k : Text) (n : ℕ) → n ≡ length s → take n (s ++ k) ≡ s
take-append [] k n e = rw e refl
take-append (c ∷ s) k n e = rw e (ap (◌∷◌ c) (take-append s k (length s) refl))

walk_json-size : (b : Body) (k : Text) → walk_json (object b k) ≡ some (size b + 2)
unfolding walk_json walk advance
walk_json-size b k = ground (arith, walk-print b 0 (b'}' ∷ k))

-- On an object in balanced braces the walk finds its last brace, whatever stands behind it: the
-- text of as many characters is the object.
pub walk_json-object :
    (b : Body) (k : Text)
    → (n : ℕ) × (walk_json (object b k) ≡ some n) × (take n (object b k) ≡ object b [])
walk_json-object b k =
    let e : object b k ≡ object b [] ++ k = ap (◌∷◌ b'{') (sym (print-append b (b'}' ∷ []) k)) in
    (
      size b + 2,
      walk_json-size b k,
      ap (take (size b + 2)) e
          ∙ take-append (object b []) k (size b + 2) (omega (arith, length-print b (b'}' ∷ []))),
    )
