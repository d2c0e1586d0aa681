-- ===== src/Base/Texts.antt =====
-- Python texts as lists of code points, compared by a decision.
use Prim.Native.Char.{code}
use Prim.Native.String.{String}
use Prim.Native.Nat.{ℕ, zero, suc, ◌-◌}
use mathlib.Core.Bool.{Bool, true, false, ◌&&◌}
use tinker_box.Base.Tests.{◌==◌, if◌then◌else◌}
use tinker_box.Base.Lists.{length}
use mathlib.Core.List.{List, [], ◌∷◌}
use mathlib.Core.Path.{refl, sym, ap₂}
use mathlib.Core.Logic.{◌≢◌}
use native.Mathlib.Decide.{ℕ_discrete}

abbrev pub Text : Type 0
Text = List ℕ

-- A literal of the source, as code points.
abbrev pub codes : String → Text
codes String.[] = []
codes (String.◌∷◌ c s) = code c ∷ codes s

pub cons_ne_head : {x y : ℕ} {s t : Text} → x ≢ y → x ∷ s ≢ y ∷ t
cons_ne_head h e = h (cc)

pub cons_ne_tail : {x y : ℕ} {s t : Text} → s ≢ t → x ∷ s ≢ y ∷ t
cons_ne_tail h e = h (cc)

pub nil_ne_cons : {x : ℕ} {s : Text} → [] ≢ x ∷ s
nil_ne_cons e = cc

unfoldable pub text_dec : Discrete Text
unfolding ℕ_discrete
text_dec [] [] = yes refl
text_dec [] (y ∷ t) = no nil_ne_cons
text_dec (x ∷ s) [] = no (λ e. nil_ne_cons (sym e))
text_dec (x ∷ s) (y ∷ t) = elim (ℕ_discrete x y) [
  | no ne ↦ no (cons_ne_head ne)
  | yes e ↦ elim (text_dec s t) [ no ne ↦ no (cons_ne_tail ne) | yes e' ↦ yes (ap₂ ◌∷◌ e e') ]
]

-- `s.startswith(prefix)`
unfoldable pub starts_with : Text → Text → Bool
starts_with [] s = true
starts_with (c ∷ p) [] = false
starts_with (c ∷ p) (d ∷ s) = c == d && starts_with p s

-- `s.replace(pattern, "")` for a pattern that is not empty; `skip` counts what is left of an
-- occurrence.
unfoldable pub erase_all : Text → ℕ → Text → Text
unfolding starts_with
erase_all pattern skip [] = []
erase_all pattern (suc skip) (c ∷ s) = erase_all pattern skip s
erase_all pattern zero (c ∷ s) =
    let kept = c ∷ erase_all pattern zero s in
    let erased = erase_all pattern (length pattern - 1) s in
    if starts_with pattern (c ∷ s) then erased else kept
