-- ===== src/Tools/Parser/Quick.antt =====
-- `has_tool_call` against the parser.
use tinker_box.Base.{
  ℕ, zero, suc, ◌≡◌, refl, false, Option, none, List, [], ◌∷◌, arith, Text, codes, after,
  starts_with, contains,
}
use tinker_box.Tools.Parser.{has_tool_call}
use tinker_box.Tools.Parser.Anchors.{matches, finditer, anchor_gemma, anchor_lfm}

-- A pattern that asks for a text first is found only where the text is.
abbrev Asks : {A : Type 0} → (Text → Option (A × Text)) → Text → Type 0
Asks anchor t = (s : Text) → starts_with t s ≡ false → anchor s ≡ none

matches-contains :
    {A : Type 0} (anchor : Text → Option (A × Text)) (t s : Text) (skip : ℕ)
    → Asks anchor t
    → contains t s ≡ false
    → matches anchor skip s ≡ []
unfolding matches contains
matches-contains anchor t [] skip a e = refl
matches-contains anchor t (c ∷ s) (suc skip) a e =
    matches-contains anchor t s skip a (ground (arith, e))
matches-contains anchor t (c ∷ s) zero a e =
    let start : starts_with t (c ∷ s) ≡ false = ground (arith, e) in
    rw (matches, a (c ∷ s) start) (matches-contains anchor t s zero a (ground (arith, e)))

after-starts_with : (t s : Text) → starts_with t s ≡ false → after t s ≡ none
unfolding after starts_with
after-starts_with [] s e = ground arith
after-starts_with (c ∷ t) [] e = refl
after-starts_with (c ∷ t) (d ∷ s) e = ground (arith, e, after-starts_with t s)

gemma-Asks : Asks anchor_gemma (codes "<|tool_call>")
unfolding anchor_gemma
gemma-Asks s e = rw (anchor_gemma, after-starts_with (codes "<|tool_call>") s e) refl

lfm-Asks : Asks anchor_lfm (codes "<|tool_call_start|>")
unfolding anchor_lfm
lfm-Asks s e = rw (anchor_lfm, after-starts_with (codes "<|tool_call_start|>") s e) refl

-- In a text that the quick test refuses, the parser finds no marker of the Gemma dialect and none of the
-- LFM dialect.
pub has_tool_call-misses :
    (registered_names : List Text) (text : Text)
    → has_tool_call registered_names text ≡ false
    → (finditer anchor_gemma text ≡ []) × (finditer anchor_lfm text ≡ [])
unfolding has_tool_call
has_tool_call-misses registered_names text e =
    let gemma : contains (codes "<|tool_call>") text ≡ false = ground (arith, e) in
    let lfm : contains (codes "<|tool_call_start|>") text ≡ false = ground (arith, e) in
    (
      matches-contains anchor_gemma (codes "<|tool_call>") text 0 gemma-Asks gemma,
      matches-contains anchor_lfm (codes "<|tool_call_start|>") text 0 lfm-Asks lfm,
    )
