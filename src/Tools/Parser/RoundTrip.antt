-- ===== src/Tools/Parser/RoundTrip.antt =====
-- A tool call that is printed in the legacy dialect is read back.
use mathlib.Core.List.{append_assoc}
use tinker_box.Base.{
  ℕ, ◌≡◌, ◌≢◌, refl, sym, ap, ◌∙◌, true, Option, none, some, List, [], ◌∷◌, ◌++◌, arith, All, Text,
  codes, after, lstrip, strip, is_word,
}
use tinker_box.Tools.Value.{Value, Fields}
use tinker_box.Tools.Parser.{
  call, object_at, found_legacy, calls_of, errors_of, parse_tool_calls_with_errors,
}
use tinker_box.Tools.Parser.Anchors.{
  matches, finditer, anchor_legacy, anchor_std, anchor_gemma, anchor_lfm, anchor_bracket,
}
use tinker_box.Tools.Parser.Balanced.{Body, object, print, print-append, walk_json-object}
use tinker_box.Tools.Parser.Markers.{
  Opens, matches-none, matches-append, matches-some, some_of-append, strip-between,
}

-- The characters of a name and of an object that holds no marker.
abbrev pub IsPlain : ℕ → Type 0
IsPlain c = (c ≢ b'<') × (c ≢ b'[')

-- The legacy dialect.
unfoldable pub print_call : Text → Body → Text
print_call name b =
    codes "<tool>" ++ (name ++ (codes "</tool>" ++ (codes "<args>" ++ object b (codes "</args>"))))

opens_legacy : Opens anchor_legacy IsPlain
unfolding anchor_legacy
opens_legacy c s (x, y) = ground arith

opens_std : Opens anchor_std IsPlain
unfolding anchor_std
opens_std c s (x, y) = ground arith

opens_gemma : Opens anchor_gemma IsPlain
unfolding anchor_gemma
opens_gemma c s (x, y) = ground arith

opens_lfm : Opens anchor_lfm IsPlain
unfolding anchor_lfm
opens_lfm c s (x, y) = ground arith

opens_bracket : (c : ℕ) (s : Text) → c ≢ b'[' → anchor_bracket (c ∷ s) ≡ none
unfolding anchor_bracket
opens_bracket c s x = ground arith

-- A pattern that no tag of the legacy dialect starts finds nothing in a printed call.
module _ {A : Type 0} (anchor : Text → Option (A × Text)) (opens : Opens anchor IsPlain) where
  tag :
      (t s : Text)
      → anchor (b'<' ∷ t ++ s) ≡ none
      → All IsPlain t
      → matches anchor 0 (b'<' ∷ t ++ s) ≡ matches anchor 0 s
  tag t s h o = matches-none anchor b'<' (t ++ s) h ∙ matches-append anchor IsPlain t s opens o

  -- What is found in a text, once the object and the closing tag behind it hold nothing.
  object-markers :
      (b : Body)
      → anchor (codes "</args>") ≡ none
      → All IsPlain (object b [])
      → matches anchor 0 (object b (codes "</args>")) ≡ []
  unfolding matches
  object-markers b h o =
      ap (matches anchor 0) (ap (◌∷◌ b'{') (sym (print-append b (b'}' ∷ []) (codes "</args>"))))
      ∙ matches-append anchor IsPlain (object b []) (codes "</args>") opens o
      ∙ tag (codes "/args>") [] h (omega arith)

  no_markers :
      (name : Text) (b : Body)
      → ((s : Text) → anchor (codes "<tool>" ++ s) ≡ none)
      → ((s : Text) → anchor (codes "</tool>" ++ s) ≡ none)
      → ((s : Text) → anchor (codes "<args>" ++ s) ≡ none)
      → anchor (codes "</args>") ≡ none
      → All IsPlain name
      → All IsPlain (object b [])
      → finditer anchor (print_call name b) ≡ []
  unfolding print_call
  no_markers name b h1 h2 h3 h4 n o =
      let s3 = object b (codes "</args>") in
      let s2 = codes "</tool>" ++ (codes "<args>" ++ s3) in
      tag (codes "tool>") (name ++ s2) (h1 (name ++ s2)) (omega arith)
      ∙ matches-append anchor IsPlain name s2 opens n
      ∙ tag (codes "/tool>") (codes "<args>" ++ s3) (h2 (codes "<args>" ++ s3)) (omega arith)
      ∙ tag (codes "args>") s3 (h3 s3) (omega arith)
      ∙ object-markers b h4 o

word-IsPlain : (name : Text) → All (λ c. is_word c ≡ true) name → All IsPlain name
word-IsPlain [] h = tt
word-IsPlain (c ∷ s) h = (ground arith, word-IsPlain s h.1)

legacy-print_call :
    (name : Text) (b : Body)
    → name ≢ []
    → All (λ c. is_word c ≡ true) name
    → anchor_legacy (print_call name b) ≡ some (name, object b (codes "</args>"))
unfolding anchor_legacy print_call after lstrip
legacy-print_call name b ne h =
    let s = codes "/tool>" ++ (codes "<args>" ++ object b (codes "</args>")) in
    rw (some_of-append is_word name b'<' s ne h refl)

no_std :
    (name : Text) (b : Body)
    → All IsPlain name
    → All IsPlain (object b [])
    → finditer anchor_std (print_call name b) ≡ []
unfolding anchor_std after
no_std name b n o =
    no_markers anchor_std opens_std name b (λ s. refl) (λ s. refl) (λ s. refl) refl n o

no_gemma :
    (name : Text) (b : Body)
    → All IsPlain name
    → All IsPlain (object b [])
    → finditer anchor_gemma (print_call name b) ≡ []
unfolding anchor_gemma after
no_gemma name b n o =
    no_markers anchor_gemma opens_gemma name b (λ s. refl) (λ s. refl) (λ s. refl) refl n o

no_lfm :
    (name : Text) (b : Body)
    → All IsPlain name
    → All IsPlain (object b [])
    → finditer anchor_lfm (print_call name b) ≡ []
unfolding anchor_lfm after
no_lfm name b n o =
    no_markers anchor_lfm opens_lfm name b (λ s. refl) (λ s. refl) (λ s. refl) refl n o

no_bracket :
    (name : Text) (b : Body)
    → All IsPlain name
    → All IsPlain (object b [])
    → finditer anchor_bracket (print_call name b) ≡ []
unfolding anchor_bracket after
no_bracket name b n o =
    no_markers anchor_bracket (λ c s h. opens_bracket c s h.1) name b (λ s. refl) (λ s. refl)
      (λ s. refl) refl n o

regroup :
    (name s : Text)
    → codes "<tool>" ++ (name ++ (codes "</tool>" ++ (codes "<args>" ++ s)))
      ≡ b'<' ∷ (codes "tool>" ++ (name ++ (codes "</tool>" ++ codes "<args>"))) ++ s
regroup name s = simp append_assoc

end_tag : anchor_legacy (codes "</args>") ≡ none
unfolding anchor_legacy after
end_tag = refl

strip-object : (b : Body) → strip (object b []) ≡ object b []
strip-object b =
    let e : object b [] ≡ b'{' ∷ print b [] ++ b'}' ∷ [] =
      ap (◌∷◌ b'{') (sym (print-append b [] (b'}' ∷ []))) in
    ap strip e ∙ strip-between b'{' b'}' (print b []) refl refl ∙ sym e

one_legacy :
    (name : Text) (b : Body)
    → name ≢ []
    → All (λ c. is_word c ≡ true) name
    → All IsPlain (object b [])
    → finditer anchor_legacy (print_call name b) ≡ (name, object b (codes "</args>")) ∷ []
unfolding print_call
one_legacy name b ne h o =
    let s = object b (codes "</args>") in
    let t = codes "tool>" ++ (name ++ (codes "</tool>" ++ codes "<args>")) in
    let e : print_call name b ≡ b'<' ∷ t ++ s = regroup name s in
    ap (matches anchor_legacy 0) e
    ∙ matches-some anchor_legacy b'<' t s name
        (ap anchor_legacy (sym e) ∙ legacy-print_call name b ne h)
    ∙ ap (λ l. (name, s) ∷ l) (object-markers anchor_legacy opens_legacy b end_tag o)

module _ (loads : Text → Option Value) (keywords : Text → Option Fields) where
  object_at-object :
      (b : Body) (k : Text) → object_at loads keywords (object b k) ≡ some (loads (object b []))
  unfolding object_at
  object_at-object b k =
      let (n, e, f) = walk_json-object b k in rw (e, f) (ap (λ s. some (loads s)) (strip-object b))

  read :
      (name : Text) (b : Body) (v : Value)
      → loads (object b []) ≡ some v
      → found_legacy loads keywords (name, object b (codes "</args>"))
        ≡ call (record { tool = name; args = v })
  unfolding found_legacy
  read name b v l = rw (object_at-object b (codes "</args>"), found_legacy, l)

  -- Whatever is registered, a call that is printed in the legacy dialect is read back as that call,
  -- with the arguments that `json.loads` makes of the object, and without an error: if the name
  -- consists of word characters and neither of the characters that open a marker is in the object.
  pub parse_tool_calls_with_errors-print_call :
      (registered_names : List Text) (name : Text) (b : Body) (v : Value)
      → name ≢ []
      → All (λ c. is_word c ≡ true) name
      → All IsPlain (object b [])
      → loads (object b []) ≡ some v
      → parse_tool_calls_with_errors loads keywords registered_names (print_call name b)
        ≡ (record { tool = name; args = v } ∷ [], [])
  unfolding parse_tool_calls_with_errors
  parse_tool_calls_with_errors-print_call registered_names name b v ne h o l =
      let n = word-IsPlain name h in
      rw
        (
          one_legacy name b ne h o,
          no_std name b n o,
          no_gemma name b n o,
          no_lfm name b n o,
          no_bracket name b n o,
        )
        (ap (λ f. (calls_of (f ∷ []), errors_of (f ∷ []))) (read name b v l))
