-- ===== src/Tools/Parser/Markers.antt =====
-- The search for the markers of a pattern, over texts that are put together of pieces.
use tinker_box.Base.{
  ℕ, ◌-◌, ◌≡◌, ◌≢◌, refl, ap, ◌∙◌, Bool, true, false, Option, none, some, [], ◌∷◌, ◌++◌, arith, All,
  length, length-append, Text, span, lstrip, rstrip, strip, is_space,
}
use tinker_box.Tools.Parser.Anchors.{matches, some_of}

module _ {A : Type 0} (anchor : Text → Option (A × Text)) where
  -- The pattern begins with one of the characters of `opens`.
  abbrev pub Opens : (ℕ → Type 0) → Type 0
  Opens P = (c : ℕ) (s : Text) → P c → anchor (c ∷ s) ≡ none

  pub matches-none :
      (c : ℕ) (s : Text) → anchor (c ∷ s) ≡ none → matches anchor 0 (c ∷ s) ≡ matches anchor 0 s
  unfolding matches
  matches-none c s e = rw (e, matches)

  pub matches-append :
      (P : ℕ → Type 0) (t s : Text)
      → Opens P
      → All P t
      → matches anchor 0 (t ++ s) ≡ matches anchor 0 s
  matches-append P [] s o h = refl
  matches-append P (c ∷ t) s o h =
      matches-none c (t ++ s) (o c (t ++ s) h.0) ∙ matches-append P t s o h.1

  pub matches-skip : (t s : Text) → matches anchor (length t) (t ++ s) ≡ matches anchor 0 s
  unfolding matches
  matches-skip [] s = refl
  matches-skip (c ∷ t) s = matches-skip t s

  -- A match, and what is found behind it.
  pub matches-some :
      (c : ℕ) (t s : Text) (a : A)
      → anchor (c ∷ t ++ s) ≡ some (a, s)
      → matches anchor 0 (c ∷ t ++ s) ≡ (a, s) ∷ matches anchor 0 s
  unfolding matches
  matches-some c t s a e =
      let n : length (t ++ s) - length s ≡ length t = omega (arith, length-append t s) in
      rw (e, matches, n) (ap (λ l. (a, s) ∷ l) (matches-skip t s))

-- A name, followed by a character that is none of a name.
pub span-append :
    (p : ℕ → Bool) (t : Text) (c : ℕ) (s : Text)
    → All (λ d. p d ≡ true) t
    → p c ≡ false
    → span p (t ++ c ∷ s) ≡ (t, c ∷ s)
unfolding span
span-append p [] c s h e = rw e
span-append p (d ∷ t) c s h e = rw (span-append p t c s h.1 e, h.0)

pub some_of-append :
    (p : ℕ → Bool) (t : Text) (c : ℕ) (s : Text)
    → t ≢ []
    → All (λ d. p d ≡ true) t
    → p c ≡ false
    → some_of p (t ++ c ∷ s) ≡ some (t, c ∷ s)
unfolding some_of
some_of-append p [] c s ne h e = absurd (ne refl)
some_of-append p (d ∷ t) c s ne h e =
    ap (λ (r : Text × Text). elim r.0 [ [] ↦ none | x ∷ y ↦ some (x ∷ y, r.1) ])
      (span-append p (d ∷ t) c s h e)

rstrip-snoc : (s : Text) (c : ℕ) → is_space c ≡ false → rstrip (s ++ c ∷ []) ≡ s ++ c ∷ []
unfolding rstrip
rstrip-snoc [] c e = ground arith
rstrip-snoc (d ∷ []) c e = ground arith
rstrip-snoc (d ∷ f ∷ s) c e = rw (rstrip-snoc (f ∷ s) c e)

-- A text between two characters that are no white space.
pub strip-between :
    (c d : ℕ) (s : Text)
    → is_space c ≡ false
    → is_space d ≡ false
    → strip (c ∷ s ++ d ∷ []) ≡ c ∷ s ++ d ∷ []
unfolding strip lstrip
strip-between c d s e f = rw e (rstrip-snoc (c ∷ s) d f)
