-- ===== src/Surfaces/Manager/Drain.antt =====
-- What awaiting a list of callables comes to, said without the loop of `mark_turn_end`: each runs on
-- the world that those before it left, whether they failed or not, up to the first that is cancelled.
use tinker_box.Base.{◌≡◌, ◌≢◌, ◌⊎◌, refl, ap, ◌∙◌, inl, inr, List, [], ◌∷◌, ◌++◌, arith}
use tinker_box.Surfaces.Outcome.{
  cancelled, connection_error, other, Outcome, done, raised, Emit, swallow,
}
use tinker_box.Surfaces.Manager.{drain}

Outcome-cases : (r : Outcome) → (r ≡ raised cancelled) ⊎ (r ≢ raised cancelled)
Outcome-cases done = inr (λ e. cc)
Outcome-cases (raised cancelled) = inl refl
Outcome-cases (raised connection_error) = inr (λ e. cc)
Outcome-cases (raised other) = inr (λ e. cc)

module _ {W : Type 0} where
  -- The world after all of them, each run once.
  abbrev pub run_each : List (Emit W) → W → W
  run_each [] w = w
  run_each (f ∷ l) w = run_each l (f w).1

  -- None is cancelled where its turn comes. One may fail otherwise.
  abbrev pub NoneCancelled : List (Emit W) → W → Type 0
  NoneCancelled [] w = Unit
  NoneCancelled (f ∷ l) w = ((f w).0 ≢ raised cancelled) × NoneCancelled l (f w).1

  -- All have run, or all up to one that was cancelled, and none behind it.
  abbrev pub Ran : List (Emit W) → W → Outcome × W → Type 0
  Ran l w s =
      (NoneCancelled l w × (s ≡ (done, run_each l w)))
      ⊎ ((before after : List (Emit W)) × (f : Emit W) × (l ≡ before ++ f ∷ after)
          × NoneCancelled before w
          × ((f (run_each before w)).0 ≡ raised cancelled)
          × (s ≡ (raised cancelled, (f (run_each before w)).1)))

  drain_nil : (w : W) → drain [] w ≡ (done, w)
  unfolding drain
  drain_nil w = refl

  drain_cut :
      (f : Emit W) (l : List (Emit W)) (w : W)
      → (f w).0 ≡ raised cancelled
      → drain (f ∷ l) w ≡ (raised cancelled, (f w).1)
  unfolding drain swallow
  drain_cut f l w e = ground arith

  drain_on :
      (f : Emit W) (l : List (Emit W)) (w : W)
      → (f w).0 ≢ raised cancelled
      → drain (f ∷ l) w ≡ drain l (f w).1
  unfolding drain swallow
  drain_on f l w e = ground arith

  pub drain-Ran : (l : List (Emit W)) (w : W) → Ran l w (drain l w)
  drain-Ran [] w = inl (tt, drain_nil w)
  drain-Ran (f ∷ l) w = elim (Outcome-cases (f w).0) [
    | inl cut ↦ inr ([], l, f, refl, tt, cut, drain_cut f l w cut)
    | inr on ↦ elim (drain-Ran l (f w).1) [
      | inl (none_cut, e) ↦ inl ((on, none_cut), drain_on f l w on ∙ e)
      | inr (before, after, g, parts, none_cut, cut, e) ↦
          inr (
            f ∷ before,
            after,
            g,
            ap (λ x. f ∷ x) parts,
            (on, none_cut),
            cut,
            drain_on f l w on ∙ e,
          )
    ]
  ]
