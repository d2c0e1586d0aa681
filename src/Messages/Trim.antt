-- ===== src/Messages/Trim.antt =====
-- What `trim_context_to_budget` leaves.
use tinker_box.Base.{
  ℕ, zero, suc, ◌-◌, ◌≤◌, ◌<◌, ◌≡◌, refl, ap, ◌⊎◌, inl, inr, Bool-cases, ltb, List, [], ◌∷◌, arith,
  length, drop,
}
use tinker_box.Messages.Context.{
  Entry, tokens, estimate_tokens, drop_oldest, trim_context_to_budget,
}

-- The number of messages behind the first that go: no fewer would do.
module _ (e : Entry) (budget : ℕ) where
  abbrev pub Least : List Entry → ℕ → Type 0
  Least l k = ¬ ((j : ℕ) × (j < k) × (tokens (e ∷ drop j l) ≤ budget))

  Least-suc :
      (f : Entry) (l : List Entry) (k : ℕ)
      → budget < tokens (e ∷ f ∷ l)
      → Least l k
      → Least (f ∷ l) (suc k)
  Least-suc f l k over least (zero, lt, fits) = omega (arith, over, fits)
  Least-suc f l k over least (suc j, lt, fits) = least (j, omega (arith, lt), fits)

  drop_oldest_lem :
      (l : List Entry)
      → (k : ℕ) × (drop_oldest budget (tokens (e ∷ l)) l ≡ drop k l)
        × (k ≤ length l - 1)
        × ((tokens (e ∷ drop k l) ≤ budget) ⊎ (length (drop k l) ≤ 1))
        × Least l k
  unfolding drop_oldest tokens
  drop_oldest_lem [] = (0, refl, omega arith, inr (omega arith), λ h. omega (arith, h.1))
  drop_oldest_lem (f ∷ []) = (0, refl, omega arith, inr (omega arith), λ h. omega (arith, h.1))
  drop_oldest_lem (f ∷ g ∷ l) = elim (Bool-cases (ltb budget (tokens (e ∷ f ∷ g ∷ l)))) [
    | inr fits ↦ (0, rw fits refl, omega arith, inl (ground arith), λ h. omega (arith, h.1))
    | inl over ↦
        let (k, is, short, end, least) = drop_oldest_lem (g ∷ l) in
        let same : tokens (e ∷ f ∷ g ∷ l) - estimate_tokens f.content ≡ tokens (e ∷ g ∷ l) =
          omega arith in
        (
          suc k,
          rw (over, same) is,
          omega (arith, short),
          end,
          Least-suc f (g ∷ l) k (ground arith) least,
        )
  ]

-- The trimmed context is the first message and the rest without its oldest k; the last is kept. It
-- fits the budget unless only one is left behind the first, and with fewer gone it would not fit.
pub trim_context_to_budget_exact :
    (e : Entry) (l : List Entry) (budget : ℕ)
    → (k : ℕ) × (trim_context_to_budget (e ∷ l) budget ≡ e ∷ drop k l)
      × (k ≤ length l - 1)
      × ((tokens (e ∷ drop k l) ≤ budget) ⊎ (length (drop k l) ≤ 1))
      × (¬ ((j : ℕ) × (j < k) × (tokens (e ∷ drop j l) ≤ budget)))
unfolding trim_context_to_budget
trim_context_to_budget_exact e l budget =
    let (k, is, kept, end, least) = drop_oldest_lem e budget l in
    (k, ap (e ∷◌) is, kept, end, least)
