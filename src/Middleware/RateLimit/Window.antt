-- ===== src/Middleware/RateLimit/Window.antt =====
-- The rule that `handle_rate_limit` chooses.
use tinker_box.Base.{
  ℕ, ◌≤◌, ◌≡◌, ◌⊎◌, refl, sym, true, false, none, some, List, [], ◌∷◌, All, arith, ltb, Bool-cases,
  inl, inr, Elem,
}
use tinker_box.Middleware.Http.{Request}
use tinker_box.Middleware.RateLimit.{Rule, applies, tightest}

-- The limit is that of a rule of the list that matches.
abbrev From : Request → List Rule → ℕ → ℕ → Type 0
From req rules c w =
    (r : Rule) × Elem r rules × (applies req r ≡ true) × (r.cap ≡ c) × (r.window ≡ w)

abbrev Smallest : Request → List Rule → ℕ → Type 0
Smallest req rules c = All (λ r. applies req r ≡ true → c ≤ r.cap) rules

From-later :
    (req : Request) (r : Rule) (rules : List Rule) {c w : ℕ}
    → From req rules c w
    → From req (r ∷ rules) c w
From-later req r rules (q, m, on, a, b) = (q, inr m, on, a, b)

tightest-le :
    (req : Request) (rules : List Rule) (c0 w0 : ℕ)
    → (c : ℕ) × (w : ℕ) × (tightest req rules (some (c0, w0)) ≡ some (c, w))
      × (c ≤ c0)
      × Smallest req rules c
      × (((c ≡ c0) × (w ≡ w0)) ⊎ From req rules c w)
unfolding tightest
tightest-le req [] c0 w0 = (c0, w0, refl, omega arith, tt, inl (refl, refl))
tightest-le req (r ∷ rules) c0 w0 = elim (Bool-cases (applies req r)) [
  | inl on ↦ elim (Bool-cases (ltb r.cap c0)) [
    | inl less ↦
        let (c, w, e, h, all, from) = tightest-le req rules r.cap r.window in
        let from' : From req (r ∷ rules) c w = elim from [
          | inl (a, b) ↦ (r, inl refl, on, sym a, sym b)
          | inr later ↦ From-later req r rules later
        ] in
        (c, w, rw (on, less) e, ground arith, ((λ _. h), all), inr from')
    | inr more ↦
        let (c, w, e, h, all, from) = tightest-le req rules c0 w0 in
        (
          c,
          w,
          rw (on, more) e,
          h,
          ((λ _. ground arith), all),
          elim from [ inl a ↦ inl a | inr later ↦ inr (From-later req r rules later) ],
        )
  ]
  | inr off ↦
      let (c, w, e, h, all, from) = tightest-le req rules c0 w0 in
      (
        c,
        w,
        rw off e,
        h,
        ((λ on. absurd (ground arith)), all),
        elim from [ inl a ↦ inl a | inr later ↦ inr (From-later req r rules later) ],
      )
]

-- Either no rule matches the request and there is no limit, or the limit is the cap and the
-- window of a rule of the list that matches, and no rule that matches has a smaller cap.
pub tightest_lem :
    (req : Request) (rules : List Rule)
    → ((tightest req rules none ≡ none) × All (λ r. applies req r ≡ false) rules)
      ⊎ ((c : ℕ) × (w : ℕ) × (tightest req rules none ≡ some (c, w))
          × Smallest req rules c
          × From req rules c w)
unfolding tightest
tightest_lem req [] = inl (refl, tt)
tightest_lem req (r ∷ rules) = elim (Bool-cases (applies req r)) [
  | inl on ↦
      let (c, w, e, h, all, from) = tightest-le req rules r.cap r.window in
      let from' : From req (r ∷ rules) c w = elim from [
        | inl (a, b) ↦ (r, inl refl, on, sym a, sym b)
        | inr later ↦ From-later req r rules later
      ] in
      inr (c, w, rw on e, ((λ _. h), all), from')
  | inr off ↦ elim (tightest_lem req rules) [
    | inl (e, all) ↦ inl (rw off e, (off, all))
    | inr (c, w, e, all, from) ↦
        inr (c, w, rw off e, ((λ on. absurd (ground arith)), all), From-later req r rules from)
  ]
]
