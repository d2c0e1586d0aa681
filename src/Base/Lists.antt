-- ===== src/Base/Lists.antt =====
-- Lists measured and cut by native numbers, under the library's names.
use Prim.Native.Nat.{ℕ, zero, suc, ◌+◌, ◌-◌, ◌≤◌, min}
use mathlib.Core.Path.{◌≡◌, refl, ap}
use mathlib.Core.Logic.{◌⊎◌, ◌↔◌, inl, inr}
use mathlib.Core.Bool.{Bool, true, false}
use mathlib.Core.List.{List, [], ◌∷◌, ◌++◌, map}
use native.Mathlib.Omega.{arith}
use tinker_box.Base.Tests.{if◌then◌else◌, Bool-cases}

module _ {ℓ} {A : Type ℓ} where
  abbrev pub length : List A → ℕ
  length [] = 0
  length (x ∷ xs) = suc (length xs)

  -- `xs[:n]` and `xs[n:]`
  abbrev pub take : ℕ → List A → List A
  take zero xs = []
  take (suc n) [] = []
  take (suc n) (x ∷ xs) = x ∷ take n xs

  abbrev pub drop : ℕ → List A → List A
  drop zero xs = xs
  drop (suc n) [] = []
  drop (suc n) (x ∷ xs) = drop n xs

  -- `[x for x in xs if p(x)]`
  unfoldable pub keep : (A → Bool) → List A → List A
  keep p [] = []
  keep p (x ∷ xs) = let rest = keep p xs in if p x then x ∷ rest else rest

  -- `sum(1 for x in xs if p(x))`
  unfoldable pub count : (A → Bool) → List A → ℕ
  count p [] = 0
  count p (x ∷ xs) = let rest = count p xs in if p x then suc rest else rest

  -- Every element satisfies the predicate.
  abbrev pub All {κ} : (A → Type κ) → List A → Type κ
  All P [] = Unit
  All P (x ∷ xs) = P x × All P xs

-- Membership with the place kept.
abbrev pub Elem : {A : Type 0} → A → List A → Type 0
Elem a [] = ⊥
Elem a (x ∷ xs) = (x ≡ a) ⊎ Elem a xs

module _ {ℓ} {A : Type ℓ} where
  pub length-append : (xs ys : List A) → length (xs ++ ys) ≡ length xs + length ys
  length-append [] ys = omega arith
  length-append (x ∷ xs) ys = omega (arith, length-append xs ys)

  pub length-take : (n : ℕ) (xs : List A) → length (take n xs) ≡ min n (length xs)
  length-take zero xs = omega arith
  length-take (suc n) [] = omega arith
  length-take (suc n) (x ∷ xs) = omega (arith, length-take n xs)

  pub length-drop : (n : ℕ) (xs : List A) → length (drop n xs) ≡ length xs - n
  length-drop zero xs = omega arith
  length-drop (suc n) [] = omega arith
  length-drop (suc n) (x ∷ xs) = omega (arith, length-drop n xs)

  pub take_of_length-le : (n : ℕ) (xs : List A) → length xs ≤ n → take n xs ≡ xs
  take_of_length-le zero xs short =
      elim xs as (λ ys. length ys ≤ 0 → [] ≡ ys) [
        | [] ↦ λ _. refl
        | y ∷ ys ↦ λ s. absurd (omega arith)
      ]
        short
  take_of_length-le (suc n) [] short = refl
  take_of_length-le (suc n) (x ∷ xs) short =
      ap (x ∷◌) (take_of_length-le n xs (omega (arith, short)))

  pub drop-length : (xs : List A) → drop (length xs) xs ≡ []
  drop-length [] = refl
  drop-length (x ∷ xs) = drop-length xs

  pub length-keep : (p : A → Bool) (xs : List A) → length (keep p xs) ≡ count p xs
  unfolding keep count
  length-keep p [] = refl
  length-keep p (x ∷ xs) = ground (arith, length-keep p xs)

  pub keep-append : (p : A → Bool) (xs ys : List A) → keep p (xs ++ ys) ≡ keep p xs ++ keep p ys
  unfolding keep
  keep-append p [] ys = refl
  keep-append p (x ∷ xs) ys = ground (arith, keep-append p xs ys)

module _ {A : Type 0} where
  pub Elem-keep :
      (p : A → Bool) (x : A) (l : List A) → Elem x (keep p l) ↔ (Elem x l × (p x ≡ true))
  unfolding keep
  Elem-keep p x [] = (λ m. elim m [ ], λ m. m.0)
  Elem-keep p x (a ∷ l) =
      let rest = Elem-keep p x l in (λ m. ground (arith, rest.0), λ m. ground (arith, rest.1))

  pub Elem-map :
      {B : Type 0} (f : A → B) (y : B) (l : List A)
      → Elem y (map f l)
      → (x : A) × Elem x l × (f x ≡ y)
  Elem-map f y [] m = elim m [ ]
  Elem-map f y (a ∷ l) (inl here) = (a, inl refl, here)
  Elem-map f y (a ∷ l) (inr there) = let (x, m, e) = Elem-map f y l there in (x, inr m, e)

  pub Elem-map_of_Elem :
      {B : Type 0} (f : A → B) (x : A) (l : List A) → Elem x l → Elem (f x) (map f l)
  Elem-map_of_Elem f x [] m = elim m [ ]
  Elem-map_of_Elem f x (a ∷ l) (inl here) = inl (ap f here)
  Elem-map_of_Elem f x (a ∷ l) (inr there) = inr (Elem-map_of_Elem f x l there)

pub length-map : {A B : Type 0} (f : A → B) (l : List A) → length (map f l) ≡ length l
length-map f [] = refl
length-map f (x ∷ l) = ap suc (length-map f l)

module _ {A : Type 0} where
  pub keep_comm : (p q : A → Bool) (l : List A) → keep p (keep q l) ≡ keep q (keep p l)
  unfolding keep
  keep_comm p q [] = refl
  keep_comm p q (x ∷ l) = ground (arith, keep_comm p q l)

  pub keep_congr : (p q : A → Bool) (l : List A) → All (λ x. p x ≡ q x) l → keep p l ≡ keep q l
  unfolding keep
  keep_congr p q [] h = refl
  keep_congr p q (x ∷ l) h = ground (arith, keep_congr p q l h.1)

  pub keep_all : (p : A → Bool) (l : List A) → All (λ x. p x ≡ true) l → keep p l ≡ l
  unfolding keep
  keep_all p [] h = refl
  keep_all p (x ∷ l) h = ground (arith, keep_all p l h.1)

  pub keep_none : (p : A → Bool) (l : List A) → All (λ x. p x ≡ false) l → keep p l ≡ []
  unfolding keep
  keep_none p [] h = refl
  keep_none p (x ∷ l) h = ground (arith, keep_none p l h.1)

  pub All-keep {κ} : (P : A → Type κ) (p : A → Bool) (l : List A) → All P l → All P (keep p l)
  unfolding keep
  All-keep P p [] h = tt
  All-keep P p (x ∷ l) h = elim (Bool-cases (p x)) [
    | inl e ↦ rw e (h.0, All-keep P p l h.1)
    | inr e ↦ rw e (All-keep P p l h.1)
  ]

  pub Elem-of_Elem-take : (x : A) (n : ℕ) (l : List A) → Elem x (take n l) → Elem x l
  Elem-of_Elem-take x zero l m = elim m [ ]
  Elem-of_Elem-take x (suc n) [] m = elim m [ ]
  Elem-of_Elem-take x (suc n) (a ∷ l) (inl here) = inl here
  Elem-of_Elem-take x (suc n) (a ∷ l) (inr there) = inr (Elem-of_Elem-take x n l there)

  pub count-append : (p : A → Bool) (l m : List A) → count p (l ++ m) ≡ count p l + count p m
  unfolding count
  count-append p [] m = omega arith
  count-append p (x ∷ l) m = ground (arith, count-append p l m)

  -- A filter that passes all that a second one passes makes no difference to it.
  pub keep-keep_of_imp :
      (p s : A → Bool) (l : List A)
      → ((x : A) → Elem x l → p x ≡ true → s x ≡ true)
      → keep p (keep s l) ≡ keep p l
  unfolding keep
  keep-keep_of_imp p s [] h = refl
  keep-keep_of_imp p s (x ∷ l) h =
      ground (arith, h x (inl refl), keep-keep_of_imp p s l (λ y m. h y (inr m)))

  pub All-snoc {κ} : (P : A → Type κ) (l : List A) (a : A) → All P l → P a → All P (l ++ a ∷ [])
  All-snoc P [] a h p = (p, tt)
  All-snoc P (x ∷ l) a h p = (h.0, All-snoc P l a h.1 p)

  pub All_imp {κ} : (P Q : A → Type κ) → ((a : A) → P a → Q a) → (l : List A) → All P l → All Q l
  All_imp P Q f [] h = tt
  All_imp P Q f (x ∷ l) h = (f x h.0, All_imp P Q f l h.1)

  pub All-of_Elem : (P : A → Type 0) (l : List A) → ((a : A) → Elem a l → P a) → All P l
  All-of_Elem P [] f = tt
  All-of_Elem P (x ∷ l) f = (f x (inl refl), All-of_Elem P l (λ a m. f a (inr m)))
