-- ===== src/Base/Pieces.antt =====
-- Starts and ends of lists.
use Prim.Native.Nat.{ℕ, zero, suc, ◌+◌, ◌≤◌, min}
use mathlib.Core.Logic.{inl, inr}
use mathlib.Core.Path.{subst, ◌≡◌, refl, sym, ap, ◌∙◌}
use mathlib.Core.List.{List, [], ◌∷◌, ◌++◌}
use native.Mathlib.Omega.{arith}
use tinker_box.Base.Lists.{length, take, drop, All, Elem, All-of_Elem}
use tinker_box.Base.Sort.{sort, Elem-of_Elem-sort}
use mathlib.Core.Bool.{Bool}

module _ {ℓ} {A : Type ℓ} where
  pub take_append_drop : (n : ℕ) (l : List A) → take n l ++ drop n l ≡ l
  take_append_drop zero l = refl
  take_append_drop (suc n) [] = refl
  take_append_drop (suc n) (x ∷ l) = ap (x ∷◌) (take_append_drop n l)

  take_eq : (j k : ℕ) (l : List A) → j ≡ k → take j l ≡ take k l
  take_eq j k l e = ap (λ n. take n l) e

  take_nil : (n : ℕ) → take {A = A} n [] ≡ []
  take_nil zero = refl
  take_nil (suc n) = refl

  -- A start of a list is one of every list that it starts.
  pub take_prefix : (n : ℕ) (l m : List A) → take n l ≡ take (min n (length l)) (l ++ m)
  take_prefix zero l m = take_eq 0 (min 0 (length l)) (l ++ m) (omega arith)
  take_prefix (suc n) [] m = take_eq 0 (min (suc n) 0) m (omega arith)
  take_prefix (suc n) (x ∷ l) m =
      ap (x ∷◌) (take_prefix n l m)
      ∙ take_eq (suc (min n (length l))) (min (suc n) (suc (length l))) (x ∷ l ++ m) (omega arith)

  pub take_add : (j k : ℕ) (l : List A) → take j l ++ take k (drop j l) ≡ take (j + k) l
  take_add zero k l = take_eq k (0 + k) l (omega arith)
  take_add (suc j) k [] = take_nil k ∙ sym (take_nil (suc j + k))
  take_add (suc j) k (x ∷ l) =
      ap (x ∷◌) (take_add j k l) ∙ take_eq (suc (j + k)) (suc j + k) (x ∷ l) (omega arith)

  pub All-append {κ} : (P : A → Type κ) (l m : List A) → All P (l ++ m) → All P l
  All-append P [] m h = tt
  All-append P (x ∷ l) m h = (h.0, All-append P l m h.1)

  pub All-drop {κ} : (P : A → Type κ) (n : ℕ) (l : List A) → All P l → All P (drop n l)
  All-drop P zero l h = h
  All-drop P (suc n) [] h = tt
  All-drop P (suc n) (x ∷ l) h = All-drop P n l h.1

  pub All-take {κ} : (P : A → Type κ) (n : ℕ) (l : List A) → All P l → All P (take n l)
  All-take P zero l h = tt
  All-take P (suc n) [] h = tt
  All-take P (suc n) (x ∷ l) h = (h.0, All-take P n l h.1)

  pub drop-append : (n : ℕ) (l m : List A) → n ≤ length l → drop n (l ++ m) ≡ drop n l ++ m
  drop-append zero l m h = refl
  drop-append (suc n) [] m h = absurd (omega (arith, h))
  drop-append (suc n) (x ∷ l) m h = drop-append n l m (omega (arith, h))

zero_plus : (a : ℕ) → a ≡ 0 + a
zero_plus a = omega arith

suc_plus : (a b : ℕ) → suc (b + a) ≡ suc b + a
suc_plus a b = omega arith

module _ {A : Type 0} where
  pub drop_nil : (a : ℕ) → drop {A = A} a [] ≡ drop {A = A} 0 []
  drop_nil zero = refl
  drop_nil (suc a) = refl

  pub drop-drop : (a b : ℕ) (s : List A) → drop a (drop b s) ≡ drop (b + a) s
  drop-drop a zero s = ap (λ n. drop n s) (zero_plus a)
  drop-drop a (suc b) [] = drop_nil a ∙ sym (drop_nil (suc b + a))
  drop-drop a (suc b) (c ∷ s) = drop-drop a b s ∙ ap (λ n. drop n (c ∷ s)) (suc_plus a b)

pub All_Elem : {A : Type 0} (P : A → Type 0) (x : A) (l : List A) → All P l → Elem x l → P x
All_Elem P x [] h m = elim m [ ]
All_Elem P x (a ∷ l) h (inl here) = subst P here h.0
All_Elem P x (a ∷ l) h (inr there) = All_Elem P x l h.1 there

pub All-sort :
    {A : Type 0} (le : A → A → Bool) (P : A → Type 0) (l : List A) → All P l → All P (sort le l)
All-sort le P l h = All-of_Elem P (sort le l) (λ x m. All_Elem P x l h (Elem-of_Elem-sort le x l m))
