-- ===== src/Base/Sort.antt =====
-- `list.sort`: a stable sort, by a Boolean order.
use tinker_box.Base.Tests.{if◌then◌else◌, Bool-cases}
use tinker_box.Base.Lists.{All, Elem, length, keep, All-keep}
use Prim.Native.Nat.{suc}
use mathlib.Core.Path.{◌≡◌, refl}
use mathlib.Core.Logic.{◌⊎◌, inl, inr}
use mathlib.Core.Bool.{Bool, true, false}
use mathlib.Core.List.{List, [], ◌∷◌, ◌++◌}
use native.Mathlib.Omega.{arith}

-- Every element stands before those that come after it in the order.
abbrev pub IsSorted : {A : Type 0} → (A → A → Bool) → List A → Type 0
IsSorted le [] = Unit
IsSorted le (a ∷ l) = All (λ b. le a b ≡ true) l × IsSorted le l

module _ {A : Type 0} (le : A → A → Bool) where
  unfoldable pub insert : A → List A → List A
  insert a [] = a ∷ []
  insert a (b ∷ l) = let rest = insert a l in if le a b then a ∷ b ∷ l else b ∷ rest

  unfoldable pub sort : List A → List A
  unfolding insert
  sort [] = []
  sort (a ∷ l) = insert a (sort l)

  length-insert : (a : A) (l : List A) → length (insert a l) ≡ suc (length l)
  unfolding insert
  length-insert a [] = refl
  length-insert a (b ∷ l) = ground (arith, length-insert a l)

  pub length-sort : (l : List A) → length (sort l) ≡ length l
  unfolding sort
  length-sort [] = refl
  length-sort (a ∷ l) = ground (arith, length-insert a (sort l), length-sort l)

  Elem-insert : (x a : A) (l : List A) → Elem x (insert a l) → (a ≡ x) ⊎ Elem x l
  unfolding insert
  Elem-insert x a [] m = m
  Elem-insert x a (b ∷ l) m = ground (arith, Elem-insert x a l)

  Elem-insert_self : (a : A) (l : List A) → Elem a (insert a l)
  unfolding insert
  Elem-insert_self a [] = inl refl
  Elem-insert_self a (b ∷ l) = ground (arith, Elem-insert_self a l)

  Elem-insert_of_Elem : (x a : A) (l : List A) → Elem x l → Elem x (insert a l)
  unfolding insert
  Elem-insert_of_Elem x a [] m = elim m [ ]
  Elem-insert_of_Elem x a (b ∷ l) m = ground (arith, Elem-insert_of_Elem x a l)

  pub Elem-of_Elem-sort : (x : A) (l : List A) → Elem x (sort l) → Elem x l
  unfolding sort
  Elem-of_Elem-sort x [] m = m
  Elem-of_Elem-sort x (a ∷ l) m = elim (Elem-insert x a (sort l) m) [
    | inl here ↦ inl here
    | inr there ↦ inr (Elem-of_Elem-sort x l there)
  ]

  pub Elem-sort_of_Elem : (x : A) (l : List A) → Elem x l → Elem x (sort l)
  unfolding sort
  Elem-sort_of_Elem x [] m = elim m [ ]
  Elem-sort_of_Elem x (a ∷ l) (inl here) = ground (arith, Elem-insert_self a (sort l))
  Elem-sort_of_Elem x (a ∷ l) (inr there) =
      Elem-insert_of_Elem x a (sort l) (Elem-sort_of_Elem x l there)

  -- A total and transitive order sorts.
  module _ (total : (a b : A) → le a b ≡ false → le b a ≡ true)
      (trans : (a b c : A) → le a b ≡ true → le b c ≡ true → le a c ≡ true) where
    All_mono :
        (a b : A) (l : List A)
        → le a b ≡ true
        → All (λ c. le b c ≡ true) l
        → All (λ c. le a c ≡ true) l
    All_mono a b [] h all = tt
    All_mono a b (c ∷ l) h all = (trans a b c h all.0, All_mono a b l h all.1)

    All-insert :
        (a b : A) (l : List A)
        → le b a ≡ true
        → All (λ c. le b c ≡ true) l
        → All (λ c. le b c ≡ true) (insert a l)
    unfolding insert
    All-insert a b [] h all = (h, tt)
    All-insert a b (c ∷ l) h all = ground (arith, All-insert a b l h all.1)

    insert-IsSorted : (a : A) (l : List A) → IsSorted le l → IsSorted le (insert a l)
    unfolding insert
    insert-IsSorted a [] s = (tt, tt)
    insert-IsSorted a (b ∷ l) s = elim (Bool-cases (le a b)) [
      | inl before ↦ rw before ((before, All_mono a b l before s.0), s)
      | inr after ↦ rw after (All-insert a b l (total a b after) s.0, insert-IsSorted a l s.1)
    ]

    pub sort-IsSorted : (l : List A) → IsSorted le (sort l)
    unfolding sort
    sort-IsSorted [] = tt
    sort-IsSorted (a ∷ l) = insert-IsSorted a (sort l) (sort-IsSorted l)

    insert_first : (a : A) (l : List A) → All (λ b. le a b ≡ true) l → insert a l ≡ a ∷ l
    unfolding insert
    insert_first a [] h = refl
    insert_first a (b ∷ l) h = ground arith

    keep-insert :
        (p : A → Bool) (a : A) (l : List A)
        → IsSorted le l
        → keep p (insert a l) ≡ (if p a then insert a (keep p l) else keep p l)
    unfolding insert keep
    keep-insert p a [] s = ground arith
    keep-insert p a (b ∷ l) s = elim (Bool-cases (le a b)) [
      | inl before ↦ ground (
        arith,
        insert_first a (keep p l) (All-keep (λ c. le a c ≡ true) p l (All_mono a b l before s.0)),
      )
      | inr after ↦ ground (arith, keep-insert p a l s.1)
    ]

    -- To drop elements and to sort may be done in either order.
    pub sort-keep : (p : A → Bool) (l : List A) → sort (keep p l) ≡ keep p (sort l)
    unfolding sort keep
    sort-keep p [] = refl
    sort-keep p (a ∷ l) = ground (arith, sort-keep p l, keep-insert p a (sort l) (sort-IsSorted l))

  insert-snoc :
      (a r : A) (l : List A) → le a r ≡ true → insert a (l ++ r ∷ []) ≡ insert a l ++ r ∷ []
  unfolding insert
  insert-snoc a r [] h = rw h
  insert-snoc a r (b ∷ l) h = ground (arith, insert-snoc a r l h)

  -- What comes after everything else stays at the end.
  pub sort-snoc :
      (r : A) (l : List A) → All (λ a. le a r ≡ true) l → sort (l ++ r ∷ []) ≡ sort l ++ r ∷ []
  unfolding sort
  sort-snoc r [] h = unfold insert in refl
  sort-snoc r (a ∷ l) h = rw (sort-snoc r l h.1) (insert-snoc a r (sort l) h.0)
