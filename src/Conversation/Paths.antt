-- ===== src/Conversation/Paths.antt =====
-- Where the parts of a tool's result are after `_shorten` of dragon_voice/conversation.py.
use mathlib.Core.Option
use tinker_box.Base.{
  ℕ, zero, suc, ◌-◌, ◌≤◌, ◌<◌, ◌≡◌, ◌⊎◌, refl, sym, ap, ◌∙◌, inl, inr, false, Bool-cases, Option,
  none, some, Option-cases, List, [], ◌∷◌, ◌++◌, arith, length, leb, take, Text, codes, text_dec,
  All, if_pos, if_neg,
}
use tinker_box.Tools.Value.{
  Value, Items, Fields, null, bool, num, str, arr, obj, nil, cons, end, field, field_of,
}
use tinker_box.Conversation.Compact.{
  shorten, shorten_items, shorten_fields, capped, ellipsis, is_dropped, count_items,
}

-- One step into a value: `o[k]` of a `dict` or a list.
pub data Step : Type 0 where
  at_key : Text → Step
  at_index : ℕ → Step

unfoldable pub item_at : ℕ → Items → Option Value
item_at n nil = none
item_at zero (cons v l) = some v
item_at (suc n) (cons v l) = item_at n l

unfoldable pub look : Step → Value → Option Value
unfolding field_of item_at
look (at_key k) (obj fs) = field_of k fs
look (at_index i) (arr l) = item_at i l
look _ _ = none

unfoldable pub at : List Step → Value → Option Value
unfolding look
at [] v = some v
at (s ∷ p) v = elim (look s v) [ none ↦ none | some x ↦ at p x ]

abbrev pub IsKept : Step → Type 0
IsKept (at_key k) = is_dropped k ≡ false
IsKept (at_index i) = i < 4

-- What a part is cut to, where only the outermost layer of `dict` and list is looked at.
abbrev pub IsCapOf : (ℕ → Text) → Value → Value → Type 0
IsCapOf show null y = y ≡ null
IsCapOf show (bool b) y = y ≡ bool b
IsCapOf show (num n) y = y ≡ num n
IsCapOf show (str t) y =
    ((length t ≤ 120) × (y ≡ str t)) ⊎ ((120 < length t) × (y ≡ str (take 120 t ++ ellipsis)))
IsCapOf show (arr l) y =
    (l' : Items) × (y ≡ arr l')
    × (((count_items l ≤ 4) × (count_items l' ≡ count_items l))
        ⊎ ((4 < count_items l)
            × (count_items l' ≡ 5)
            × (item_at 4 l'
                ≡ some (str (codes "…(+" ++ (show (count_items l - 4) ++ codes " more)"))))))
IsCapOf show (obj fs) y = (fs' : Fields) × (y ≡ obj fs')

capped_cases :
    (cap : ℕ) (t : Text)
    → ((length t ≤ cap) × (capped cap t ≡ t))
      ⊎ ((cap < length t) × (capped cap t ≡ take cap t ++ ellipsis))
capped_cases cap t = elim (Bool-cases (leb (length t) cap)) [
  | inl fits ↦ inl (ground (arith, fits), rw fits refl)
  | inr over ↦ inr (ground (arith, over), rw over refl)
]

at_there : (s : Step) (p : List Step) (v y : Value) → look s v ≡ some y → at (s ∷ p) v ≡ at p y
unfolding at
at_there s p v y e = rw (e, at) refl

at_missing : (s : Step) (p : List Step) (v : Value) → look s v ≡ none → at (s ∷ p) v ≡ none
unfolding at
at_missing s p v e = rw (e, at) refl

module _ (show : ℕ → Text) where
  more : ℕ → Value
  more n = str (codes "…(+" ++ (show n ++ codes " more)"))

  item_at-shorten_items :
      (i n : ℕ) (l : Items) (x : Value)
      → i < n
      → item_at i l ≡ some x
      → item_at i (shorten_items show n l) ≡ some (shorten show x)
  unfolding item_at shorten
  item_at-shorten_items i n nil x lt e = cc
  item_at-shorten_items i zero (cons v l) x lt e = absurd (omega arith)
  item_at-shorten_items zero (suc n) (cons v l) x lt e = ap (Option.map (shorten show)) e
  item_at-shorten_items (suc i) (suc n) (cons v l) x lt e =
      item_at-shorten_items i n l x (omega arith) e

  count_items-shorten_items :
      (n : ℕ) (l : Items) → count_items l ≤ n → count_items (shorten_items show n l) ≡ count_items l
  unfolding shorten
  count_items-shorten_items n nil h = refl
  count_items-shorten_items zero (cons v l) h = absurd (omega arith)
  count_items-shorten_items (suc n) (cons v l) h =
      ap (λ k. suc k) (count_items-shorten_items n l (omega arith))

  shorten_items-more :
      (n : ℕ) (l : Items)
      → n < count_items l
      → (count_items (shorten_items show n l) ≡ suc n)
        × (item_at n (shorten_items show n l) ≡ some (more (count_items l - n)))
  unfolding shorten item_at more
  shorten_items-more n nil h = absurd (omega arith)
  shorten_items-more zero (cons v l) h = (refl, ap (λ k. some (more k)) (omega arith))
  shorten_items-more (suc n) (cons v l) h =
      let (e, tail) = shorten_items-more n l (omega arith) in
      (ap (λ k. suc k) e, tail ∙ ap (λ k. some (more k)) (omega arith))

  field_of-shorten_fields :
      (k : Text) (fs : Fields) (x : Value)
      → is_dropped k ≡ false
      → field_of k fs ≡ some x
      → field_of k (shorten_fields show fs) ≡ some (shorten show x)
  unfolding field_of shorten
  field_of-shorten_fields k end x kept e = cc
  field_of-shorten_fields k (field j v fs) x kept e = elim (text_dec j k) [
    | yes same ↦ rw (ap is_dropped same ∙ kept) (
        if_pos (text_dec j k) same _ _
        ∙ ap (Option.map (shorten show)) (sym (if_pos (text_dec j k) same _ _) ∙ e))
    | no apart ↦
        let later =
          field_of-shorten_fields k fs x kept (sym (if_neg (text_dec j k) apart _ _) ∙ e) in
        elim (Bool-cases (is_dropped j)) [
          | inl out ↦ rw out later
          | inr on ↦ rw on (if_neg (text_dec j k) apart _ _ ∙ later)
        ]
  ]

  look-shorten :
      (s : Step) (v x : Value)
      → IsKept s
      → look s v ≡ some x
      → look s (shorten show v) ≡ some (shorten show x)
  unfolding look shorten
  look-shorten (at_key k) (obj fs) x kept e = field_of-shorten_fields k fs x kept e
  look-shorten (at_index i) (arr l) x kept e = item_at-shorten_items i 4 l x kept e
  look-shorten (at_key k) null x kept e = cc
  look-shorten (at_key k) (bool b) x kept e = cc
  look-shorten (at_key k) (num n) x kept e = cc
  look-shorten (at_key k) (str t) x kept e = cc
  look-shorten (at_key k) (arr l) x kept e = cc
  look-shorten (at_index i) null x kept e = cc
  look-shorten (at_index i) (bool b) x kept e = cc
  look-shorten (at_index i) (num n) x kept e = cc
  look-shorten (at_index i) (str t) x kept e = cc
  look-shorten (at_index i) (obj fs) x kept e = cc

  pub at-shorten :
      (p : List Step) (v x : Value)
      → All IsKept p
      → at p v ≡ some x
      → at p (shorten show v) ≡ some (shorten show x)
  unfolding at
  at-shorten [] v x kept e = ap (Option.map (shorten show)) e
  at-shorten (s ∷ p) v x kept e = elim (Option-cases (look s v)) [
    | inl missing ↦ cc (at_missing s p v missing, e)
    | inr (y, there) ↦
        at_there s p (shorten show v) (shorten show y) (look-shorten s v y kept.0 there)
        ∙ at-shorten p y x kept.1 (sym (at_there s p v y there) ∙ e)
  ]

  pub shorten-IsCapOf : (x : Value) → IsCapOf show x (shorten show x)
  unfolding shorten more
  shorten-IsCapOf null = refl
  shorten-IsCapOf (bool b) = refl
  shorten-IsCapOf (num n) = refl
  shorten-IsCapOf (str t) = elim (capped_cases 120 t) [
    | inl (fits, e) ↦ inl (fits, ap str e)
    | inr (over, e) ↦ inr (over, ap str e)
  ]
  shorten-IsCapOf (arr l) = elim (Bool-cases (leb (count_items l) 4)) [
    | inl fits ↦ (
      shorten_items show 4 l,
      refl,
      inl (ground (arith, fits), count_items-shorten_items 4 l (ground (arith, fits))),
    )
    | inr over ↦
        let (five, tail) = shorten_items-more 4 l (ground (arith, over)) in
        (shorten_items show 4 l, refl, inr (ground (arith, over), five, tail))
  ]
  shorten-IsCapOf (obj fs) = (shorten_fields show fs, refl)
