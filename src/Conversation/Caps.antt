-- ===== src/Conversation/Caps.antt =====
-- The caps of `_compact_tool_result`.
use tinker_box.Base.{
  ℕ, zero, suc, ◌+◌, ◌≤◌, ◌≡◌, refl, inl, inr, false, Bool-cases, Option, some, List, All, ◌++◌,
  arith, length, length-append, length-take, take, leb, Text, codes,
}
use tinker_box.Tools.Value.{
  Value, Items, Fields, null, bool, num, str, arr, obj, nil, cons, end, field,
}
use tinker_box.Conversation.Compact.{
  shorten, shorten_items, shorten_fields, compact_tool_result, capped, ellipsis, is_dropped,
  count_items, dumped,
}
use tinker_box.Conversation.Paths.{Step, at, IsKept, IsCapOf, at-shorten, shorten-IsCapOf}

unfoldable mutual
  -- No text of more than 120 characters and the ellipsis, no list of more than four elements and a text
  -- behind them, and no field of a dropped key.
  pub IsShort : Value → Type 0
  IsShort null = Unit
  IsShort (bool b) = Unit
  IsShort (num n) = Unit
  IsShort (str t) = length t ≤ 121
  IsShort (arr l) = AreShort 4 l
  IsShort (obj fs) = HasShort fs

  pub AreShort : ℕ → Items → Type 0
  AreShort n nil = Unit
  AreShort zero (cons v l) = (l ≡ nil) × (t : Text) × (v ≡ str t)
  AreShort (suc n) (cons v l) = IsShort v × AreShort n l

  pub HasShort : Fields → Type 0
  HasShort end = Unit
  HasShort (field k v fs) = (is_dropped k ≡ false) × IsShort v × HasShort fs

length-capped : (cap : ℕ) (t : Text) → length (capped cap t) ≤ cap + 1
length-capped cap t = elim (Bool-cases (leb (length t) cap)) [
  | inl fits ↦ rw fits (ground arith)
  | inr over ↦ rw over (omega (arith, length-append (take cap t) ellipsis, length-take cap t))
]

module _ (show : ℕ → Text) where
  mutual
    unfolding shorten IsShort

    shorten-IsShort : (v : Value) → IsShort (shorten show v)
    shorten-IsShort null = tt
    shorten-IsShort (bool b) = tt
    shorten-IsShort (num n) = tt
    shorten-IsShort (str t) = length-capped 120 t
    shorten-IsShort (arr l) = shorten_items-AreShort 4 l
    shorten-IsShort (obj fs) = shorten_fields-HasShort fs

    shorten_items-AreShort : (n : ℕ) (l : Items) → AreShort n (shorten_items show n l)
    shorten_items-AreShort zero nil = tt
    shorten_items-AreShort (suc n) nil = tt
    shorten_items-AreShort zero (cons v l) =
        (refl, codes "…(+" ++ (show (count_items (cons v l)) ++ codes " more)"), refl)
    shorten_items-AreShort (suc n) (cons v l) = (shorten-IsShort v, shorten_items-AreShort n l)

    shorten_fields-HasShort : (fs : Fields) → HasShort (shorten_fields show fs)
    shorten_fields-HasShort end = tt
    shorten_fields-HasShort (field k v fs) = elim (Bool-cases (is_dropped k)) [
      | inl out ↦ rw out (shorten_fields-HasShort fs)
      | inr on ↦ rw on (on, shorten-IsShort v, shorten_fields-HasShort fs)
    ]

  -- The text that the model reads again has at most 1401 characters, and is the capped print of a value,
  -- or the capped text of the result where that cannot be printed. In the value no text has more than 121
  -- characters, no list more than five elements, and no key is a dropped one. What the result has on a path
  -- of kept keys and of indices below 4 is in the value on the same path: texts up to 120
  -- characters and other scalars as they are, longer texts cut, and lists with the number of the
  -- elements left out at their end.
  pub compact_tool_result_bounds :
      (dumps : Value → Option Text) (text : Value → Text) (v : Value) (p : List Step) (x : Value)
      → All IsKept p
      → at p v ≡ some x
      → IsShort (shorten show v)
        × ((y : Value) × (at p (shorten show v) ≡ some y) × IsCapOf show x y)
        × (compact_tool_result show dumps text v
            ≡ capped 1400 (dumped (text v) (dumps (shorten show v))))
        × (length (compact_tool_result show dumps text v) ≤ 1401)
  unfolding compact_tool_result
  compact_tool_result_bounds dumps text v p x kept there = (
    shorten-IsShort v,
    (shorten show x, at-shorten show p v x kept there, shorten-IsCapOf show x),
    refl,
    length-capped 1400 (dumped (text v) (dumps (shorten show v))),
  )
