-- ===== src/Conversation/Compact.antt =====
-- dragon_voice/conversation.py: `_compact_tool_result`, which caps what the model reads again.
use tinker_box.Base.{
  Option, none, some, ℕ, zero, suc, Bool, false, ◌||◌, List, [], ◌∷◌, ◌++◌, leb, if◌then◌else◌,
  length, take, Text, codes, contains, lower,
}
use tinker_box.Tools.Value.{
  Value, Items, Fields, null, bool, num, str, arr, obj, nil, cons, end, field,
}

abbrev pub drop_keys : List Text
drop_keys =
    codes "link" ∷ codes "url" ∷ codes "html" ∷ codes "eid" ∷ codes "snippet" ∷ codes "ical" ∷ []

abbrev pub any_in : List Text → Text → Bool
any_in [] k = false
any_in (d ∷ l) k = contains d k || any_in l k

unfoldable pub is_dropped : Text → Bool
unfolding contains lower
is_dropped k = any_in drop_keys (lower k)

abbrev pub ellipsis : Text
ellipsis = codes "…"

abbrev pub capped : ℕ → Text → Text
capped cap t = if leb (length t) cap then t else take cap t ++ ellipsis

abbrev pub count_items : Items → ℕ
count_items nil = 0
count_items (cons v l) = suc (count_items l)

-- `try: s = json.dumps(…)`, `except Exception: s = str(result)`
abbrev pub dumped : Text → Option Text → Text
dumped text none = text
dumped text (some s) = s

-- `show` is the decimal text of a number.
module _ (show : ℕ → Text) where
  unfoldable mutual
    -- `_shorten`: the first four elements of a list and how many there are more.
    pub shorten : Value → Value
    shorten null = null
    shorten (bool b) = bool b
    shorten (num n) = num n
    shorten (str t) = str (capped 120 t)
    shorten (arr l) = arr (shorten_items 4 l)
    shorten (obj fs) = obj (shorten_fields fs)

    pub shorten_items : ℕ → Items → Items
    shorten_items n nil = nil
    shorten_items zero (cons v l) =
        cons (str (codes "…(+" ++ (show (count_items (cons v l)) ++ codes " more)"))) nil
    shorten_items (suc n) (cons v l) = cons (shorten v) (shorten_items n l)

    pub shorten_fields : Fields → Fields
    shorten_fields end = end
    shorten_fields (field k v fs) =
        let rest = shorten_fields fs in
        let short = shorten v in if is_dropped k then rest else field k short rest

  -- `dumps` is `json.dumps`, nothing where it raises, and `text` is `str`, of the result itself.
  unfoldable pub compact_tool_result : (Value → Option Text) → (Value → Text) → Value → Text
  unfolding shorten
  compact_tool_result dumps text v = capped 1400 (dumped (text v) (dumps (shorten v)))
