-- ===== src/Scheduler/Memory/Entries.antt =====
-- The dictionary of the in-memory store, and what the calls make of it.
use tinker_box.Base.{
  ◌≡◌, ◌↔◌, refl, inl, inr, ◌∙◌, if_pos, if_neg, Bool-cases, Option-cases, Bool, true, ◌&&◌, Option,
  none, some, List, [], ◌∷◌, arith, length, ite, keep, count, Elem, Elem-keep, Text, text_dec,
}
use mathlib.Core.Option
use tinker_box.Base.Dict
use tinker_box.Base.Sort.{IsSorted, sort, sort-IsSorted, Elem-of_Elem-sort, Elem-sort_of_Elem}
use tinker_box.Scheduler.Notification.{Notification, is_pending}
use tinker_box.Scheduler.Store.{is_for, by_fire_at, is_pending_at, when_pending}
use tinker_box.Scheduler.Memory.{Memory, values, on_pending, get, list_pending}

-- Each entry stands under the id of its notification, and no key comes twice.
abbrev pub IsKeyed : List (Text × Notification) → Type 0
IsKeyed [] = Unit
IsKeyed ((k, n) ∷ d) = (n.id ≡ k) × (Dict.get text_dec k d ≡ none) × IsKeyed d

abbrev pub IsValid : Memory → Type 0
IsValid m = IsKeyed m.by_id

pub get_id :
    (d : List (Text × Notification)) (k : Text) (n : Notification)
    → IsKeyed d
    → Dict.get text_dec k d ≡ some n
    → n.id ≡ k
unfolding Dict.get
get_id [] k n h e = cc
get_id ((j, m) ∷ d) k n h e = ground (arith, get_id d k n h.2)

pub put-IsKeyed :
    (d : List (Text × Notification)) (k : Text) (n : Notification)
    → n.id ≡ k
    → IsKeyed d
    → IsKeyed (Dict.put text_dec k n d)
unfolding Dict.put Dict.get
put-IsKeyed [] k n e h = (e, refl, tt)
put-IsKeyed ((j, m) ∷ d) k n e h =
    ground (arith, put-IsKeyed d k n e h.2, Dict.get-put_lem text_dec k j n d)

pub Elem-values :
    (d : List (Text × Notification)) (n : Notification)
    → IsKeyed d
    → Elem n (values d)
    → Dict.get text_dec n.id d ≡ some n
unfolding Dict.get
Elem-values [] n h m = elim m [ ]
Elem-values ((j, a) ∷ d) n h (inl here) = ground arith
Elem-values ((j, a) ∷ d) n h (inr there) = ground (arith, Elem-values d n h.2 there)

pub Elem-of_get :
    (d : List (Text × Notification)) (k : Text) (n : Notification)
    → Dict.get text_dec k d ≡ some n
    → Elem n (values d)
unfolding Dict.get
Elem-of_get [] k n e = cc
Elem-of_get ((j, a) ∷ d) k n e = ground (arith, Elem-of_get d k n)

-- The guarded assignment, for every assignment that keeps the id.
module _ (f : Notification → Notification) (m : Memory) (j : Text) where
  pub on_pending_get :
      (k : Text)
      → get k (on_pending f j m).1
        ≡ ite (text_dec j k) (Option.map (when_pending f) (get k m)) (get k m)
  unfolding get on_pending
  on_pending_get k = elim (Option-cases (Dict.get text_dec j m.by_id)) [
    | inl absent ↦
        rw (absent, on_pending)
          (elim (text_dec j k) [ yes e ↦ rw (if_pos _ e, ← e, absent) | no ne ↦ rw (if_neg _ ne) ])
    | inr (n, there) ↦
        rw (there, on_pending)
          (elim (Bool-cases (is_pending n)) [
            | inl waits ↦ rw (waits, Dict.get-put_lem) (ground arith)
            | inr done ↦ rw done (ground arith)
          ])
  ]

  pub on_pending_answer : (on_pending f j m).0 ≡ is_pending_at (get j m)
  unfolding get on_pending is_pending_at
  on_pending_answer = ground arith

  pub on_pending_valid :
      ((n : Notification) → (f n).id ≡ n.id) → IsValid m → IsValid (on_pending f j m).1
  unfolding on_pending
  on_pending_valid keeps v = elim (Option-cases (Dict.get text_dec j m.by_id)) [
    | inl absent ↦ rw (absent, on_pending) v
    | inr (n, there) ↦
        rw (there, on_pending)
          (elim (Bool-cases (is_pending n)) [
            | inl waits ↦
                rw waits (put-IsKeyed m.by_id j (f n) (keeps n ∙ get_id m.by_id j n v there) v)
            | inr done ↦ rw done v
          ])
  ]

pub Elem-pending :
    (d : List (Text × Notification)) (dev : Option Text) (n : Notification)
    → IsKeyed d
    → Elem n (list_pending dev (record { by_id = d }))
      ↔ ((Dict.get text_dec n.id d ≡ some n) × (is_pending n ≡ true) × (is_for dev n ≡ true))
unfolding list_pending is_for
Elem-pending d none n v =
    let kept = Elem-keep is_pending n (values d) in
    (
      λ m.
          let k = kept.0 (Elem-of_Elem-sort by_fire_at n _ m) in (Elem-values d n v k.0, k.1, refl),
      λ h. Elem-sort_of_Elem by_fire_at n _ (kept.1 (Elem-of_get d n.id n h.0, h.1)),
    )
Elem-pending d (some e) n v =
    let kept = Elem-keep is_pending n (values d) in
    let mine = Elem-keep (is_for (some e)) n (keep is_pending (values d)) in
    (
      λ m.
          let k = mine.0 (Elem-of_Elem-sort by_fire_at n _ m) in
          let p = kept.0 k.0 in (Elem-values d n v p.0, p.1, k.1),
      λ h. Elem-sort_of_Elem by_fire_at n _ (mine.1 (kept.1 (Elem-of_get d n.id n h.0, h.1), h.2)),
    )

pub count-keep :
    (p q : Notification → Bool) (l : List Notification)
    → count (λ n. p n && q n) l ≡ length (keep q (keep p l))
unfolding keep count
count-keep p q [] = refl
count-keep p q (n ∷ l) = ground (arith, count-keep p q l)

pub by_fire_at-IsSorted : (l : List Notification) → IsSorted by_fire_at (sort by_fire_at l)
by_fire_at-IsSorted = sort-IsSorted by_fire_at (λ a b h. ground arith) (λ a b c h k. ground arith)
