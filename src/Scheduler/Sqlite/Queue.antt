-- ===== src/Scheduler/Sqlite/Queue.antt =====
-- The offline queue of the SQLite store: the cap, the order, and what a drain hands out.
use tinker_box.Base.{
  ℕ, zero, suc, ◌≡◌, ◌≢◌, refl, ◌∙◌, sym, ap, Bool-cases, inl, inr, Bool, true, false, not, List,
  [], ◌∷◌, arith, keep, take, drop, All, Elem, keep_congr, keep_all, All-keep, ◌==◌,
}
use tinker_box.Base.Sort.{insert, sort}
use tinker_box.Scheduler.Sqlite.{QueueRow, has_id, by_queued_at, row_ids}

-- No row id comes twice.
abbrev pub HasUniqueIds : List QueueRow → Type 0
HasUniqueIds [] = Unit
HasUniqueIds (r ∷ l) = All (λ x. r.id ≢ x.id) l × HasUniqueIds l

pub keep-HasUniqueIds :
    (p : QueueRow → Bool) (l : List QueueRow) → HasUniqueIds l → HasUniqueIds (keep p l)
unfolding keep
keep-HasUniqueIds p [] u = tt
keep-HasUniqueIds p (r ∷ l) u = elim (Bool-cases (p r)) [
  | inl e ↦ rw e (All-keep _ p l u.0, keep-HasUniqueIds p l u.1)
  | inr e ↦ rw e (keep-HasUniqueIds p l u.1)
]

All-insert :
    (a : QueueRow) (x : QueueRow) (l : List QueueRow)
    → a.id ≢ x.id
    → All (λ y. a.id ≢ y.id) l
    → All (λ y. a.id ≢ y.id) (insert by_queued_at x l)
unfolding insert
All-insert a x [] h all = (h, tt)
All-insert a x (y ∷ l) h all = ground (arith, All-insert a x l h all.1)

All_symm : (a : QueueRow) (l : List QueueRow) → All (λ y. a.id ≢ y.id) l → All (λ y. y.id ≢ a.id) l
All_symm a [] h = tt
All_symm a (y ∷ l) h = (λ e. h.0 (sym e), All_symm a l h.1)

insert-HasUniqueIds :
    (a : QueueRow) (l : List QueueRow)
    → All (λ y. a.id ≢ y.id) l
    → HasUniqueIds l
    → HasUniqueIds (insert by_queued_at a l)
unfolding insert
insert-HasUniqueIds a [] h u = (tt, tt)
insert-HasUniqueIds a (y ∷ l) h u = elim (Bool-cases (by_queued_at a y)) [
  | inl e ↦ rw e (h, u)
  | inr e ↦ rw e (All-insert y a l (λ q. h.0 (sym q)) u.0, insert-HasUniqueIds a l h.1 u.1)
]

All-sort :
    (a : QueueRow) (l : List QueueRow)
    → All (λ y. a.id ≢ y.id) l
    → All (λ y. a.id ≢ y.id) (sort by_queued_at l)
unfolding sort
All-sort a [] h = tt
All-sort a (y ∷ l) h = All-insert a y (sort by_queued_at l) h.0 (All-sort a l h.1)

pub sort-HasUniqueIds : (l : List QueueRow) → HasUniqueIds l → HasUniqueIds (sort by_queued_at l)
unfolding sort
sort-HasUniqueIds [] u = tt
sort-HasUniqueIds (y ∷ l) u =
    insert-HasUniqueIds y (sort by_queued_at l) (All-sort y l u.0) (sort-HasUniqueIds l u.1)

-- To delete the ids of the first rows is to drop those rows.
unfoldable pub survives : List ℕ → QueueRow → Bool
survives ids r = not (has_id r.id ids)

survives-cons :
    (a : QueueRow) (ids : List ℕ) (l : List QueueRow)
    → All (λ x. a.id ≢ x.id) l
    → All (λ x. survives (a.id ∷ ids) x ≡ survives ids x) l
unfolding survives has_id
survives-cons a ids [] h = tt
survives-cons a ids (x ∷ l) h = (ground arith, survives-cons a ids l h.1)

survives-nil : (l : List QueueRow) → All (λ x. survives [] x ≡ true) l
unfolding survives has_id
survives-nil [] = tt
survives-nil (x ∷ l) = (refl, survives-nil l)

survives_self : (a : QueueRow) (ids : List ℕ) → survives (a.id ∷ ids) a ≡ false
unfolding survives has_id
survives_self a ids = ground arith

pub keep-survives-take :
    (k : ℕ) (l : List QueueRow) → HasUniqueIds l → keep (survives (row_ids (take k l))) l ≡ drop k l
unfolding keep
keep-survives-take zero l u = keep_all (survives []) l (survives-nil l)
keep-survives-take (suc k) [] u = refl
keep-survives-take (suc k) (a ∷ l) u =
    rw survives_self
      (keep_congr _ _ l (survives-cons a (row_ids (take k l)) l u.0) ∙ keep-survives-take k l u.1)

-- An id among those of some rows is the id of one of them.
pub Elem-row_ids :
    (i : ℕ) (l : List QueueRow)
    → has_id i (row_ids l) ≡ true
    → (r : QueueRow) × Elem r l × (r.id ≡ i)
unfolding has_id
Elem-row_ids i [] h = cc
Elem-row_ids i (r ∷ l) h = elim (Bool-cases (r.id == i)) [
  | inl here ↦ (r, inl refl, ground arith)
  | inr other ↦ let (x, m, e) = Elem-row_ids i l (ground arith) in (x, inr m, e)
]

id_of_Elem :
    (a x : QueueRow) (l : List QueueRow) → All (λ y. a.id ≢ y.id) l → Elem x l → a.id ≢ x.id
id_of_Elem a x [] h m = elim m [ ]
id_of_Elem a x (y ∷ l) h (inl here) = λ e. h.0 (e ∙ ap (λ (r : QueueRow). r.id) (sym here))
id_of_Elem a x (y ∷ l) h (inr there) = id_of_Elem a x l h.1 there

-- Rows of one table that have the same id are the same row.
pub same_of_id :
    (x y : QueueRow) (l : List QueueRow)
    → HasUniqueIds l
    → Elem x l
    → Elem y l
    → x.id ≡ y.id
    → x ≡ y
same_of_id x y [] u p q e = elim p [ ]
same_of_id x y (a ∷ l) u (inl p) (inl q) e = sym p ∙ q
same_of_id x y (a ∷ l) u (inl p) (inr q) e =
    absurd (id_of_Elem a y l u.0 q (ap (λ (r : QueueRow). r.id) p ∙ e))
same_of_id x y (a ∷ l) u (inr p) (inl q) e =
    absurd (id_of_Elem a x l u.0 p (ap (λ (r : QueueRow). r.id) q ∙ sym e))
same_of_id x y (a ∷ l) u (inr p) (inr q) e = same_of_id x y l u.1 p q e
