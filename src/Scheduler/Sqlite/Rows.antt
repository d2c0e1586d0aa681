-- ===== src/Scheduler/Sqlite/Rows.antt =====
-- The rows of scheduled_notifications, and what an `UPDATE` makes of them.
use mathlib.Core.Option
use tinker_box.Base.{
  ◌≡◌, ◌≢◌, refl, ◌∙◌, sym, Option, none, some, List, [], ◌∷◌, ◌++◌, arith, ltb, ite, count, Text,
  text_dec,
}
use tinker_box.Scheduler.Notification.{Notification, is_pending}
use tinker_box.Scheduler.Store.{is_pending_at, when_pending}
use tinker_box.Scheduler.Sqlite.{
  Tables, row_to_notification, find_row, matches, update_rows, get, execute_update,
}

-- The primary key: no id comes twice.
abbrev pub IsUnique : List Notification → Type 0
IsUnique [] = Unit
IsUnique (n ∷ l) = (find_row n.id l ≡ none) × IsUnique l

abbrev pub IsValid : Tables → Type 0
IsValid s = IsUnique s.rows

pub find_row-id :
    (l : List Notification) (k : Text) (n : Notification) → find_row k l ≡ some n → n.id ≡ k
unfolding find_row
find_row-id [] k n e = cc
find_row-id (m ∷ l) k n e = ground (arith, find_row-id l k n)

pub find_row-snoc :
    (l : List Notification) (n : Notification) (k : Text)
    → find_row n.id l ≡ none
    → find_row k (l ++ n ∷ []) ≡ ite (text_dec n.id k) (some n) (find_row k l)
unfolding find_row
find_row-snoc [] n k e = refl
find_row-snoc (m ∷ l) n k e = ground (arith, find_row-snoc l n k)

pub snoc-IsUnique :
    (l : List Notification) (n : Notification)
    → find_row n.id l ≡ none
    → IsUnique l
    → IsUnique (l ++ n ∷ [])
unfolding find_row
snoc-IsUnique [] n e u = (refl, tt)
snoc-IsUnique (m ∷ l) n e u = ground (arith, snoc-IsUnique l n, find_row-snoc l n m.id)

pub row_to_notification-title : (n : Notification) → n.title ≢ [] → row_to_notification n ≡ n
unfolding row_to_notification
row_to_notification-title n h = ground arith

pub count-matches-none :
    (l : List Notification) (k : Text) → find_row k l ≡ none → count (matches k) l ≡ 0
unfolding find_row count matches
count-matches-none [] k e = refl
count-matches-none (m ∷ l) k e = ground (arith, count-matches-none l k)

pub count-matches :
    (l : List Notification) (k : Text)
    → IsUnique l
    → ltb 0 (count (matches k) l) ≡ is_pending_at (find_row k l)
unfolding find_row count matches is_pending_at
count-matches [] k u = refl
count-matches (m ∷ l) k u = ground (arith, count-matches l k u.1, count-matches-none l k)

pub is_pending-row : (n : Notification) → is_pending (row_to_notification n) ≡ is_pending n
unfolding is_pending row_to_notification
is_pending-row n = refl

pub is_pending_at-row :
    (o : Option Notification) → is_pending_at (Option.map row_to_notification o) ≡ is_pending_at o
unfolding is_pending_at
is_pending_at-row none = refl
is_pending_at-row (some n) = is_pending-row n

-- An `UPDATE` that keeps the id and does not look at the title.
module _ (f : Notification → Notification) (keeps : (n : Notification) → (f n).id ≡ n.id) where
  pub find_row-update :
      (l : List Notification) (j k : Text)
      → find_row k (update_rows f j l)
        ≡ ite (text_dec j k) (Option.map (when_pending f) (find_row k l)) (find_row k l)
  unfolding find_row update_rows matches
  find_row-update [] j k = ground arith
  find_row-update (m ∷ l) j k = ground (arith, find_row-update l j k, keeps m)

  pub update_rows-IsUnique :
      (l : List Notification) (j : Text) → IsUnique l → IsUnique (update_rows f j l)
  unfolding update_rows matches
  update_rows-IsUnique [] j u = tt
  update_rows-IsUnique (m ∷ l) j u =
      ground (arith, update_rows-IsUnique l j u.1, find_row-update l j m.id, keeps m)

-- The same of the store: what is read back is the changed notification.
module _ (f : Notification → Notification) (keeps : (n : Notification) → (f n).id ≡ n.id)
    (commutes : (n : Notification) → row_to_notification (f n) ≡ f (row_to_notification n)) where
  pub map_row_when :
      (o : Option Notification)
      → Option.map row_to_notification (Option.map (when_pending f) o)
        ≡ Option.map (when_pending f) (Option.map row_to_notification o)
  map_row_when none = refl
  map_row_when (some n) = ground (arith, commutes n, is_pending-row n)

  pub execute_update_get :
      (s : Tables) (j k : Text)
      → get k (execute_update f j s).1
        ≡ ite (text_dec j k) (Option.map (when_pending f) (get k s)) (get k s)
  unfolding get execute_update
  execute_update_get s j k =
      ground (arith, find_row-update f keeps s.rows j k, map_row_when (find_row k s.rows))

  pub execute_update_valid : (s : Tables) (j : Text) → IsValid s → IsValid (execute_update f j s).1
  unfolding execute_update
  execute_update_valid s j v = update_rows-IsUnique f keeps s.rows j v

pub execute_update_answer :
    (f : Notification → Notification) (s : Tables) (j : Text)
    → IsValid s
    → (execute_update f j s).0 ≡ is_pending_at (get j s)
unfolding get execute_update
execute_update_answer f s j v =
    count-matches s.rows j v ∙ sym (is_pending_at-row (find_row j s.rows))
