-- ===== src/Scheduler/Sqlite/Refines.antt =====
-- The SQLite store keeps the contract of `NotificationStore`.
use mathlib.Core.Option
use mathlib.Core.Path.{subst}
use tinker_box.Base.{
  ℕ, ◌+◌, ◌≤◌, ◌≡◌, ◌≢◌, refl, inl, inr, ◌∙◌, sym, ap, Option-cases, Bool, true, Option, none, some,
  List, [], ◌∷◌, map, arith, length, if◌then◌else◌, ite, count, All, Elem, Elem-keep, Elem-map,
  Elem-map_of_Elem, Text, text_dec, length-keep, count-append, length-map,
}
use tinker_box.Base.Sort.{
  IsSorted, length-sort, sort-IsSorted, Elem-of_Elem-sort, Elem-sort_of_Elem,
}
use tinker_box.Scheduler.Notification.{Notification, is_pending}
use tinker_box.Scheduler.Store.{
  Payload, is_for, by_fire_at, set_cancelled, set_fire_at, set_fired, set_failed, waits_for,
  waits_for-set_cancelled, waits_for-set_fire_at, waits_for-set_fired, waits_for-set_failed,
  Contract,
}
use tinker_box.Scheduler.Sqlite.{
  Tables, row_to_notification, find_row, update_rows, create, get, execute_update, list_pending,
  cancel, update_fire_at, mark_fired, mark_failed, count_pending_for_device, queue_notification,
  drain_queue_for_device, sqlite_store,
}
use tinker_box.Scheduler.Sqlite.Rows.{
  IsUnique, IsValid, find_row-id, find_row-snoc, snoc-IsUnique, row_to_notification-title,
  execute_update_get, execute_update_valid, execute_update_answer,
}

create_valid : (s s' : Tables) (n : Notification) → IsValid s → create n s ≡ some s' → IsValid s'
unfolding create
create_valid s s' n v e = ground (arith, snoc-IsUnique s.rows n)

create_fresh : (s s' : Tables) (n : Notification) → create n s ≡ some s' → get n.id s ≡ none
unfolding create get
create_fresh s s' n e = ground arith

create_get :
    (s s' : Tables) (n : Notification)
    → n.title ≢ []
    → create n s ≡ some s'
    → (k : Text) → get k s' ≡ ite (text_dec n.id k) (some n) (get k s)
unfolding create get
create_get s s' n t e k = ground (arith, find_row-snoc s.rows n k, row_to_notification-title n t)

create_other :
    (s s' : Tables) (n : Notification) (k : Text)
    → create n s ≡ some s'
    → n.id ≢ k
    → get k s' ≡ get k s
unfolding create get
create_other s s' n k e ne = ground (arith, find_row-snoc s.rows n k)

create_there : (s s' : Tables) (n : Notification) → create n s ≡ some s' → get n.id s' ≢ none
unfolding create get
create_there s s' n e = ground (arith, find_row-snoc s.rows n n.id)

get_id : (s : Tables) (k : Text) (n : Notification) → get k s ≡ some n → n.id ≡ k
unfolding get row_to_notification
get_id s k n e = elim (Option-cases (find_row k s.rows)) [
  | inl absent ↦ ground arith
  | inr (r, there) ↦ ground (arith, find_row-id s.rows k r there)
]

find_row_of_Elem :
    (l : List Notification) (n : Notification) → IsUnique l → Elem n l → find_row n.id l ≡ some n
unfolding find_row
find_row_of_Elem [] n u m = elim m [ ]
find_row_of_Elem (a ∷ l) n u (inl here) = ground arith
find_row_of_Elem (a ∷ l) n u (inr there) = ground (arith, find_row_of_Elem l n u.1 there)

Elem-of_find_row :
    (l : List Notification) (k : Text) (n : Notification) → find_row k l ≡ some n → Elem n l
unfolding find_row
Elem-of_find_row [] k n e = cc
Elem-of_find_row (a ∷ l) k n e = ground (arith, Elem-of_find_row l k n)

-- A notification is listed exactly when it is read under its id, is pending and is for the device.
module _ (s : Tables) (dev : Option Text) (n : Notification) where
  listed :
      IsValid s
      → Elem n (list_pending dev s)
      → (get n.id s ≡ some n) × (is_pending n ≡ true) × (is_for dev n ≡ true)
  unfolding list_pending get is_for row_to_notification is_pending
  listed v m =
      let (r, inside, e) = Elem-map row_to_notification n _ m in
      let k = (Elem-keep _ r s.rows).0 (Elem-of_Elem-sort by_fire_at r _ inside) in
      ground (arith, find_row_of_Elem s.rows r v k.0, k.1)

  listed_of :
      (get n.id s ≡ some n)
      → is_pending n ≡ true
      → is_for dev n ≡ true
      → Elem n (list_pending dev s)
  unfolding list_pending get is_for row_to_notification is_pending
  listed_of e p q = elim (Option-cases (find_row n.id s.rows)) [
    | inl absent ↦ ground arith
    | inr (r, there) ↦
        let same : row_to_notification r ≡ n = ground arith in
        subst (λ x. Elem x (list_pending dev s)) same
          (Elem-map_of_Elem row_to_notification r _ (
            Elem-sort_of_Elem by_fire_at r _
              ((Elem-keep _ r s.rows).1 (Elem-of_find_row s.rows n.id r there, ground arith))))
  ]

All_map_row :
    (a : Notification) (l : List Notification)
    → All (λ b. by_fire_at a b ≡ true) l
    → All (λ b. by_fire_at (row_to_notification a) b ≡ true) (map row_to_notification l)
unfolding row_to_notification
All_map_row a [] h = tt
All_map_row a (b ∷ l) h = (h.0, All_map_row a l h.1)

map_row-IsSorted :
    (l : List Notification)
    → IsSorted by_fire_at l
    → IsSorted by_fire_at (map row_to_notification l)
map_row-IsSorted [] h = tt
map_row-IsSorted (a ∷ l) h = (All_map_row a l h.0, map_row-IsSorted l h.1)

sorted : (s : Tables) (dev : Option Text) → IsSorted by_fire_at (list_pending dev s)
unfolding list_pending
sorted s dev =
    map_row-IsSorted _
      (sort-IsSorted by_fire_at (λ a b h. ground arith) (λ a b c h k. ground arith) _)

counted : (s : Tables) (d : Text) → count_pending_for_device d s ≡ length (list_pending (some d) s)
unfolding count_pending_for_device list_pending
counted s d =
    sym (length-keep _ s.rows)
    ∙ sym (length-sort by_fire_at _)
    ∙ sym (length-map row_to_notification _)

queued :
    (s s' : Tables) (now : ℕ) (d : Text) (k : Option Text) (p : Payload)
    → IsValid s
    → queue_notification now d k p s ≡ some s'
    → IsValid s' × ((j : Text) → get j s' ≡ get j s)
unfolding queue_notification get
queued s s' now d k p v e =
    let same : s.rows ≡ s'.rows = ground arith in
    (subst IsUnique same v, λ j. ap (λ l. Option.map row_to_notification (find_row j l)) (sym same))

count-update_rows :
    (p : Notification → Bool) (f : Notification → Notification) (l : List Notification) (j : Text)
    → ((n : Notification) → p (f n) ≡ true → p n ≡ true)
    → count p (update_rows f j l) ≤ count p l
unfolding count update_rows
count-update_rows p f [] j h = omega arith
count-update_rows p f (n ∷ l) j h = ground (arith, count-update_rows p f l j h, h n)

count-execute_update :
    (f : Notification → Notification) (s : Tables) (j d : Text)
    → ((n : Notification) → waits_for d (f n) ≡ true → waits_for d n ≡ true)
    → count_pending_for_device d (execute_update f j s).1 ≤ count_pending_for_device d s
unfolding execute_update count_pending_for_device
count-execute_update f s j d h = count-update_rows _ f s.rows j h

create_count :
    (s s' : Tables) (n : Notification) (d : Text)
    → create n s ≡ some s'
    → count_pending_for_device d s'
      ≡ count_pending_for_device d s + (if waits_for d n then 1 else 0)
unfolding create count_pending_for_device count
create_count s s' n d e = ground (arith, count-append (waits_for d) s.rows (n ∷ []))

queue_count :
    (s s' : Tables) (now : ℕ) (e : Text) (k : Option Text) (p : Payload) (d : Text)
    → queue_notification now e k p s ≡ some s'
    → count_pending_for_device d s' ≡ count_pending_for_device d s
unfolding queue_notification count_pending_for_device
queue_count s s' now e k p d h =
    let same : s.rows ≡ s'.rows = ground arith in ap (count (waits_for d)) (sym same)

-- The SQLite store keeps the contract of a notification store, in every state in which no id
-- comes twice. The contract asks for a title of a notification that is created.
pub sqlite_store-Contract : Contract sqlite_store IsValid
unfolding cancel update_fire_at mark_fired mark_failed row_to_notification
sqlite_store-Contract = record {
  get_id = λ s k n v. get_id s k n;
  create_valid = λ s s' n. create_valid s s' n;
  create_fresh = λ s s' n. create_fresh s s' n;
  create_get = λ s s' n title e k. create_get s s' n title e k;
  create_other = λ s s' n k. create_other s s' n k;
  create_there = λ s s' n. create_there s s' n;
  cancel_valid = λ s now j v. execute_update_valid _ (λ n. refl) (λ n. refl) s j v;
  cancel_answer = λ s now j v. execute_update_answer _ s j v;
  cancel_get = λ s now j k. execute_update_get _ (λ n. refl) (λ n. refl) s j k;
  update_valid = λ s j t v. execute_update_valid _ (λ n. refl) (λ n. refl) s j v;
  update_answer = λ s j t v. execute_update_answer _ s j v;
  update_get = λ s j t k. execute_update_get _ (λ n. refl) (λ n. refl) s j k;
  fired_valid = λ s now j v. execute_update_valid _ (λ n. refl) (λ n. refl) s j v;
  fired_get = λ s now j k. execute_update_get _ (λ n. refl) (λ n. refl) s j k;
  failed_valid = λ s j v. execute_update_valid _ (λ n. refl) (λ n. refl) s j v;
  failed_get = λ s j k. execute_update_get _ (λ n. refl) (λ n. refl) s j k;
  pending_elem = λ s dev n v. (listed s dev n v, λ h. listed_of s dev n h.0 h.1 h.2);
  pending_sorted = λ s dev. sorted s dev;
  count_lem = λ s d. counted s d;
  queue_valid = λ s s' now d k p v e. queued s s' now d k p v e;
  drain_valid = λ s d v. unfold drain_queue_for_device get in (v, λ k. refl);
  create_count = λ s s' n d e. create_count s s' n d e;
  cancel_count =
      λ s now j d. count-execute_update (set_cancelled now) s j d (waits_for-set_cancelled now d);
  update_count = λ s j t d. count-execute_update (set_fire_at t) s j d (waits_for-set_fire_at t d);
  fired_count = λ s now j d. count-execute_update (set_fired now) s j d (waits_for-set_fired now d);
  failed_count = λ s j d. count-execute_update set_failed s j d (waits_for-set_failed d);
  queue_count = λ s s' now e k p d h. queue_count s s' now e k p d h;
  drain_count = λ s e d. unfold drain_queue_for_device count_pending_for_device in refl;
}
