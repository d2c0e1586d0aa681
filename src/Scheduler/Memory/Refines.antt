-- ===== src/Scheduler/Memory/Refines.antt =====
-- The in-memory store keeps the contract of `NotificationStore`.
use tinker_box.Base.{
  ℕ, ◌+◌, ◌≤◌, ◌≡◌, ◌≢◌, refl, inl, inr, ◌∙◌, sym, if_neg, Bool-cases, Option-cases, Bool, true,
  Option, none, some, List, [], ◌∷◌, ap, arith, length, if◌then◌else◌, ite, count, Text, text_dec,
}
use mathlib.Core.Path.{subst}
use native.Mathlib.Nat.{le_refl}
use tinker_box.Base.Dict
use tinker_box.Base.Sort.{IsSorted, length-sort}
use tinker_box.Scheduler.Notification.{Notification, is_pending}
use tinker_box.Scheduler.Store.{
  Payload, is_for, by_fire_at, waits_for, waits_for-set_cancelled, waits_for-set_fire_at,
  waits_for-set_fired, waits_for-set_failed, Contract,
}
use tinker_box.Scheduler.Memory.{
  Memory, values, on_pending, create, get, list_pending, cancel, update_fire_at, mark_fired,
  mark_failed, count_pending_for_device, queue_notification, drain_queue_for_device, memory_store,
}
use tinker_box.Scheduler.Memory.Entries.{
  IsValid, get_id, put-IsKeyed, on_pending_get, on_pending_answer, on_pending_valid, Elem-pending,
  count-keep, by_fire_at-IsSorted,
}

create_valid : (m m' : Memory) (n : Notification) → IsValid m → create n m ≡ some m' → IsValid m'
unfolding create
create_valid m m' n v e = ground (arith, put-IsKeyed m.by_id n.id n refl v)

create_fresh : (m m' : Memory) (n : Notification) → create n m ≡ some m' → get n.id m ≡ none
unfolding create get
create_fresh m m' n e = ground arith

create_get :
    (m m' : Memory) (n : Notification)
    → create n m ≡ some m'
    → (k : Text) → get k m' ≡ ite (text_dec n.id k) (some n) (get k m)
unfolding create get
create_get m m' n e k = ground (arith, Dict.get-put_lem text_dec n.id k n m.by_id)

sorted : (m : Memory) (dev : Option Text) → IsSorted by_fire_at (list_pending dev m)
unfolding list_pending
sorted m dev = by_fire_at-IsSorted _

counted : (m : Memory) (d : Text) → count_pending_for_device d m ≡ length (list_pending (some d) m)
unfolding count_pending_for_device list_pending
counted m d = count-keep is_pending (is_for (some d)) (values m.by_id) ∙ sym (length-sort _ _)

queued :
    (m m' : Memory) (now : ℕ) (d : Text) (k : Option Text) (p : Payload)
    → IsValid m
    → queue_notification now d k p m ≡ some m'
    → IsValid m' × ((j : Text) → get j m' ≡ get j m)
unfolding queue_notification
queued m m' now d k p v e =
    let same : m ≡ m' = cc in (subst IsValid same v, λ j. ap (get j) (sym same))

create_other :
    (m m' : Memory) (n : Notification) (k : Text)
    → create n m ≡ some m'
    → n.id ≢ k
    → get k m' ≡ get k m
create_other m m' n k e ne = create_get m m' n e k ∙ if_neg (text_dec n.id k) ne _ _

create_there : (m m' : Memory) (n : Notification) → create n m ≡ some m' → get n.id m' ≢ none
create_there m m' n e = ground (arith, create_get m m' n e n.id)

-- The counts of pending notifications.
module _ (p : Notification → Bool) where
  count-put_new :
      (d : List (Text × Notification)) (k : Text) (n : Notification)
      → Dict.get text_dec k d ≡ none
      → count p (values (Dict.put text_dec k n d)) ≡ count p (values d) + (if p n then 1 else 0)
  unfolding count Dict.put Dict.get
  count-put_new [] k n e = ground arith
  count-put_new ((j, m) ∷ d) k n e = ground (arith, count-put_new d k n)

  count-put_le :
      (d : List (Text × Notification)) (k : Text) (n m : Notification)
      → Dict.get text_dec k d ≡ some m
      → (p n ≡ true → p m ≡ true)
      → count p (values (Dict.put text_dec k n d)) ≤ count p (values d)
  unfolding count Dict.put Dict.get
  count-put_le [] k n m e h = cc
  count-put_le ((j, a) ∷ d) k n m e h = ground (arith, count-put_le d k n m)

  count-on_pending :
      (f : Notification → Notification) (m : Memory) (j : Text)
      → ((n : Notification) → p (f n) ≡ true → p n ≡ true)
      → count p (values (on_pending f j m).1.by_id) ≤ count p (values m.by_id)
  unfolding on_pending
  count-on_pending f m j h = elim (Option-cases (Dict.get text_dec j m.by_id)) [
    | inl absent ↦ rw (absent, on_pending) (le_refl _)
    | inr (n, there) ↦
        rw (there, on_pending)
          (elim (Bool-cases (is_pending n)) [
            | inl waits ↦ rw waits (count-put_le m.by_id j (f n) n there (h n))
            | inr done ↦ rw done (le_refl _)
          ])
  ]

create_count :
    (m m' : Memory) (n : Notification) (d : Text)
    → create n m ≡ some m'
    → count_pending_for_device d m'
      ≡ count_pending_for_device d m + (if waits_for d n then 1 else 0)
unfolding create count_pending_for_device
create_count m m' n d e = ground (arith, count-put_new (waits_for d) m.by_id n.id n)

queue_count :
    (m m' : Memory) (now : ℕ) (e : Text) (k : Option Text) (p : Payload) (d : Text)
    → queue_notification now e k p m ≡ some m'
    → count_pending_for_device d m' ≡ count_pending_for_device d m
unfolding queue_notification
queue_count m m' now e k p d h =
    let same : m ≡ m' = cc in ap (count_pending_for_device d) (sym same)

-- The in-memory store keeps the contract of a notification store, in every state in which each
-- entry stands under its own id.
pub memory_store-Contract : Contract memory_store IsValid
unfolding cancel update_fire_at mark_fired mark_failed
memory_store-Contract = record {
  get_id = λ s k n v e. get_id s.by_id k n v (unfold get in e);
  create_valid = λ s s' n. create_valid s s' n;
  create_fresh = λ s s' n. create_fresh s s' n;
  create_get = λ s s' n title e k. create_get s s' n e k;
  create_other = λ s s' n k. create_other s s' n k;
  create_there = λ s s' n. create_there s s' n;
  cancel_valid = λ s now j v. on_pending_valid _ s j (λ n. refl) v;
  cancel_answer = λ s now j v. on_pending_answer _ s j;
  cancel_get = λ s now j k. on_pending_get _ s j k;
  update_valid = λ s j t v. on_pending_valid _ s j (λ n. refl) v;
  update_answer = λ s j t v. on_pending_answer _ s j;
  update_get = λ s j t k. on_pending_get _ s j k;
  fired_valid = λ s now j v. on_pending_valid _ s j (λ n. refl) v;
  fired_get = λ s now j k. on_pending_get _ s j k;
  failed_valid = λ s j v. on_pending_valid _ s j (λ n. refl) v;
  failed_get = λ s j k. on_pending_get _ s j k;
  pending_elem = λ s dev n v. unfold get in Elem-pending s.by_id dev n v;
  pending_sorted = λ s dev. sorted s dev;
  count_lem = λ s d. counted s d;
  queue_valid = λ s s' now d k p v e. queued s s' now d k p v e;
  drain_valid = λ s d v. unfold drain_queue_for_device in (v, λ k. refl);
  create_count = λ s s' n d e. create_count s s' n d e;
  cancel_count = λ s now j d.
      unfold count_pending_for_device in
      count-on_pending (waits_for d) _ s j (waits_for-set_cancelled now d);
  update_count = λ s j t d.
      unfold count_pending_for_device in
      count-on_pending (waits_for d) _ s j (waits_for-set_fire_at t d);
  fired_count = λ s now j d.
      unfold count_pending_for_device in
      count-on_pending (waits_for d) _ s j (waits_for-set_fired now d);
  failed_count = λ s j d.
      unfold count_pending_for_device in
      count-on_pending (waits_for d) _ s j (waits_for-set_failed d);
  queue_count = λ s s' now e k p d h. queue_count s s' now e k p d h;
  drain_count = λ s e d. unfold drain_queue_for_device in refl;
}
