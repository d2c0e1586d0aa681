-- ===== src/Scheduler/Memory.antt =====
-- `InMemoryNotificationStore` of dragon_voice/scheduler/store.py: a dictionary from ids. An
-- attribute that is assigned on a stored object is a write of the whole entry, since nothing else
-- keeps a reference to it across a call.
pub mod Entries
pub mod Refines
use tinker_box.Base.{
  ℕ, ◌+◌, ◌≤◌, Bool, true, false, ◌&&◌, Option, none, some, List, [], ◌∷◌, map, leb, if◌then◌else◌,
  keep, count, Text, text_dec,
}
use tinker_box.Base.Dict
use tinker_box.Base.Sort.{sort}
use tinker_box.Scheduler.Notification.{Notification, fired, cancelled, failed, is_pending}
use tinker_box.Scheduler.Store.{
  NotificationStore, Payload, set_cancelled, set_fire_at, set_fired, set_failed, waits_for, is_for,
  by_fire_at,
}

pub record Memory : Type 0 where
  pub by_id : List (Text × Notification)

abbrev pub values : List (Text × Notification) → List Notification
values = map (λ e. e.1)

abbrev pub empty : Memory
empty = record { by_id = [] }

unfoldable pub create : Notification → Memory → Option Memory
create n m = elim (Dict.get text_dec n.id m.by_id) [
  | some _ ↦ none
  | none ↦ some (record { by_id = Dict.put text_dec n.id n m.by_id })
]

unfoldable pub get : Text → Memory → Option Notification
get k m = Dict.get text_dec k m.by_id

unfoldable pub list_pending : Option Text → Memory → List Notification
list_pending device_id m =
    let out = keep is_pending (values m.by_id) in
    sort by_fire_at (elim device_id [ none ↦ out | some d ↦ keep (is_for (some d)) out ])

abbrev pub write : Text → Notification → Memory → Memory
write k n m = record { by_id = Dict.put text_dec k n m.by_id }

-- The guard of the calls that change one notification: nothing and `False` unless it is there
-- and pending, otherwise the assignments `f` and `True`.
unfoldable pub on_pending : (Notification → Notification) → Text → Memory → Bool × Memory
on_pending f k m = elim (Dict.get text_dec k m.by_id) [
  | none ↦ (false, m)
  | some n ↦ if is_pending n then (true, write k (f n) m) else (false, m)
]

unfoldable pub cancel : ℕ → Text → Memory → Bool × Memory
cancel now = on_pending (set_cancelled now)

unfoldable pub update_fire_at : Text → ℕ → Memory → Bool × Memory
update_fire_at k fire_at = on_pending (set_fire_at fire_at) k

unfoldable pub list_due : ℕ → Memory → List Notification
list_due now m = keep (λ n. is_pending n && leb n.fire_at now) (values m.by_id)

unfoldable pub mark_fired : ℕ → Text → Memory → Memory
mark_fired now k m = (on_pending (set_fired now) k m).1

unfoldable pub mark_failed : Text → Memory → Memory
mark_failed k m = (on_pending set_failed k m).1

unfoldable pub count_pending_for_device : Text → Memory → ℕ
count_pending_for_device d m = count (waits_for d) (values m.by_id)

-- Nothing is queued: what fires while the device is away is lost.
unfoldable pub queue_notification : ℕ → Text → Option Text → Payload → Memory → Option Memory
queue_notification now d k p m = some m

unfoldable pub drain_queue_for_device : Text → Memory → List Payload × Memory
drain_queue_for_device d m = ([], m)

abbrev pub memory_store : NotificationStore Memory
memory_store = record {
  create = create;
  get = get;
  list_pending = list_pending;
  cancel = cancel;
  update_fire_at = update_fire_at;
  mark_fired = mark_fired;
  mark_failed = mark_failed;
  count_pending_for_device = count_pending_for_device;
  queue_notification = queue_notification;
  drain_queue_for_device = drain_queue_for_device;
}
