-- ===== src/Scheduler/Sqlite.antt =====
-- `SqliteNotificationStore` of dragon_voice/scheduler/store.py, over the tables that schema.sql
-- declares: a statement is a pass over the rows, in the order of their insertion. A row of
-- `scheduled_notifications` is a notification, whose fields are its columns. `devices` stands for
-- the table to which both foreign keys refer.
pub mod Rows
pub mod Refines
pub mod Queue
pub mod Replay
pub mod Fifo
use tinker_box.Base.{
  ℕ, ◌+◌, ◌-◌, ◌≤◌, ◌≡◌, Bool, true, false, not, ◌&&◌, ◌||◌, Option, none, some, List, [], ◌∷◌,
  ◌++◌, map, ltb, leb, ◌==◌, if◌then◌else◌, ite, length, take, keep, count, Text, codes, text_dec,
}
use mathlib.Core.Option
use tinker_box.Base.Sort.{sort}
use tinker_box.Scheduler.Notification.{Notification, pending, fired, cancelled, failed, is_pending}
use tinker_box.Scheduler.Store.{
  NotificationStore, Payload, set_cancelled, set_fire_at, set_fired, set_failed, waits_for, is_for,
  by_fire_at,
}

-- The column `payload` is a JSON text; it is kept as what `json.loads` makes of it, `none` for a
-- text that is no JSON.
pub record QueueRow : Type 0 where
  pub id : ℕ
  pub device_id : Text
  pub notification_id : Option Text
  pub payload : Option Payload
  pub queued_at : ℕ

pub record Tables : Type 0 where
  pub devices : List Text
  pub rows : List Notification
  pub queue : List QueueRow
  pub next_id : ℕ

unfoldable pub is_text : Text → Text → Bool
unfolding text_dec
is_text a b = ite (text_dec a b) true false

unfoldable pub has_text : Text → List Text → Bool
unfolding is_text
has_text t [] = false
has_text t (u ∷ l) = is_text u t || has_text t l

-- `_row_to_notification`: an empty title column reads as "Reminder". (`row[5] or ""`, and the
-- same for tone and status, change nothing, since the columns are declared NOT NULL and checked.)
unfoldable pub row_to_notification : Notification → Notification
row_to_notification row = record row {
  title = elim row.title [ [] ↦ codes "Reminder" | c ∷ t ↦ c ∷ t ];
}

-- `SELECT … WHERE id = ?`
unfoldable pub find_row : Text → List Notification → Option Notification
find_row k [] = none
find_row k (n ∷ l) = ite (text_dec n.id k) (some n) (find_row k l)

-- A device column that is NULL refers to nothing.
unfoldable pub refers : Option Text → List Text → Bool
unfolding has_text
refers none devices = true
refers (some d) devices = has_text d devices

-- `UPDATE … WHERE id = ? AND status = 'pending'`, and its row count.
unfoldable pub matches : Text → Notification → Bool
unfolding is_text is_pending
matches k n = is_text n.id k && is_pending n

unfoldable pub update_rows :
    (Notification → Notification) → Text → List Notification → List Notification
unfolding matches
update_rows f k = map (λ n. if matches k n then f n else n)

-- The row is refused where its id is taken or its device is unknown.
unfoldable pub create : Notification → Tables → Option Tables
unfolding refers
create n s = elim (find_row n.id s.rows) [
  | some _ ↦ none
  | none ↦
      if refers n.device_id s.devices then some (record s { rows = s.rows ++ n ∷ [] }) else none
]

unfoldable pub get : Text → Tables → Option Notification
get k s = Option.map row_to_notification (find_row k s.rows)

unfoldable pub list_pending : Option Text → Tables → List Notification
list_pending device_id s =
    map row_to_notification
      (sort by_fire_at (keep (λ n. is_pending n && is_for device_id n) s.rows))

unfoldable pub execute_update : (Notification → Notification) → Text → Tables → Bool × Tables
unfolding update_rows matches
execute_update f k s =
    (ltb 0 (count (matches k) s.rows), record s { rows = update_rows f k s.rows })

unfoldable pub cancel : ℕ → Text → Tables → Bool × Tables
cancel now = execute_update (set_cancelled now)

unfoldable pub update_fire_at : Text → ℕ → Tables → Bool × Tables
update_fire_at k fire_at = execute_update (set_fire_at fire_at) k

unfoldable pub list_due : ℕ → Tables → List Notification
list_due now s =
    map row_to_notification (sort by_fire_at (keep (λ n. is_pending n && leb n.fire_at now) s.rows))

unfoldable pub mark_fired : ℕ → Text → Tables → Tables
mark_fired now k s = (execute_update (set_fired now) k s).1

unfoldable pub mark_failed : Text → Tables → Tables
mark_failed k s = (execute_update set_failed k s).1

unfoldable pub count_pending_for_device : Text → Tables → ℕ
count_pending_for_device d s = count (waits_for d) s.rows

-- NOTIFICATION_QUEUE_CAP_PER_DEVICE
abbrev pub queue_cap : ℕ
queue_cap = 50

unfoldable pub is_queued_for : Text → QueueRow → Bool
unfolding is_text
is_queued_for d r = is_text r.device_id d

unfoldable pub has_id : ℕ → List ℕ → Bool
has_id i [] = false
has_id i (j ∷ l) = j == i || has_id i l

abbrev pub by_queued_at : QueueRow → QueueRow → Bool
by_queued_at a b = leb a.queued_at b.queued_at

-- `SELECT id … WHERE device_id = ? ORDER BY queued_at ASC`
unfoldable pub queued_rows : Text → List QueueRow → List QueueRow
unfolding is_queued_for
queued_rows d queue = sort by_queued_at (keep (is_queued_for d) queue)

-- `DELETE … WHERE id IN (…)`
unfoldable pub delete_ids : List ℕ → List QueueRow → List QueueRow
unfolding has_id
delete_ids ids = keep (λ r. not (has_id r.id ids))

abbrev pub row_ids : List QueueRow → List ℕ
row_ids = map (λ r. r.id)

-- The oldest rows give way, so that the new one still fits under the cap.
unfoldable pub make_room : Text → List QueueRow → List QueueRow
unfolding queued_rows delete_ids is_queued_for
make_room d queue =
    let n = count (is_queued_for d) queue in
    if leb queue_cap n
    then delete_ids (row_ids (take (n - queue_cap + 1) (queued_rows d queue))) queue
    else queue

unfoldable pub queue_notification : ℕ → Text → Option Text → Payload → Tables → Option Tables
unfolding make_room has_text
queue_notification now d k p s =
    let row : QueueRow = record {
      id = s.next_id;
      device_id = d;
      notification_id = k;
      payload = some p;
      queued_at = now;
    } in
    if has_text d s.devices
    then some (record s { queue = make_room d s.queue ++ row ∷ []; next_id = s.next_id + 1 })
    else none

-- The loop over the rows that were read: a payload that is no JSON is skipped.
unfoldable pub payloads : List QueueRow → List Payload
payloads [] = []
payloads (r ∷ l) = let rest = payloads l in elim r.payload [ none ↦ rest | some p ↦ p ∷ rest ]

-- Every row that was read is deleted, a skipped one too.
unfoldable pub drain_queue_for_device : Text → Tables → List Payload × Tables
unfolding queued_rows delete_ids payloads
drain_queue_for_device d s =
    let rows = queued_rows d s.queue in
    (payloads rows, record s { queue = delete_ids (row_ids rows) s.queue })

abbrev pub sqlite_store : NotificationStore Tables
sqlite_store = record {
  create = create;
  get = get;
  list_pending = list_pending;
  cancel = cancel;
  update_fire_at = update_fire_at;
  mark_fired = mark_fired;
  mark_failed = mark_failed;
  count_pending_for_device = count_pending_for_device;
  queue_notification = queue_notification;
  drain_queue_for_device = drain_queue_for_device;
}
