-- ===== src/Scheduler/Tests.antt =====
-- The scheduler on small inputs: each theorem at a case, over both stores.
use tinker_box.Base.{
  ℕ, ◌+◌, ◌-◌, ◌≤◌, ◌≡◌, ◌≢◌, refl, true, false, Option, none, some, List, [], ◌∷◌, ◌++◌, arith,
  Elem, drop, count, length, take, Text, codes, text_dec,
}
use tinker_box.Base.Dict
use tinker_box.Surfaces.Message.{Message}
use tinker_box.Surfaces.Manager.{SurfaceManager}
use tinker_box.Scheduler.Notification.{
  Notification, Fields, info, pending, post_init, post_init_bounds,
}
use tinker_box.Scheduler.Store.{Payload, is_pending_at}
use tinker_box.Scheduler.Delivery.{rendered}
use tinker_box.Scheduler.Memory
use tinker_box.Scheduler.Memory.{Memory, memory_store, empty}
use tinker_box.Scheduler.Memory.Refines.{memory_store-Contract}
use tinker_box.Scheduler.Sqlite
use tinker_box.Scheduler.Sqlite.{
  Tables, QueueRow, sqlite_store, queue_cap, is_queued_for, queued_rows, payloads,
}
use tinker_box.Scheduler.Sqlite.Replay.{IsQueueValid, backlog}
use tinker_box.Scheduler.Sqlite.Fifo.{queue_notification-backlog, drain-backlog}
use tinker_box.Scheduler.Manager.{Manager, Task, Sessions, start, schedule, fire_one}
use tinker_box.Scheduler.Manager.Steps.{schedule_new, step, here, next, constructed}
use tinker_box.Scheduler.Manager.Cap.{IsCapped, Reach-IsCapped}
use tinker_box.Scheduler.Manager.Firing.{Fires, fire_one-Fires}
use tinker_box.Scheduler.Manager.Running.{IsRunning, IsOrdinary}
use tinker_box.Scheduler.Manager.Running.Preserved.{step-IsRunning}
use tinker_box.Scheduler.Manager.Running.Runs.{Run, begin, then_, Run-one_task, start-IsRunning}

abbrev tab5 : Text
tab5 = codes "tab5"

abbrev phone : Text
phone = codes "phone"

abbrev tea_fields : Fields
tea_fields = record {
  id = codes "sched_0a";
  device_id = some tab5;
  originating_session_id = none;
  fire_at = 5000;
  title = codes "Tea";
  body = codes "It has drawn";
  tone = codes "loud";
  status = codes "pending";
  recurrence = none;
  created_at = 1000;
  fired_at = none;
  cancelled_at = none;
}

abbrev tea : Notification
tea = record {
  id = codes "sched_0a";
  device_id = some tab5;
  originating_session_id = none;
  fire_at = 5000;
  title = codes "Tea";
  body = codes "It has drawn";
  tone = info;
  status = pending;
  recurrence = none;
  created_at = 1000;
  fired_at = none;
  cancelled_at = none;
}

tea_is_built : post_init tea_fields ≡ tea
unfolding post_init
tea_is_built = refl

abbrev World : Type 0
World = List Message

abbrev no_surfaces : SurfaceManager World
no_surfaces = record { sessions = [] }

abbrev away : Sessions
away d = none

-- A scheduler that has just started over an empty memory, and the same with a reminder.
abbrev idle : Manager Memory World
idle = start memory_store 1000 (constructed memory_store empty no_surfaces [])

abbrev waiting : Manager Memory World
waiting = step memory_store (schedule_new tea) idle

tea_waits : is_pending_at (Memory.get (codes "sched_0a") waiting.store) ≡ true
unfolding step schedule start Memory.get is_pending_at Dict.get Memory.count_pending_for_device
    count Memory.list_pending tinker_box.Base.Sort.sort tinker_box.Base.keep Memory.create Dict.put
    text_dec tinker_box.Scheduler.Notification.is_pending
tea_waits = refl

empty_lists_nothing : Memory.list_pending none empty ≡ []
unfolding Memory.list_pending tinker_box.Base.Sort.sort tinker_box.Base.keep
empty_lists_nothing = refl

tea-Run : Run memory_store idle waiting
unfolding IsOrdinary
tea-Run = then_ (schedule_new tea) begin tt tt

Run-one_task_example :
    (t : Task) × Elem t waiting.loop
    × (t.notif_id ≡ codes "sched_0a")
    × (Dict.get text_dec (codes "sched_0a") waiting.tasks ≡ some t.handle)
    × ((u : Task) → Elem u waiting.loop → u.notif_id ≡ codes "sched_0a" → u ≡ t)
Run-one_task_example =
    Run-one_task memory_store memory_store-Contract 1000 empty no_surfaces [] tt empty_lists_nothing
      tea-Run (codes "sched_0a") tea_waits

idle-IsRunning : IsRunning memory_store Memory.Entries.IsValid idle
idle-IsRunning =
    start-IsRunning memory_store memory_store-Contract 1000 empty no_surfaces [] tt
      empty_lists_nothing

abbrev fresh : Manager Memory World
fresh = constructed memory_store empty no_surfaces []

fresh-IsCapped : IsCapped memory_store fresh.store
unfolding Memory.count_pending_for_device count
fresh-IsCapped d = omega arith

Reach-IsCapped_example : Memory.Entries.IsValid waiting.store × IsCapped memory_store waiting.store
Reach-IsCapped_example =
    Reach-IsCapped memory_store memory_store-Contract 1000 fresh tt fresh-IsCapped
      (next (schedule_new tea) here tt)

waiting-IsRunning : IsRunning memory_store Memory.Entries.IsValid waiting
unfolding IsOrdinary
waiting-IsRunning =
    step-IsRunning memory_store memory_store-Contract (schedule_new tea) idle idle-IsRunning tt tt

-- The reminder falls due while the device is away.
fire_one-Fires_example :
    Fires memory_store memory_store-Contract 5000
      (codes "sched_0a")
      waiting
      (fire_one memory_store 5000 away (codes "sched_0a") waiting)
fire_one-Fires_example =
    fire_one-Fires memory_store memory_store-Contract 5000 away (codes "sched_0a") waiting
      (waiting-IsRunning.valid)

abbrev card_of_tea : Payload
card_of_tea = rendered tea

-- A queue that holds a card for each of two devices.
abbrev two_queued : Tables
two_queued = record {
  devices = tab5 ∷ phone ∷ [];
  rows = tea ∷ [];
  queue =
      record {
        id = 1;
        device_id = phone;
        notification_id = none;
        payload = some card_of_tea;
        queued_at = 10;
      }
      ∷ record {
        id = 2;
        device_id = tab5;
        notification_id = none;
        payload = some card_of_tea;
        queued_at = 20;
      }
      ∷ [];
  next_id = 3;
}

two_queued-IsQueueValid : IsQueueValid two_queued
two_queued-IsQueueValid = record {
  unique = ((omega arith, tt), (tt, tt));
  fresh = (omega arith, (omega arith, tt));
}

tab5_ne_phone : tab5 ≢ phone
tab5_ne_phone e = cc

abbrev after_push : Tables
after_push = record two_queued {
  queue =
      two_queued.queue
      ++ record {
        id = 3;
        device_id = tab5;
        notification_id = none;
        payload = some card_of_tea;
        queued_at = 30;
      }
        ∷ [];
  next_id = 4;
}

pushed : Sqlite.queue_notification 30 tab5 none card_of_tea two_queued ≡ some after_push
unfolding Sqlite.queue_notification count
pushed = refl

tab5_known : Sqlite.has_text tab5 two_queued.devices ≡ true
unfolding Sqlite.has_text
tab5_known = refl

queue_notification-backlog_example :
    (s' : Tables) × (Sqlite.queue_notification 30 tab5 none card_of_tea two_queued ≡ some s')
    × (backlog tab5 s'
        ≡ payloads (
            drop
              (count (is_queued_for tab5) two_queued.queue + 1 - queue_cap)
              (queued_rows tab5 two_queued.queue))
          ++ card_of_tea ∷ [])
    × (backlog phone s' ≡ backlog phone two_queued)
queue_notification-backlog_example =
    queue_notification-backlog two_queued 30 tab5 phone none card_of_tea two_queued-IsQueueValid
      (omega arith, (omega arith, tt)) tab5_known tab5_ne_phone

drain-backlog_example :
    ((Sqlite.drain_queue_for_device tab5 two_queued).0 ≡ backlog tab5 two_queued)
    × ((Sqlite.drain_queue_for_device tab5 (Sqlite.drain_queue_for_device tab5 two_queued).1).0
        ≡ [])
    × (backlog phone (Sqlite.drain_queue_for_device tab5 two_queued).1 ≡ backlog phone two_queued)
drain-backlog_example = drain-backlog two_queued tab5 phone two_queued-IsQueueValid tab5_ne_phone

drained_card : (Sqlite.drain_queue_for_device tab5 two_queued).0 ≡ card_of_tea ∷ []
unfolding Sqlite.drain_queue_for_device tinker_box.Base.Sort.sort tinker_box.Base.keep
drained_card = refl
