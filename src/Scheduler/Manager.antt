-- ===== src/Scheduler/Manager.antt =====
-- `SchedulerManager` of dragon_voice/scheduler/manager.py, over any store. The event loop is the
-- list of the live tasks; the manager's dictionary maps the id of a notification to the handle of
-- its task. A method runs to its end before the next step of the loop begins, the store does not
-- fail but where it refuses a row, and the clock and the device's active session are arguments.
pub mod Tasks
pub mod Steps
pub mod Calls
pub mod Cap
pub mod Coverage
pub mod Firing
pub mod Running
use tinker_box.Base.{
  ℕ, zero, suc, ◌+◌, ◌*◌, Bool, true, false, not, Option, none, some, List, [], ◌∷◌, ◌++◌, map, ltb,
  leb, ◌==◌, if◌then◌else◌, take, keep, Text, codes, text_dec, erase_all,
}
use tinker_box.Base.Dict
use tinker_box.Surfaces.Outcome.{Outcome, Exn, cancelled, done, raised, Emit, swallow}
use tinker_box.Surfaces.Message.{ℤ, pos, negsuc}
use tinker_box.Surfaces.Tab5Surface.{Surface}
use tinker_box.Surfaces.Manager.{SurfaceManager, surface_for, defer_or_send}
use tinker_box.Scheduler.Notification.{Notification, is_pending, tone_text}
use tinker_box.Scheduler.Store.{NotificationStore, Payload}
use tinker_box.Scheduler.Delivery.{rendered, send_card, deliver}

-- RUNAWAY_CAP_PER_DEVICE, REPLAY_WINDOW_SECONDS, and the millisecond by which a due reminder is
-- put off at boot.
abbrev pub runaway_cap : ℕ
runaway_cap = 100

abbrev pub replay_window : ℕ
replay_window = 900000

pub record Task : Type 0 where
  pub handle : ℕ
  pub notif_id : Text
  pub fire_at : ℕ

pub record Manager (S W : Type 0) : Type 0 where
  pub store : S
  pub surfaces : SurfaceManager W
  pub world : W
  pub tasks : List (Text × ℕ)
  pub loop : List Task
  pub next_handle : ℕ
  pub started : Bool

-- The device's active session, as the session table has it.
abbrev pub Sessions : Type 0
Sessions = Text → Option Text

pub data Scheduled : Type 0 where
  scheduled : Notification → Scheduled
  runaway refused : Scheduled

unfoldable pub without_handle : ℕ → List Task → List Task
without_handle h = keep (λ t. not (t.handle == h))

unfoldable pub cancel_all : List (Text × ℕ) → List Task → List Task
unfolding without_handle
cancel_all [] l = l
cancel_all ((id, h) ∷ d) l = cancel_all d (without_handle h l)

unfoldable pub lookup_active_session : Sessions → Option Text → Option Text
lookup_active_session active none = none
lookup_active_session active (some d) = active d

module _ {S W : Type 0} where
  -- `self._tasks[id] = asyncio.create_task(self._run(id, t))`
  unfoldable pub create_task : Text → ℕ → Manager S W → Manager S W
  create_task id t m = record m {
    tasks = Dict.put text_dec id m.next_handle m.tasks;
    loop = m.loop ++ record { handle = m.next_handle; notif_id = id; fire_at = t } ∷ [];
    next_handle = m.next_handle + 1;
  }

  -- The end of a task, by return or by cancellation: the `finally` of `_run`.
  unfoldable pub finish : Text → ℕ → Manager S W → Manager S W
  unfolding without_handle
  finish id h m = record m { tasks = Dict.pop text_dec id m.tasks; loop = without_handle h m.loop }

  -- `self._tasks.pop(id, None)`, and the cancellation of the task that was there
  unfoldable pub stop_task : Text → Manager S W → Manager S W
  unfolding finish
  stop_task id m = elim (Dict.get text_dec id m.tasks) [ none ↦ m | some h ↦ finish id h m ]

  -- Every task of the dictionary is cancelled.
  unfoldable pub shutdown : Manager S W → Manager S W
  unfolding cancel_all
  shutdown m = record m { tasks = []; loop = cancel_all m.tasks m.loop; started = false }

module _ {S : Type 0} (st : NotificationStore S) where
  unfoldable pub at_cap : Option Text → S → Bool
  at_cap none s = false
  at_cap (some d) s = leb runaway_cap (st.count_pending_for_device d s)

  -- A frame that cannot be queued is dropped.
  unfoldable pub try_queue : ℕ → Option Text → Option Text → Payload → S → S
  try_queue now none id p s = s
  try_queue now (some d) id p s = elim (st.queue_notification now d id p s) [
    | none ↦ s
    | some s' ↦ s'
  ]

  unfoldable pub requeue : ℕ → Text → List Payload → S → S
  unfolding try_queue
  requeue now d [] s = s
  requeue now d (p ∷ l) s = requeue now d l (try_queue now (some d) none p s)

module _ {S W : Type 0} (st : NotificationStore S) where
  unfoldable pub schedule : Notification → Manager S W → Scheduled × Manager S W
  unfolding at_cap create_task
  schedule n m =
      if at_cap st n.device_id m.store then (runaway, m) else elim (st.create n m.store) [
        | none ↦ (refused, m)
        | some s ↦ (scheduled n, create_task n.id n.fire_at (record m { store = s }))
      ]

  unfoldable pub cancel : ℕ → Text → Manager S W → Bool × Manager S W
  unfolding stop_task
  cancel now id m =
      let (ok, s) = st.cancel now id m.store in
      let m' : Manager S W = record m { store = s } in
      if ok then (true, stop_task id m') else (false, m')

  unfoldable pub reschedule : Text → ℕ → Manager S W → Bool × Manager S W
  unfolding stop_task create_task
  reschedule id t m =
      let (ok, s) = st.update_fire_at id t m.store in
      let m' : Manager S W = record m { store = s } in
      if ok then (true, create_task id t (stop_task id m')) else (false, m')

  -- Minutes are positive, or nothing happens.
  unfoldable pub handle_snooze : ℕ → Text → ℤ → Manager S W → Bool × Manager S W
  unfolding reschedule
  handle_snooze now id (pos zero) m = (false, m)
  handle_snooze now id (negsuc n) m = (false, m)
  handle_snooze now id (pos (suc n)) m = reschedule id (now + (suc n) * 60000) m

  -- The offline path: queue the frame, and count the notification as fired.
  unfoldable pub fire_offline : ℕ → Notification → Text → Manager S W → Manager S W
  unfolding try_queue
  fire_offline now n id m = record m {
    store = st.mark_fired now id (try_queue st now n.device_id (some id) (rendered n) m.store);
  }

  -- The live path: through the turn gate, and then counted as fired unless cancelled.
  unfoldable pub fire_live :
      ℕ → Notification → Text → Text → Surface W → Manager S W → Outcome × Manager S W
  unfolding send_card
  fire_live now n id sid surface m =
      let (r, sent_now, surfaces, w) =
        defer_or_send sid (swallow (send_card surface (rendered n))) m.surfaces m.world in
      let m' : Manager S W = record m { surfaces = surfaces; world = w } in
      elim r [
        | raised cancelled ↦ (raised cancelled, m')
        | other ↦ (done, record m' { store = st.mark_fired now id m.store })
      ]

  unfoldable pub fire_pending :
      ℕ → Sessions → Notification → Text → Manager S W → Outcome × Manager S W
  unfolding fire_offline fire_live lookup_active_session
  fire_pending now active n id m = elim (lookup_active_session active n.device_id) [
    | none ↦ (done, fire_offline now n id m)
    | some sid ↦ elim (surface_for sid (codes "scheduler") m.surfaces) [
      | none ↦ (done, fire_offline now n id m)
      | some surface ↦ fire_live now n id sid surface m
    ]
  ]

  unfoldable pub fire_one : ℕ → Sessions → Text → Manager S W → Outcome × Manager S W
  unfolding fire_pending
  fire_one now active id m = elim (st.get id m.store) [
    | none ↦ (done, m)
    | some n ↦ if is_pending n then fire_pending now active n id m else (done, m)
  ]

  -- What is left of `_run` when the sleep is over.
  unfoldable pub run_task : ℕ → Sessions → Task → Manager S W → Outcome × Manager S W
  unfolding fire_one finish
  run_task now active t m =
      let (r, m') = fire_one now active t.notif_id m in (r, finish t.notif_id t.handle m')

  unfoldable pub boot_one : ℕ → Notification → Manager S W → Manager S W
  unfolding create_task
  boot_one now n m =
      if ltb (n.fire_at + replay_window) now
      then record m { store = st.mark_failed n.id m.store }
      else create_task n.id (if leb n.fire_at now then now + 1 else n.fire_at) m

  unfoldable pub boot_all : ℕ → List Notification → Manager S W → Manager S W
  unfolding boot_one
  boot_all now [] m = m
  boot_all now (n ∷ l) m = boot_all now l (boot_one now n m)

  unfoldable pub start : ℕ → Manager S W → Manager S W
  unfolding boot_all
  start now m = boot_all now (st.list_pending none m.store) (record m { started = true })

  unfoldable pub replay_queued_for_device :
      ℕ → Sessions → Text → Manager S W → Outcome × ℕ × Manager S W
  unfolding requeue deliver
  replay_queued_for_device now active d m =
      let (payloads, s) = st.drain_queue_for_device d m.store in
      let m' : Manager S W = record m { store = s } in
      let put_back : Manager S W = record m { store = requeue st now d payloads s } in
      elim payloads [
        | [] ↦ (done, 0, m')
        | p ∷ l ↦ elim (active d) [
          | none ↦ (done, 0, put_back)
          | some sid ↦ elim (surface_for sid (codes "scheduler") m.surfaces) [
            | none ↦ (done, 0, put_back)
            | some surface ↦
                let (r, n, w) = deliver surface (p ∷ l) m.world in (r, n, record m' { world = w })
          ]
        ]
      ]
