-- ===== src/Scheduler/Manager/Calls.antt =====
-- The calls of its store that the methods of `SchedulerManager` make, as a relation between the
-- store before and after. The invariants of a run are proved by induction on it.
use tinker_box.Base.{
  ℕ, zero, suc, ◌+◌, ◌≡◌, ◌⊎◌, sym, true, false, Option, none, some, List, [], ◌∷◌, arith, ltb,
  Bool-cases, Option-cases, inl, inr, Text, codes,
}
use mathlib.Core.Path.{subst}
use tinker_box.Surfaces.Message.{ℤ, pos, negsuc}
use tinker_box.Surfaces.Manager.{surface_for}
use tinker_box.Surfaces.Tab5Surface.{Surface}
use tinker_box.Scheduler.Notification.{Notification, is_pending}
use tinker_box.Scheduler.Store.{NotificationStore, Payload}
use tinker_box.Scheduler.Delivery.{rendered}
use tinker_box.Scheduler.Manager.{
  Manager, Task, Sessions, replay_window, schedule, cancel, reschedule, handle_snooze, run_task,
  replay_queued_for_device, start, shutdown, at_cap, create_task, finish, stop_task, try_queue,
  requeue, fire_one, fire_pending, fire_offline, fire_live, boot_one, boot_all,
  lookup_active_session,
}
use tinker_box.Scheduler.Manager.Steps.{
  Command, schedule_new, cancel_at, move_to, snooze, wake, replay, outside, stop, step,
}

module _ {S : Type 0} (st : NotificationStore S) where
  pub data Calls (s : S) : S → Type 0 where
    unchanged : Calls s s
    created :
        {s' s'' : S} (n : Notification)
        → Calls s s'
        → at_cap st n.device_id s' ≡ false
        → st.create n s' ≡ some s''
        → Calls s s''
    cancelled_one : {s' : S} (now : ℕ) (k : Text) → Calls s s' → Calls s (st.cancel now k s').1
    moved : {s' : S} (k : Text) (t : ℕ) → Calls s s' → Calls s (st.update_fire_at k t s').1
    fired_one : {s' : S} (now : ℕ) (k : Text) → Calls s s' → Calls s (st.mark_fired now k s')
    failed_one : {s' : S} (k : Text) → Calls s s' → Calls s (st.mark_failed k s')
    queued :
        {s' s'' : S} (now : ℕ) (d : Text) (k : Option Text) (p : Payload)
        → Calls s s'
        → st.queue_notification now d k p s' ≡ some s''
        → Calls s s''
    drained : {s' : S} (d : Text) → Calls s s' → Calls s (st.drain_queue_for_device d s').1

  pub try_queue-Calls :
      (now : ℕ) (dev k : Option Text) (p : Payload) {s s' : S}
      → Calls s s'
      → Calls s (try_queue st now dev k p s')
  unfolding try_queue
  try_queue-Calls now none k p r = r
  try_queue-Calls now (some d) k p {s' = s'} r =
      elim (Option-cases (st.queue_notification now d k p s')) [
        | inl refused ↦ rw (refused, try_queue) r
        | inr (s'', e) ↦ rw (e, try_queue) (queued now d k p r e)
      ]

  requeue-Calls :
      (now : ℕ) (d : Text) (l : List Payload) {s s' : S}
      → Calls s s'
      → Calls s (requeue st now d l s')
  unfolding requeue
  requeue-Calls now d [] r = r
  requeue-Calls now d (p ∷ l) r = requeue-Calls now d l (try_queue-Calls now (some d) none p r)

module _ {S W : Type 0} (st : NotificationStore S) where
  schedule-Calls : (n : Notification) (m : Manager S W) → Calls st m.store (schedule st n m).1.store
  unfolding schedule create_task
  schedule-Calls n m = elim (Bool-cases (at_cap st n.device_id m.store)) [
    | inl full ↦ rw full unchanged
    | inr room ↦ rw room (elim (Option-cases (st.create n m.store)) [
      | inl refused ↦ rw (refused, schedule) unchanged
      | inr (s, e) ↦ rw (e, schedule) (created n unchanged room e)
    ])
  ]

  stop_task-store : (id : Text) (m : Manager S W) → (stop_task id m).store ≡ m.store
  unfolding stop_task finish
  stop_task-store id m = ground arith

  pub reschedule-Calls :
      (id : Text) (t : ℕ) (m : Manager S W) → Calls st m.store (reschedule st id t m).1.store
  unfolding reschedule create_task
  reschedule-Calls id t m =
      subst (Calls st m.store)
        (sym (
          ground
            (arith, stop_task-store id (record m { store = (st.update_fire_at id t m.store).1 }))))
        (moved id t unchanged)

  pub cancel-Calls :
      (now : ℕ) (id : Text) (m : Manager S W) → Calls st m.store (cancel st now id m).1.store
  unfolding cancel
  cancel-Calls now id m =
      subst (Calls st m.store)
        (sym
          (ground (arith, stop_task-store id (record m { store = (st.cancel now id m.store).1 }))))
        (cancelled_one now id unchanged)

  snooze-Calls :
      (now : ℕ) (id : Text) (minutes : ℤ) (m : Manager S W)
      → Calls st m.store (handle_snooze st now id minutes m).1.store
  unfolding handle_snooze
  snooze-Calls now id (pos zero) m = unchanged
  snooze-Calls now id (pos (suc n)) m = reschedule-Calls id _ m
  snooze-Calls now id (negsuc n) m = unchanged

  offline-Calls :
      (now : ℕ) (n : Notification) (id : Text) (m : Manager S W)
      → Calls st m.store (fire_offline st now n id m).store
  unfolding fire_offline
  offline-Calls now n id m =
      fired_one now id (try_queue-Calls st now n.device_id (some id) (rendered n) unchanged)

  live_cases :
      (now : ℕ) (n : Notification) (id sid : Text) (surface : Surface W) (m : Manager S W)
      → ((fire_live st now n id sid surface m).1.store ≡ st.mark_fired now id m.store)
        ⊎ ((fire_live st now n id sid surface m).1.store ≡ m.store)
  unfolding fire_live
  live_cases now n id sid surface m = ground arith

  live-Calls :
      (now : ℕ) (n : Notification) (id sid : Text) (surface : Surface W) (m : Manager S W)
      → Calls st m.store (fire_live st now n id sid surface m).1.store
  live-Calls now n id sid surface m = elim (live_cases now n id sid surface m) [
    | inl fired ↦ subst (Calls st m.store) (sym fired) (fired_one now id unchanged)
    | inr same ↦ subst (Calls st m.store) (sym same) unchanged
  ]

  pending-Calls :
      (now : ℕ) (active : Sessions) (n : Notification) (id : Text) (m : Manager S W)
      → Calls st m.store (fire_pending st now active n id m).1.store
  unfolding fire_pending
  pending-Calls now active n id m = elim (Option-cases (lookup_active_session active n.device_id)) [
    | inl away ↦ rw (away, fire_pending) (offline-Calls now n id m)
    | inr (sid, e) ↦
        rw (e, fire_pending)
          (elim (Option-cases (surface_for sid (codes "scheduler") m.surfaces)) [
            | inl gone ↦ rw (gone, fire_pending) (offline-Calls now n id m)
            | inr (surface, e') ↦ rw (e', fire_pending) (live-Calls now n id sid surface m)
          ])
  ]

  fire-Calls :
      (now : ℕ) (active : Sessions) (id : Text) (m : Manager S W)
      → Calls st m.store (fire_one st now active id m).1.store
  unfolding fire_one
  fire-Calls now active id m = elim (Option-cases (st.get id m.store)) [
    | inl missing ↦ rw (missing, fire_one) unchanged
    | inr (n, e) ↦
        rw (e, fire_one)
          (elim (Bool-cases (is_pending n)) [
            | inl waits ↦ rw waits (pending-Calls now active n id m)
            | inr over ↦ rw over unchanged
          ])
  ]

  pub run_task-Calls :
      (now : ℕ) (active : Sessions) (t : Task) (m : Manager S W)
      → Calls st m.store (run_task st now active t m).1.store
  unfolding run_task finish
  run_task-Calls now active t m = fire-Calls now active t.notif_id m

  pub replay_cases :
      (now : ℕ) (active : Sessions) (d : Text) (m : Manager S W)
      → let drained_store = (st.drain_queue_for_device d m.store).1 in
        let store' = (replay_queued_for_device st now active d m).2.store in
        (store' ≡ drained_store)
        ⊎ (store' ≡ requeue st now d (st.drain_queue_for_device d m.store).0 drained_store)
  unfolding replay_queued_for_device
  replay_cases now active d m = ground arith

  pub replay-Calls :
      (now : ℕ) (active : Sessions) (d : Text) (m : Manager S W)
      → Calls st m.store (replay_queued_for_device st now active d m).2.store
  replay-Calls now active d m = elim (replay_cases now active d m) [
    | inl out ↦ subst (Calls st m.store) (sym out) (drained d unchanged)
    | inr back ↦
        subst (Calls st m.store) (sym back) (requeue-Calls st now d _ (drained d unchanged))
  ]

  -- Whatever the scheduler does, it changes its store by calls of the store, and it creates a
  -- notification only while the device is below the runaway cap.
  pub step-Calls : (c : Command W) (m : Manager S W) → Calls st m.store (step st c m).store
  unfolding step shutdown
  step-Calls (schedule_new n) m = schedule-Calls n m
  step-Calls (cancel_at now id) m = cancel-Calls now id m
  step-Calls (move_to id t) m = reschedule-Calls id t m
  step-Calls (snooze now id minutes) m = snooze-Calls now id minutes m
  step-Calls (wake now active t) m = run_task-Calls now active t m
  step-Calls (replay now active d) m = replay-Calls now active d m
  step-Calls (outside surfaces world) m = unchanged
  step-Calls stop m = unchanged

  boot_one-Calls :
      (now : ℕ) (n : Notification) (m : Manager S W) {s : S}
      → Calls st s m.store
      → Calls st s (boot_one st now n m).store
  unfolding boot_one create_task
  boot_one-Calls now n m r = elim (Bool-cases (ltb (n.fire_at + replay_window) now)) [
    | inl stale ↦ rw stale (failed_one n.id r)
    | inr recent ↦ rw recent r
  ]

  boot_all-Calls :
      (now : ℕ) (l : List Notification) (m : Manager S W) {s : S}
      → Calls st s m.store
      → Calls st s (boot_all st now l m).store
  unfolding boot_all
  boot_all-Calls now [] m r = r
  boot_all-Calls now (n ∷ l) m r = boot_all-Calls now l _ (boot_one-Calls now n m r)

  pub start-Calls : (now : ℕ) (m : Manager S W) → Calls st m.store (start st now m).store
  unfolding start
  start-Calls now m =
      boot_all-Calls now (st.list_pending none m.store) (record m { started = true }) unchanged
