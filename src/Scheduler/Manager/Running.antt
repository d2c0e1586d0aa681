-- ===== src/Scheduler/Manager/Running.antt =====
-- The scheduler between its start and its shutdown: the task dictionary, the live tasks and the
-- store of `SchedulerManager` agree after every call.
pub mod Methods
pub mod Preserved
pub mod Runs
use mathlib.Core.Option
use tinker_box.Base.{
  ℕ, zero, suc, ◌+◌, ◌*◌, ◌≡◌, ◌≢◌, refl, sym, ap, ◌∙◌, Bool, true, false, Option, none, some, List,
  [], ◌∷◌, arith, if◌then◌else◌, Bool-cases, Option-cases, inl, inr, ite, Text, text_dec, Elem,
}
use tinker_box.Base.Dict
use tinker_box.Surfaces.Outcome.{Outcome, done}
use tinker_box.Surfaces.Message.{ℤ, pos, negsuc}
use tinker_box.Scheduler.Notification.{Notification, is_pending}
use tinker_box.Scheduler.Store.{
  NotificationStore, Contract, Payload, Changes, Same, when_pending, set_cancelled, set_fire_at,
  set_fired, set_failed, is_pending_at,
}
use tinker_box.Scheduler.Manager.{
  Manager, Task, Sessions, schedule, cancel, reschedule, handle_snooze, run_task,
  replay_queued_for_device, at_cap, create_task, finish, stop_task, fire_one, fire_pending,
  fire_live, fire_offline, requeue,
}
use tinker_box.Scheduler.Manager.Tasks.{
  IsTracked, create_task-IsTracked, finish-IsTracked, stop_task-IsTracked, stop_task-absent,
}
use tinker_box.Scheduler.Manager.Steps.{
  Command, schedule_new, cancel_at, move_to, snooze, wake, replay, outside, stop, step, Enabled,
}
use tinker_box.Scheduler.Manager.Calls.{
  Calls, unchanged, created, cancelled_one, moved, fired_one, failed_one, queued, drained,
  step-Calls, replay_cases, try_queue-Calls, cancel-Calls, run_task-Calls, reschedule-Calls,
  replay-Calls,
}
use tinker_box.Scheduler.Manager.Firing.{run_task-IsCovered}
use tinker_box.Scheduler.Manager.Cap.{Calls-IsValid}
use tinker_box.Scheduler.Manager.Coverage.{
  IsCovered, schedule-IsCovered, cancel-IsCovered, reschedule-IsCovered, try_queue-Same, Same-NoNew,
  stop_task-store,
}

-- The invariant of a running scheduler.
pub record IsRunning {S W : Type 0} (st : NotificationStore S) (IsValid : S → Type 0)
    (m : Manager S W) : Type 0 where
  pub valid : IsValid m.store
  pub tracked : IsTracked m
  pub covered : IsCovered st m
  pub known : (k : Text) → st.get k m.store ≡ none → Dict.get text_dec k m.tasks ≡ none

-- What may happen between two shutdowns: no shutdown, and no sending of a card that is cancelled.
unfoldable pub IsOrdinary : {S W : Type 0} → NotificationStore S → Command W → Manager S W → Type 0
IsOrdinary st (wake now active t) m = (run_task st now active t m).0 ≡ done
IsOrdinary st stop m = ⊥
IsOrdinary st _ m = Unit

module _ {S : Type 0} (st : NotificationStore S) {IsValid : S → Type 0}
    (c : Contract st IsValid) where
  Changes-there :
      (j : Text) (f : Notification → Notification) (s s' : S) (k : Text)
      → Changes st j f s s'
      → st.get k s' ≡ none
      → st.get k s ≡ none
  Changes-there j f s s' k ch gone = elim (Option-cases (st.get k s)) [
    | inl e ↦ e
    | inr (n, e) ↦ absurd (ground (arith, ch k, e, gone))
  ]

  -- No call of the store removes a notification.
  pub Calls-there :
      {s s' : S} → Calls st s s' → IsValid s → (k : Text) → st.get k s' ≡ none → st.get k s ≡ none
  Calls-there unchanged v k gone = gone
  Calls-there (created {s' = a} {s'' = b} n r room e) v k gone =
      Calls-there r v k (elim (text_dec n.id k) [
        | yes same ↦ absurd (c.create_there a b n e (rw same gone))
        | no ne ↦ sym (c.create_other a b n k e ne) ∙ gone
      ])
  Calls-there (cancelled_one {s' = a} now j r) v k gone =
      Calls-there r v k (Changes-there j _ a _ k (c.cancel_get a now j) gone)
  Calls-there (moved {s' = a} j t r) v k gone =
      Calls-there r v k (Changes-there j _ a _ k (c.update_get a j t) gone)
  Calls-there (fired_one {s' = a} now j r) v k gone =
      Calls-there r v k (Changes-there j _ a _ k (c.fired_get a now j) gone)
  Calls-there (failed_one {s' = a} j r) v k gone =
      Calls-there r v k (Changes-there j _ a _ k (c.failed_get a j) gone)
  Calls-there (queued {s' = a} {s'' = b} now e q p r eq) v k gone =
      Calls-there r v k (sym ((c.queue_valid a b now e q p (Calls-IsValid st c r v) eq).1 k) ∙ gone)
  Calls-there (drained {s' = a} e r) v k gone =
      Calls-there r v k (sym ((c.drain_valid a e (Calls-IsValid st c r v)).1 k) ∙ gone)

  pub requeue-Same :
      (now : ℕ) (d : Text) (l : List Payload) (s : S) → IsValid s → Same st s (requeue st now d l s)
  unfolding requeue
  requeue-Same now d [] s v k = refl
  requeue-Same now d (p ∷ l) s v k =
      let v' = Calls-IsValid st c (try_queue-Calls st now (some d) none p unchanged) v in
      requeue-Same now d l _ v' k ∙ try_queue-Same st c now (some d) none p s v k

module _ {S W : Type 0} where
  -- The tasks are all that the dictionary and the loop are about.
  pub same_tasks-IsTracked :
      (m m' : Manager S W)
      → m'.tasks ≡ m.tasks
      → m'.loop ≡ m.loop
      → m'.next_handle ≡ m.next_handle
      → IsTracked m
      → IsTracked m'
  same_tasks-IsTracked m m' a b e v = record {
    owned = λ t inside. rw a (v.owned t (rw (← b) inside));
    live = λ k h at. rw b (v.live k h (rw (← a) at));
    unique = λ t u p q. v.unique t u (rw (← b) p) (rw (← b) q);
    below = λ t p. rw e (v.below t (rw (← b) p));
  }

module _ {S W : Type 0} (st : NotificationStore S) where
  pub live_tasks :
      (now : ℕ) (active : Sessions) (id : Text) (m : Manager S W)
      → ((fire_one st now active id m).1.loop ≡ m.loop)
        × ((fire_one st now active id m).1.tasks ≡ m.tasks)
        × ((fire_one st now active id m).1.next_handle ≡ m.next_handle)
  unfolding fire_one fire_pending fire_live fire_offline
  live_tasks now active id m = (ground arith, ground arith, ground arith)

  pub replay_tasks :
      (now : ℕ) (active : Sessions) (d : Text) (m : Manager S W)
      → ((replay_queued_for_device st now active d m).2.loop ≡ m.loop)
        × ((replay_queued_for_device st now active d m).2.tasks ≡ m.tasks)
        × ((replay_queued_for_device st now active d m).2.next_handle ≡ m.next_handle)
  unfolding replay_queued_for_device
  replay_tasks now active d m = (ground arith, ground arith, ground arith)
