-- ===== src/Scheduler/Manager/Running/Preserved.antt =====
-- Each method of `SchedulerManager` keeps the agreement of tasks and store.
use tinker_box.Base.{refl, sym, ◌∙◌}
use tinker_box.Scheduler.Store.{NotificationStore, Contract}
use tinker_box.Scheduler.Manager.{Manager, replay_queued_for_device}
use tinker_box.Scheduler.Manager.Steps.{
  Command, schedule_new, cancel_at, move_to, snooze, wake, replay, outside, stop, step, Enabled,
}
use tinker_box.Scheduler.Manager.Calls.{step-Calls, cancel-Calls, run_task-Calls, replay-Calls}
use tinker_box.Scheduler.Manager.Firing.{run_task-IsCovered}
use tinker_box.Scheduler.Manager.Cap.{Calls-IsValid}
use tinker_box.Scheduler.Manager.Coverage.{schedule-IsCovered, cancel-IsCovered, Same-NoNew}
use tinker_box.Scheduler.Manager.Running.{IsRunning, IsOrdinary, same_tasks-IsTracked, replay_tasks}
use tinker_box.Scheduler.Manager.Running.Methods.{
  schedule-IsTracked, schedule-known, cancel-IsTracked, cancel-known, reschedule-IsRunning,
  snooze-IsRunning, run_task-IsTracked, run_task-known, replay-Same,
}

module _ {S W : Type 0} (st : NotificationStore S) {IsValid : S → Type 0}
    (c : Contract st IsValid) where
  -- Every ordinary command, in any order, keeps the agreement: the store stays valid, a live task
  -- is the task of its notification, no notification has two, and each pending one has one.
  pub step-IsRunning :
      (cmd : Command W) (m : Manager S W)
      → IsRunning st IsValid m
      → Enabled st cmd m
      → IsOrdinary st cmd m
      → IsRunning st IsValid (step st cmd m)
  unfolding step IsOrdinary
  step-IsRunning (schedule_new n) m v e o = record {
    valid = Calls-IsValid st c (step-Calls st (schedule_new n) m) v.valid;
    tracked = schedule-IsTracked st c n m v;
    covered = schedule-IsCovered st c n m v.covered;
    known = schedule-known st c n m v;
  }
  step-IsRunning (cancel_at now id) m v e o = record {
    valid = Calls-IsValid st c (cancel-Calls st now id m) v.valid;
    tracked = cancel-IsTracked st c now id m v;
    covered = cancel-IsCovered st c now id m v.covered;
    known = cancel-known st c now id m v;
  }
  step-IsRunning (move_to id t) m v e o = reschedule-IsRunning st c id t m v
  step-IsRunning (snooze now id minutes) m v e o = snooze-IsRunning st c now id minutes m v
  step-IsRunning (wake now active t) m v (alive, due) o = record {
    valid = Calls-IsValid st c (run_task-Calls st now active t m) v.valid;
    tracked = run_task-IsTracked st c now active t m alive v;
    covered = run_task-IsCovered st c now active t m v.valid o v.covered;
    known = run_task-known st c now active t m v;
  }
  step-IsRunning (replay now active d) m v e o =
      let (a, b, h) = replay_tasks st now active d m in
      let m' = (replay_queued_for_device st now active d m).2 in
      let same = replay-Same st c now active d m v.valid in
      record {
        valid = Calls-IsValid st c (replay-Calls st now active d m) v.valid;
        tracked = same_tasks-IsTracked m m' b a h v.tracked;
        covered = λ k p. rw b (v.covered k (Same-NoNew st m.store m'.store same k p));
        known = λ k gone. rw b (v.known k (sym (same k) ∙ gone));
      }
  step-IsRunning (outside surfaces world) m v e o = record {
    valid = v.valid;
    tracked =
        same_tasks-IsTracked m (record m { surfaces = surfaces; world = world }) refl refl refl
          v.tracked;
    covered = v.covered;
    known = v.known;
  }
  step-IsRunning stop m v e o = absurd o
