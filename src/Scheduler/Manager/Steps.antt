-- ===== src/Scheduler/Manager/Steps.antt =====
-- Runs of the scheduler: any order of calls and of tasks that wake up, between its start and
-- its shutdown.
use tinker_box.Base.{ℕ, ◌≤◌, false, [], Elem, Text}
use tinker_box.Surfaces.Message.{ℤ}
use tinker_box.Surfaces.Manager.{SurfaceManager}
use tinker_box.Scheduler.Notification.{Notification}
use tinker_box.Scheduler.Store.{NotificationStore}
use tinker_box.Scheduler.Manager.{
  Manager, Task, Sessions, schedule, cancel, reschedule, handle_snooze, run_task,
  replay_queued_for_device, shutdown,
}

pub data Command (W : Type 0) : Type 0 where
  schedule_new : (n : Notification) → Command W
  cancel_at : (now : ℕ) (id : Text) → Command W
  move_to : (id : Text) (fire_at : ℕ) → Command W
  snooze : (now : ℕ) (id : Text) (minutes : ℤ) → Command W
  wake : (now : ℕ) (active : Sessions) (t : Task) → Command W
  replay : (now : ℕ) (active : Sessions) (d : Text) → Command W
  -- what the rest of the server does to the surfaces and the world in the meantime
  outside : (surfaces : SurfaceManager W) (world : W) → Command W
  stop : Command W

module _ {S W : Type 0} (st : NotificationStore S) where
  unfoldable pub step : Command W → Manager S W → Manager S W
  step (schedule_new n) m = (schedule st n m).1
  step (cancel_at now id) m = (cancel st now id m).1
  step (move_to id fire_at) m = (reschedule st id fire_at m).1
  step (snooze now id minutes) m = (handle_snooze st now id minutes m).1
  step (wake now active t) m = (run_task st now active t m).1
  step (replay now active d) m = let (r, n, m') = replay_queued_for_device st now active d m in m'
  step (outside surfaces world) m = record m { surfaces = surfaces; world = world }
  step stop m = shutdown m

  -- Only a live task whose time has come wakes up.
  abbrev pub Enabled : Command W → Manager S W → Type 0
  Enabled (wake now active t) m = Elem t m.loop × (t.fire_at ≤ now)
  Enabled _ m = Unit

  -- The manager as it is constructed, over a store from before.
  abbrev pub constructed : S → SurfaceManager W → W → Manager S W
  constructed s surfaces w = record {
    store = s;
    surfaces = surfaces;
    world = w;
    tasks = [];
    loop = [];
    next_handle = 0;
    started = false;
  }

  pub data Reach (m0 : Manager S W) : Manager S W → Type 0 where
    here : Reach m0 m0
    next : {m : Manager S W} (c : Command W) → Reach m0 m → Enabled c m → Reach m0 (step c m)
