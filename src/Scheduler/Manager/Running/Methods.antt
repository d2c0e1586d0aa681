-- ===== src/Scheduler/Manager/Running/Methods.antt =====
-- What each method of `SchedulerManager` makes of the tasks and of the dictionary.
use tinker_box.Base.{
  ℕ, zero, suc, ◌+◌, ◌*◌, ◌≡◌, refl, ◌∙◌, none, arith, Bool-cases, Option-cases, inl, inr, Text,
  text_dec, Elem,
}
use tinker_box.Base.Dict
use tinker_box.Surfaces.Message.{ℤ, pos, negsuc}
use tinker_box.Scheduler.Notification.{Notification}
use tinker_box.Scheduler.Store.{NotificationStore, Contract, Same, is_pending_at}
use tinker_box.Scheduler.Manager.{
  Manager, Task, Sessions, schedule, cancel, reschedule, handle_snooze, run_task,
  replay_queued_for_device, at_cap, create_task, finish, stop_task, fire_one,
}
use tinker_box.Scheduler.Manager.Tasks.{
  IsTracked, create_task-IsTracked, finish-IsTracked, stop_task-IsTracked, stop_task-absent,
}
use tinker_box.Scheduler.Manager.Steps.{Command, step}
use tinker_box.Scheduler.Manager.Calls.{
  step-Calls, replay_cases, cancel-Calls, run_task-Calls, reschedule-Calls,
}
use tinker_box.Scheduler.Manager.Cap.{Calls-IsValid}
use tinker_box.Scheduler.Manager.Coverage.{reschedule-IsCovered}
use tinker_box.Scheduler.Manager.Running.{
  IsRunning, Calls-there, requeue-Same, same_tasks-IsTracked, live_tasks,
}

module _ {S W : Type 0} (st : NotificationStore S) {IsValid : S → Type 0}
    (c : Contract st IsValid) where
  -- A dictionary entry is for a notification of the store, through every command.
  pub step-known :
      (cmd : Command W) (m : Manager S W)
      → IsRunning st IsValid m
      → (k : Text) → st.get k (step st cmd m).store ≡ none
      → st.get k m.store ≡ none
  step-known cmd m v k gone = Calls-there st c (step-Calls st cmd m) v.valid k gone

  pub schedule-IsTracked :
      (n : Notification) (m : Manager S W) → IsRunning st IsValid m → IsTracked (schedule st n m).1
  unfolding schedule
  schedule-IsTracked n m v = elim (Bool-cases (at_cap st n.device_id m.store)) [
    | inl full ↦ rw full v.tracked
    | inr room ↦ rw room (elim (Option-cases (st.create n m.store)) [
      | inl refused ↦ rw (refused, schedule) v.tracked
      | inr (s, e) ↦
          let m' : Manager S W = record m { store = s } in
          rw (e, schedule)
            (create_task-IsTracked n.id n.fire_at m'
              (same_tasks-IsTracked m m' refl refl refl v.tracked)
              (v.known n.id (c.create_fresh m.store s n e)))
    ])
  ]

  pub schedule-known :
      (n : Notification) (m : Manager S W)
      → IsRunning st IsValid m
      → (k : Text) → st.get k (schedule st n m).1.store ≡ none
      → Dict.get text_dec k (schedule st n m).1.tasks ≡ none
  unfolding schedule create_task
  schedule-known n m v k gone = elim (Bool-cases (at_cap st n.device_id m.store)) [
    | inl full ↦ ground (arith, full, gone, v.known k)
    | inr room ↦ elim (Option-cases (st.create n m.store)) [
      | inl refused ↦ ground (arith, room, refused, gone, v.known k)
      | inr (s, e) ↦ elim (text_dec n.id k) [
        | yes same ↦ absurd (c.create_there m.store s n e (rw same (ground (arith, room, e, gone))))
        | no ne ↦ ground (
          arith,
          room,
          e,
          gone,
          c.create_other m.store s n k e ne,
          v.known k,
          Dict.get-put_lem text_dec n.id k m.next_handle m.tasks,
        )
      ]
    ]
  ]

  pub stop_task-none :
      (id k : Text) (m : Manager S W)
      → Dict.get text_dec k m.tasks ≡ none
      → Dict.get text_dec k (stop_task id m).tasks ≡ none
  unfolding stop_task finish
  stop_task-none id k m e = ground (arith, Dict.get-pop_lem text_dec id k m.tasks)

  pub cancel-IsTracked :
      (now : ℕ) (id : Text) (m : Manager S W)
      → IsRunning st IsValid m
      → IsTracked (cancel st now id m).1
  unfolding cancel
  cancel-IsTracked now id m v =
      let m' : Manager S W = record m { store = (st.cancel now id m.store).1 } in
      let v' = same_tasks-IsTracked m m' refl refl refl v.tracked in
      elim (Bool-cases (st.cancel now id m.store).0) [
        | inl ok ↦ rw ok (stop_task-IsTracked id m' v')
        | inr idle ↦ rw idle v'
      ]

  pub cancel-known :
      (now : ℕ) (id : Text) (m : Manager S W)
      → IsRunning st IsValid m
      → (k : Text) → st.get k (cancel st now id m).1.store ≡ none
      → Dict.get text_dec k (cancel st now id m).1.tasks ≡ none
  unfolding cancel
  cancel-known now id m v k gone =
      let m' : Manager S W = record m { store = (st.cancel now id m.store).1 } in
      let before = v.known k (Calls-there st c (cancel-Calls st now id m) v.valid k gone) in
      ground (arith, stop_task-none id k m' before, before)

  pub reschedule-IsTracked :
      (id : Text) (t : ℕ) (m : Manager S W)
      → IsRunning st IsValid m
      → IsTracked (reschedule st id t m).1
  unfolding reschedule
  reschedule-IsTracked id t m v =
      let m' : Manager S W = record m { store = (st.update_fire_at id t m.store).1 } in
      let v' = same_tasks-IsTracked m m' refl refl refl v.tracked in
      elim (Bool-cases (st.update_fire_at id t m.store).0) [
        | inl ok ↦ rw ok (
            create_task-IsTracked id t (stop_task id m') (stop_task-IsTracked id m' v')
              (stop_task-absent id m'))
        | inr idle ↦ rw idle v'
      ]

  pub reschedule-known :
      (id : Text) (t : ℕ) (m : Manager S W)
      → IsRunning st IsValid m
      → (k : Text) → st.get k (reschedule st id t m).1.store ≡ none
      → Dict.get text_dec k (reschedule st id t m).1.tasks ≡ none
  unfolding reschedule create_task is_pending_at
  reschedule-known id t m v k gone =
      let m' : Manager S W = record m { store = (st.update_fire_at id t m.store).1 } in
      let there = Calls-there st c (reschedule-Calls st id t m) v.valid k gone in
      let before = v.known k there in
      elim (Bool-cases (st.update_fire_at id t m.store).0) [
        | inl ok ↦ elim (text_dec id k) [
          | yes same ↦
              absurd (ground (arith, ok, c.update_answer m.store id t v.valid, there, same))
          | no ne ↦ ground (
            arith,
            ok,
            stop_task-none id k m' before,
            Dict.get-put_lem text_dec id k (stop_task id m').next_handle (stop_task id m').tasks,
          )
        ]
        | inr idle ↦ ground (arith, idle, before)
      ]

  pub reschedule-IsRunning :
      (id : Text) (t : ℕ) (m : Manager S W)
      → IsRunning st IsValid m
      → IsRunning st IsValid (reschedule st id t m).1
  reschedule-IsRunning id t m v = record {
    valid = Calls-IsValid st c (reschedule-Calls st id t m) v.valid;
    tracked = reschedule-IsTracked id t m v;
    covered = reschedule-IsCovered st c id t m v.covered;
    known = reschedule-known id t m v;
  }

  pub snooze-IsRunning :
      (now : ℕ) (id : Text) (minutes : ℤ) (m : Manager S W)
      → IsRunning st IsValid m
      → IsRunning st IsValid (handle_snooze st now id minutes m).1
  unfolding handle_snooze
  snooze-IsRunning now id (pos zero) m v = v
  snooze-IsRunning now id (pos (suc n)) m v = reschedule-IsRunning id (now + (suc n) * 60000) m v
  snooze-IsRunning now id (negsuc n) m v = v

  pub run_task-IsTracked :
      (now : ℕ) (active : Sessions) (t : Task) (m : Manager S W)
      → Elem t m.loop
      → IsRunning st IsValid m
      → IsTracked (run_task st now active t m).1
  unfolding run_task
  run_task-IsTracked now active t m alive v =
      let (a, b, e) = live_tasks st now active t.notif_id m in
      let m' = (fire_one st now active t.notif_id m).1 in
      finish-IsTracked t.notif_id t.handle m' (same_tasks-IsTracked m m' b a e v.tracked)
        (rw b (v.tracked.owned t alive))

  pub run_task-known :
      (now : ℕ) (active : Sessions) (t : Task) (m : Manager S W)
      → IsRunning st IsValid m
      → (k : Text) → st.get k (run_task st now active t m).1.store ≡ none
      → Dict.get text_dec k (run_task st now active t m).1.tasks ≡ none
  unfolding run_task finish
  run_task-known now active t m v k gone = ground (
    arith,
    (live_tasks st now active t.notif_id m).1,
    v.known k (Calls-there st c (run_task-Calls st now active t m) v.valid k gone),
    Dict.get-pop_lem text_dec t.notif_id k m.tasks,
  )

  pub replay-Same :
      (now : ℕ) (active : Sessions) (d : Text) (m : Manager S W)
      → IsValid m.store
      → Same st m.store (replay_queued_for_device st now active d m).2.store
  replay-Same now active d m v k =
      let (v', same) = c.drain_valid m.store d v in
      elim (replay_cases st now active d m) [
        | inl out ↦ rw out (same k)
        | inr back ↦
            rw back
              (requeue-Same st c now d _ (st.drain_queue_for_device d m.store).1 v' k ∙ same k)
      ]
