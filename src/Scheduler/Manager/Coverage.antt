-- ===== src/Scheduler/Manager/Coverage.antt =====
-- No reminder is lost or doubled: while the scheduler runs, each pending notification has exactly
-- one live task.
use mathlib.Core.Option
use tinker_box.Base.{
  ℕ, ◌≡◌, ◌≢◌, refl, ◌∙◌, if_pos, true, false, Option, none, some, arith, Bool-cases, Option-cases,
  inl, inr, Text, text_dec,
}
use tinker_box.Base.Dict
use tinker_box.Scheduler.Notification.{Notification, is_pending}
use tinker_box.Scheduler.Store.{
  NotificationStore, Contract, Payload, Changes, Same, when_pending, set_cancelled, set_fire_at,
  set_fired, is_pending_at,
}
use tinker_box.Scheduler.Manager.{
  Manager, schedule, cancel, reschedule, at_cap, create_task, finish, stop_task, try_queue,
}

module _ {S : Type 0} (st : NotificationStore S) where
  -- What is pending afterwards was pending before.
  abbrev pub NoNew : S → S → Type 0
  NoNew s s' = (k : Text) → is_pending_at (st.get k s') ≡ true → is_pending_at (st.get k s) ≡ true

  pub Changes-NoNew :
      (j : Text) (f : Notification → Notification) (s s' : S)
      → Changes st j (when_pending f) s s'
      → NoNew s s'
  unfolding is_pending_at
  Changes-NoNew j f s s' ch k p = ground (arith, ch k)

  pub Same-NoNew : (s s' : S) → Same st s s' → NoNew s s'
  Same-NoNew s s' same k p = ground (arith, same k)

module _ {S W : Type 0} (st : NotificationStore S) where
  -- Every pending notification has an entry in the task dictionary.
  abbrev pub IsCovered : Manager S W → Type 0
  IsCovered m =
      (k : Text) → is_pending_at (st.get k m.store) ≡ true → Dict.get text_dec k m.tasks ≢ none

module _ {S : Type 0} (st : NotificationStore S) {IsValid : S → Type 0}
    (c : Contract st IsValid) where
  pub over-cancelled :
      (now : ℕ) (o : Option Notification)
      → is_pending_at (Option.map (when_pending (set_cancelled now)) o) ≡ false
  unfolding is_pending_at is_pending
  over-cancelled now none = refl
  over-cancelled now (some n) = ground arith

  pub over-fired :
      (now : ℕ) (o : Option Notification)
      → is_pending_at (Option.map (when_pending (set_fired now)) o) ≡ false
  unfolding is_pending_at is_pending
  over-fired now none = refl
  over-fired now (some n) = ground arith

  -- After a cancellation the notification is not pending.
  pub cancelled-over :
      (now : ℕ) (id : Text) (s : S) → is_pending_at (st.get id (st.cancel now id s).1) ≡ false
  cancelled-over now id s =
      rw (c.cancel_get s now id id ∙ if_pos (text_dec id id) refl _ _)
        (over-cancelled now (st.get id s))

  pub fired-over :
      (now : ℕ) (id : Text) (s : S) → is_pending_at (st.get id (st.mark_fired now id s)) ≡ false
  fired-over now id s =
      rw (c.fired_get s now id id ∙ if_pos (text_dec id id) refl _ _) (over-fired now (st.get id s))

  pub try_queue-Same :
      (now : ℕ) (dev k : Option Text) (p : Payload) (s : S)
      → IsValid s
      → Same st s (try_queue st now dev k p s)
  unfolding try_queue
  try_queue-Same now none k p s v = λ j. refl
  try_queue-Same now (some d) k p s v = elim (Option-cases (st.queue_notification now d k p s)) [
    | inl refused ↦ rw (refused, try_queue) (λ j. refl)
    | inr (s', e) ↦ rw (e, try_queue) (c.queue_valid s s' now d k p v e).1
  ]

module _ {S W : Type 0} (st : NotificationStore S) {IsValid : S → Type 0}
    (c : Contract st IsValid) where
  pub schedule-IsCovered :
      (n : Notification) (m : Manager S W) → IsCovered st m → IsCovered st (schedule st n m).1
  unfolding schedule create_task is_pending_at
  schedule-IsCovered n m v k p = elim (Bool-cases (at_cap st n.device_id m.store)) [
    | inl full ↦ ground (arith, v k)
    | inr room ↦ elim (Option-cases (st.create n m.store)) [
      | inl refused ↦ ground (arith, v k)
      | inr (s, e) ↦ ground (
        arith,
        v k,
        c.create_other m.store s n k e,
        Dict.get-put_lem text_dec n.id k m.next_handle m.tasks,
      )
    ]
  ]

  pub stop_task-store : (id : Text) (m : Manager S W) → (stop_task id m).store ≡ m.store
  unfolding stop_task finish
  stop_task-store id m = ground arith

  pub get-stop_task :
      (id k : Text) (m : Manager S W)
      → id ≢ k
      → Dict.get text_dec k (stop_task id m).tasks ≡ Dict.get text_dec k m.tasks
  unfolding stop_task finish
  get-stop_task id k m ne = ground (arith, Dict.get-pop_lem text_dec id k m.tasks)

  pub cancel-IsCovered :
      (now : ℕ) (id : Text) (m : Manager S W) → IsCovered st m → IsCovered st (cancel st now id m).1
  unfolding cancel
  cancel-IsCovered now id m v k p =
      let s' = (st.cancel now id m.store).1 in
      let m' : Manager S W = record m { store = s' } in
      let before =
        Changes-NoNew st id (set_cancelled now) m.store s' (c.cancel_get m.store now id) k in
      elim (Bool-cases (st.cancel now id m.store).0) [
        | inl ok ↦ elim (text_dec id k) [
          | yes e ↦
              absurd (
                ground (arith, ok, cancelled-over st c now id m.store, stop_task-store id m', e, p))
          | no ne ↦ ground (arith, ok, get-stop_task id k m' ne, before, stop_task-store id m', v k)
        ]
        | inr idle ↦ ground (arith, idle, before, v k)
      ]

  pub reschedule-IsCovered :
      (id : Text) (t : ℕ) (m : Manager S W) → IsCovered st m → IsCovered st (reschedule st id t m).1
  unfolding reschedule create_task
  reschedule-IsCovered id t m v k p =
      let s' = (st.update_fire_at id t m.store).1 in
      let m' : Manager S W = record m { store = s' } in
      let before = Changes-NoNew st id (set_fire_at t) m.store s' (c.update_get m.store id t) k in
      let entry =
        Dict.get-put_lem text_dec id k (stop_task id m').next_handle (stop_task id m').tasks in
      elim (Bool-cases (st.update_fire_at id t m.store).0) [
        | inl ok ↦ elim (text_dec id k) [
          | yes e ↦ ground (arith, ok, entry)
          | no ne ↦
              ground
                (arith, ok, entry, get-stop_task id k m' ne, before, stop_task-store id m', v k)
        ]
        | inr idle ↦ ground (arith, idle, before, v k)
      ]
