-- ===== src/Scheduler/Manager/Firing.antt =====
-- What the end of a sleep, `_fire_one`, makes of the store and the tasks.
use tinker_box.Base.{
  ℕ, ◌≡◌, ◌⊎◌, refl, false, some, arith, Bool-cases, Option-cases, inl, inr, Text, text_dec, codes,
}
use tinker_box.Base.Dict
use tinker_box.Surfaces.Outcome.{Outcome, cancelled, done, raised}
use tinker_box.Surfaces.Manager.{surface_for}
use tinker_box.Surfaces.Tab5Surface.{Surface}
use tinker_box.Scheduler.Notification.{Notification, is_pending}
use tinker_box.Scheduler.Store.{NotificationStore, Contract, set_fired, is_pending_at}
use tinker_box.Scheduler.Delivery.{rendered}
use tinker_box.Scheduler.Manager.{
  Manager, Task, Sessions, run_task, finish, try_queue, fire_one, fire_pending, fire_offline,
  fire_live, lookup_active_session,
}
use tinker_box.Scheduler.Manager.Coverage.{
  NoNew, Changes-NoNew, Same-NoNew, IsCovered, fired-over, try_queue-Same,
}

module _ {S W : Type 0} (st : NotificationStore S) {IsValid : S → Type 0}
    (c : Contract st IsValid) where
  -- What the end of a sleep does to the store: nothing new is pending, and unless the send was
  -- cancelled, the notification itself is not.
  abbrev pub Fires : ℕ → Text → Manager S W → Outcome × Manager S W → Type 0
  Fires now id m r =
      NoNew st m.store r.1.store
      × (r.0 ≡ done → is_pending_at (st.get id r.1.store) ≡ false)
      × (r.1.tasks ≡ m.tasks)

  live-store :
      (now : ℕ) (n : Notification) (id sid : Text) (surface : Surface W) (m : Manager S W)
      → ((fire_live st now n id sid surface m).1.store ≡ st.mark_fired now id m.store)
        ⊎ (((fire_live st now n id sid surface m).1.store ≡ m.store)
            × ((fire_live st now n id sid surface m).0 ≡ raised cancelled))
  unfolding fire_live
  live-store now n id sid surface m = ground arith

  pub live-tasks :
      (now : ℕ) (n : Notification) (id sid : Text) (surface : Surface W) (m : Manager S W)
      → (fire_live st now n id sid surface m).1.tasks ≡ m.tasks
  unfolding fire_live
  live-tasks now n id sid surface m = ground arith

  pub offline-Fires :
      (now : ℕ) (n : Notification) (id : Text) (m : Manager S W)
      → IsValid m.store
      → Fires now id m (done, fire_offline st now n id m)
  unfolding fire_offline
  offline-Fires now n id m v =
      let s = try_queue st now n.device_id (some id) (rendered n) m.store in
      let same = try_queue-Same st c now n.device_id (some id) (rendered n) m.store v in
      (
        λ k p.
            Same-NoNew st m.store s same k
              (Changes-NoNew st id (set_fired now) s _ (c.fired_get s now id) k p),
        λ _. fired-over st c now id s,
        refl,
      )

  pub live-Fires :
      (now : ℕ) (n : Notification) (id sid : Text) (surface : Surface W) (m : Manager S W)
      → Fires now id m (fire_live st now n id sid surface m)
  live-Fires now n id sid surface m =
      let fired = st.mark_fired now id m.store in
      let before = Changes-NoNew st id (set_fired now) m.store fired (c.fired_get m.store now id) in
      elim (live-store now n id sid surface m) [
        | inl e ↦ (
          λ k p. before k (rw e at p),
          λ _. rw e (fired-over st c now id m.store),
          live-tasks now n id sid surface m,
        )
        | inr (e, r) ↦ (
          λ k p. rw e at p,
          λ d. absurd (ground (arith, d, r)),
          live-tasks now n id sid surface m,
        )
      ]

  pub pending-Fires :
      (now : ℕ) (active : Sessions) (n : Notification) (id : Text) (m : Manager S W)
      → IsValid m.store
      → Fires now id m (fire_pending st now active n id m)
  unfolding fire_pending
  pending-Fires now active n id m v =
      elim (Option-cases (lookup_active_session active n.device_id)) [
        | inl away ↦ rw (away, fire_pending) (offline-Fires now n id m v)
        | inr (sid, e) ↦
            rw (e, fire_pending)
              (elim (Option-cases (surface_for sid (codes "scheduler") m.surfaces)) [
                | inl gone ↦ rw (gone, fire_pending) (offline-Fires now n id m v)
                | inr (surface, e') ↦ rw (e', fire_pending) (live-Fires now n id sid surface m)
              ])
      ]

  -- Over a store that keeps the contract, the end of a sleep makes nothing pending that was not,
  -- leaves the task dictionary alone and, where it ends without a cancelled send, the notification
  -- is not pending afterwards.
  pub fire_one-Fires :
      (now : ℕ) (active : Sessions) (id : Text) (m : Manager S W)
      → IsValid m.store
      → Fires now id m (fire_one st now active id m)
  unfolding fire_one is_pending_at
  fire_one-Fires now active id m v = elim (Option-cases (st.get id m.store)) [
    | inl missing ↦ rw (missing, fire_one) (λ k p. p, λ _. rw (missing, is_pending_at), refl)
    | inr (n, e) ↦
        rw (e, fire_one)
          (elim (Bool-cases (is_pending n)) [
            | inl waits ↦ rw waits (pending-Fires now active n id m v)
            | inr over ↦ rw over (λ k p. p, λ _. rw (e, is_pending_at) over, refl)
          ])
  ]

  pub run_task-IsCovered :
      (now : ℕ) (active : Sessions) (t : Task) (m : Manager S W)
      → IsValid m.store
      → (run_task st now active t m).0 ≡ done
      → IsCovered st m
      → IsCovered st (run_task st now active t m).1
  unfolding run_task finish
  run_task-IsCovered now active t m valid ended v k p =
      let (before, over, same) = fire_one-Fires now active t.notif_id m valid in
      elim (text_dec t.notif_id k) [
        | yes e ↦ absurd (ground (arith, over ended, e, p))
        | no ne ↦
            ground (arith, same, Dict.get-pop_lem text_dec t.notif_id k m.tasks, before k p, v k)
      ]
