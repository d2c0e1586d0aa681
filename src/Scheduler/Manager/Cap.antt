-- ===== src/Scheduler/Manager/Cap.antt =====
-- The runaway cap and the validity of the store, through every run of the scheduler.
use tinker_box.Base.{ℕ, ◌≤◌, ◌≡◌, false, some, arith, Text}
use native.Mathlib.Nat.{le_trans}
use tinker_box.Scheduler.Notification.{Notification}
use tinker_box.Scheduler.Store.{NotificationStore, Contract, is_for}
use tinker_box.Scheduler.Manager.{Manager, runaway_cap, at_cap, start}
use tinker_box.Scheduler.Manager.Steps.{Reach, here, next}
use tinker_box.Scheduler.Manager.Calls.{
  Calls, unchanged, created, cancelled_one, moved, fired_one, failed_one, queued, drained,
  step-Calls, start-Calls,
}

module _ {S : Type 0} (st : NotificationStore S) where
  abbrev pub IsCapped : S → Type 0
  IsCapped s = (d : Text) → st.count_pending_for_device d s ≤ runaway_cap

module _ {S : Type 0} (st : NotificationStore S) {IsValid : S → Type 0}
    (c : Contract st IsValid) where
  created-IsCapped :
      (s s' : S) (n : Notification)
      → at_cap st n.device_id s ≡ false
      → st.create n s ≡ some s'
      → IsCapped st s
      → IsCapped st s'
  unfolding at_cap is_for
  created-IsCapped s s' n room e capped d = ground (arith, c.create_count s s' n d e, capped d)

  pub Calls-IsCapped : {s s' : S} → Calls st s s' → IsCapped st s → IsCapped st s'
  Calls-IsCapped unchanged h = h
  Calls-IsCapped (created {s' = a} {s'' = b} n r room e) h =
      created-IsCapped a b n room e (Calls-IsCapped r h)
  Calls-IsCapped (cancelled_one {s' = a} now k r) h =
      λ d. le_trans (c.cancel_count a now k d) (Calls-IsCapped r h d)
  Calls-IsCapped (moved {s' = a} k t r) h =
      λ d. le_trans (c.update_count a k t d) (Calls-IsCapped r h d)
  Calls-IsCapped (fired_one {s' = a} now k r) h =
      λ d. le_trans (c.fired_count a now k d) (Calls-IsCapped r h d)
  Calls-IsCapped (failed_one {s' = a} k r) h =
      λ d. le_trans (c.failed_count a k d) (Calls-IsCapped r h d)
  Calls-IsCapped (queued {s' = a} {s'' = b} now e k p r q) h =
      λ d. rw (c.queue_count a b now e k p d q) (Calls-IsCapped r h d)
  Calls-IsCapped (drained {s' = a} e r) h = λ d. rw (c.drain_count a e d) (Calls-IsCapped r h d)

  pub Calls-IsValid : {s s' : S} → Calls st s s' → IsValid s → IsValid s'
  Calls-IsValid unchanged h = h
  Calls-IsValid (created {s' = a} {s'' = b} n r room e) h =
      c.create_valid a b n (Calls-IsValid r h) e
  Calls-IsValid (cancelled_one {s' = a} now k r) h = c.cancel_valid a now k (Calls-IsValid r h)
  Calls-IsValid (moved {s' = a} k t r) h = c.update_valid a k t (Calls-IsValid r h)
  Calls-IsValid (fired_one {s' = a} now k r) h = c.fired_valid a now k (Calls-IsValid r h)
  Calls-IsValid (failed_one {s' = a} k r) h = c.failed_valid a k (Calls-IsValid r h)
  Calls-IsValid (queued {s' = a} {s'' = b} now e k p r q) h =
      (c.queue_valid a b now e k p (Calls-IsValid r h) q).0
  Calls-IsValid (drained {s' = a} e r) h = (c.drain_valid a e (Calls-IsValid r h)).0

  module _ {W : Type 0} where
    -- In every run of the scheduler over a store that keeps the contract, from a start over a
    -- valid store, the store stays valid, and if no device had more than 100 pending
    -- notifications at the start, none ever has.
    pub Reach-IsCapped :
        (now : ℕ) (m0 : Manager S W) {m : Manager S W}
        → IsValid m0.store
        → IsCapped st m0.store
        → Reach st (start st now m0) m
        → IsValid m.store × IsCapped st m.store
    Reach-IsCapped now m0 v h here =
        (Calls-IsValid (start-Calls st now m0) v, Calls-IsCapped (start-Calls st now m0) h)
    Reach-IsCapped now m0 v h (next {m = m} cmd r _) =
        let (v', h') = Reach-IsCapped now m0 v h r in
        (Calls-IsValid (step-Calls st cmd m) v', Calls-IsCapped (step-Calls st cmd m) h')
