-- ===== src/Scheduler/Manager/Running/Runs.antt =====
-- Runs of a scheduler that is not shut down, from its start over a store with nothing pending.
use tinker_box.Base.{
  ℕ, ◌≡◌, ◌≢◌, refl, sym, ap, ◌∙◌, true, none, some, [], arith, Option-cases, inl, inr, Text,
  text_dec, Elem,
}
use tinker_box.Base.Dict
use tinker_box.Surfaces.Manager.{SurfaceManager}
use tinker_box.Scheduler.Store.{NotificationStore, Contract, is_pending_at, is_for}
use tinker_box.Scheduler.Manager.{Manager, Task, start, boot_all}
use tinker_box.Scheduler.Manager.Tasks.{one_task}
use tinker_box.Scheduler.Manager.Steps.{Command, step, Enabled, constructed}
use tinker_box.Scheduler.Manager.Running.{IsRunning, IsOrdinary}
use tinker_box.Scheduler.Manager.Running.Preserved.{step-IsRunning}

none_is_some : {h : ℕ} → none ≢ some h
none_is_some e = ground (arith, e)

pub data Run {S W : Type 0} (st : NotificationStore S) (m0 : Manager S W)
    : Manager S W → Type 0 where
  begin : Run st m0 m0
  then_ :
      {m : Manager S W} (c : Command W)
      → Run st m0 m
      → Enabled st c m
      → IsOrdinary st c m
      → Run st m0 (step st c m)

module _ {S : Type 0} (st : NotificationStore S) {IsValid : S → Type 0}
    (c : Contract st IsValid) where
  nothing_pending :
      (s : S)
      → IsValid s
      → st.list_pending none s ≡ []
      → (k : Text) → is_pending_at (st.get k s) ≢ true
  unfolding is_pending_at is_for
  nothing_pending s v e k p = elim (Option-cases (st.get k s)) [
    | inl gone ↦ ground (arith, gone)
    | inr (n, there) ↦
        let same = c.get_id s k n v there in
        rw e at (c.pending_elem s none n v).1
          (ap (λ j. st.get j s) same ∙ there, ground (arith, there, p), refl)
  ]

module _ {S W : Type 0} (st : NotificationStore S) {IsValid : S → Type 0}
    (c : Contract st IsValid) where
  Run-IsRunning :
      {m0 m : Manager S W} → Run st m0 m → IsRunning st IsValid m0 → IsRunning st IsValid m
  Run-IsRunning begin v = v
  Run-IsRunning (then_ {m = m} cmd r e o) v = step-IsRunning st c cmd m (Run-IsRunning r v) e o

  pub start-IsRunning :
      (now : ℕ) (s : S) (surfaces : SurfaceManager W) (w : W)
      → IsValid s
      → st.list_pending none s ≡ []
      → IsRunning st IsValid (start st now (constructed st s surfaces w))
  unfolding start boot_all Dict.get
  start-IsRunning now s surfaces w v e = rw e (record {
    valid = v;
    tracked = record {
      owned = λ t inside. absurd inside;
      live = λ k h at. absurd (none_is_some at);
      unique = λ t u inside. absurd inside;
      below = λ t inside. absurd inside;
    };
    covered = λ k p. absurd (nothing_pending st c s v e k p);
    known = λ k gone. refl;
  })

  -- In every run of a scheduler that is not shut down and whose sends are not cancelled, started
  -- over a valid store with nothing pending, the store of a kind that keeps the contract: each
  -- notification that is pending has exactly one live task, and its handle is the dictionary's.
  pub Run-one_task :
      (now : ℕ) (s : S) (surfaces : SurfaceManager W) (w : W) {m : Manager S W}
      → IsValid s
      → st.list_pending none s ≡ []
      → Run st (start st now (constructed st s surfaces w)) m
      → (k : Text) → is_pending_at (st.get k m.store) ≡ true
      → (t : Task) × Elem t m.loop
        × (t.notif_id ≡ k)
        × (Dict.get text_dec k m.tasks ≡ some t.handle)
        × ((u : Task) → Elem u m.loop → u.notif_id ≡ k → u ≡ t)
  Run-one_task now s surfaces w {m} v e r k p =
      let run = Run-IsRunning r (start-IsRunning now s surfaces w v e) in
      elim (Option-cases (Dict.get text_dec k m.tasks)) [
        | inl gone ↦ absurd (run.covered k p gone)
        | inr (h, there) ↦
            let (t, inside, a, b) = run.tracked.live k h there in
            (
              t,
              inside,
              a,
              there ∙ ap some (sym b),
              λ u inside' same. one_task m u t run.tracked inside' inside (same ∙ sym a),
            )
      ]
