-- ===== src/Scheduler/Manager/Tasks.antt =====
-- The task dictionary of `SchedulerManager` against the live tasks of the event loop.
use tinker_box.Base.{
  ℕ, ◌+◌, ◌<◌, ◌≡◌, ◌≢◌, refl, sym, ap, ◌∙◌, not, none, some, List, [], ◌∷◌, ◌++◌, arith, if_pos,
  if_neg, inl, inr, ◌⊎◌, Elem, Elem-keep, Text, text_dec, ◌==◌, Option-cases,
}
use tinker_box.Base.Dict
use tinker_box.Scheduler.Manager.{Manager, Task, create_task, finish, stop_task, without_handle}

-- The dictionary and the loop agree: a live task is the entry of its notification, an entry is a
-- live task, and handles are not used twice.
pub record IsTracked {S W : Type 0} (m : Manager S W) : Type 0 where
  pub owned : (t : Task) → Elem t m.loop → Dict.get text_dec t.notif_id m.tasks ≡ some t.handle
  pub live :
      (k : Text) (h : ℕ)
      → Dict.get text_dec k m.tasks ≡ some h
      → (t : Task) × Elem t m.loop × (t.notif_id ≡ k) × (t.handle ≡ h)
  pub unique : (t u : Task) → Elem t m.loop → Elem u m.loop → t.handle ≡ u.handle → t ≡ u
  pub below : (t : Task) → Elem t m.loop → t.handle < m.next_handle

Elem-snoc : {A : Type 0} (a x : A) (l : List A) → Elem x (l ++ a ∷ []) → Elem x l ⊎ (a ≡ x)
Elem-snoc a x [] (inl e) = inr e
Elem-snoc a x [] (inr m) = elim m [ ]
Elem-snoc a x (b ∷ l) (inl e) = inl (inl e)
Elem-snoc a x (b ∷ l) (inr m) = elim (Elem-snoc a x l m) [ inl p ↦ inl (inr p) | inr e ↦ inr e ]

Elem-snoc_left : {A : Type 0} (a x : A) (l : List A) → Elem x l → Elem x (l ++ a ∷ [])
Elem-snoc_left a x [] m = elim m [ ]
Elem-snoc_left a x (b ∷ l) (inl e) = inl e
Elem-snoc_left a x (b ∷ l) (inr m) = inr (Elem-snoc_left a x l m)

Elem-snoc_self : {A : Type 0} (a : A) (l : List A) → Elem a (l ++ a ∷ [])
Elem-snoc_self a [] = inl refl
Elem-snoc_self a (b ∷ l) = inr (Elem-snoc_self a l)

module _ {S W : Type 0} where
  -- No task is live for a notification without an entry.
  pub no_task :
      (m : Manager S W) (id : Text)
      → IsTracked m
      → Dict.get text_dec id m.tasks ≡ none
      → (t : Task) → Elem t m.loop
      → t.notif_id ≢ id
  no_task m id v absent t inside e =
      ground (arith, v.owned t inside, absent, ap (λ k. Dict.get text_dec k m.tasks) e)

  -- One notification has at most one live task.
  pub one_task :
      (m : Manager S W) (t u : Task)
      → IsTracked m
      → Elem t m.loop
      → Elem u m.loop
      → t.notif_id ≡ u.notif_id
      → t ≡ u
  one_task m t u v p q e =
      v.unique t u p q
        (ground (arith, v.owned t p, v.owned u q, ap (λ k. Dict.get text_dec k m.tasks) e))

  -- A new task for a notification that has none.
  module _ (id : Text) (at : ℕ) (m : Manager S W) (v : IsTracked m)
      (absent : Dict.get text_dec id m.tasks ≡ none) where
    abbrev fresh_task : Task
    fresh_task = record { handle = m.next_handle; notif_id = id; fire_at = at }

    owned-create :
        (t : Task)
        → Elem t (m.loop ++ fresh_task ∷ [])
        → Dict.get text_dec t.notif_id (Dict.put text_dec id m.next_handle m.tasks) ≡ some t.handle
    owned-create t inside = elim (Elem-snoc fresh_task t m.loop inside) [
      | inl old ↦ rw Dict.get-put_lem (
          if_neg (text_dec id t.notif_id) (λ e. no_task m id v absent t old (sym e)) _ _
          ∙ v.owned t old)
      | inr new ↦
          rw (← new) (
            Dict.get-put_lem text_dec id id m.next_handle m.tasks
            ∙ if_pos (text_dec id id) refl _ _)
    ]

    live-create :
        (k : Text) (h : ℕ)
        → Dict.get text_dec k (Dict.put text_dec id m.next_handle m.tasks) ≡ some h
        → (t : Task) × Elem t (m.loop ++ fresh_task ∷ []) × (t.notif_id ≡ k) × (t.handle ≡ h)
    live-create k h e = elim (text_dec id k) [
      | yes same ↦ (
        fresh_task,
        Elem-snoc_self fresh_task m.loop,
        same,
        ground (arith, Dict.get-put_lem text_dec id k m.next_handle m.tasks),
      )
      | no other ↦
          let (t, inside, a, b) =
            v.live k h (ground (arith, Dict.get-put_lem text_dec id k m.next_handle m.tasks)) in
          (t, Elem-snoc_left fresh_task t m.loop inside, a, b)
    ]

    below-create : (t : Task) → Elem t (m.loop ++ fresh_task ∷ []) → t.handle < m.next_handle + 1
    below-create t inside = elim (Elem-snoc fresh_task t m.loop inside) [
      | inl old ↦ omega (arith, v.below t old)
      | inr new ↦ rw (← new) (omega arith)
    ]

    unique-create :
        (t u : Task)
        → Elem t (m.loop ++ fresh_task ∷ [])
        → Elem u (m.loop ++ fresh_task ∷ [])
        → t.handle ≡ u.handle
        → t ≡ u
    unique-create t u p q e = elim (Elem-snoc fresh_task t m.loop p) [
      | inl p' ↦ elim (Elem-snoc fresh_task u m.loop q) [
        | inl q' ↦ v.unique t u p' q' e
        | inr q' ↦ absurd (ground (arith, v.below t p', q'))
      ]
      | inr p' ↦ elim (Elem-snoc fresh_task u m.loop q) [
        | inl q' ↦ absurd (ground (arith, v.below u q', p'))
        | inr q' ↦ sym p' ∙ q'
      ]
    ]

    pub create_task-IsTracked : IsTracked (create_task id at m)
    unfolding create_task
    create_task-IsTracked = record {
      owned = owned-create;
      live = live-create;
      unique = unique-create;
      below = below-create;
    }

  -- The end of the task of a notification.
  module _ (id : Text) (h : ℕ) (m : Manager S W) (v : IsTracked m)
      (there : Dict.get text_dec id m.tasks ≡ some h) where
    stays : (t : Task) → Elem t (without_handle h m.loop) → Elem t m.loop × (t.handle ≢ h)
    unfolding without_handle
    stays t inside =
        let k = (Elem-keep (λ t. not (t.handle == h)) t m.loop).0 inside in
        (k.0, λ e. ground (arith, k.1))

    other_id : (t : Task) → Elem t m.loop → t.handle ≢ h → t.notif_id ≢ id
    other_id t inside ne e =
        ne (ground (arith, v.owned t inside, there, ap (λ k. Dict.get text_dec k m.tasks) e))

    owned-finish :
        (t : Task)
        → Elem t (without_handle h m.loop)
        → Dict.get text_dec t.notif_id (Dict.pop text_dec id m.tasks) ≡ some t.handle
    owned-finish t inside =
        let (old, ne) = stays t inside in
        ground
          (arith, Dict.get-pop_lem text_dec id t.notif_id m.tasks, other_id t old ne, v.owned t old)

    live-finish :
        (k : Text) (g : ℕ)
        → Dict.get text_dec k (Dict.pop text_dec id m.tasks) ≡ some g
        → (t : Task) × Elem t (without_handle h m.loop) × (t.notif_id ≡ k) × (t.handle ≡ g)
    unfolding without_handle
    live-finish k g e = elim (text_dec id k) [
      | yes same ↦ absurd (ground (arith, Dict.get-pop_lem text_dec id k m.tasks))
      | no differs ↦
          let (t, inside, a, b) =
            v.live k g (ground (arith, Dict.get-pop_lem text_dec id k m.tasks)) in
          let (u, inside', a', b') = v.live id h there in
          let ne : t.handle ≢ h = λ same. differs (
            sym a'
            ∙ ap (λ (x : Task). x.notif_id) (v.unique u t inside' inside (b' ∙ sym same))
            ∙ a) in
          (t, (Elem-keep (λ t. not (t.handle == h)) t m.loop).1 (inside, ground arith), a, b)
    ]

    pub finish-IsTracked : IsTracked (finish id h m)
    unfolding finish
    finish-IsTracked = record {
      owned = owned-finish;
      live = live-finish;
      unique = λ t u p q e. v.unique t u (stays t p).0 (stays u q).0 e;
      below = λ t p. v.below t (stays t p).0;
    }

  pub stop_task-IsTracked : (id : Text) (m : Manager S W) → IsTracked m → IsTracked (stop_task id m)
  unfolding stop_task
  stop_task-IsTracked id m v = elim (Option-cases (Dict.get text_dec id m.tasks)) [
    | inl absent ↦ rw (absent, stop_task) v
    | inr (h, there) ↦ rw (there, stop_task) (finish-IsTracked id h m v there)
  ]

  pub stop_task-absent :
      (id : Text) (m : Manager S W) → Dict.get text_dec id (stop_task id m).tasks ≡ none
  unfolding stop_task finish
  stop_task-absent id m = elim (Option-cases (Dict.get text_dec id m.tasks)) [
    | inl absent ↦ rw (absent, stop_task) absent
    | inr (h, there) ↦
        rw (there, stop_task)
          (Dict.get-pop_lem text_dec id id m.tasks ∙ if_pos (text_dec id id) refl _ _)
  ]
