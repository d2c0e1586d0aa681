-- ===== src/Scheduler/Sqlite/Fifo.antt =====
-- `queue_notification` and `drain_queue_for_device` of the SQLite store, as a client sees them: a
-- bounded first-in first-out queue for each device.
use mathlib.Core.List.{append-nil}
use mathlib.Core.Path.{subst}
use native.Mathlib.Nat.{le_refl}
use tinker_box.Base.{
  ℕ, ◌+◌, ◌-◌, ◌≤◌, ◌≡◌, ◌≢◌, refl, ◌∙◌, sym, ap, true, Option, some, List, [], ◌∷◌, ◌++◌, arith,
  length, length-drop, keep, count, drop, drop-length, take, take_of_length-le, All, All-snoc,
  keep-append, All-keep, count-append, Text,
}
use tinker_box.Base.Sort.{sort, sort-snoc}
use tinker_box.Scheduler.Store.{Payload}
use tinker_box.Scheduler.Sqlite.{
  Tables, QueueRow, queue_cap, is_queued_for, is_text, has_text, by_queued_at, queued_rows,
  delete_ids, row_ids, payloads, make_room, queue_notification, drain_queue_for_device,
}
use tinker_box.Scheduler.Sqlite.Queue.{keep-HasUniqueIds}
use tinker_box.Scheduler.Sqlite.Replay.{
  queued_rows-delete_ids, queued_rows-make_room, make_room-HasUniqueIds, length-queued_rows,
  keep-delete_ids, keep-make_room, snoc-HasUniqueIds, All_weaken, All-make_room, IsQueueValid,
  backlog, new_row,
}

keep_own : (d : Text) (r : QueueRow) → r.device_id ≡ d → keep (is_queued_for d) (r ∷ []) ≡ r ∷ []
unfolding keep is_queued_for is_text
keep_own d r e = ground arith

-- A row that is not older than the rest is the last.
queued_rows-snoc :
    (d : Text) (l : List QueueRow) (r : QueueRow)
    → r.device_id ≡ d
    → All (λ x. by_queued_at x r ≡ true) l
    → queued_rows d (l ++ r ∷ []) ≡ queued_rows d l ++ r ∷ []
unfolding queued_rows
queued_rows-snoc d l r e h =
    ap (sort by_queued_at) (
      keep-append (is_queued_for d) l (r ∷ [])
      ∙ ap (λ m. keep (is_queued_for d) l ++ m) (keep_own d r e))
    ∙ sort-snoc by_queued_at r _ (All-keep _ (is_queued_for d) l h)

All_before :
    (now : ℕ) (d : Text) (k : Option Text) (p : Payload) (s : Tables) (l : List QueueRow)
    → All (λ r. r.queued_at ≤ now) l
    → All (λ x. by_queued_at x (new_row now d k p s) ≡ true) l
unfolding new_row
All_before now d k p s [] h = tt
All_before now d k p s (x ∷ l) h = (ground arith, All_before now d k p s l h.1)

keep-new_row_ne :
    (s : Tables) (now : ℕ) (d e : Text) (k : Option Text) (p : Payload)
    → d ≢ e
    → keep (is_queued_for e) (new_row now d k p s ∷ []) ≡ []
unfolding keep is_queued_for is_text new_row
keep-new_row_ne s now d e k p other = ground arith

payloads-new_row :
    (s : Tables) (now : ℕ) (d : Text) (k : Option Text) (p : Payload) (l : List QueueRow)
    → payloads (l ++ new_row now d k p s ∷ []) ≡ payloads l ++ p ∷ []
unfolding payloads new_row
payloads-new_row s now d k p [] = refl
payloads-new_row s now d k p (r ∷ l) = ground (arith, payloads-new_row s now d k p l)

-- The tables after a successful call.
module _ (s : Tables) (now : ℕ) (d : Text) (k : Option Text) (p : Payload) where
  abbrev queued : Tables
  queued = record s {
    queue = make_room d s.queue ++ new_row now d k p s ∷ [];
    next_id = s.next_id + 1;
  }

  queue_notification-queued : (s' : Tables) → queue_notification now d k p s ≡ some s' → s' ≡ queued
  unfolding queue_notification new_row
  queue_notification-queued s' e = ground arith

  queued-IsQueueValid : IsQueueValid s → IsQueueValid queued
  unfolding new_row
  queued-IsQueueValid v = record {
    unique =
        snoc-HasUniqueIds (make_room d s.queue) _ (All-make_room _ d s.queue v.fresh)
          (make_room-HasUniqueIds d s.queue v.unique);
    fresh =
        All-snoc _ (make_room d s.queue) _
          (All-make_room _ d s.queue (All_weaken s.queue s.next_id _ (omega arith) v.fresh))
          (omega arith);
  }

  count-new_row : count (is_queued_for d) (new_row now d k p s ∷ []) ≡ 1
  unfolding count is_queued_for is_text new_row
  count-new_row = ground arith

  count-queued : IsQueueValid s → count (is_queued_for d) queued.queue ≤ queue_cap
  count-queued v = omega (
    arith,
    count-append (is_queued_for d) (make_room d s.queue) (new_row now d k p s ∷ []),
    count-new_row,
    length-queued_rows d (make_room d s.queue),
    length-queued_rows d s.queue,
    ap length (queued_rows-make_room d s.queue v.unique),
    length-drop (count (is_queued_for d) s.queue + 1 - queue_cap) (queued_rows d s.queue),
  )

  queued_rows-queued :
      IsQueueValid s
      → All (λ r. r.queued_at ≤ now) s.queue
      → queued_rows d queued.queue
        ≡ drop (count (is_queued_for d) s.queue + 1 - queue_cap) (queued_rows d s.queue)
          ++ new_row now d k p s ∷ []
  unfolding new_row
  queued_rows-queued v clock =
      queued_rows-snoc d (make_room d s.queue) (new_row now d k p s) refl
        (All_before now d k p s _ (All-make_room _ d s.queue clock))
      ∙ ap (λ l. l ++ new_row now d k p s ∷ []) (queued_rows-make_room d s.queue v.unique)

  backlog-queued :
      IsQueueValid s
      → All (λ r. r.queued_at ≤ now) s.queue
      → backlog d queued
        ≡ payloads (drop (count (is_queued_for d) s.queue + 1 - queue_cap) (queued_rows d s.queue))
          ++ p ∷ []
  unfolding backlog
  backlog-queued v clock = rw (queued_rows-queued v clock) (
      payloads-new_row s now d k p
        (drop (count (is_queued_for d) s.queue + 1 - queue_cap) (queued_rows d s.queue)))

  backlog-queued_ne : (e : Text) → d ≢ e → IsQueueValid s → backlog e queued ≡ backlog e s
  unfolding backlog queued_rows
  backlog-queued_ne e other v =
      ap (λ l. payloads (sort by_queued_at l))
        (keep-append (is_queued_for e) (make_room d s.queue) _ ∙ rest)
    where
      rest :
          keep (is_queued_for e) (make_room d s.queue)
            ++ keep (is_queued_for e) (new_row now d k p s ∷ [])
          ≡ keep (is_queued_for e) s.queue
      rest =
          rw (keep-make_room d e s.queue other v.unique, keep-new_row_ne s now d e k p other)
            (append-nil _)

-- The rows that a drain takes are all those of the device.
all_rows :
    (d : Text) (s : Tables)
    → take (length (queued_rows d s.queue)) (queued_rows d s.queue) ≡ queued_rows d s.queue
all_rows d s = take_of_length-le _ (queued_rows d s.queue) (le_refl _)

drained :
    (s : Tables) (d : Text)
    → IsQueueValid s
    → queued_rows d (delete_ids (row_ids (queued_rows d s.queue)) s.queue) ≡ []
drained s d v =
    let l = queued_rows d s.queue in
    ap (λ m. queued_rows d (delete_ids (row_ids m) s.queue)) (sym (all_rows d s))
    ∙ queued_rows-delete_ids d (length l) s.queue v.unique
    ∙ drop-length l

drained_ne :
    (s : Tables) (d e : Text)
    → d ≢ e
    → IsQueueValid s
    → keep (is_queued_for e) (delete_ids (row_ids (queued_rows d s.queue)) s.queue)
      ≡ keep (is_queued_for e) s.queue
drained_ne s d e other v =
    ap (λ m. keep (is_queued_for e) (delete_ids (row_ids m) s.queue)) (sym (all_rows d s))
    ∙ keep-delete_ids d e (length (queued_rows d s.queue)) s.queue other v.unique

-- The row ids stay distinct through a successful `queue_notification` and through a drain.
pub queue-IsQueueValid :
    (s s' : Tables) (now : ℕ) (d : Text) (k : Option Text) (p : Payload)
    → IsQueueValid s
    → queue_notification now d k p s ≡ some s'
    → IsQueueValid s' × IsQueueValid (drain_queue_for_device d s).1
unfolding drain_queue_for_device delete_ids
queue-IsQueueValid s s' now d k p v e = (
  subst IsQueueValid (sym (queue_notification-queued s now d k p s' e))
      (queued-IsQueueValid s now d k p v),
  record { unique = keep-HasUniqueIds _ s.queue v.unique; fresh = All-keep _ _ s.queue v.fresh },
)

-- After a successful `queue_notification` the device has at most 50 rows in the queue, however
-- many it had before.
pub queue_notification-le-cap :
    (s s' : Tables) (now : ℕ) (d : Text) (k : Option Text) (p : Payload)
    → IsQueueValid s
    → queue_notification now d k p s ≡ some s'
    → count (is_queued_for d) s'.queue ≤ queue_cap
queue_notification-le-cap s s' now d k p v e =
    rw (queue_notification-queued s now d k p s' e) (count-queued s now d k p v)

-- For a device that is known, and on a clock that does not run backwards, `queue_notification`
-- succeeds and puts the payload behind those of the device, of which the oldest are dropped as
-- far as the cap asks; the backlog of any other device stays as it was.
pub queue_notification-backlog :
    (s : Tables) (now : ℕ) (d e : Text) (k : Option Text) (p : Payload)
    → IsQueueValid s
    → All (λ r. r.queued_at ≤ now) s.queue
    → has_text d s.devices ≡ true
    → d ≢ e
    → (s' : Tables) × (queue_notification now d k p s ≡ some s')
      × (backlog d s'
          ≡ payloads
              (drop (count (is_queued_for d) s.queue + 1 - queue_cap) (queued_rows d s.queue))
            ++ p ∷ [])
      × (backlog e s' ≡ backlog e s)
unfolding queue_notification new_row
queue_notification-backlog s now d e k p v clock known other = (
  queued s now d k p,
  rw known,
  backlog-queued s now d k p v clock,
  backlog-queued_ne s now d k p e other v,
)

-- A drain hands out the whole backlog of the device, leaves it none, so that a second drain has
-- nothing, and leaves the backlog of any other device as it was.
pub drain-backlog :
    (s : Tables) (d e : Text)
    → IsQueueValid s
    → d ≢ e
    → ((drain_queue_for_device d s).0 ≡ backlog d s)
      × ((drain_queue_for_device d (drain_queue_for_device d s).1).0 ≡ [])
      × (backlog e (drain_queue_for_device d s).1 ≡ backlog e s)
unfolding drain_queue_for_device backlog payloads
drain-backlog s d e v other = (
  refl,
  ap payloads (drained s d v),
  ap (λ l. payloads (sort by_queued_at l)) (drained_ne s d e other v),
)
