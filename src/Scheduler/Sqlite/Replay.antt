-- ===== src/Scheduler/Sqlite/Replay.antt =====
-- The offline queue as a client sees it: a bounded first-in first-out queue for each device.
use tinker_box.Base.{
  ℕ, ◌+◌, ◌-◌, ◌≤◌, ◌<◌, ◌≡◌, ◌≢◌, ◌∙◌, Bool-cases, inl, inr, true, Option, some, List, [], ◌∷◌,
  ◌++◌, arith, length, leb, keep, count, take, drop, length-keep, All, Elem, Elem-keep,
  Elem-of_Elem-take, keep_comm, keep-keep_of_imp, All-snoc, All-keep, Text,
}
use tinker_box.Base.Sort.{sort, length-sort, sort-keep, Elem-of_Elem-sort}
use tinker_box.Scheduler.Store.{Payload}
use tinker_box.Scheduler.Sqlite.{
  Tables, QueueRow, queue_cap, is_text, is_queued_for, has_id, by_queued_at, queued_rows,
  delete_ids, row_ids, payloads, make_room,
}
use tinker_box.Scheduler.Sqlite.Queue.{
  HasUniqueIds, keep-HasUniqueIds, sort-HasUniqueIds, survives, keep-survives-take, Elem-row_ids,
  same_of_id,
}

-- The rows that a deletion of the first `k` of a device's rows leaves.
pub queued_rows-delete_ids :
    (d : Text) (k : ℕ) (q : List QueueRow)
    → HasUniqueIds q
    → queued_rows d (delete_ids (row_ids (take k (queued_rows d q))) q) ≡ drop k (queued_rows d q)
unfolding queued_rows delete_ids survives
queued_rows-delete_ids d k q u =
    let mine = keep (is_queued_for d) q in
    let ids = row_ids (take k (sort by_queued_at mine)) in
    rw (keep_comm (is_queued_for d) (survives ids) q) (
      sort-keep by_queued_at (λ a b h. ground arith) (λ a b c h k. ground arith) (survives ids) mine
      ∙ keep-survives-take k (sort by_queued_at mine)
          (sort-HasUniqueIds mine (keep-HasUniqueIds (is_queued_for d) q u)))

pub length-queued_rows :
    (d : Text) (q : List QueueRow) → length (queued_rows d q) ≡ count (is_queued_for d) q
unfolding queued_rows
length-queued_rows d q = length-sort by_queued_at _ ∙ length-keep (is_queued_for d) q

-- The oldest rows give way, and no more of them than needed.
pub queued_rows-make_room :
    (d : Text) (q : List QueueRow)
    → HasUniqueIds q
    → queued_rows d (make_room d q)
      ≡ drop (count (is_queued_for d) q + 1 - queue_cap) (queued_rows d q)
unfolding make_room
queued_rows-make_room d q u =
    let n = count (is_queued_for d) q in
    elim (Bool-cases (leb queue_cap n)) [
      | inl full ↦
          let e : n + 1 - queue_cap ≡ n - queue_cap + 1 = ground arith in
          rw (full, e) (queued_rows-delete_ids d (n - queue_cap + 1) q u)
      | inr room ↦ let e : n + 1 - queue_cap ≡ 0 = ground arith in rw (room, e)
    ]

pub make_room-HasUniqueIds :
    (d : Text) (q : List QueueRow) → HasUniqueIds q → HasUniqueIds (make_room d q)
unfolding make_room delete_ids
make_room-HasUniqueIds d q u = elim (Bool-cases (leb queue_cap (count (is_queued_for d) q))) [
  | inl full ↦ rw full (keep-HasUniqueIds _ q u)
  | inr room ↦ rw room u
]

-- A deletion of rows of one device leaves the rows of another.
survives_other :
    (d e : Text) (k : ℕ) (q : List QueueRow) (r : QueueRow)
    → d ≢ e
    → HasUniqueIds q
    → Elem r q
    → is_queued_for e r ≡ true
    → survives (row_ids (take k (queued_rows d q))) r ≡ true
unfolding queued_rows is_queued_for is_text survives
survives_other d e k q r other u m mine =
    elim (Bool-cases (has_id r.id (row_ids (take k (queued_rows d q))))) [
      | inr kept ↦ ground arith
      | inl gone ↦
          let (x, taken, same) = Elem-row_ids r.id (take k (queued_rows d q)) gone in
          let sorted = Elem-of_Elem-take x k (queued_rows d q) taken in
          let found =
            (Elem-keep (is_queued_for d) x q).0 (Elem-of_Elem-sort by_queued_at x _ sorted) in
          let e' : x ≡ r = same_of_id x r q u found.0 m same in absurd (ground (arith, e', found.1))
    ]

pub keep-delete_ids :
    (d e : Text) (k : ℕ) (q : List QueueRow)
    → d ≢ e
    → HasUniqueIds q
    → keep (is_queued_for e) (delete_ids (row_ids (take k (queued_rows d q))) q)
      ≡ keep (is_queued_for e) q
unfolding delete_ids survives
keep-delete_ids d e k q other u =
    keep-keep_of_imp (is_queued_for e) (survives (row_ids (take k (queued_rows d q)))) q
      (λ r. survives_other d e k q r other u)

pub keep-make_room :
    (d e : Text) (q : List QueueRow)
    → d ≢ e
    → HasUniqueIds q
    → keep (is_queued_for e) (make_room d q) ≡ keep (is_queued_for e) q
unfolding make_room
keep-make_room d e q other u = elim (Bool-cases (leb queue_cap (count (is_queued_for d) q))) [
  | inl full ↦ rw full (keep-delete_ids d e _ q other u)
  | inr room ↦ rw room
]

-- What a drain for the device would hand out.
unfoldable pub backlog : Text → Tables → List Payload
unfolding queued_rows payloads
backlog d s = payloads (queued_rows d s.queue)

-- The row ids of the queue are distinct and below the next one.
pub record IsQueueValid (s : Tables) : Type 0 where
  pub unique : HasUniqueIds s.queue
  pub fresh : All (λ r. r.id < s.next_id) s.queue

unfoldable pub new_row : ℕ → Text → Option Text → Payload → Tables → QueueRow
new_row now d k p s = record {
  id = s.next_id;
  device_id = d;
  notification_id = k;
  payload = some p;
  queued_at = now;
}

pub snoc-HasUniqueIds :
    (l : List QueueRow) (r : QueueRow)
    → All (λ x. x.id < r.id) l
    → HasUniqueIds l
    → HasUniqueIds (l ++ r ∷ [])
snoc-HasUniqueIds [] r below u = (tt, tt)
snoc-HasUniqueIds (x ∷ l) r below u =
    (All-snoc _ l r u.0 (omega arith), snoc-HasUniqueIds l r below.1 u.1)

pub All_weaken :
    (l : List QueueRow) (n m : ℕ) → n ≤ m → All (λ r. r.id < n) l → All (λ r. r.id < m) l
All_weaken [] n m h below = tt
All_weaken (x ∷ l) n m h below = (omega arith, All_weaken l n m h below.1)

pub All-make_room :
    (P : QueueRow → Type 0) (d : Text) (q : List QueueRow) → All P q → All P (make_room d q)
unfolding make_room delete_ids
All-make_room P d q h = elim (Bool-cases (leb queue_cap (count (is_queued_for d) q))) [
  | inl full ↦ rw full (All-keep P _ q h)
  | inr room ↦ rw room h
]
