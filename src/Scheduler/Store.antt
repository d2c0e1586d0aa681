-- ===== src/Scheduler/Store.antt =====
-- `NotificationStore` of dragon_voice/scheduler/store.py: the operations that the manager calls,
-- and what a store promises of them. The clock is an argument, `now`.
use tinker_box.Base.{
  ℕ, ◌+◌, ◌≤◌, ◌&&◌, ◌≡◌, ◌≢◌, ◌↔◌, Bool, true, false, Option, none, some, List, [], leb,
  if◌then◌else◌, ite, length, Elem, Text, text_dec,
}
use tinker_box.Base.Sort.{IsSorted}
use mathlib.Core.Option
use tinker_box.Scheduler.Notification.{Notification, fired, cancelled, failed, is_pending}

-- The rendered `widget_card` frame that the offline queue holds.
pub record Payload : Type 0 where
  pub skill_id : Text
  pub card_id : Text
  pub title : Text
  pub body : Text
  pub tone : Text
  pub icon : Option Text
  pub image_url : Option Text
  pub action : Option (Text × Text)

-- What each call makes of a notification: only a pending one is changed.
abbrev pub when_pending : (Notification → Notification) → Notification → Notification
when_pending f n = if is_pending n then f n else n

-- The assignments of the four calls.
abbrev pub set_cancelled : ℕ → Notification → Notification
set_cancelled now n = record n { status = cancelled; cancelled_at = some now }

abbrev pub set_fire_at : ℕ → Notification → Notification
set_fire_at t n = record n { fire_at = t }

abbrev pub set_fired : ℕ → Notification → Notification
set_fired now n = record n { status = fired; fired_at = some now }

abbrev pub set_failed : Notification → Notification
set_failed n = record n { status = failed }

unfoldable pub is_pending_at : Option Notification → Bool
is_pending_at none = false
is_pending_at (some n) = is_pending n

-- The device filter of the listings.
unfoldable pub is_for : Option Text → Notification → Bool
unfolding text_dec
is_for none n = true
is_for (some d) n = elim n.device_id [ none ↦ false | some e ↦ ite (text_dec e d) true false ]

-- `status == "pending" and device_id == d`
abbrev pub waits_for : Text → Notification → Bool
waits_for d n = is_pending n && is_for (some d) n

abbrev pub by_fire_at : Notification → Notification → Bool
by_fire_at a b = leb a.fire_at b.fire_at

-- `create` is `none` where the source raises.
pub record NotificationStore (S : Type 0) : Type 0 where
  pub create : Notification → S → Option S
  pub get : Text → S → Option Notification
  pub list_pending : Option Text → S → List Notification
  pub cancel : ℕ → Text → S → Bool × S
  pub update_fire_at : Text → ℕ → S → Bool × S
  pub mark_fired : ℕ → Text → S → S
  pub mark_failed : Text → S → S
  pub count_pending_for_device : Text → S → ℕ
  pub queue_notification : ℕ → Text → Option Text → Payload → S → Option S
  pub drain_queue_for_device : Text → S → List Payload × S

-- No assignment makes a notification pending or gives it another device.
pub waits_for-set_cancelled :
    (now : ℕ) (d : Text) (n : Notification)
    → waits_for d (set_cancelled now n) ≡ true
    → waits_for d n ≡ true
unfolding is_pending
waits_for-set_cancelled now d n h = cc

pub waits_for-set_fire_at :
    (t : ℕ) (d : Text) (n : Notification)
    → waits_for d (set_fire_at t n) ≡ true
    → waits_for d n ≡ true
unfolding is_pending is_for
waits_for-set_fire_at t d n h = h

pub waits_for-set_fired :
    (now : ℕ) (d : Text) (n : Notification)
    → waits_for d (set_fired now n) ≡ true
    → waits_for d n ≡ true
unfolding is_pending
waits_for-set_fired now d n h = cc

pub waits_for-set_failed :
    (d : Text) (n : Notification) → waits_for d (set_failed n) ≡ true → waits_for d n ≡ true
unfolding is_pending
waits_for-set_failed d n h = cc

module _ {S : Type 0} (st : NotificationStore S) where
  open st use {
    create, get, list_pending, cancel, update_fire_at, mark_fired, mark_failed,
    count_pending_for_device, queue_notification, drain_queue_for_device,
  }

  -- The store after a call that may change the notification `j`: that one through `f`, all
  -- others left alone.
  abbrev pub Changes : Text → (Notification → Notification) → S → S → Type 0
  Changes j f s s' = (k : Text) → get k s' ≡ ite (text_dec j k) (Option.map f (get k s)) (get k s)

  abbrev pub Same : S → S → Type 0
  Same s s' = (k : Text) → get k s' ≡ get k s

  -- The contract, over the states that satisfy `IsValid`.
  pub record Contract (IsValid : S → Type 0) : Type 0 where
    pub get_id : (s : S) (k : Text) (n : Notification) → IsValid s → get k s ≡ some n → n.id ≡ k
    pub create_valid : (s s' : S) (n : Notification) → IsValid s → create n s ≡ some s' → IsValid s'
    pub create_fresh : (s s' : S) (n : Notification) → create n s ≡ some s' → get n.id s ≡ none
    pub create_get :
        (s s' : S) (n : Notification)
        → n.title ≢ []
        → create n s ≡ some s'
        → (k : Text) → get k s' ≡ ite (text_dec n.id k) (some n) (get k s)
    pub create_other :
        (s s' : S) (n : Notification) (k : Text)
        → create n s ≡ some s'
        → n.id ≢ k
        → get k s' ≡ get k s
    pub create_there : (s s' : S) (n : Notification) → create n s ≡ some s' → get n.id s' ≢ none
    pub cancel_valid : (s : S) (now : ℕ) (j : Text) → IsValid s → IsValid (cancel now j s).1
    pub cancel_answer :
        (s : S) (now : ℕ) (j : Text) → IsValid s → (cancel now j s).0 ≡ is_pending_at (get j s)
    pub cancel_get :
        (s : S) (now : ℕ) (j : Text)
        → Changes j (when_pending (set_cancelled now)) s (cancel now j s).1
    pub update_valid : (s : S) (j : Text) (t : ℕ) → IsValid s → IsValid (update_fire_at j t s).1
    pub update_answer :
        (s : S) (j : Text) (t : ℕ) → IsValid s → (update_fire_at j t s).0 ≡ is_pending_at (get j s)
    pub update_get :
        (s : S) (j : Text) (t : ℕ)
        → Changes j (when_pending (set_fire_at t)) s (update_fire_at j t s).1
    pub fired_valid : (s : S) (now : ℕ) (j : Text) → IsValid s → IsValid (mark_fired now j s)
    pub fired_get :
        (s : S) (now : ℕ) (j : Text)
        → Changes j (when_pending (set_fired now)) s (mark_fired now j s)
    pub failed_valid : (s : S) (j : Text) → IsValid s → IsValid (mark_failed j s)
    pub failed_get : (s : S) (j : Text) → Changes j (when_pending set_failed) s (mark_failed j s)
    pub pending_elem :
        (s : S) (dev : Option Text) (n : Notification)
        → IsValid s
        → Elem n (list_pending dev s)
          ↔ ((get n.id s ≡ some n) × (is_pending n ≡ true) × (is_for dev n ≡ true))
    pub pending_sorted : (s : S) (dev : Option Text) → IsSorted by_fire_at (list_pending dev s)
    pub count_lem :
        (s : S) (d : Text) → count_pending_for_device d s ≡ length (list_pending (some d) s)
    pub queue_valid :
        (s s' : S) (now : ℕ) (d : Text) (k : Option Text) (p : Payload)
        → IsValid s
        → queue_notification now d k p s ≡ some s'
        → IsValid s' × Same s s'
    pub drain_valid :
        (s : S) (d : Text)
        → IsValid s
        → IsValid (drain_queue_for_device d s).1 × Same s (drain_queue_for_device d s).1
    pub create_count :
        (s s' : S) (n : Notification) (d : Text)
        → create n s ≡ some s'
        → count_pending_for_device d s'
          ≡ count_pending_for_device d s + (if waits_for d n then 1 else 0)
    pub cancel_count :
        (s : S) (now : ℕ) (j d : Text)
        → count_pending_for_device d (cancel now j s).1 ≤ count_pending_for_device d s
    pub update_count :
        (s : S) (j : Text) (t : ℕ) (d : Text)
        → count_pending_for_device d (update_fire_at j t s).1 ≤ count_pending_for_device d s
    pub fired_count :
        (s : S) (now : ℕ) (j d : Text)
        → count_pending_for_device d (mark_fired now j s) ≤ count_pending_for_device d s
    pub failed_count :
        (s : S) (j d : Text)
        → count_pending_for_device d (mark_failed j s) ≤ count_pending_for_device d s
    pub queue_count :
        (s s' : S) (now : ℕ) (e : Text) (k : Option Text) (p : Payload) (d : Text)
        → queue_notification now e k p s ≡ some s'
        → count_pending_for_device d s' ≡ count_pending_for_device d s
    pub drain_count :
        (s : S) (e d : Text)
        → count_pending_for_device d (drain_queue_for_device e s).1 ≡ count_pending_for_device d s
