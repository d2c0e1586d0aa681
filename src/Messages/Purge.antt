-- ===== src/Messages/Purge.antt =====
-- The loop of the batched deletes ends, and deletes what it is meant to.
use tinker_box.Base.{
  ℕ, zero, suc, ◌+◌, ◌*◌, ◌<◌, ◌≡◌, refl, Bool, true, false, not, none, some, List, [], ◌∷◌, arith,
  keep, count, leb, ltb, if◌then◌else◌, min, Bool-cases, inl, inr,
}
use tinker_box.Messages.Table.{
  Db, Message, Event, delete_some, batched_delete, purge_old_messages, is_old_message, is_old_event,
}

module _ {A : Type 0} (p : A → Bool) where
  count-delete_some :
      (n : ℕ) (l : List A)
      → ((delete_some p n l).0 ≡ min n (count p l))
        × ((delete_some p n l).0 + count p (delete_some p n l).1 ≡ count p l)
  unfolding delete_some count
  count-delete_some n [] = ground arith
  count-delete_some zero (x ∷ l) = ground arith
  count-delete_some (suc n) (x ∷ l) =
      ground (arith, count-delete_some n l, count-delete_some (suc n) l)

  keep-delete_some :
      (n : ℕ) (l : List A) → keep (λ x. not (p x)) (delete_some p n l).1 ≡ keep (λ x. not (p x)) l
  unfolding delete_some keep
  keep-delete_some n [] = refl
  keep-delete_some zero (x ∷ l) = refl
  keep-delete_some (suc n) (x ∷ l) =
      ground (arith, keep-delete_some n l, keep-delete_some (suc n) l)

  keep-none_left : (l : List A) → count p l ≡ 0 → keep (λ x. not (p x)) l ≡ l
  unfolding count keep
  keep-none_left [] e = refl
  keep-none_left (x ∷ l) e = ground (arith, keep-none_left l)

  rounds_suc : (b fuel : ℕ) → suc fuel * b ≡ b + fuel * b
  rounds_suc b fuel = omega arith

  -- The loop ends after the round in which fewer rows are left than a batch has, and not before.
  pub batched_delete_lem :
      (b fuel : ℕ) (l : List A)
      → batched_delete p b fuel l
        ≡ (if ltb (count p l) (fuel * b) then some (count p l, keep (λ x. not (p x)) l) else none)
  unfolding batched_delete
  batched_delete_lem b zero l = ground arith
  batched_delete_lem b (suc fuel) l =
      let l' = (delete_some p b l).1 in
      let (d, s) = count-delete_some b l in
      elim (Bool-cases (ltb (delete_some p b l).0 b)) [
        | inl last ↦
            let none_left : count p l' ≡ 0 = ground arith in
            let all : (delete_some p b l).0 ≡ count p l = ground arith in
            rw last (ground (arith, keep-none_left l' none_left, keep-delete_some b l, all))
        | inr more ↦
            rw (more, batched_delete_lem b fuel l')
              (ground (arith, keep-delete_some b l, d, s, rounds_suc b fuel))
      ]

module _ (days b fuel now : ℕ) (d : Db) where
  abbrev pub old_message : Message → Bool
  old_message = is_old_message d.sessions (days * 86400000) now

  abbrev pub old_event : Event → Bool
  old_event = is_old_event d.sessions (days * 86400000) now

  -- With fewer old messages and fewer old events than the rounds of the fuel take away, a purge for a
  -- positive number of days ends, deletes exactly the messages and the events that are old and of no
  -- active or paused session, and returns their numbers.
  pub purge_old_messages_exact :
      0 < days
      → count old_message d.messages < fuel * b
      → count old_event d.events < fuel * b
      → purge_old_messages days b fuel now d
        ≡ some (
          record d {
            messages = keep (λ m. not (old_message m)) d.messages;
            events = keep (λ e. not (old_event e)) d.events;
          },
          count old_message d.messages,
          count old_event d.events,
        )
  unfolding purge_old_messages
  purge_old_messages_exact positive messages events =
      let m : ltb (count old_message d.messages) (fuel * b) ≡ true = ground arith in
      let e : ltb (count old_event d.events) (fuel * b) ≡ true = ground arith in
      let on : leb days 0 ≡ false = ground arith in
      rw
        (
          on,
          batched_delete_lem old_message b fuel d.messages,
          m,
          batched_delete_lem old_event b fuel d.events,
          e,
        )
        refl

  -- A batch of no rows: the loop does not end, whatever the fuel.
  pub purge_old_messages-zero : 0 < days → purge_old_messages days 0 fuel now d ≡ none
  unfolding purge_old_messages
  purge_old_messages-zero positive =
      let on : leb days 0 ≡ false = ground arith in
      let never : ltb (count old_message d.messages) (fuel * 0) ≡ false = ground arith in
      rw (on, batched_delete_lem old_message 0 fuel d.messages, never) refl
