-- ===== src/Messages/Polling.antt =====
-- dragon_voice/db_events.py: a client that polls the log with the last id it was given.
use tinker_box.Base.{
  ℕ, zero, suc, ◌+◌, ◌*◌, ◌≤◌, ◌<◌, ◌≡◌, refl, sym, ap, ◌∙◌, Bool, false, ◌&&◌, Option, List, [],
  ◌∷◌, ◌++◌, arith, keep, ltb, min, length, take, drop, take_of_length-le, Bool-cases, inl, inr,
  All, All-keep, All-snoc, All_imp, keep-append, keep_all, Text,
}
use mathlib.Core.Path.{subst}
use mathlib.Core.List.{append_assoc, append-nil}
use tinker_box.Base.Pieces.{take_append_drop, take_prefix, take_add, All-append}
use tinker_box.Base.Sort.{sort, insert}
use tinker_box.Messages.Table.{Db, Event, Filter, get_events, selects, by_id, add_event}

-- The ids rise.
abbrev pub IsAscending : List Event → Type 0
IsAscending [] = Unit
IsAscending (e ∷ l) = All (λ (x : Event). e.id < x.id) l × IsAscending l

-- What `AUTOINCREMENT` keeps.
abbrev pub IsLog : Db → Type 0
IsLog d = IsAscending d.events × All (λ (e : Event). e.id < d.next_id) d.events

keep-IsAscending : (p : Event → Bool) (l : List Event) → IsAscending l → IsAscending (keep p l)
unfolding keep
keep-IsAscending p [] h = tt
keep-IsAscending p (e ∷ l) h = elim (Bool-cases (p e)) [
  | inl on ↦ rw on (All-keep (λ x. e.id < x.id) p l h.0, keep-IsAscending p l h.1)
  | inr off ↦ rw off (keep-IsAscending p l h.1)
]

snoc-IsAscending :
    (l : List Event) (e : Event)
    → IsAscending l
    → All (λ (x : Event). x.id < e.id) l
    → IsAscending (l ++ e ∷ [])
snoc-IsAscending [] e h below = (tt, tt)
snoc-IsAscending (x ∷ l) e h below =
    (All-snoc (λ y. x.id < y.id) l e h.0 below.0, snoc-IsAscending l e h.1 below.1)

pub add_event-IsLog :
    (type : Text) (session_id device_id : Option Text) (json : Text) (now : ℕ) (d : Db)
    → IsLog d
    → IsLog (add_event type session_id device_id json now d).0
unfolding add_event
add_event-IsLog type session_id device_id json now d h = (
  snoc-IsAscending d.events _ h.0 h.1,
  All-snoc _ d.events _ (All_imp _ _ (λ e b. omega (arith, b)) d.events h.1) (omega arith),
)

insert-least :
    (e : Event) (l : List Event) → All (λ (x : Event). e.id < x.id) l → insert by_id e l ≡ e ∷ l
unfolding insert
insert-least e [] h = refl
insert-least e (x ∷ l) h = ground arith

sort-ascending : (l : List Event) → IsAscending l → sort by_id l ≡ l
unfolding sort
sort-ascending [] h = refl
sort-ascending (e ∷ l) h = rw (sort-ascending l h.1) (insert-least e l h.0)

-- The id that the client asks with next.
abbrev pub last_id : ℕ → List Event → ℕ
last_id since_id [] = since_id
last_id since_id (e ∷ l) = last_id e.id l

last_id-take-le :
    (since : ℕ) (n : ℕ) (l : List Event)
    → All (λ (x : Event). since < x.id) l
    → IsAscending l
    → since ≤ last_id since (take n l)
last_id-take-le since zero l b h = omega arith
last_id-take-le since (suc n) [] b h = omega arith
last_id-take-le since (suc n) (e ∷ l) b h = omega (arith, last_id-take-le e.id n l h.0 h.1, b.0)

-- What lies above the last id of a page is what stands behind the page.
keep-above-last_id :
    (since n : ℕ) (l : List Event)
    → All (λ (x : Event). since < x.id) l
    → IsAscending l
    → keep (λ e. ltb (last_id since (take n l)) e.id) l ≡ drop n l
unfolding keep
keep-above-last_id since zero l b h = keep_all _ l (All_imp _ _ (λ x lt. ground arith) l b)
keep-above-last_id since (suc n) [] b h = refl
keep-above-last_id since (suc n) (e ∷ l) b h =
    let below : ltb (last_id e.id (take n l)) e.id ≡ false =
      ground (arith, last_id-take-le e.id n l h.0 h.1) in
    rw below (keep-above-last_id e.id n l h.0 h.1)

-- What a client is to see: the selected events behind an id.
abbrev pub news : Filter → ℕ → List Event → List Event
news f since rows = keep (λ e. ltb since e.id && selects f e) rows

news-above :
    (f : Filter) (since : ℕ) (rows : List Event)
    → All (λ (x : Event). since < x.id) (news f since rows)
unfolding keep selects
news-above f since [] = tt
news-above f since (e ∷ rows) = elim (Bool-cases (ltb since e.id && selects f e)) [
  | inl on ↦ rw on (ground arith, news-above f since rows)
  | inr off ↦ rw off (news-above f since rows)
]

news_later :
    (f : Filter) (since later : ℕ) (rows : List Event)
    → since ≤ later
    → news f later rows ≡ keep (λ e. ltb later e.id) (news f since rows)
unfolding keep
news_later f since later [] h = refl
news_later f since later (e ∷ rows) h = ground (arith, news_later f since later rows h)

-- Behind a page, the news are those that the page left.
news-last_id :
    (f : Filter) (since n : ℕ) (rows : List Event)
    → IsAscending rows
    → news f (last_id since (take n (news f since rows))) rows ≡ drop n (news f since rows)
unfolding keep selects
news-last_id f since n rows h =
    let l = news f since rows in
    let a = news-above f since rows in
    let h' = keep-IsAscending _ rows h in
    news_later f since _ rows (last_id-take-le since n l a h') ∙ keep-above-last_id since n l a h'

-- The client polls once for each batch of events that arrived; the pages that it is given.
unfoldable pub poll : Filter → ℕ → ℕ → List Event → List (List Event) → List Event
unfolding get_events
poll f limit since rows [] = []
poll f limit since rows (batch ∷ arrivals) =
    let page = get_events f since limit (rows ++ batch) in
    page ++ poll f limit (last_id since page) (rows ++ batch) arrivals

abbrev pub repeat : {A : Type 0} → ℕ → A → List A
repeat zero a = []
repeat (suc n) a = a ∷ repeat n a

abbrev pub after_all : List Event → List (List Event) → List Event
after_all rows [] = rows
after_all rows (batch ∷ arrivals) = after_all (rows ++ batch) arrivals

IsAscending-append : (l m : List Event) → IsAscending (l ++ m) → IsAscending l
IsAscending-append [] m h = tt
IsAscending-append (e ∷ l) m h = (All-append _ l m h.0, IsAscending-append l m h.1)

after_all-append :
    (rows : List Event) (arrivals : List (List Event))
    → (more : List Event) × (after_all rows arrivals ≡ rows ++ more)
after_all-append rows [] = ([], sym (append-nil rows))
after_all-append rows (batch ∷ arrivals) =
    let (more, e) = after_all-append (rows ++ batch) arrivals in
    (batch ++ more, e ∙ append_assoc rows batch more)

last_id-append :
    (since : ℕ) (l m : List Event) → last_id since (l ++ m) ≡ last_id (last_id since l) m
last_id-append since [] m = refl
last_id-append since (e ∷ l) m = last_id-append e.id l m

get_events-page :
    (f : Filter) (since limit : ℕ) (rows : List Event)
    → IsAscending rows
    → get_events f since limit rows ≡ take limit (news f since rows)
unfolding get_events
get_events-page f since limit rows h =
    ap (take limit)
      (sort-ascending _ (keep-IsAscending (λ e. ltb since e.id && selects f e) rows h))

-- A page is a start of the news, also of those that come later.
get_events-take :
    (f : Filter) (since limit : ℕ) (rows more : List Event)
    → IsAscending rows
    → get_events f since limit rows
      ≡ take (min limit (length (news f since rows))) (news f since (rows ++ more))
unfolding get_events
get_events-take f since limit rows more h =
    rw
      (
        get_events-page f since limit rows h,
        keep-append (λ e. ltb since e.id && selects f e) rows more,
      )
      (take_prefix limit (news f since rows) (news f since more))

page-news :
    (f : Filter) (since limit : ℕ) (rows more : List Event)
    → IsAscending (rows ++ more)
    → get_events f since limit rows
        ++ news f (last_id since (get_events f since limit rows)) (rows ++ more)
      ≡ news f since (rows ++ more)
page-news f since limit rows more h =
    let n = min limit (length (news f since rows)) in
    rw
      (
        get_events-take f since limit rows more (IsAscending-append rows more h),
        news-last_id f since n (rows ++ more) h,
      )
      (take_append_drop n (news f since (rows ++ more)))

-- However many events arrive between the polls, what the client was given and what it is still to be
-- given is all that it asks for, in order, each event once; the ids of the log rise.
pub poll-news :
    (f : Filter) (limit since : ℕ) (rows : List Event) (arrivals : List (List Event))
    → IsAscending (after_all rows arrivals)
    → poll f limit since rows arrivals
        ++ news f (last_id since (poll f limit since rows arrivals)) (after_all rows arrivals)
      ≡ news f since (after_all rows arrivals)
unfolding poll
poll-news f limit since rows [] h = refl
poll-news f limit since rows (batch ∷ arrivals) h =
    let rows' = rows ++ batch in
    let page = get_events f since limit rows' in
    let rest = poll f limit (last_id since page) rows' arrivals in
    let final = after_all rows' arrivals in
    let (more, e) = after_all-append rows' arrivals in
    let here : page ++ news f (last_id since page) final ≡ news f since final =
      subst (λ l. page ++ news f (last_id since page) l ≡ news f since l) (sym e)
        (page-news f since limit rows' more (subst IsAscending e h)) in
    let there = poll-news f limit (last_id since page) rows' arrivals h in
    append_assoc page rest (news f (last_id since (page ++ rest)) final)
    ∙ ap (λ n. page ++ (rest ++ news f n final)) (last_id-append since page rest)
    ∙ ap (page ++◌) there
    ∙ here

times_zero : (n : ℕ) → 0 ≡ 0 * n
times_zero n = omega arith

times_suc : (n k : ℕ) → n + k * n ≡ suc k * n
times_suc n k = omega arith

-- Polls of a log to which nothing is added give the news, page after page: enough of them give all.
pub poll-all :
    (f : Filter) (limit since polls : ℕ) (rows : List Event)
    → IsAscending rows
    → poll f limit since rows (repeat polls []) ≡ take (polls * limit) (news f since rows)
unfolding poll
poll-all f limit since zero rows h = ap (λ n. take n (news f since rows)) (times_zero limit)
poll-all f limit since (suc polls) rows h =
    let l = news f since rows in
    let page : get_events f since limit rows ≡ take limit l =
      get_events-page f since limit rows h in
    rw
      (
        append-nil rows,
        page,
        poll-all f limit (last_id since (take limit l)) polls rows h,
        news-last_id f since limit rows h,
      )
      (take_add limit (polls * limit) l ∙ ap (λ n. take n l) (times_suc limit polls))

-- From a log to which nothing is added any more, a client that polls often enough is given all that it
-- asks for.
pub poll-everything :
    (f : Filter) (limit since polls : ℕ) (rows : List Event)
    → IsAscending rows
    → length (news f since rows) ≤ polls * limit
    → poll f limit since rows (repeat polls []) ≡ news f since rows
poll-everything f limit since polls rows h enough =
    poll-all f limit since polls rows h
    ∙ take_of_length-le (polls * limit) (news f since rows) enough
