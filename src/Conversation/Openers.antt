-- ===== src/Conversation/Openers.antt =====
-- Where an opener of a tool call, or the start of one, can stand.
use mathlib.Core.List.{append_assoc}
use tinker_box.Base.{
  ℕ, zero, suc, ◌+◌, ◌-◌, ◌≤◌, ◌<◌, ◌≡◌, ◌≢◌, refl, sym, ap, ◌∙◌, inl, inr, Bool, true, false, not,
  ◌||◌, Bool-cases, Option-cases, some, List, [], ◌∷◌, ◌++◌, arith, length, take, drop, length-drop,
  length-take, Elem, ltb, ◌==◌, if◌then◌else◌, Text, text_dec, starts_with, ite, nil_ne_cons,
  ℕ_discrete,
}
use tinker_box.Base.Pieces.{drop_nil, drop-drop}
use tinker_box.Conversation.Markers.{find, ends_with, earliest, tail_partial, earliest_tail}

-- Neither an opener nor the start of one at any place of the first text, read on into the second.
abbrev pub Shut : Text → Text → Text → Type 0
Shut op [] h = Unit
Shut op (c ∷ f) h =
    (starts_with op (c ∷ f ++ h) ≡ false) × (starts_with (c ∷ f ++ h) op ≡ false) × Shut op f h

starts_with-append :
    (p a t : Text)
    → starts_with p a ≡ false
    → starts_with a p ≡ false
    → (starts_with p (a ++ t) ≡ false) × (starts_with (a ++ t) p ≡ false)
unfolding starts_with
starts_with-append [] a t e f = absurd (ground arith)
starts_with-append (c ∷ p) [] t e f = absurd (ground arith)
starts_with-append (c ∷ p) (d ∷ a) t e f = ground (arith, starts_with-append p a t)

pub Shut-append : (op f h t : Text) → Shut op f h → Shut op f (h ++ t)
Shut-append op [] h t s = tt
Shut-append op (c ∷ f) h t (a, b, s) =
    let (a', b') = starts_with-append op (c ∷ f ++ h) t a b in
    (
      ap (starts_with op) (sym (append_assoc (c ∷ f) h t)) ∙ a',
      ap (λ x. starts_with x op) (sym (append_assoc (c ∷ f) h t)) ∙ b',
      Shut-append op f h t s,
    )

pub Shut-join : (op f g h : Text) → Shut op f (g ++ h) → Shut op g h → Shut op (f ++ g) h
Shut-join op [] g h s t = t
Shut-join op (c ∷ f) g h (a, b, s) t = (
  ap (starts_with op) (append_assoc (c ∷ f) g h) ∙ a,
  ap (λ x. starts_with x op) (append_assoc (c ∷ f) g h) ∙ b,
  Shut-join op f g h s t,
)

-- `find` is not behind an occurrence.
pub find-le :
    (op s : Text) (i : ℕ)
    → i < length s
    → starts_with op (drop i s) ≡ true
    → (j : ℕ) × (find op s ≡ some j) × (j ≤ i)
unfolding find
find-le op [] i h e = absurd (omega (arith, h))
find-le op (c ∷ s) zero h e = (0, rw e refl, omega arith)
find-le op (c ∷ s) (suc i) h e = elim (Bool-cases (starts_with op (c ∷ s))) [
  | inl here ↦ (0, rw here refl, omega arith)
  | inr no_match ↦
      let (j, q, le) = find-le op s i (omega (arith, h)) e in
      (suc j, rw (no_match, q) refl, omega (arith, le))
]

if-le : (j h : ℕ) → ((if ltb j h then j else h) ≤ j) × ((if ltb j h then j else h) ≤ h)
if-le j h = (ground arith, ground arith)

pub earliest-le : (ops : List Text) (s : Text) (h : ℕ) → earliest ops s h ≤ h
unfolding earliest
earliest-le [] s h = omega arith
earliest-le (op ∷ ops) s h = elim (Option-cases (find op s)) [
  | inl e ↦ rw e (earliest-le ops s h)
  | inr (j, e) ↦ rw e (omega (arith, earliest-le ops s (if ltb j h then j else h), if-le j h))
]

pub earliest-le-find :
    (ops : List Text) (s op : Text) (h j : ℕ)
    → Elem op ops
    → find op s ≡ some j
    → earliest ops s h ≤ j
unfolding earliest
earliest-le-find [] s op h j m e = elim m [ ]
earliest-le-find (x ∷ ops) s op h j (inl here) e =
    let q : find x s ≡ some j = ap (λ o. find o s) here ∙ e in
    rw q (omega (arith, earliest-le ops s (if ltb j h then j else h), if-le j h))
earliest-le-find (x ∷ ops) s op h j (inr there) e = earliest-le-find ops s op _ j there e

pub earliest_tail-le : (ops : List Text) (w s : Text) (h : ℕ) → earliest_tail ops w s h ≤ h
unfolding earliest_tail
earliest_tail-le [] w s h = omega arith
earliest_tail-le (op ∷ ops) w s h = elim (Option-cases (tail_partial op w 1 (length op - 1))) [
  | inl e ↦ rw e (earliest_tail-le ops w s h)
  | inr (j, e) ↦ rw e (
      omega (
        arith,
        earliest_tail-le ops w s (if ltb (length s - j) h then length s - j else h),
        if-le (length s - j) h,
      ))
]

pub earliest_tail-le-partial :
    (ops : List Text) (w s op : Text) (h k : ℕ)
    → Elem op ops
    → tail_partial op w 1 (length op - 1) ≡ some k
    → earliest_tail ops w s h ≤ length s - k
unfolding earliest_tail
earliest_tail-le-partial [] w s op h k m e = elim m [ ]
earliest_tail-le-partial (x ∷ ops) w s op h k (inl here) e =
    let q : tail_partial x w 1 (length x - 1) ≡ some k =
      ap (λ (o : Text). tail_partial o w 1 (length o - 1)) here ∙ e in
    rw q (
      omega (
        arith,
        earliest_tail-le ops w s (if ltb (length s - k) h then length s - k else h),
        if-le (length s - k) h,
      ))
earliest_tail-le-partial (x ∷ ops) w s op h k (inr there) e =
    earliest_tail-le-partial ops w s op _ k there e

-- A start of a text that ends the window is found, if the same text has no other start there.
ends_with-drop : (p w : Text) → ends_with p w ≡ true → drop (length w - length p) w ≡ p
unfolding ends_with
ends_with-drop p w e = elim (text_dec (drop (length w - length p) w) p) [
  | yes q ↦ q
  | no ne ↦ absurd (ground arith)
]

pub drop-ends_with : (p w : Text) → drop (length w - length p) w ≡ p → ends_with p w ≡ true
unfolding ends_with
drop-ends_with p w e =
    elim (text_dec (drop (length w - length p) w) p) as (λ q. ite q true false ≡ true) [
      | yes q ↦ refl
      | no ne ↦ absurd (ne e)
    ]

pub tail_partial_lem :
    (op w : Text) (p n k : ℕ)
    → p ≤ k
    → k < p + n
    → ends_with (take k op) w ≡ true
    → (j : ℕ) × (tail_partial op w p n ≡ some j)
      × (p ≤ j)
      × (j ≤ k)
      × (ends_with (take j op) w ≡ true)
unfolding tail_partial
tail_partial_lem op w p zero k low high e = absurd (omega (arith, low, high))
tail_partial_lem op w p (suc n) k low high e = elim (Bool-cases (ends_with (take p op) w)) [
  | inl here ↦ (p, rw here refl, omega arith, low, here)
  | inr other ↦
      let differs : p ≢ k = λ q. ground arith in
      let (j, q, a, b, found) =
        tail_partial_lem op w (suc p) n k (omega (arith, low, differs)) (omega (arith, high)) e in
      (j, rw (other, q) refl, omega (arith, a), b, found)
]

abbrev is_in : ℕ → Text → Bool
is_in c [] = false
is_in c (d ∷ s) = d == c || is_in c s

abbrev pub head_once : Text → Bool
head_once [] = false
head_once (c ∷ o) = not (is_in c o)

is_in-drop : (c : ℕ) (d k : ℕ) (o t : Text) → drop d (take k o) ≡ c ∷ t → is_in c o ≡ true
is_in-drop c d zero o t e = absurd (nil_ne_cons (sym (drop_nil d) ∙ e))
is_in-drop c d (suc k) [] t e = absurd (nil_ne_cons (sym (drop_nil d) ∙ e))
is_in-drop c zero (suc k) (x ∷ o) t e = ground arith
is_in-drop c (suc d) (suc k) (x ∷ o) t e = ground (arith, is_in-drop c d k o t e)

-- Two starts of an opener do not both end a text.
pub same_start :
    (op w : Text) (j k : ℕ)
    → head_once op ≡ true
    → 1 ≤ j
    → j ≤ k
    → k ≤ length op
    → ends_with (take j op) w ≡ true
    → ends_with (take k op) w ≡ true
    → j ≡ k
same_start [] w j k once low le high a b = cc
same_start (c ∷ o) w zero k once low le high a b = absurd (omega (arith, low))
same_start (c ∷ o) w (suc j) zero once low le high a b = absurd (omega (arith, le))
same_start (c ∷ o) w (suc j) (suc k) once low le high a b = elim (ℕ_discrete j k) [
  | yes e ↦ ap suc e
  | no ne ↦
      let d = k - suc j in
      let short = ends_with-drop (c ∷ take j o) w a in
      let long = ends_with-drop (c ∷ take k o) w b in
      let j' : length (take j o) ≡ j = omega (arith, length-take j o, le, high) in
      let k' : length (take k o) ≡ k = omega (arith, length-take k o, high) in
      let fits : suc k ≤ length w =
        omega (arith, ap length long, length-drop (length w - suc (length (take k o))) w, k') in
      let place : length w - suc (length (take k o)) + suc d ≡ length w - suc (length (take j o)) =
        omega (arith, fits, j', k', le, ne) in
      let again : drop (suc d) (c ∷ take k o) ≡ c ∷ take j o =
        ap (drop (suc d)) (sym long)
        ∙ drop-drop (suc d) (length w - suc (length (take k o))) w
        ∙ ap (λ n. drop n w) place
        ∙ short in
      let twice = is_in-drop c d k o (take j o) again in absurd (ground arith)
]
