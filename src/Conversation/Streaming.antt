-- ===== src/Conversation/Streaming.antt =====
-- No opener of a tool call begins in what is streamed.
use mathlib.Core.Path.{subst}
use mathlib.Core.List.{append_assoc, append-nil}
use tinker_box.Base.{
  ℕ, zero, suc, ◌+◌, ◌-◌, ◌≤◌, ◌<◌, ◌≡◌, refl, sym, ap, ◌∙◌, inl, inr, true, false, Bool-cases,
  some, List, [], ◌∷◌, ◌++◌, arith, length, take, drop, length-drop, length-take, take_of_length-le,
  All, Elem, map, Text, codes, starts_with, ℕ_discrete,
}
use tinker_box.Base.Pieces.{take_append_drop, drop-drop, All_Elem}
use tinker_box.Conversation.Markers.{
  tool_marker_openers_static, find, earliest, max_op_len, hold_at, split_at_marker_boundary, stream,
  join,
}
use tinker_box.Conversation.Openers.{
  Shut, Shut-append, Shut-join, find-le, earliest-le, earliest-le-find, earliest_tail-le,
  earliest_tail-le-partial, drop-ends_with, tail_partial_lem, same_start, head_once,
}

Shut-take :
    (op s : Text) (k : ℕ)
    → ((i : ℕ) → i < k → (starts_with op (drop i s) ≡ false) × (starts_with (drop i s) op ≡ false))
    → Shut op (take k s) (drop k s)
Shut-take op s zero h = tt
Shut-take op [] (suc k) h = tt
Shut-take op (c ∷ s) (suc k) h =
    let (a, b) = h 0 (omega arith) in
    let whole = take_append_drop k s in
    (
      ap (λ x. starts_with op (c ∷ x)) whole ∙ a,
      ap (λ x. starts_with (c ∷ x) op) whole ∙ b,
      Shut-take op s k (λ i lt. h (suc i) (omega (arith, lt))),
    )

Elem-append : (x : Text) (l m : List Text) → Elem x l → Elem x (l ++ m)
Elem-append x [] m h = elim h [ ]
Elem-append x (y ∷ l) m (inl here) = inl here
Elem-append x (y ∷ l) m (inr there) = inr (Elem-append x l m there)

length-le-max_op_len : (op : Text) (l : List Text) → Elem op l → length op ≤ max_op_len l
length-le-max_op_len op [] h = elim h [ ]
length-le-max_op_len op (x ∷ l) (inl here) = omega (arith, ap length here)
length-le-max_op_len op (x ∷ l) (inr there) = omega (arith, length-le-max_op_len op l there)

starts_with-take :
    (a p : Text) → starts_with a p ≡ true → (take (length a) p ≡ a) × (length a ≤ length p)
unfolding starts_with
starts_with-take [] p e = (refl, omega arith)
starts_with-take (c ∷ a) [] e = cc
starts_with-take (c ∷ a) (d ∷ p) e = ground (arith, starts_with-take a p)

starts_with_self : (a : Text) → starts_with a a ≡ true
unfolding starts_with
starts_with_self [] = refl
starts_with_self (c ∷ a) = ground (arith, starts_with_self a)

openers_head_once : All (λ op. head_once op ≡ true) tool_marker_openers_static
openers_head_once = (refl, (refl, (refl, (refl, (refl, tt)))))

module _ (names : List Text) (op s : Text) (is : Elem op tool_marker_openers_static) where
  abbrev dialect3 : List Text
  dialect3 = map (λ n. codes "[" ++ (n ++ codes "]")) names

  abbrev complete : ℕ
  complete = earliest (tool_marker_openers_static ++ dialect3) s (length s)

  abbrev window : Text
  window = drop (length s - max_op_len tool_marker_openers_static) s

  hold_at-le : hold_at names s ≤ length s
  unfolding hold_at
  hold_at-le =
      let tail = earliest_tail-le tool_marker_openers_static window s complete in
      let all = earliest-le (tool_marker_openers_static ++ dialect3) s (length s) in
      omega (arith, tail, all)

  hold_at-le-find : (j : ℕ) → find op s ≡ some j → hold_at names s ≤ j
  unfolding hold_at
  hold_at-le-find j e =
      let m = Elem-append op tool_marker_openers_static dialect3 is in
      let tail = earliest_tail-le tool_marker_openers_static window s complete in
      let all = earliest-le-find (tool_marker_openers_static ++ dialect3) s op (length s) j m e in
      omega (arith, tail, all)

  no_opener : (i : ℕ) → i < hold_at names s → starts_with op (drop i s) ≡ false
  no_opener i lt = elim (Bool-cases (starts_with op (drop i s))) [
    | inr no_match ↦ no_match
    | inl here ↦
        let (j, q, le) = find-le op s i (omega (arith, lt, hold_at-le)) here in
        absurd (omega (arith, lt, le, hold_at-le-find j q))
  ]

  -- A start of the opener, no whole one, that ends the text, begins where the text is cut or behind.
  hold_at-le-start :
      (i k : ℕ)
      → i < length s
      → k ≡ length s - i
      → k < length op
      → take k op ≡ drop i s
      → hold_at names s ≤ i
  unfolding hold_at
  hold_at-le-start i k lt is_k short start =
      let l = length s in
      let bound = length-le-max_op_len op tool_marker_openers_static is in
      let size : length (take k op) ≡ k = omega (arith, length-take k op, short) in
      let wide = length-drop (l - max_op_len tool_marker_openers_static) s in
      let place : l - max_op_len tool_marker_openers_static + (length window - length (take k op))
          ≡ i =
        omega (arith, size, wide, is_k, lt, short, bound) in
      let ends = drop-ends_with (take k op) window (
        drop-drop (length window - length (take k op)) (l - max_op_len tool_marker_openers_static) s
        ∙ ap (λ n. drop n s) place
        ∙ sym start) in
      let (j, q, low, le, found) =
        tail_partial_lem op window 1 (length op - 1) k (omega (arith, is_k, lt))
          (omega (arith, short)) ends in
      let same =
        same_start op window j k
          (All_Elem (λ x. head_once x ≡ true) op tool_marker_openers_static openers_head_once is)
          low le (omega (arith, short)) found ends in
      let tail = earliest_tail-le-partial tool_marker_openers_static window s op complete j is q in
      omega (arith, tail, same, is_k, lt)

  no_start : (i : ℕ) → i < hold_at names s → starts_with (drop i s) op ≡ false
  no_start i lt = elim (Bool-cases (starts_with (drop i s) op)) [
    | inr no_match ↦ no_match
    | inl here ↦
        let (start, le) = starts_with-take (drop i s) op here in
        let k = length (drop i s) in
        let is_k : k ≡ length s - i = length-drop i s in
        let inside : i < length s = omega (arith, lt, hold_at-le) in
        elim (ℕ_discrete k (length op)) [
          | no ne ↦
              absurd
                (omega (arith, lt, hold_at-le-start i k inside is_k (omega (arith, le, ne)) start))
          | yes e ↦
              let whole : op ≡ drop i s = sym (take_of_length-le k op (omega (arith, e))) ∙ start in
              absurd
                (ground (arith, no_opener i lt, ap (starts_with op) whole, starts_with_self op))
        ]
  ]

  pub split-Shut : Shut op (split_at_marker_boundary names s).0 (split_at_marker_boundary names s).1
  unfolding split_at_marker_boundary
  split-Shut = Shut-take op s (hold_at names s) (λ i lt. (no_opener i lt, no_start i lt))

join-yield :
    (f : Text) (l : List Text) → join (elim f [ [] ↦ l | c ∷ t ↦ (c ∷ t) ∷ l ]) ≡ f ++ join l
join-yield [] l = refl
join-yield (c ∷ t) l = refl

split-append :
    (names : List Text) (s : Text)
    → (split_at_marker_boundary names s).0 ++ (split_at_marker_boundary names s).1 ≡ s
unfolding split_at_marker_boundary
split-append names s = take_append_drop (hold_at names s) s

stream-join :
    (names : List Text) (held : Text) (tokens : List Text)
    → join (stream names held tokens).0 ++ (stream names held tokens).1 ≡ held ++ join tokens
unfolding stream
stream-join names held [] = sym (append-nil held)
stream-join names held (token ∷ tokens) =
    let (f, h) = split_at_marker_boundary names (held ++ token) in
    let (l, last) = stream names h tokens in
    ap (λ x. x ++ last) (join-yield f l)
    ∙ append_assoc f (join l) last
    ∙ ap (f ++◌) (stream-join names h tokens)
    ∙ sym (append_assoc f h (join tokens))
    ∙ ap (λ x. x ++ join tokens) (split-append names (held ++ token))
    ∙ append_assoc held token (join tokens)

stream-Shut :
    (names : List Text) (op : Text) (streamed held : Text) (tokens : List Text)
    → Elem op tool_marker_openers_static
    → Shut op streamed held
    → Shut op (streamed ++ join (stream names held tokens).0) (stream names held tokens).1
unfolding stream
stream-Shut names op streamed held [] is shut =
    subst (λ x. Shut op x held) (sym (append-nil streamed)) shut
stream-Shut names op streamed held (token ∷ tokens) is shut =
    let (f, h) = split_at_marker_boundary names (held ++ token) in
    let (l, last) = stream names h tokens in
    let before =
      subst (Shut op streamed) (sym (split-append names (held ++ token)))
        (Shut-append op streamed held token shut) in
    let now = Shut-join op streamed f h before (split-Shut names op (held ++ token) is) in
    let then_ = stream-Shut names op (streamed ++ f) h tokens is now in
    subst (λ x. Shut op x last)
      (append_assoc streamed f (join l) ∙ ap (streamed ++◌) (sym (join-yield f l))) then_

-- The opener begins at no place of the first text, read on into the second.
abbrev pub NoStart : Text → Text → Text → Type 0
NoStart op [] rest = Unit
NoStart op (c ∷ t) rest = (starts_with op (c ∷ t ++ rest) ≡ false) × NoStart op t rest

Shut-NoStart : (op f h : Text) → Shut op f h → NoStart op f h
Shut-NoStart op [] h s = tt
Shut-NoStart op (c ∷ f) h (a, b, s) = (a, Shut-NoStart op f h s)

-- However an answer is cut into tokens, what is streamed and what is held at the end make up the
-- answer, and none of the static openers begins in what is streamed.
pub stream-NoStart :
    (names : List Text) (op : Text) (tokens : List Text)
    → Elem op tool_marker_openers_static
    → (join (stream names [] tokens).0 ++ (stream names [] tokens).1 ≡ join tokens)
      × NoStart op (join (stream names [] tokens).0) (stream names [] tokens).1
stream-NoStart names op tokens is =
    (stream-join names [] tokens, Shut-NoStart op _ _ (stream-Shut names op [] [] tokens is tt))
