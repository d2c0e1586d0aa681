-- ===== src/Conversation/LocalText.antt =====
-- dragon_voice/local_text_stream.py: the frames of a local text turn.
use tinker_box.Base.{
  ℕ, suc, ◌≡◌, refl, ap, ◌∙◌, false, Option, none, some, List, [], ◌∷◌, ◌++◌, map, arith, ltb, ◌==◌,
  take, drop, if◌then◌else◌, All, Text, codes, starts_with, after, lower,
}
use tinker_box.Conversation.Markers.{strip_tool_markup, strip_from, after_any_case, join}

abbrev pub partial_markers : List Text
partial_markers =
    codes "<tool>" ∷ codes "<tool" ∷ codes "</tool" ∷ codes "<args" ∷ codes "</args" ∷ []

-- `s.rfind(marker)`
unfoldable pub rfind : Text → Text → Option ℕ
unfolding starts_with
rfind marker [] = if starts_with marker [] then some 0 else none
rfind marker (c ∷ s) = elim (rfind marker s) [
  | some i ↦ some (suc i)
  | none ↦ if starts_with marker (c ∷ s) then some 0 else none
]

-- The last place at which one of the markers stands; nothing is -1.
unfoldable pub latest : List Text → Text → Option ℕ → Option ℕ
unfolding rfind
latest [] s hold_at = hold_at
latest (m ∷ l) s hold_at =
    let next : Option ℕ = elim (rfind m s) [
      | none ↦ hold_at
      | some idx ↦ elim hold_at [
        | none ↦ some idx
        | some h ↦ if ltb h idx then some idx else some h
      ]
    ] in
    latest l s next

-- What is flushed of the pending text, and what stays.
unfoldable pub flush : Text → Text × Text
unfolding latest
flush pending = elim (latest partial_markers pending none) [
  | none ↦ (pending, [])
  | some k ↦ (take k pending, drop k pending)
]

-- `if flush and not ws.closed`
abbrev pub sent : Text → List Text → List Text
sent [] l = l
sent (c ∷ t) l = (c ∷ t) ∷ l

-- The texts of the frames, on a WebSocket that stays open.
unfoldable pub local_frames : Text → List Text → List Text
unfolding flush strip_tool_markup
local_frames pending [] = sent (strip_tool_markup pending) []
local_frames pending (token ∷ tokens) =
    let (f, pending') = flush (strip_tool_markup (pending ++ token)) in
    sent f (local_frames pending' tokens)

unfoldable pub response_text : List Text → Text
unfolding strip_tool_markup
response_text full_response = strip_tool_markup (join full_response)

-- No angle bracket is opened.
abbrev pub IsProse : Text → Type 0
IsProse t = All (λ c. (b'<' == c) ≡ false) t

no_markup :
    (c : ℕ) (s : Text) → (b'<' == c) ≡ false → after_any_case (codes "<tool>") (c ∷ s) ≡ none
unfolding after_any_case after lower
no_markup c s e = ground arith

strip_from-prose : (s : Text) → IsProse s → strip_from 0 s ≡ s
unfolding strip_from
strip_from-prose [] h = refl
strip_from-prose (c ∷ s) h = rw (no_markup c s h.0, strip_from) (ap (c ∷◌) (strip_from-prose s h.1))

rfind-prose : (m s : Text) → IsProse s → rfind (b'<' ∷ m) s ≡ none
unfolding rfind starts_with
rfind-prose m [] h = refl
rfind-prose m (c ∷ s) h = ground (arith, rfind-prose m s h.1, h.0)

latest-none :
    (m : Text) (l : List Text) (s : Text) (k : Option ℕ)
    → rfind m s ≡ none
    → latest (m ∷ l) s k ≡ latest l s k
unfolding latest
latest-none m l s k e = rw (e, latest) refl

latest-prose : (l : List Text) (s : Text) → IsProse s → latest (map (b'<' ∷◌) l) s none ≡ none
unfolding latest
latest-prose [] s h = refl
latest-prose (m ∷ l) s h =
    latest-none (b'<' ∷ m) (map (b'<' ∷◌) l) s none (rfind-prose m s h) ∙ latest-prose l s h

flush-none : (s : Text) → latest partial_markers s none ≡ none → flush s ≡ (s, [])
unfolding flush
flush-none s e = rw (e, flush) refl

flush-prose : (s : Text) → IsProse s → flush s ≡ (s, [])
flush-prose s h = flush-none s (
    latest-prose (codes "tool>" ∷ codes "tool" ∷ codes "/tool" ∷ codes "args" ∷ codes "/args" ∷ [])
      s h)

join-sent : (f : Text) (l : List Text) → join (sent f l) ≡ f ++ join l
join-sent [] l = refl
join-sent (c ∷ t) l = refl

local_frames-prose :
    (tokens : List Text) → All IsProse tokens → join (local_frames [] tokens) ≡ join tokens
unfolding local_frames strip_tool_markup
local_frames-prose [] h = refl
local_frames-prose (t ∷ tokens) h =
    rw (strip_from-prose t h.0, flush-prose t h.0)
      (join-sent t (local_frames [] tokens) ∙ ap (t ++◌) (local_frames-prose tokens h.1))

join-IsProse : (tokens : List Text) → All IsProse tokens → IsProse (join tokens)
join-IsProse [] h = tt
join-IsProse (t ∷ tokens) h = append-IsProse t (join tokens) h.0 (join-IsProse tokens h.1)
  where
    append-IsProse : (s t : Text) → IsProse s → IsProse t → IsProse (s ++ t)
    append-IsProse [] t h k = k
    append-IsProse (c ∷ s) t h k = (h.0, append-IsProse s t h.1 k)

-- An answer of tokens in which no angle bracket is opened is sent as it is, and is the text that the
-- later stages are given.
pub local_frames_lem :
    (tokens : List Text)
    → All IsProse tokens
    → (join (local_frames [] tokens) ≡ join tokens) × (response_text tokens ≡ join tokens)
unfolding response_text strip_tool_markup
local_frames_lem tokens h =
    (local_frames-prose tokens h, strip_from-prose (join tokens) (join-IsProse tokens h))
