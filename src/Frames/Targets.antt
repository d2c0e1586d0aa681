-- ===== src/Frames/Targets.antt =====
-- To whom a binary frame goes.
use mathlib.Core.Path.{subst}
use tinker_box.Base.{
  ℕ, ◌≡◌, ◌≢◌, ◌↔◌, ◌⊎◌, refl, sym, ap, ◌∙◌, inl, inr, Bool, true, false, Bool-cases, Option, none,
  some, Option-cases, List, [], ◌∷◌, arith, Elem, if◌then◌else◌, Text,
}
use tinker_box.Frames.Wire.{peek_video, peek_call_audio_magic, parse_video_frame}
use tinker_box.Frames.Dispatch.{
  Peer, Effect, sends, writes, feeds, Stats, session_dec, relay, on_frame, dispatch_binary_frame,
}

-- A connection to which the frame of a session is relayed.
abbrev pub IsTarget : Option Text → List Peer → Text → Type 0
IsTarget sender peers id =
    (p : Peer) × Elem p peers × (p.session_id ≢ sender) × (p.is_open ≡ true) × (p.ws_id ≡ id)

IsTarget-cons :
    (sender : Option Text) (p : Peer) (peers : List Peer) (id : Text)
    → IsTarget sender peers id
    → IsTarget sender (p ∷ peers) id
IsTarget-cons sender p peers id (q, m, ne, on, is) = (q, inr m, ne, on, is)

-- One connection in the loop: it is left out, or the frame is sent to it.
relay_same :
    (sender : Option Text) (w : List ℕ) (p : Peer) (peers : List Peer)
    → p.session_id ≡ sender
    → relay sender w (p ∷ peers) ≡ relay sender w peers
unfolding relay
relay_same sender w p peers e = ground arith

relay_closed :
    (sender : Option Text) (w : List ℕ) (p : Peer) (peers : List Peer)
    → p.is_open ≡ false
    → relay sender w (p ∷ peers) ≡ relay sender w peers
unfolding relay
relay_closed sender w p peers e = ground arith

relay_sends :
    (sender : Option Text) (w : List ℕ) (p : Peer) (peers : List Peer)
    → p.session_id ≢ sender
    → p.is_open ≡ true
    → relay sender w (p ∷ peers) ≡ sends p.ws_id w ∷ relay sender w peers
unfolding relay
relay_sends sender w p peers ne e = ground arith

module _ (sender : Option Text) (w : List ℕ) where
  Elem-relay :
      (v : List ℕ) (id : Text) (peers : List Peer)
      → Elem (sends id v) (relay sender w peers)
      → (v ≡ w) × IsTarget sender peers id
  unfolding relay
  Elem-relay v id [] m = elim m [ ]
  Elem-relay v id (p ∷ peers) m =
      let later : Elem (sends id v) (relay sender w peers)
          → (v ≡ w) × IsTarget sender (p ∷ peers) id =
        λ m. let (e, t) = Elem-relay v id peers m in (e, IsTarget-cons sender p peers id t) in
      elim (session_dec p.session_id sender) [
        | yes e ↦ later (subst (Elem (sends id v)) (relay_same sender w p peers e) m)
        | no ne ↦ elim (Bool-cases p.is_open) [
          | inr closed ↦ later (subst (Elem (sends id v)) (relay_closed sender w p peers closed) m)
          | inl on ↦ elim (subst (Elem (sends id v)) (relay_sends sender w p peers ne on) m) [
            | inl here ↦ (cc, (p, inl refl, ne, on, cc))
            | inr there ↦ later there
          ]
        ]
      ]

  Elem-relay_of_IsTarget :
      (id : Text) (peers : List Peer)
      → IsTarget sender peers id
      → Elem (sends id w) (relay sender w peers)
  unfolding relay
  Elem-relay_of_IsTarget id [] (q, m, ne, on, is) = elim m [ ]
  Elem-relay_of_IsTarget id (p ∷ peers) (q, inl here, ne, on, is) =
      let ne' : p.session_id ≢ sender = λ e. ne (ap (λ (x : Peer). x.session_id) (sym here) ∙ e) in
      let on' : p.is_open ≡ true = ap (λ (x : Peer). x.is_open) here ∙ on in
      let is' : p.ws_id ≡ id = ap (λ (x : Peer). x.ws_id) here ∙ is in
      subst (Elem (sends id w)) (sym (relay_sends sender w p peers ne' on'))
        (inl (ap (λ x. sends x w) is'))
  Elem-relay_of_IsTarget id (p ∷ peers) (q, inr there, ne, on, is) =
      let held = Elem-relay_of_IsTarget id peers (q, there, ne, on, is) in
      elim (session_dec p.session_id sender) [
        | yes e ↦ subst (Elem (sends id w)) (sym (relay_same sender w p peers e)) held
        | no other ↦ elim (Bool-cases p.is_open) [
          | inr closed ↦ subst (Elem (sends id w)) (sym (relay_closed sender w p peers closed)) held
          | inl on' ↦
              subst (Elem (sends id w)) (sym (relay_sends sender w p peers other on')) (inr held)
        ]
      ]

-- A well-formed frame of video, or any bytes with the magic of a call's audio.
abbrev pub IsRelayed : List ℕ → Type 0
IsRelayed w =
    ((peek_video w ≡ true) × (parse_video_frame w ≢ none))
    ⊎ ((peek_video w ≡ false) × (peek_call_audio_magic w ≡ true))

module _ (sender : Option Text) (w : List ℕ) (peers : List Peer) (now : ℕ) (all : Stats) where
  on_frame_bad : parse_video_frame w ≡ none → (on_frame sender w peers now all).1 ≡ []
  unfolding on_frame
  on_frame_bad e = rw (e, on_frame) refl

  on_frame_good :
      (jpeg : List ℕ)
      → parse_video_frame w ≡ some jpeg
      → (on_frame sender w peers now all).1 ≡ writes jpeg ∷ relay sender w peers
  unfolding on_frame
  on_frame_good jpeg e = rw (e, on_frame) refl

  Elem-on_frame :
      (v : List ℕ) (id : Text)
      → Elem (sends id v) (on_frame sender w peers now all).1
        ↔ ((v ≡ w) × IsTarget sender peers id × (parse_video_frame w ≢ none))
  Elem-on_frame v id = elim (Option-cases (parse_video_frame w)) [
    | inl bad ↦
        (λ m. elim (subst (Elem (sends id v)) (on_frame_bad bad) m) [ ], λ h. absurd (h.2 bad))
    | inr (jpeg, good) ↦ (
      λ m. elim (subst (Elem (sends id v)) (on_frame_good jpeg good) m) [
        | inl here ↦ absurd (cc)
        | inr there ↦ let (e, t) = Elem-relay sender w v id peers there in (e, t, λ n. cc)
      ],
      λ h. subst (Elem (sends id v)) (sym (on_frame_good jpeg good)) (
          inr (
            subst (λ x. Elem (sends id x) (relay sender w peers)) (sym h.0)
              (Elem-relay_of_IsTarget sender w id peers h.1))),
    )
  ]

fed_sends :
    (b : Bool) (w v : List ℕ) (id : Text) → ¬ (Elem (sends id v) (if b then feeds w ∷ [] else []))
fed_sends true w v id (inl here) = absurd (cc)
fed_sends true w v id (inr m) = elim m [ ]
fed_sends false w v id m = elim m [ ]

module _ (w : List ℕ) (sender : Option Text) (has_pipeline : Bool) (peers : List Peer) (now : ℕ)
    (all : Stats) where
  dispatch_video :
      peek_video w ≡ true
      → dispatch_binary_frame w sender has_pipeline peers now all ≡ on_frame sender w peers now all
  unfolding dispatch_binary_frame
  dispatch_video e = rw e refl

  dispatch_audio :
      peek_video w ≡ false
      → peek_call_audio_magic w ≡ true
      → dispatch_binary_frame w sender has_pipeline peers now all ≡ (all, relay sender w peers)
  unfolding dispatch_binary_frame
  dispatch_audio e f = rw (e, f) refl

  dispatch_raw :
      peek_video w ≡ false
      → peek_call_audio_magic w ≡ false
      → dispatch_binary_frame w sender has_pipeline peers now all
        ≡ (all, if has_pipeline then feeds w ∷ [] else [])
  unfolding dispatch_binary_frame
  dispatch_raw e f = rw (e, f) refl

  -- A binary frame is sent on to a connection exactly if it is a well-formed frame of video or has the
  -- magic of a call's audio, and the connection is open and of another session than the sender; what is
  -- sent are the bytes of the frame. A second connection of the sender's session is left out too, and if
  -- the sender has no session, every connection that has none.
  pub dispatch_binary_frame-IsTarget :
      (v : List ℕ) (id : Text)
      → Elem (sends id v) (dispatch_binary_frame w sender has_pipeline peers now all).1
        ↔ ((v ≡ w) × IsTarget sender peers id × IsRelayed w)
  dispatch_binary_frame-IsTarget v id = elim (Bool-cases (peek_video w)) [
    | inl video ↦
        let (there, back) = Elem-on_frame sender w peers now all v id in
        let is = ap (λ (r : Stats × List Effect). r.1) (dispatch_video video) in
        (
          λ m.
              let (e, t, good) = there (subst (Elem (sends id v)) is m) in
              (e, t, inl (video, good)),
          λ h. subst (Elem (sends id v)) (sym is) (
              back
                (h.0, h.1, elim h.2 [ inl x ↦ x.1 | inr x ↦ absurd (ground (arith, x.0, video)) ])),
        )
    | inr other ↦ elim (Bool-cases (peek_call_audio_magic w)) [
      | inl audio ↦
          let is = ap (λ (r : Stats × List Effect). r.1) (dispatch_audio other audio) in
          (
            λ m.
                let (e, t) = Elem-relay sender w v id peers (subst (Elem (sends id v)) is m) in
                (e, t, inr (other, audio)),
            λ h. subst (Elem (sends id v)) (sym is) (
                subst (λ x. Elem (sends id x) (relay sender w peers)) (sym h.0)
                  (Elem-relay_of_IsTarget sender w id peers h.1)),
          )
      | inr raw ↦
          let is = ap (λ (r : Stats × List Effect). r.1) (dispatch_raw other raw) in
          (
            λ m. absurd (fed_sends has_pipeline w v id (subst (Elem (sends id v)) is m)),
            λ h. absurd (elim h.2 [
              | inl x ↦ ground (arith, x.0, other)
              | inr x ↦ ground (arith, x.1, raw)
            ]),
          )
    ]
  ]
