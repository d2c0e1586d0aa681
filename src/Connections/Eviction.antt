-- ===== src/Connections/Eviction.antt =====
-- What an eviction leaves.
use mathlib.Core.Option
use tinker_box.Base.{
  ℕ, suc, ◌≡◌, ◌↔◌, ◌⊎◌, inl, inr, refl, sym, ap, ◌∙◌, ite, Bool, true, false, not, ◌&&◌, ◌||◌,
  Option, none, some, List, [], ◌∷◌, arith, Elem, Elem-keep, Text, text_dec, if◌then◌else◌,
  Bool-cases, Option-cases,
}
use tinker_box.Base.Dict.{get, get-put_lem}
use tinker_box.Connections.Server.{
  Conn, World, same_text, holds, evict, evict_if_stale, evict_each,
  evict_stale_connections_for_device,
}

-- The entry `j` is a connection that a new one for the device replaces.
abbrev pub is_stale : Text → Text → World → Text → Bool
is_stale device new w j = not (same_text j new) && holds device (get text_dec j w.conns)

-- What becomes of a connection: nothing, or it is shut down and no longer registered.
abbrev pub dropped : Conn → Conn
dropped c = record c { pipeline = false; registered = false; closed = true }

abbrev pub after_eviction : Bool → Option Conn → Option Conn
after_eviction true o = Option.map dropped o
after_eviction false o = o

guard-cases :
    (device new : Text) (now : ℕ) (id : Text) (w : World) (n : ℕ)
    → ((is_stale device new w id ≡ false) × (evict_if_stale device new now id (w, n) ≡ (w, n)))
      ⊎ ((is_stale device new w id ≡ true)
          × ((c : Conn) × (get text_dec id w.conns ≡ some c)
              × (evict_if_stale device new now id (w, n) ≡ (evict id c now w, suc n))))
unfolding evict_if_stale
guard-cases device new now id w n = elim (Option-cases (get text_dec id w.conns)) [
  | inl e ↦ inl (ground (arith, e), rw (evict_if_stale, e) refl)
  | inr (c, e) ↦ elim (Bool-cases (not (same_text id new) && holds device (some c))) [
    | inl t ↦ inr (rw e t, (c, e, rw (evict_if_stale, e, t) refl))
    | inr f ↦ inl (rw e f, rw (evict_if_stale, e, f) refl)
  ]
]

and_false : (b : Bool) → (b && false) ≡ false
and_false true = refl
and_false false = refl

and_true : (b : Bool) → (b && true) ≡ b
and_true true = refl
and_true false = refl

evict-get :
    (id j : Text) (c : Conn) (now : ℕ) (w : World)
    → get text_dec id w.conns ≡ some c
    → get text_dec j (evict id c now w).conns
      ≡ after_eviction (same_text id j) (get text_dec j w.conns)
unfolding evict
evict-get id j c now w e =
    get-put_lem text_dec id j (dropped c) w.conns
    ∙ elim (text_dec id j)
        as (λ d.
          ite d (some (dropped c)) (get text_dec j w.conns)
          ≡ after_eviction (ite d true false) (get text_dec j w.conns)) [
            | yes x ↦ ap (Option.map dropped) (sym e ∙ ap (λ k. get text_dec k w.conns) x)
            | no ne ↦ refl
          ]

evict-active :
    (id j : Text) (c : Conn) (now : ℕ) (w : World)
    → Elem j (evict id c now w).active_connections
      ↔ (Elem j w.active_connections × (same_text id j ≡ false))
unfolding evict
evict-active id j c now w =
    let (f, g) = Elem-keep (λ k. not (same_text k id)) j w.active_connections in
    (λ m. let (x, e) = f m in (x, ground (arith, e)), λ m. g (m.0, ground (arith, m.1)))

evict_if_stale-get :
    (device new : Text) (now : ℕ) (id j : Text) (w : World) (n : ℕ)
    → get text_dec j (evict_if_stale device new now id (w, n)).0.conns
      ≡ after_eviction (same_text id j && is_stale device new w id) (get text_dec j w.conns)
evict_if_stale-get device new now id j w n = elim (guard-cases device new now id w n) [
  | inl (f, e) ↦
      rw (e, f)
        (ap (λ b. after_eviction b (get text_dec j w.conns)) (sym (and_false (same_text id j))))
  | inr (t, (c, h, e)) ↦
      rw (e, t)
        (evict-get id j c now w h
          ∙ ap (λ b. after_eviction b (get text_dec j w.conns)) (sym (and_true (same_text id j))))
]

evict_if_stale-active :
    (device new : Text) (now : ℕ) (id j : Text) (w : World) (n : ℕ)
    → Elem j (evict_if_stale device new now id (w, n)).0.active_connections
      ↔ (Elem j w.active_connections × ((same_text id j && is_stale device new w id) ≡ false))
evict_if_stale-active device new now id j w n = elim (guard-cases device new now id w n) [
  | inl (f, e) ↦ rw (e, f) (λ m. (m, and_false (same_text id j)), λ m. m.0)
  | inr (t, (c, h, e)) ↦ rw (e, t, and_true (same_text id j)) (evict-active id j c now w)
]

holds-dropped : (device : Text) (o : Option Conn) → holds device (Option.map dropped o) ≡ false
holds-dropped device none = refl
holds-dropped device (some c) = ground arith

is_stale-after :
    (device new : Text) (now : ℕ) (id j : Text) (w : World) (n : ℕ)
    → is_stale device new (evict_if_stale device new now id (w, n)).0 j
      ≡ (if same_text id j && is_stale device new w id then false else is_stale device new w j)
is_stale-after device new now id j w n =
    ap (λ o. not (same_text j new) && holds device o) (evict_if_stale-get device new now id j w n)
    ∙ elim (same_text id j && is_stale device new w id)
        as (λ b.
          (not (same_text j new) && holds device (after_eviction b (get text_dec j w.conns)))
          ≡ (if b then false else is_stale device new w j)) [
            | true ↦
                ap (λ h. not (same_text j new) && h) (holds-dropped device (get text_dec j w.conns))
                ∙ and_false (not (same_text j new))
            | false ↦ refl
          ]

abbrev pub is_elem : Text → List Text → Bool
is_elem j [] = false
is_elem j (id ∷ ids) = same_text id j || is_elem j ids

stale_same :
    (device new id j : Text) (w : World)
    → (same_text id j && is_stale device new w id) ≡ (same_text id j && is_stale device new w j)
stale_same device new id j w =
    elim (text_dec id j)
      as (λ d.
        (ite d true false && is_stale device new w id)
        ≡ (ite d true false && is_stale device new w j)) [
          | yes x ↦ ap (is_stale device new w) x
          | no ne ↦ refl
        ]

after_twice :
    (a e s : Bool) (o : Option Conn)
    → after_eviction (e && (if a && s then false else s)) (after_eviction (a && s) o)
      ≡ after_eviction ((a || e) && s) o
after_twice true true true o = refl
after_twice true true false o = refl
after_twice true false true o = refl
after_twice true false false o = refl
after_twice false true true o = refl
after_twice false true false o = refl
after_twice false false true o = refl
after_twice false false false o = refl

spared_twice :
    (a e s : Bool)
    → (((a && s) ≡ false) × ((e && (if a && s then false else s)) ≡ false))
      ↔ (((a || e) && s) ≡ false)
spared_twice a e s = (λ h. ground arith, λ h. ground arith)

module _ (device new : Text) (now : ℕ) where
  evict_each-get :
      (ids : List Text) (w : World) (n : ℕ) (j : Text)
      → get text_dec j (evict_each device new now ids (w, n)).0.conns
        ≡ after_eviction (is_elem j ids && is_stale device new w j) (get text_dec j w.conns)
  unfolding evict_each
  evict_each-get [] w n j = refl
  evict_each-get (id ∷ ids) w n j =
      let (w', n') = evict_if_stale device new now id (w, n) in
      evict_each-get ids w' n' j
      ∙ rw
          (
            is_stale-after device new now id j w n,
            evict_if_stale-get device new now id j w n,
            stale_same device new id j w,
          )
          (after_twice (same_text id j) (is_elem j ids) (is_stale device new w j)
            (get text_dec j w.conns))

  evict_each-active :
      (ids : List Text) (w : World) (n : ℕ) (j : Text)
      → Elem j (evict_each device new now ids (w, n)).0.active_connections
        ↔ (Elem j w.active_connections × ((is_elem j ids && is_stale device new w j) ≡ false))
  unfolding evict_each
  evict_each-active [] w n j = (λ m. (m, refl), λ m. m.0)
  evict_each-active (id ∷ ids) w n j =
      let (w', n') = evict_if_stale device new now id (w, n) in
      let (f, g) = evict_each-active ids w' n' j in
      let (f', g') = evict_if_stale-active device new now id j w n in
      let once = stale_same device new id j w in
      let after : is_stale device new w' j
          ≡ (if same_text id j && is_stale device new w j then false else is_stale device new w j) =
        is_stale-after device new now id j w n
        ∙ ap (λ b. if b then false else is_stale device new w j) once in
      let (to, from) = spared_twice (same_text id j) (is_elem j ids) (is_stale device new w j) in
      (
        λ m.
            let (m', e) = f m in
            let (held, e') = f' m' in
            (held, to (sym once ∙ e', ap (λ s. is_elem j ids && s) (sym after) ∙ e)),
        λ m.
            let (e', e) = from m.1 in
            g (g' (m.0, once ∙ e'), ap (λ s. is_elem j ids && s) after ∙ e),
      )

  is_elem_of_Elem : (j : Text) (ids : List Text) → Elem j ids → is_elem j ids ≡ true
  is_elem_of_Elem j [] m = elim m [ ]
  is_elem_of_Elem j (id ∷ ids) (inl e) = ground (arith, e)
  is_elem_of_Elem j (id ∷ ids) (inr m) = ground (arith, is_elem_of_Elem j ids m)

  -- After an eviction an entry is in the table exactly if it was there and is not another connection
  -- that is registered to the device. One that stays is the object it was; one that goes has no
  -- pipeline, is not registered, and its WebSocket is closed.
  pub evict_exact :
      (w : World) (j : Text)
      → Elem j w.active_connections
      → let w' = (evict_stale_connections_for_device device new now w).0 in
        (Elem j w'.active_connections ↔ (is_stale device new w j ≡ false))
        × (get text_dec j w'.conns
            ≡ after_eviction (is_stale device new w j) (get text_dec j w.conns))
  unfolding evict_stale_connections_for_device
  evict_exact w j m =
      let e = is_elem_of_Elem j w.active_connections m in
      let here : (is_elem j w.active_connections && is_stale device new w j)
          ≡ is_stale device new w j =
        ap (λ b. b && is_stale device new w j) e in
      let (f, g) = evict_each-active w.active_connections w 0 j in
      (
        (λ k. sym here ∙ (f k).1, λ k. g (m, here ∙ k)),
        evict_each-get w.active_connections w 0 j
            ∙ ap (λ b. after_eviction b (get text_dec j w.conns)) here,
      )
