-- ===== src/Frames/Exact.antt =====
-- Which bytes a frame is read from.
use tinker_box.Base.{
  ℕ, ◌+◌, ◌*◌, ◌/◌, ◌%◌, ◌≤◌, ◌<◌, ◌≡◌, ◌↔◌, refl, sym, ap, ◌∙◌, inl, inr, true, false, Bool-cases,
  some, List, [], ◌∷◌, ◌++◌, arith, length, length-drop, length-take, take, drop, All, ltb, ◌==◌,
  ite, text_dec,
}
use tinker_box.Base.Pieces.{take_append_drop, drop-drop, All-drop, All-take}
use tinker_box.Frames.Wire.{parse_frame, unpack_be, same_bytes}

-- The length in front of a body, as `struct.pack(">I", …)` writes it.
unfoldable pub pack_be : ℕ → List ℕ
pack_be n = n / 16777216 ∷ n / 65536 % 256 ∷ n / 256 % 256 ∷ n % 256 ∷ []

unpack-pack : (n : ℕ) → n < 4294967296 → unpack_be (pack_be n) ≡ n
unfolding unpack_be pack_be
unpack-pack n h = omega (arith, h)

pack-bytes :
    (a b c d : ℕ)
    → a < 256
    → b < 256
    → c < 256
    → d < 256
    → pack_be (a * 16777216 + (b * 65536 + (c * 256 + d))) ≡ a ∷ b ∷ c ∷ d ∷ []
unfolding pack_be
pack-bytes a b c d ha hb hc hd =
    let n = a * 16777216 + (b * 65536 + (c * 256 + d)) in
    let e1 : n / 16777216 ≡ a = omega (arith, ha, hb, hc, hd) in
    let e2 : n / 65536 % 256 ≡ b = omega (arith, ha, hb, hc, hd) in
    let e3 : n / 256 % 256 ≡ c = omega (arith, ha, hb, hc, hd) in
    let e4 : n % 256 ≡ d = omega (arith, ha, hb, hc, hd) in cc

pack-unpack :
    (l : List ℕ)
    → length l ≡ 4
    → All (λ b. b < 256) l
    → (pack_be (unpack_be l) ≡ l) × (unpack_be l < 4294967296)
unfolding unpack_be
pack-unpack (a ∷ b ∷ c ∷ d ∷ []) e (ha, (hb, (hc, (hd, _)))) =
    (pack-bytes a b c d ha hb hc hd, omega (arith, ha, hb, hc, hd))
pack-unpack [] e h = absurd (omega (arith, e))
pack-unpack (a ∷ []) e h = absurd (omega (arith, e))
pack-unpack (a ∷ b ∷ []) e h = absurd (omega (arith, e))
pack-unpack (a ∷ b ∷ c ∷ []) e h = absurd (omega (arith, e))
pack-unpack (a ∷ b ∷ c ∷ d ∷ x ∷ l) e h = absurd (omega (arith, e))

same_bytes_iff : (a b : List ℕ) → (same_bytes a b ≡ true) ↔ (a ≡ b)
same_bytes_iff a b = (
  λ h. elim (text_dec a b) [ yes e ↦ e | no ne ↦ absurd (ground arith) ],
  λ e. elim (text_dec a b) as (λ d. ite d true false ≡ true) [
    | yes _ ↦ refl
    | no ne ↦ absurd (ne e)
  ],
)

parse_frame-some :
    (magic w body : List ℕ)
    → parse_frame magic w ≡ some body
    → (8 ≤ length w)
      × (take 4 w ≡ magic)
      × (body ≡ drop 8 w)
      × (length body ≡ unpack_be (take 4 (drop 4 w)))
unfolding parse_frame
parse_frame-some magic w body h = elim (Bool-cases (ltb (length w) 8)) [
  | inl short ↦ absurd (ground arith)
  | inr long ↦ elim (Bool-cases (same_bytes (take 4 w) magic)) [
    | inr other ↦ absurd (ground arith)
    | inl same ↦ elim (Bool-cases (length (drop 8 w) == unpack_be (take 4 (drop 4 w)))) [
      | inr differs ↦ absurd (ground arith)
      | inl fits ↦
          let is : drop 8 w ≡ body = ground arith in
          (
            ground arith,
            (same_bytes_iff (take 4 w) magic).0 same,
            sym is,
            sym (ap length is) ∙ ground arith,
          )
    ]
  ]
]

parse-pack :
    (a b c d : ℕ) (body : List ℕ)
    → length body < 4294967296
    → parse_frame (a ∷ b ∷ c ∷ d ∷ []) (a ∷ b ∷ c ∷ d ∷ pack_be (length body) ++ body) ≡ some body
unfolding parse_frame pack_be
parse-pack a b c d body h =
    let magic = a ∷ b ∷ c ∷ d ∷ [] in
    let same = (same_bytes_iff magic magic).1 refl in
    let n : unpack_be (pack_be (length body)) ≡ length body = unpack-pack (length body) h in
    let long : ltb (length (a ∷ b ∷ c ∷ d ∷ pack_be (length body) ++ body)) 8 ≡ false =
      ground arith in
    ground (arith, same, n, long)

-- For a magic of four bytes, bytes are read as a frame with this body exactly if they are the magic,
-- the length of the body in four bytes, and the body, of less than 4 GiB.
pub parse_frame_exact :
    (a b c d : ℕ) (w body : List ℕ)
    → All (λ x. x < 256) w
    → (parse_frame (a ∷ b ∷ c ∷ d ∷ []) w ≡ some body)
      ↔ ((w ≡ a ∷ b ∷ c ∷ d ∷ pack_be (length body) ++ body) × (length body < 4294967296))
parse_frame_exact a b c d w body bytes = (
  λ h.
      let magic = a ∷ b ∷ c ∷ d ∷ [] in
      let (long, same, is, len) = parse_frame-some magic w body h in
      let four : length (take 4 (drop 4 w)) ≡ 4 =
        omega (arith, long, length-take 4 (drop 4 w), length-drop 4 w) in
      let (packed, bound) =
        pack-unpack (take 4 (drop 4 w)) four (All-take _ 4 _ (All-drop _ 4 w bytes)) in
      (
        sym (take_append_drop 4 w)
            ∙ ap (λ l. l ++ drop 4 w) same
            ∙ ap (magic ++◌) (
                sym (take_append_drop 4 (drop 4 w))
                ∙ ap (λ l. l ++ drop 4 (drop 4 w)) (sym packed ∙ ap pack_be (sym len))
                ∙ ap (pack_be (length body) ++◌) (drop-drop 4 4 w ∙ sym is)),
        omega (arith, len, bound),
      ),
  λ h. ap (parse_frame (a ∷ b ∷ c ∷ d ∷ [])) h.0 ∙ parse-pack a b c d body h.1,
)
