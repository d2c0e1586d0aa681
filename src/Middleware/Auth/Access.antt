-- ===== src/Middleware/Auth/Access.antt =====
-- Who gets past `handle_auth`.
use tinker_box.Base.{
  ◌≡◌, ◌≢◌, ◌⊎◌, ◌↔◌, refl, true, false, none, some, [], ◌∷◌, arith, Option-cases, inl, inr, drop,
  strip, Text, codes, starts_with,
}
use tinker_box.Middleware.Http.{Request, Response, Handler}
use tinker_box.Middleware.Auth.{
  strip, header, token_answer, is_public, public_prefixes, path_of, handle_auth,
}

-- A token is configured, and the request brings it.
abbrev pub BringsToken : Text → Text → Type 0
BringsToken expected auth =
    (strip expected ≢ [])
    × (starts_with (codes "Bearer ") auth ≡ true)
    × (strip (drop 7 auth) ≡ strip expected)

token_answer_lem :
    (expected auth : Text) (t : Text)
    → strip expected ≡ t
    → (token_answer expected auth ≡ none)
      ↔ ((t ≢ []) × (starts_with (codes "Bearer ") auth ≡ true) × (strip (drop 7 auth) ≡ t))
unfolding token_answer
token_answer_lem expected auth [] e = (λ h. ground arith, λ h. ground arith)
token_answer_lem expected auth (c ∷ t) e = (λ h. ground arith, λ h. ground arith)

refused_status :
    (expected auth : Text) (r : Response) (t : Text)
    → strip expected ≡ t
    → token_answer expected auth ≡ some r
    → (r.status ≡ 401) ⊎ (r.status ≡ 503)
unfolding token_answer
refused_status expected auth r [] s e = inr (ground arith)
refused_status expected auth r (c ∷ t) s e = inl (ground arith)

-- Outside OPTIONS and the public paths, a request either brings the configured token, and then
-- the answer is the handler's, or it is answered with 401 or 503, and the handler does not run.
pub handle_auth-BringsToken :
    {W : Type 0} (handler : Handler W) (expected : Text) (req : Request) (w : W)
    → req.method ≢ codes "OPTIONS"
    → is_public public_prefixes (path_of req) ≡ false
    → (BringsToken expected (header (codes "authorization") req)
        × (handle_auth handler expected req w ≡ handler req w))
      ⊎ ((¬ BringsToken expected (header (codes "authorization") req))
          × ((handle_auth handler expected req w).1 ≡ w)
          × (((handle_auth handler expected req w).0.status ≡ 401)
              ⊎ ((handle_auth handler expected req w).0.status ≡ 503)))
unfolding handle_auth
handle_auth-BringsToken handler expected req w private_method private_path =
    let auth = header (codes "authorization") req in
    let brings = token_answer_lem expected auth (strip expected) refl in
    elim (Option-cases (token_answer expected auth)) [
      | inl e ↦ inl (brings.0 e, ground (arith, private_method, private_path, e))
      | inr (r, e) ↦ inr (
        λ b. ground (arith, brings.1 b, e),
        ground (arith, private_method, private_path, e),
        elim (refused_status expected auth r _ refl e) [
          | inl s ↦ inl (ground (arith, private_method, private_path, e, s))
          | inr s ↦ inr (ground (arith, private_method, private_path, e, s))
        ],
      )
    ]
