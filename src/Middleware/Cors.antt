-- ===== src/Middleware/Cors.antt =====
-- dragon_voice/middleware/cors.py: the origins that a browser may call from.
use tinker_box.Base.{
  ◌≡◌, ◌⊎◌, Bool, true, false, ◌||◌, none, some, List, [], ◌∷◌, arith, if◌then◌else◌, ite,
  Bool-cases, inl, inr, Text, codes, text_dec,
}
use tinker_box.Base.Dict
use tinker_box.Middleware.Http.{Request, Response, Handler}

-- DEFAULT_ALLOWED_ORIGINS
abbrev pub default_origins : List Text
default_origins =
    codes "http://localhost:3500"
    ∷ codes "http://127.0.0.1:3500"
    ∷ codes "http://192.168.1.90:8080"
    ∷ codes "https://tinkerclaw-dashboard.ngrok.dev"
    ∷ []

unfoldable pub is_member : Text → List Text → Bool
unfolding text_dec
is_member t [] = false
is_member t (u ∷ l) = ite (text_dec u t) true false || is_member t l

abbrev pub allow_origin : Text
allow_origin = codes "access-control-allow-origin"

-- `request.headers.get("Origin", "")`
unfoldable pub origin_of : Request → Text
unfolding text_dec
origin_of req = elim (Dict.get text_dec (codes "origin") req.headers) [ none ↦ [] | some v ↦ v ]

abbrev rejected : Response
rejected = record { status = 403; headers = []; error = none; retry_after = none }

unfoldable pub preflight : Text → Response
preflight origin = record {
  status = 200;
  headers =
      (allow_origin, origin)
      ∷ (codes "access-control-allow-methods", codes "GET, POST, PUT, PATCH, DELETE, OPTIONS")
      ∷ (
        codes "access-control-allow-headers",
        codes "Content-Type, X-Sample-Rate, Accept, Authorization",
      )
      ∷ (codes "access-control-max-age", codes "3600")
      ∷ [];
  error = none;
  retry_after = none;
}

unfoldable pub with_origin : Text → Response → Response
unfolding text_dec
with_origin origin r = record r { headers = Dict.put text_dec allow_origin origin r.headers }

unfoldable pub handle_cors : {W : Type 0} → Handler W → List Text → Handler W
unfolding is_member origin_of preflight with_origin text_dec
handle_cors handler allowed req w =
    let origin = origin_of req in
    let (r, w') = handler req w in
    if is_member origin allowed
    then ite (text_dec req.method (codes "OPTIONS")) (preflight origin, w)
        (with_origin origin r, w')
    else ite (text_dec req.method (codes "OPTIONS")) (rejected, w) (r, w')

-- An origin that is not allowed: a preflight gets 403 without the handler, and any other request
-- the handler's answer as it is. An allowed one: the answer names the origin, and the handler runs
-- unless it is a preflight.
pub handle_cors_lem :
    {W : Type 0} (handler : Handler W) (allowed : List Text) (req : Request) (w : W)
    → (is_member (origin_of req) allowed ≡ true
        × (Dict.get text_dec allow_origin (handle_cors handler allowed req w).0.headers
            ≡ some (origin_of req))
        × ((handle_cors handler allowed req w).1
            ≡ ite (text_dec req.method (codes "OPTIONS")) w (handler req w).1))
      ⊎ (is_member (origin_of req) allowed ≡ false
          × (handle_cors handler allowed req w
              ≡ ite (text_dec req.method (codes "OPTIONS")) (rejected, w) (handler req w)))
unfolding handle_cors with_origin preflight Dict.get
handle_cors_lem handler allowed req w =
    let (r, w') = handler req w in
    let named = Dict.get-put_lem text_dec allow_origin allow_origin (origin_of req) r.headers in
    elim (Bool-cases (is_member (origin_of req) allowed)) [
      | inl yes' ↦ elim (text_dec req.method (codes "OPTIONS")) [
        | yes o ↦ inl (yes', ground (arith, yes', o), ground (arith, yes', o))
        | no o ↦ inl (yes', ground (arith, yes', o, named), ground (arith, yes', o))
      ]
      | inr no' ↦ inr (no', rw no')
    ]
