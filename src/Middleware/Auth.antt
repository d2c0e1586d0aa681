-- ===== src/Middleware/Auth.antt =====
-- dragon_voice/middleware/auth.py: the bearer token. `hmac.compare_digest` is the equality of the
-- two texts, which are taken to be ASCII, as it demands of texts.
pub mod Access
use tinker_box.Base.{
  ℕ, ◌≡◌, Bool, true, false, ◌&&◌, ◌||◌, Option, none, some, List, [], ◌∷◌, ◌++◌, leb, ◌==◌,
  if◌then◌else◌, drop, ite, Text, codes, strip, text_dec, starts_with,
}
use tinker_box.Base.Dict
use tinker_box.Middleware.Http.{Request, Response, Handler}

-- PUBLIC_PREFIXES
abbrev pub public_prefixes : List Text
public_prefixes =
    codes "/health"
    ∷ codes "/ws/voice"
    ∷ codes "/dashboard"
    ∷ codes "/api/media/"
    ∷ codes "/call"
    ∷ codes "/static/"
    ∷ codes "/api/v1/oauth/callback"
    ∷ []

unfoldable pub is_public : List Text → Text → Bool
unfolding starts_with
is_public [] path = false
is_public (p ∷ l) path = starts_with p path || is_public l path

abbrev failure : ℕ → Text → Response
failure status error = record {
  status = status;
  headers = [];
  error = some error;
  retry_after = none;
}

-- `request.headers.get("Authorization", "")`
unfoldable pub header : Text → Request → Text
unfolding text_dec
header name req = elim (Dict.get text_dec name req.headers) [ none ↦ [] | some v ↦ v ]

-- The answer of the checks on a private path, `none` where the handler may run.
unfoldable pub token_answer : Text → Text → Option Response
unfolding strip text_dec starts_with
token_answer expected auth = elim (strip expected) [
  | [] ↦ some (failure 503 (codes "dragon_api_token_not_configured"))
  | c ∷ t ↦
      if starts_with (codes "Bearer ") auth
      then ite (text_dec (strip (drop 7 auth)) (c ∷ t)) none
          (some (failure 401 (codes "invalid_bearer_token")))
      else some (failure 401 (codes "missing_bearer_token"))
]

abbrev pub path_of : Request → Text
path_of req = elim req.path [ [] ↦ codes "/" | c ∷ t ↦ c ∷ t ]

unfoldable pub handle_auth : {W : Type 0} → Handler W → Text → Handler W
unfolding is_public header token_answer text_dec
handle_auth handler expected req w = ite (text_dec req.method (codes "OPTIONS")) (handler req w) (
    if is_public public_prefixes (path_of req)
    then handler req w
    else elim (token_answer expected (header (codes "authorization") req)) [
      | none ↦ handler req w
      | some r ↦ (r, w)
    ])
