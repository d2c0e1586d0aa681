-- ===== src/Middleware/Tests.antt =====
-- The middlewares on small inputs, around a handler that answers 200 and counts its calls.
use tinker_box.Base.{
  ℕ, suc, ◌+◌, ◌-◌, ◌≤◌, ◌≡◌, ◌≢◌, ◌⊎◌, refl, false, none, some, List, [], ◌∷◌, arith, codes,
  text_dec,
}
use tinker_box.Base.Dict
use tinker_box.Middleware.Http.{Request, Response, Handler}
use tinker_box.Middleware.RateLimit.{Rule, Bucket, Key, key_dec, default_rules, tightest, applies}
use tinker_box.Middleware.RateLimit.Interleaved.{counting, key_of, serve, serve-le-cap}
use tinker_box.Middleware.Auth.{header, handle_auth, is_public, public_prefixes, path_of}
use tinker_box.Middleware.Auth.Access.{BringsToken, handle_auth-BringsToken}

abbrev ok : Response
ok = record {
  status = 200;
  headers = (codes "x-frame-options", codes "SAMEORIGIN") ∷ [];
  error = none;
  retry_after = none;
}

abbrev tally : Handler ℕ
tally req w = (ok, suc w)

abbrev delete_request : Request
delete_request = record {
  method = codes "DELETE";
  path = codes "/api/v1/memory/7";
  headers =
      (codes "authorization", codes "Bearer wrong")
      ∷ (codes "origin", codes "http://localhost:3500")
      ∷ [];
  peer = some (codes "10.0.0.2");
}

abbrev rules : List Rule
rules = default_rules

limit_of_delete : tightest delete_request rules none ≡ some (30, 60)
unfolding tightest
limit_of_delete = refl

abbrev bucket : Bucket
bucket = record { window_start = 1000; count = 29 }

abbrev other_client : Request
other_client = record delete_request { peer = none }

abbrev busy_buckets : List (Key × Bucket)
busy_buckets = (key_of delete_request, bucket) ∷ []

abbrev arrivals : List (ℕ × Request)
arrivals = (1500, delete_request) ∷ (2000, other_client) ∷ (60999, delete_request) ∷ []

busy_bucket : Dict.get key_dec (key_of delete_request) busy_buckets ≡ some bucket
unfolding Dict.get key_dec text_dec tinker_box.Middleware.RateLimit.client_of
busy_bucket = refl

serve-le-cap_example :
    serve (counting (key_of delete_request) ok) rules arrivals busy_buckets 0 ≤ 0 + (30 - 29)
serve-le-cap_example =
    serve-le-cap delete_request ok rules 30 60 bucket arrivals busy_buckets 0 limit_of_delete
      (omega arith) busy_bucket (omega arith, (omega arith, (omega arith, tt)))

is_private : is_public public_prefixes (path_of delete_request) ≡ false
unfolding is_public
is_private = refl

delete_ne_options : delete_request.method ≢ codes "OPTIONS"
delete_ne_options e = cc

handle_auth-BringsToken_example :
    (BringsToken (codes "secret") (header (codes "authorization") delete_request)
      × (handle_auth tally (codes "secret") delete_request 0 ≡ (ok, 1)))
    ⊎ ((¬ BringsToken (codes "secret") (header (codes "authorization") delete_request))
        × ((handle_auth tally (codes "secret") delete_request 0).1 ≡ 0)
        × (((handle_auth tally (codes "secret") delete_request 0).0.status ≡ 401)
            ⊎ ((handle_auth tally (codes "secret") delete_request 0).0.status ≡ 503)))
handle_auth-BringsToken_example =
    handle_auth-BringsToken tally (codes "secret") delete_request 0 delete_ne_options is_private

wrong_token : (handle_auth tally (codes "secret") delete_request 0).0.status ≡ 401
unfolding handle_auth Dict.get
wrong_token = refl
