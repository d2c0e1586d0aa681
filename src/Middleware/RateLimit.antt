-- ===== src/Middleware/RateLimit.antt =====
-- dragon_voice/middleware/rate_limit.py: a fixed window for each client, method and path. Times
-- are milliseconds of the monotonic clock; the windows of the rules are seconds.
pub mod Window
pub mod Interleaved
use tinker_box.Base.{
  ℕ, ◌+◌, ◌-◌, ◌*◌, ◌/◌, ◌≡◌, ap, Bool, true, false, ◌&&◌, not, Option, none, some, List, [], ◌∷◌,
  map, ltb, leb, if◌then◌else◌, length, keep, ite, Text, codes, text_dec, starts_with,
}
use tinker_box.Base.Dict
use tinker_box.Middleware.Http.{Request, Response, Handler}

pub record Rule : Type 0 where
  pub method : Text
  pub prefix : Text
  pub cap : ℕ
  pub window : ℕ

abbrev rule : Text → Text → ℕ → ℕ → Rule
rule method prefix cap window = record {
  method = method;
  prefix = prefix;
  cap = cap;
  window = window;
}

-- DEFAULT_RATE_LIMIT_RULES
abbrev pub default_rules : List Rule
default_rules =
    rule (codes "DELETE") (codes "/api/v1/devices/") 20 60
    ∷ rule (codes "DELETE") (codes "/api/v1/sessions/") 20 60
    ∷ rule (codes "DELETE") (codes "/api/v1/messages") 20 60
    ∷ rule (codes "DELETE") (codes "/api/v1/memory/") 30 60
    ∷ rule (codes "DELETE") (codes "/api/v1/documents/") 10 60
    ∷ rule (codes "DELETE") (codes "/api/v1/config/") 20 60
    ∷ rule (codes "POST") (codes "/api/v1/sessions/") 30 60
    ∷ rule (codes "POST") (codes "/api/v1/sessions/") 20 60
    ∷ rule (codes "POST") (codes "/api/media/upload") 30 60
    ∷ []

-- _GC_TRIGGER_ENTRIES, and _GC_STALE_SECONDS in milliseconds
abbrev pub gc_trigger : ℕ
gc_trigger = 4096

abbrev pub gc_stale : ℕ
gc_stale = 600000

pub record Bucket : Type 0 where
  pub window_start : ℕ
  pub count : ℕ

-- `(client, method, path)`
abbrev pub Key : Type 0
Key = Text × Text × Text

pub same_key : {a b c x y z : Text} → a ≡ x → b ≡ y → c ≡ z → ◌≡◌ {A = Key} (a, b, c) (x, y, z)
same_key p q r = cc

unfoldable pub key_dec : Discrete Key
key_dec (a, b, c) (x, y, z) = elim (text_dec a x) [
  | no ne ↦ no (λ e. ne (ap (λ (k : Key). k.0) e))
  | yes p ↦ elim (text_dec b y) [
    | no ne ↦ no (λ e. ne (ap (λ (k : Key). k.1) e))
    | yes q ↦ elim (text_dec c z) [
      | no ne ↦ no (λ e. ne (ap (λ (k : Key). k.2) e))
      | yes r ↦ yes (same_key p q r)
    ]
  ]
]

unfoldable pub applies : Request → Rule → Bool
unfolding text_dec starts_with
applies req r = ite (text_dec req.method r.method) true false && starts_with r.prefix req.path

-- The walk over the rules, with the tightest match so far.
unfoldable pub tightest : Request → List Rule → Option (ℕ × ℕ) → Option (ℕ × ℕ)
unfolding applies
tightest req [] matched = matched
tightest req (r ∷ rules) matched = tightest req rules (
    if applies req r
    then elim matched [
      | none ↦ some (r.cap, r.window)
      | some (c, w) ↦ if ltb r.cap c then some (r.cap, r.window) else some (c, w)
    ]
    else matched)

-- The window of one key: whether the request passes, and the bucket that is left. `win` is in
-- milliseconds.
unfoldable pub bump : ℕ → ℕ → ℕ → Option Bucket → Bool × Bucket
bump cap win now none = (true, record { window_start = now; count = 1 })
bump cap win now (some b) =
    if leb win (now - b.window_start)
    then (true, record { window_start = now; count = 1 })
    else (not (ltb cap (b.count + 1)), record b { count = b.count + 1 })

-- The collection of the buckets whose window began long ago.
unfoldable pub collect : ℕ → List (Key × Bucket) → List (Key × Bucket)
collect now buckets =
    if ltb gc_trigger (length buckets)
    then keep (λ e. not (leb (e.1.window_start + gc_stale) now)) buckets
    else buckets

-- `int(win - (now - window_start)) + 1`
unfoldable pub retry_after : ℕ → ℕ → Bucket → ℕ
retry_after win now b = (win - (now - b.window_start)) / 1000 + 1

unfoldable pub too_many : ℕ → Response
too_many seconds = record {
  status = 429;
  headers = [];
  error = some (codes "rate_limited");
  retry_after = some seconds;
}

unfoldable pub client_of : Request → Text
client_of req = elim req.peer [ none ↦ codes "unknown" | some c ↦ c ]

module _ {W : Type 0} where
  unfoldable pub handle_rate_limit :
      Handler W
      → List Rule
      → ℕ
      → Request
      → List (Key × Bucket)
      → W
      → Response × List (Key × Bucket) × W
  unfolding tightest key_dec bump collect retry_after too_many client_of
  handle_rate_limit handler rules now req buckets w =
      let run : List (Key × Bucket) → Response × List (Key × Bucket) × W =
        λ bs. let (r, w') = handler req w in (r, bs, w') in
      elim (tightest req rules none) [
        | none ↦ run buckets
        | some (c, win) ↦
            let key : Key = (client_of req, req.method, req.path) in
            let (passes, b) = bump c (win * 1000) now (Dict.get key_dec key buckets) in
            let buckets' = Dict.put key_dec key b buckets in
            if passes
            then run (collect now buckets')
            else (too_many (retry_after (win * 1000) now b), buckets', w)
      ]
