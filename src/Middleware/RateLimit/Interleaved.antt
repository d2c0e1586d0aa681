-- ===== src/Middleware/RateLimit/Interleaved.antt =====
-- What `handle_rate_limit` lets through when the requests of many clients come in any order.
use tinker_box.Base.{
  ℕ, suc, ◌+◌, ◌-◌, ◌*◌, ◌≤◌, ◌<◌, ◌≡◌, ◌≢◌, refl, ap, ◌∙◌, Bool, true, false, Option, none, some,
  List, [], ◌∷◌, All, arith, ltb, leb, keep, length, ite, Bool-cases, Option-cases, inl, inr,
}
use tinker_box.Base.Dict
use tinker_box.Middleware.Http.{Request, Response, Handler}
use tinker_box.Middleware.RateLimit.{
  Rule, Bucket, Key, key_dec, gc_stale, gc_trigger, applies, tightest, bump, collect, client_of,
  handle_rate_limit,
}

abbrev pub key_of : Request → Key
key_of req = (client_of req, req.method, req.path)

-- A handler that counts the requests with a key.
abbrev pub counting : Key → Response → Handler ℕ
counting k r req w = (r, ite (key_dec (key_of req) k) (suc w) w)

-- The middleware over a sequence of requests, each at its time.
unfoldable pub serve : Handler ℕ → List Rule → List (ℕ × Request) → List (Key × Bucket) → ℕ → ℕ
unfolding handle_rate_limit
serve h rules [] buckets w = w
serve h rules ((t, req) ∷ l) buckets w =
    let (r, buckets', w') = handle_rate_limit h rules t req buckets w in serve h rules l buckets' w'

get-keep :
    (p : Key × Bucket → Bool) (k : Key) (b : Bucket) (d : List (Key × Bucket))
    → Dict.get key_dec k d ≡ some b
    → ((j : Key) → p (j, b) ≡ true)
    → Dict.get key_dec k (keep p d) ≡ some b
unfolding Dict.get keep
get-keep p k b [] e h = ground (arith, e)
get-keep p k b ((j, c) ∷ d) e h = elim (key_dec j k) [
  | yes same ↦ ground (arith, e, same, h j)
  | no ne ↦ ground (arith, e, ne, get-keep p k b d)
]

get-collect :
    (now : ℕ) (k : Key) (b : Bucket) (d : List (Key × Bucket))
    → Dict.get key_dec k d ≡ some b
    → now < b.window_start + gc_stale
    → Dict.get key_dec k (collect now d) ≡ some b
unfolding collect
get-collect now k b d e h = elim (Bool-cases (ltb gc_trigger (length d))) [
  | inl many ↦ rw many (get-keep _ k b d e (λ j. ground arith))
  | inr few ↦ rw few e
]

applies_congr :
    (q r : Request) (u : Rule) → q.method ≡ r.method → q.path ≡ r.path → applies q u ≡ applies r u
unfolding applies
applies_congr q r u e f = rw (e, f)

tightest_congr :
    (q r : Request) (rules : List Rule) (m : Option (ℕ × ℕ))
    → q.method ≡ r.method
    → q.path ≡ r.path
    → tightest q rules m ≡ tightest r rules m
unfolding tightest
tightest_congr q r [] m e f = refl
tightest_congr q r (u ∷ rules) m e f = rw (applies_congr q r u e f) (tightest_congr q r rules _ e f)

module _ (k : Key) (answer : Response) (rules : List Rule) (req : Request) (now : ℕ) where
  abbrev after : List (Key × Bucket) → ℕ → Response × List (Key × Bucket) × ℕ
  after buckets w = handle_rate_limit (counting k answer) rules now req buckets w

  -- A request with another key leaves the bucket and the count.
  other_key :
      (b : Bucket) (buckets : List (Key × Bucket)) (w : ℕ)
      → key_of req ≢ k
      → Dict.get key_dec k buckets ≡ some b
      → now < b.window_start + gc_stale
      → (Dict.get key_dec k (after buckets w).1 ≡ some b) × ((after buckets w).2 ≡ w)
  unfolding handle_rate_limit
  other_key b buckets w ne e h = elim (Option-cases (tightest req rules none)) [
    | inl free ↦ rw (free, handle_rate_limit) (e, ground (arith, ne))
    | inr ((c, win), limit) ↦
        let (passes, b') = bump c (win * 1000) now (Dict.get key_dec (key_of req) buckets) in
        let put = Dict.get-put_lem key_dec (key_of req) k b' buckets in
        let there : Dict.get key_dec k (Dict.put key_dec (key_of req) b' buckets) ≡ some b =
          ground (arith, put, ne, e) in
        rw (limit, handle_rate_limit)
          (elim (Bool-cases passes) [
            | inl go ↦ rw go (get-collect now k b _ there h, ground (arith, ne))
            | inr halt ↦ rw halt (there, refl)
          ])
  ]

  -- A request with the key is counted in its bucket, and reaches the handler only up to the cap.
  own_key :
      (c win : ℕ) (b : Bucket) (buckets : List (Key × Bucket)) (w : ℕ)
      → key_of req ≡ k
      → tightest req rules none ≡ some (c, win)
      → Dict.get key_dec k buckets ≡ some b
      → now - b.window_start < win * 1000
      → now < b.window_start + gc_stale
      → (Dict.get key_dec k (after buckets w).1 ≡ some (record b { count = b.count + 1 }))
        × ((after buckets w).2 + (c - (b.count + 1)) ≤ w + (c - b.count))
  unfolding handle_rate_limit bump
  own_key c win b buckets w same limit e inside recent =
      let b' : Bucket = record b { count = b.count + 1 } in
      let found : Dict.get key_dec (key_of req) buckets ≡ some b =
        ap (λ j. Dict.get key_dec j buckets) same ∙ e in
      let put = Dict.get-put_lem key_dec (key_of req) k b' buckets in
      let there : Dict.get key_dec k (Dict.put key_dec (key_of req) b' buckets) ≡ some b' =
        ground (arith, put, same) in
      let kept = get-collect now k b' _ there recent in
      let running : leb (win * 1000) (now - b.window_start) ≡ false = ground arith in
      rw (limit, handle_rate_limit, found, bump, running)
        (elim (Bool-cases (ltb c (b.count + 1))) [
          | inl halt ↦ rw halt (there, omega arith)
          | inr go ↦ rw go (kept, ground (arith, same, go))
        ])

-- While a window of a client, method and path lasts, and it is no longer than the age at which
-- buckets are collected, at most as many of its requests reach the handler as the cap leaves,
-- whatever requests of others come in between.
pub serve-le-cap :
    (req : Request) (answer : Response) (rules : List Rule) (c win : ℕ) (b : Bucket)
    (l : List (ℕ × Request)) (buckets : List (Key × Bucket)) (w : ℕ)
    → tightest req rules none ≡ some (c, win)
    → win * 1000 ≤ gc_stale
    → Dict.get key_dec (key_of req) buckets ≡ some b
    → All (λ e. e.0 - b.window_start < win * 1000) l
    → serve (counting (key_of req) answer) rules l buckets w ≤ w + (c - b.count)
unfolding serve
serve-le-cap req answer rules c win b [] buckets w limit age e h = omega arith
serve-le-cap req answer rules c win b ((t, q) ∷ l) buckets w limit age e (h, hs) =
    let k = key_of req in
    let (r, buckets', w') = handle_rate_limit (counting k answer) rules t q buckets w in
    elim (key_dec (key_of q) k) [
      | yes same ↦
          let limit' : tightest q rules none ≡ some (c, win) =
            tightest_congr q req rules none (ap (λ (x : Key). x.1) same)
              (ap (λ (x : Key). x.2) same)
            ∙ limit in
          let (e', less) =
            own_key k answer rules q t c win b buckets w same limit' e h (omega arith) in
          let b' : Bucket = record b { count = b.count + 1 } in
          omega (arith, serve-le-cap req answer rules c win b' l buckets' w' limit age e' hs, less)
      | no ne ↦
          let (e', same) = other_key k answer rules q t b buckets w ne e (omega arith) in
          omega (arith, serve-le-cap req answer rules c win b l buckets' w' limit age e' hs, same)
    ]
