-- ===== src/Middleware/SecurityHeaders.antt =====
-- dragon_voice/middleware/security_headers.py: the headers that every response gets. A response
-- without a mapping of headers, which the source passes on as it is, is not modelled.
use tinker_box.Base.{
  ◌≡◌, refl, Option, none, some, List, [], ◌∷◌, arith, Option-cases, inl, inr, Text, codes,
  text_dec,
}
use tinker_box.Base.Dict
use tinker_box.Middleware.Http.{Request, Handler}

-- SECURITY_HEADERS
abbrev pub security_headers : List (Text × Text)
security_headers =
    (codes "x-content-type-options", codes "nosniff")
    ∷ (codes "x-frame-options", codes "DENY")
    ∷ (codes "referrer-policy", codes "no-referrer")
    ∷ (
      codes "content-security-policy",
      codes
          "default-src 'self'; style-src 'self' 'unsafe-inline' https://fonts.googleapis.com; font-src 'self' https://fonts.gstatic.com; img-src 'self' data:; connect-src 'self'; frame-ancestors 'none'; base-uri 'self'",
    )
    ∷ []

-- `if k not in headers: headers[k] = v`, for each of the entries
unfoldable pub stamp : List (Text × Text) → List (Text × Text) → List (Text × Text)
unfolding text_dec
stamp [] headers = headers
stamp ((k, v) ∷ l) headers =
    stamp l (elim (Dict.get text_dec k headers) [
      | some _ ↦ headers
      | none ↦ Dict.put text_dec k v headers
    ])

unfoldable pub handle_security_headers : {W : Type 0} → Handler W → Handler W
unfolding stamp
handle_security_headers handler req w =
    let (r, w') = handler req w in (record r { headers = stamp security_headers r.headers }, w')

abbrev pub or_else : Option Text → Option Text → Option Text
or_else none o = o
or_else (some v) o = some v

get-stamp :
    (l headers : List (Text × Text)) (k : Text)
    → Dict.get text_dec k (stamp l headers)
      ≡ or_else (Dict.get text_dec k headers) (Dict.get text_dec k l)
unfolding stamp Dict.get
get-stamp [] headers k = ground arith
get-stamp ((j, v) ∷ l) headers k = elim (Option-cases (Dict.get text_dec j headers)) [
  | inl absent ↦ ground (
    arith,
    absent,
    get-stamp l (Dict.put text_dec j v headers) k,
    Dict.get-put_lem text_dec j k v headers,
  )
  | inr (u, there) ↦ elim (text_dec j k) [
    | yes e ↦ ground (arith, there, e, get-stamp l headers k)
    | no ne ↦ ground (arith, there, ne, get-stamp l headers k)
  ]
]

-- The response has every header of the handler's, as the handler set it, and of the security
-- headers those that the handler did not set; nothing else in the answer changes.
pub handle_security_headers_lem :
    {W : Type 0} (handler : Handler W) (req : Request) (w : W) (k : Text)
    → (Dict.get text_dec k (handle_security_headers handler req w).0.headers
        ≡ or_else
            (Dict.get text_dec k (handler req w).0.headers)
            (Dict.get text_dec k security_headers))
      × ((handle_security_headers handler req w).0.status ≡ (handler req w).0.status)
      × ((handle_security_headers handler req w).1 ≡ (handler req w).1)
unfolding handle_security_headers
handle_security_headers_lem handler req w k =
    (get-stamp security_headers (handler req w).0.headers k, refl, refl)
