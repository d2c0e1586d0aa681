-- ===== src/Middleware/Http.antt =====
-- What the middlewares see of aiohttp: a request, a response, and the handler that they wrap. A
-- header has its name in lower case, since aiohttp compares names without case. `W` is the state
-- of everything outside.
use tinker_box.Base.{ℕ, Option, List, Text}

pub record Request : Type 0 where
  pub method : Text
  pub path : Text
  pub headers : List (Text × Text)
  -- the first part of `peername`, if the transport has one
  pub peer : Option Text

-- `error` is the code in a JSON body of the middlewares' own, and `retry_after` the number of
-- seconds in that body and in the header Retry-After.
pub record Response : Type 0 where
  pub status : ℕ
  pub headers : List (Text × Text)
  pub error : Option Text
  pub retry_after : Option ℕ

abbrev pub Handler : Type 0 → Type 0
Handler W = Request → W → Response × W
