-- ===== src/Surfaces/Outcome.antt =====
-- What awaiting a callable of the connection comes to. `W` is the state of everything outside:
-- the sockets, and the frames that they have carried.

-- The exceptions that the code tells apart. `cancelled` is no `Exception` of Python: only an
-- `except` clause that names it catches it.
pub data Exn : Type 0 where
  cancelled connection_error other : Exn

pub data Outcome : Type 0 where
  done : Outcome
  raised : Exn → Outcome

abbrev pub Emit : Type 0 → Type 0
Emit W = W → Outcome × W

-- `try: await f()` / `except Exception: log`
unfoldable pub swallow : {W : Type 0} → Emit W → Emit W
swallow f w =
    let (r, w') = f w in
    elim r [ done ↦ (done, w') | raised cancelled ↦ (raised cancelled, w') | raised e ↦ (done, w') ]
