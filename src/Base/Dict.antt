-- ===== src/Base/Dict.antt =====
-- Python's `dict`: entries in the order in which their keys first came.
use mathlib.Core.Path.{◌≡◌, refl}
use mathlib.Core.Logic.{ite}
use mathlib.Core.Option.{Option, none, some}
use mathlib.Core.List.{List, [], ◌∷◌}
use native.Mathlib.Omega.{arith}

module _ {ℓ} {K V : Type ℓ} (dec : Discrete K) where
  -- `d.get(k)`
  unfoldable pub get : K → List (K × V) → Option V
  get k [] = none
  get k ((j, v) ∷ d) = ite (dec j k) (some v) (get k d)

  -- `d[k] = v`: in place for a key that is there, else at the end
  unfoldable pub put : K → V → List (K × V) → List (K × V)
  put k v [] = (k, v) ∷ []
  put k v ((j, w) ∷ d) = let rest = put k v d in ite (dec j k) ((j, v) ∷ d) ((j, w) ∷ rest)

  -- `d.pop(k, None)`
  unfoldable pub pop : K → List (K × V) → List (K × V)
  pop k [] = []
  pop k ((j, w) ∷ d) = let rest = pop k d in ite (dec j k) rest ((j, w) ∷ rest)

  pub get-put_lem :
      (k j : K) (v : V) (d : List (K × V)) → get j (put k v d) ≡ ite (dec k j) (some v) (get j d)
  unfolding get put
  get-put_lem k j v [] = refl
  get-put_lem k j v ((i, w) ∷ d) = ground (arith, get-put_lem k j v d)

  pub get-pop_lem : (k j : K) (d : List (K × V)) → get j (pop k d) ≡ ite (dec k j) none (get j d)
  unfolding get pop
  get-pop_lem k j [] = ground arith
  get-pop_lem k j ((i, w) ∷ d) = ground (arith, get-pop_lem k j d)
