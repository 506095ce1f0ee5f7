-- ===== src/Dict.antt =====
-- A plain object of JavaScript that serves as a map (the env map, the settings of the services,
-- the projects by name in ui/src/App.jsx): own properties in the order in which they were added.
pub mod Distinct
use p2ser.Base.{
  ◌≡◌, refl, arith, List, [], ◌∷◌, ◌++◌, Option, none, some, Bool, true, false, if◌then◌else◌,
  append_assoc, map,
}
use p2ser.Text.Equality.{equal_iff}
use p2ser.Text.{Text, equal}

abbrev pub Dict {ℓ} : Type ℓ → Type ℓ
Dict V = List (Text × V)

module _ {ℓ} {V : Type ℓ} where
  -- `d[k]`, an own property
  unfoldable pub get : Dict V → Text → Option V
  get [] k = none
  get ((j, v) ∷ d) k = if equal j k then some v else get d k

  -- `d[k] = v`
  unfoldable pub put : Dict V → Text → V → Dict V
  put [] k v = (k, v) ∷ []
  put ((j, w) ∷ d) k v = if equal j k then (j, v) ∷ d else (j, w) ∷ put d k v

  -- `Object.keys(d)`
  unfoldable pub keys : Dict V → List Text
  keys [] = []
  keys ((j, v) ∷ d) = j ∷ keys d

  pub get-put :
      (d : Dict V) (k j : Text) (v : V)
      → get (put d k v) j ≡ (if equal k j then some v else get d j)
  unfolding get put
  get-put [] k j v = refl
  get-put ((i, w) ∷ d) k j v =
      ground (arith, equal_iff k j, equal_iff i k, equal_iff i j, get-put d k j v)
