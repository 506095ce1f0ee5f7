-- ===== src/Backend/Compose/Template.antt =====
-- `interpolate` of backend/internal/compose/compose_parser.go.
pub mod Same
use p2ser.Base.{ℕ, zero, suc, List, [], ◌∷◌, ◌++◌, ◌==◌, if◌then◌else◌, Option, none, some, length}
use p2ser.Converter.Interpolate.{take_name, after_colon}
use p2ser.Dict.{Dict, get}
use p2ser.Text.{Text, cut_at, truthy_text}

-- `(?:(?:-(?:)|:-)([^}]*))?\}` behind a name: the default and the rest.
unfoldable pub after_name : Text → Option (Text × Text)
unfolding after_colon
after_name [] = none
after_name (c ∷ s) =
    if c == b'-'
    then cut_at b'}' s
    else if c == b':'
    then after_colon s
    else if c == b'}'
    then some ([], s)
    else none

-- `matches[1]` or `matches[3]`, `matches[2]`, and the rest of the text.
unfoldable pub submatch : Text → Option (Text × Text) → Option (Text × Text × Text)
submatch name none = none
submatch name (some (fallback, rest)) = some (name, fallback, rest)

unfoldable pub braced : Option (Text × Text) → Option (Text × Text × Text)
unfolding submatch after_name
braced none = none
braced (some (name, s)) = submatch name (after_name s)

unfoldable pub bare : Option (Text × Text) → Option (Text × Text × Text)
bare none = none
bare (some (name, rest)) = some (name, [], rest)

-- `envRe` behind a `$`
unfoldable pub find_submatch : ℕ → Text → Option (Text × Text × Text)
unfolding braced bare
find_submatch c [] = none
find_submatch c (d ∷ s) =
    if c == b'$' then if d == b'{' then braced (take_name s) else bare (take_name (d ∷ s)) else none

unfoldable pub value_or : Option Text → Text → Text
value_or none fallback = fallback
value_or (some value) fallback = if truthy_text value then value else fallback

-- `ReplaceAllStringFunc`; each round takes one byte at least.
unfoldable pub replace_all : Dict Text → ℕ → Text → Text
unfolding value_or
replace_all env zero s = s
replace_all env (suc fuel) [] = []
replace_all env (suc fuel) (c ∷ s) = elim (find_submatch c s) [
  | none ↦ c ∷ replace_all env fuel s
  | some (name, fallback, rest) ↦ value_or (get env name) fallback ++ replace_all env fuel rest
]

unfoldable pub interpolate : Dict Text → Text → Text
unfolding replace_all
interpolate env s = replace_all env (length s) s
