-- ===== src/Converter/Interpolate.antt =====
-- `interpolate`: `${VAR}`, `${VAR-default}`, `${VAR:-default}` and `$VAR` in a text.
-- The regular expression
--   \$\{([a-zA-Z_]\w*)(?::?-([^}]*))?\}|\$([a-zA-Z_]\w*)
-- has at most one match at a place, so the matcher takes the longest name and does not go back.
pub mod Fuel
pub mod Template
pub mod Encoded
pub mod Transcoded
use p2ser.Base.{
  ℕ, zero, suc, Bool, true, false, ◌&&◌, ◌||◌, List, [], ◌∷◌, ◌++◌, ◌==◌, if◌then◌else◌, Option,
  none, some, length,
}
use p2ser.Dict.{Dict, get}
use p2ser.Text.{Text, within, is_word, cut_at, truthy_text}

-- `[a-zA-Z_]`
unfoldable pub is_name_start : ℕ → Bool
is_name_start c = within b'a' b'z' c || within b'A' b'Z' c || c == b'_'

-- `\w*`: the longest run of word units, and what follows it.
unfoldable pub span_word : Text → Text × Text
span_word [] = ([], [])
span_word (c ∷ s) =
    let (word, rest) = span_word s in if is_word c then (c ∷ word, rest) else ([], c ∷ s)

-- `([a-zA-Z_]\w*)`
unfoldable pub take_name : Text → Option (Text × Text)
take_name [] = none
take_name (c ∷ s) = if is_name_start c then some (c ∷ (span_word s).0, (span_word s).1) else none

-- `-([^}]*)\}` behind a colon
unfoldable pub after_colon : Text → Option (Text × Text)
after_colon [] = none
after_colon (c ∷ s) = if c == b'-' then cut_at b'}' s else none

-- `(?::?-([^}]*))?\}`: the default, empty if there is none, and the rest.
unfoldable pub after_name : Text → Option (Text × Text)
unfolding after_colon
after_name [] = none
after_name (c ∷ s) =
    if c == b'}'
    then some ([], s)
    else if c == b'-'
    then cut_at b'}' s
    else if c == b':'
    then after_colon s
    else none

-- A match, without its `$`: name, default and the rest of the text.
abbrev pub Reference : Type 0
Reference = Text × Text × Text

unfoldable pub with_default : Text → Option (Text × Text) → Option Reference
with_default name none = none
with_default name (some (fallback, rest)) = some (name, fallback, rest)

unfoldable pub braced : Option (Text × Text) → Option Reference
unfolding with_default
braced none = none
braced (some (name, s)) = with_default name (after_name s)

unfoldable pub bare : Option (Text × Text) → Option Reference
bare none = none
bare (some (name, rest)) = some (name, [], rest)

unfoldable pub reference : Text → Option Reference
unfolding braced bare
reference [] = none
reference (c ∷ s) = if c == b'{' then braced (take_name s) else bare (take_name (c ∷ s))

-- the expression at one place of the text
unfoldable pub match_at : ℕ → Text → Option Reference
match_at c s = if c == b'$' then reference s else none

module _ (inherited : Text → Option Text) (env : Dict Text) where
  -- `envMap[name]` as a text: an own property, or an inherited one; `undefined` is empty here,
  -- for both are false as conditions.
  unfoldable pub env_value : Text → Text
  env_value name = elim (get env name) [
    | some v ↦ v
    | none ↦ elim (inherited name) [ some v ↦ v | none ↦ [] ]
  ]

  -- `(envMap && envMap[name]) || def || ''`
  unfoldable pub value_of : Text → Text → Text
  value_of name fallback = if truthy_text (env_value name) then env_value name else fallback

  -- The global replacement; each round takes one unit at least.
  unfoldable pub replace : ℕ → Text → Text
  replace zero s = s
  replace (suc fuel) [] = []
  replace (suc fuel) (c ∷ s) = elim (match_at c s) [
    | none ↦ c ∷ replace fuel s
    | some (name, fallback, rest) ↦ value_of name fallback ++ replace fuel rest
  ]

  -- On a text; `interpolate` returns any other value as it is.
  unfoldable pub interpolate : Text → Text
  unfolding replace
  interpolate s = replace (length s) s
