-- ===== src/Text.antt =====
-- The strings of JavaScript, as lists of UTF-16 code units, and the methods of `String` that
-- ui/src/App.jsx calls: `==`, `split`, `trim`, `indexOf` with `slice`, `startsWith`, `endsWith`,
-- `includes`.
pub mod Equality
pub mod Trim
pub mod Split
use Prim.Native.Char.{code}
use p2ser.Base.{
  ℕ, suc, zero, ◌+◌, ◌-◌, ◌*◌, ◌/◌, ◌%◌, String, Bool, true, false, not, ◌&&◌, ◌||◌, List, [], ◌∷◌,
  ◌++◌, ◌==◌, leb, if◌then◌else◌, Option, none, some,
}

abbrev pub Text : Type 0
Text = List ℕ

-- A text as a condition: all but the empty one are true.
abbrev pub truthy_text : Text → Bool
truthy_text [] = false
truthy_text (c ∷ s) = true

-- The code units of a literal, whose characters all lie in the basic plane.
abbrev pub codes : String → Text
codes String.[] = []
codes (String.◌∷◌ c s) = code c ∷ codes s

-- `s === t`
unfoldable pub equal : Text → Text → Bool
equal [] [] = true
equal (x ∷ xs) (y ∷ ys) = x == y && equal xs ys
equal _ _ = false

abbrev pub within : ℕ → ℕ → ℕ → Bool
within lo hi c = leb lo c && leb c hi

-- What `trim` removes: the white space and the line terminators of the language.
unfoldable pub is_space : ℕ → Bool
is_space c =
    within 9 13 c
    || c == 32
    || c == 0xa0
    || c == 0x1680
    || within 0x2000 0x200a c
    || c == 0x2028
    || c == 0x2029
    || c == 0x202f
    || c == 0x205f
    || c == 0x3000
    || c == 0xfeff

-- `\w` of a regular expression.
unfoldable pub is_word : ℕ → Bool
is_word c = within b'a' b'z' c || within b'A' b'Z' c || within b'0' b'9' c || c == b'_'

unfoldable pub trim_start : Text → Text
trim_start [] = []
trim_start (c ∷ s) = let rest = trim_start s in if is_space c then rest else c ∷ s

unfoldable pub trim_cons : ℕ → Text → Text
trim_cons c [] = if is_space c then [] else c ∷ []
trim_cons c (d ∷ s) = c ∷ d ∷ s

unfoldable pub trim_end : Text → Text
trim_end [] = []
trim_end (c ∷ s) = trim_cons c (trim_end s)

-- `s.trim()`
unfoldable pub trim : Text → Text
trim s = trim_end (trim_start s)

-- `s.split(sep)` at a separator of one unit: the first part, and the parts behind it.
unfoldable pub split_parts : ℕ → Text → Text × List Text
split_parts sep [] = ([], [])
split_parts sep (c ∷ s) =
    let (part, parts) = split_parts sep s in
    if c == sep then ([], part ∷ parts) else (c ∷ part, parts)

abbrev pub split : ℕ → Text → List Text
split sep s = (split_parts sep s).0 ∷ (split_parts sep s).1

-- `parts.join(sep)`
unfoldable pub join : ℕ → List Text → Text
join sep [] = []
join sep (p ∷ []) = p
join sep (p ∷ q ∷ ps) = p ++ sep ∷ join sep (q ∷ ps)

-- `s.includes(c)` for one unit
unfoldable pub includes : ℕ → Text → Bool
includes c [] = false
includes c (d ∷ s) = d == c || includes c s

-- `s.startsWith(c)` and `s.endsWith(c)` for one unit
abbrev pub starts_with : ℕ → Text → Bool
starts_with c [] = false
starts_with c (d ∷ s) = d == c

unfoldable pub ends_with : ℕ → Text → Bool
ends_with c [] = false
ends_with c (d ∷ []) = d == c
ends_with c (d ∷ e ∷ s) = ends_with c (e ∷ s)

-- With `i = s.indexOf(c)`: `none` for -1, else `s.slice(0, i)` and `s.slice(i + 1)`.
unfoldable pub cut_cons : ℕ → Option (Text × Text) → Option (Text × Text)
cut_cons d none = none
cut_cons d (some (before, after)) = some (d ∷ before, after)

unfoldable pub cut_at : ℕ → Text → Option (Text × Text)
unfolding cut_cons
cut_at c [] = none
cut_at c (d ∷ s) = if d == c then some ([], s) else cut_cons d (cut_at c s)

-- `s.slice(0, -1)`
unfoldable pub drop_last : Text → Text
drop_last [] = []
drop_last (c ∷ []) = []
drop_last (c ∷ d ∷ s) = c ∷ drop_last (d ∷ s)
