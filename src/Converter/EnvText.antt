-- ===== src/Converter/EnvText.antt =====
-- `parseEnvText`, the reader of `.env` files of the converter, and the reader that the git form of
-- the project dialog has in its place.
pub mod Lines
pub mod Git
pub mod Keys
use p2ser.Base.{
  ℕ, Bool, true, false, ◌&&◌, ◌||◌, List, [], ◌∷◌, ◌++◌, ◌==◌, if◌then◌else◌, Option, none, some,
}
use p2ser.Dict.{Dict, put}
use p2ser.Text.{
  Text, trim, split, split_parts, join, starts_with, ends_with, cut_at, drop_last, truthy_text,
}

-- `val.slice(1, -1)`
unfoldable pub inner : Text → Text
inner [] = []
inner (c ∷ s) = drop_last s

abbrev pub quoted_by : ℕ → Text → Bool
quoted_by q s = starts_with q s && ends_with q s

-- a pair of equal quotes round the value is taken off
unfoldable pub unquote : Text → Text
unquote v = if quoted_by b'"' v || quoted_by b'\'' v then inner v else v

-- `idx < 1` holds where there is no `=`, or where it is the first unit.
unfoldable pub assign : Dict Text → Option (Text × Text) → Dict Text
assign vars none = vars
assign vars (some ([], after)) = vars
assign vars (some (c ∷ before, after)) = put vars (trim (c ∷ before)) (unquote (trim after))

-- the body of the loop, on the trimmed line
unfoldable pub read_trimmed : Dict Text → Text → Dict Text
unfolding assign
read_trimmed vars [] = vars
read_trimmed vars (c ∷ line) = if c == b'#' then vars else assign vars (cut_at b'=' (c ∷ line))

unfoldable pub read_line : Dict Text → Text → Dict Text
unfolding read_trimmed
read_line vars line = read_trimmed vars (trim line)

unfoldable pub read_lines : Dict Text → List Text → Dict Text
read_lines vars [] = vars
read_lines vars (line ∷ lines) = read_lines (read_line vars line) lines

unfoldable pub parse_env : Text → Dict Text
parse_env text = read_lines [] (split b'\n' text)

-- The git form: `const [k, ...vParts] = line.split('=')`, used if `k && vParts.length > 0`.
unfoldable pub git_read_parts : Dict Text → Text → List Text → Dict Text
git_read_parts vars k [] = vars
git_read_parts vars k (v ∷ vs) =
    if truthy_text k then put vars (trim k) (trim (join b'=' (v ∷ vs))) else vars

unfoldable pub git_read_line : Dict Text → Text → Dict Text
unfolding git_read_parts
git_read_line vars line = git_read_parts vars (split_parts b'=' line).0 (split_parts b'=' line).1

unfoldable pub git_read_lines : Dict Text → List Text → Dict Text
git_read_lines vars [] = vars
git_read_lines vars (line ∷ lines) = git_read_lines (git_read_line vars line) lines

unfoldable pub git_env : Text → Dict Text
git_env text = if truthy_text text then git_read_lines [] (split b'\n' text) else []
