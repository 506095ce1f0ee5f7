-- ===== src/Backend/EnvFile.antt =====
-- The .env file of a project: how `HandleDeployGit` of backend/internal/api/api.go writes it, and
-- how `ParseEnvFile` of backend/internal/builder/builder.go reads it. A text is here the list of its
-- characters.
pub mod Trim
pub mod Written
use p2ser.Base.{
  ℕ, Bool, true, false, not, ◌&&◌, ◌||◌, List, [], ◌∷◌, ◌++◌, ◌==◌, if◌then◌else◌, Option, none,
  some,
}
use p2ser.Dict.{Dict, put}
use p2ser.Text.{Text, is_word, starts_with, truthy_text, split, cut_at, within}

-- `unicode.IsSpace`
unfoldable pub is_white : ℕ → Bool
is_white c =
    within 9 13 c
    || c == 32
    || c == 0x85
    || c == 0xa0
    || c == 0x1680
    || within 0x2000 0x200a c
    || c == 0x2028
    || c == 0x2029
    || c == 0x202f
    || c == 0x205f
    || c == 0x3000

unfoldable pub trim_left : Text → Text
trim_left [] = []
trim_left (c ∷ s) = let rest = trim_left s in if is_white c then rest else c ∷ s

unfoldable pub right_cons : ℕ → Text → Text
right_cons c [] = if is_white c then [] else c ∷ []
right_cons c (d ∷ s) = c ∷ d ∷ s

unfoldable pub trim_right : Text → Text
trim_right [] = []
trim_right (c ∷ s) = right_cons c (trim_right s)

-- `strings.TrimSpace(s)`
unfoldable pub trim_space : Text → Text
trim_space s = trim_right (trim_left s)

-- `strings.SplitN(line, "=", 2)`, where it has two parts
unfoldable pub set_parts : Dict Text → Option (Text × Text) → Dict Text
unfolding trim_space
set_parts vars none = vars
set_parts vars (some (name, text)) = put vars (trim_space name) (trim_space text)

-- One line, whose white space is off
unfoldable pub parse_trimmed : Dict Text → Text → Dict Text
unfolding set_parts
parse_trimmed vars line =
    if not (truthy_text line) || starts_with b'#' line
    then vars
    else set_parts vars (cut_at b'=' line)

unfoldable pub parse_lines : Dict Text → List Text → Dict Text
unfolding parse_trimmed trim_space
parse_lines vars [] = vars
parse_lines vars (line ∷ lines) = parse_lines (parse_trimmed vars (trim_space line)) lines

-- `ParseEnvFile`, of a file that may be missing
unfoldable pub parse_env_file : Option Text → Dict Text
unfolding parse_lines
parse_env_file none = []
parse_env_file (some content) = parse_lines [] (split b'\n' content)

-- `[A-Z_a-z0-9]*`
unfoldable pub is_word_only : Text → Bool
is_word_only [] = true
is_word_only (c ∷ s) = is_word c && is_word_only s

-- `^[A-Z_a-z][A-Z_a-z0-9]*$`
unfoldable pub valid_key : Text → Bool
unfolding is_word_only
valid_key [] = false
valid_key (c ∷ s) = is_word c && not (within b'0' b'9' c) && is_word_only s

-- `sanitizeVal.Replace(v)`
unfoldable pub sanitize_val : Text → Text
sanitize_val [] = []
sanitize_val (c ∷ s) =
    let rest = sanitize_val s in if c == b'\n' || c == b'\r' then rest else c ∷ rest

-- The loop over `reqData.Env`, whose entries come in some order
unfoldable pub env_content : Dict Text → Text
unfolding valid_key sanitize_val
env_content [] = []
env_content ((k, v) ∷ env) =
    let rest = env_content env in
    if valid_key k then (k ++ b'=' ∷ sanitize_val v) ++ b'\n' ∷ rest else rest

-- The .env file of the clone: the one of the repository stays where the request has no variables.
unfoldable pub deployed_env_file : Option Text → Dict Text → Option Text
unfolding env_content
deployed_env_file cloned [] = cloned
deployed_env_file cloned (e ∷ env) = some (env_content (e ∷ env))
