-- ===== src/Converter/Highlight.antt =====
-- `highlightYaml`: HTML escapes first, and then three passes that wrap parts of a line in `span`.
pub mod Escape
pub mod Markup
pub mod Spans
pub mod Stripped
pub mod Lines
use p2ser.Base.{
  ℕ, Bool, true, false, not, ◌&&◌, ◌||◌, List, [], ◌∷◌, ◌++◌, ◌==◌, if◌then◌else◌, Option, none,
  some, String,
}
use p2ser.Text.{Text, codes, equal, is_word}

-- `text.replace(/c/g, "word")`
unfoldable pub replace_unit : ℕ → Text → Text → Text
replace_unit c word [] = []
replace_unit c word (d ∷ s) = (if d == c then word else d ∷ []) ++ replace_unit c word s

unfoldable pub escape_html : Text → Text
escape_html text =
    let amp = replace_unit b'&' (codes "&amp;") text in
    let lt = replace_unit b'<' (codes "&lt;") amp in
    let gt = replace_unit b'>' (codes "&gt;") lt in
    let quot = replace_unit b'"' (codes "&quot;") gt in replace_unit b'\'' (codes "&#039;") quot

-- Where `^` and `$` match under the flag `m`, and what `.` does not.
unfoldable pub is_terminator : ℕ → Bool
is_terminator c = c == b'\n' || c == b'\r' || c == 0x2028 || c == 0x2029

-- The first line, and the others behind their terminators.
unfoldable pub lines_of : Text → Text × List (ℕ × Text)
lines_of [] = ([], [])
lines_of (c ∷ s) =
    let (line, rest) = lines_of s in
    if is_terminator c then ([], (c, line) ∷ rest) else (c ∷ line, rest)

unfoldable pub rest_lines : (Text → Text) → List (ℕ × Text) → Text
rest_lines f [] = []
rest_lines f ((c, line) ∷ rest) = c ∷ f line ++ rest_lines f rest

-- A global replacement whose expression matches a whole line.
unfoldable pub on_lines : (Text → Text) → Text → Text
on_lines f s = f (lines_of s).0 ++ rest_lines f (lines_of s).1

abbrev pub open_span : Text → Text
open_span color = codes "<span style=\"color:" ++ color ++ codes "\">"

abbrev pub close_span : Text
close_span = codes "</span>"

abbrev pub span : Text → Text → Text
span color s = open_span color ++ s ++ close_span

-- /^(#.*)$/gm
unfoldable pub mark_comment : Text → Text
mark_comment [] = []
mark_comment (c ∷ line) = if c == b'#' then span (codes "#6b7280") (c ∷ line) else c ∷ line

unfoldable pub is_blank : ℕ → Bool
is_blank c = c == b' ' || c == b'\t'

-- `[\w-]`
unfoldable pub is_key_unit : ℕ → Bool
is_key_unit c = is_word c || c == b'-'

unfoldable pub span_while : (ℕ → Bool) → Text → Text × Text
span_while p [] = ([], [])
span_while p (c ∷ s) =
    let (run, rest) = span_while p s in if p c then (c ∷ run, rest) else ([], c ∷ s)

-- `(:.*)$` behind a key
unfoldable pub at_colon : Text → Bool
at_colon [] = false
at_colon (c ∷ s) = c == b':'

-- `[\w-]+` behind `x-`
unfoldable pub is_extension : Text → Bool
is_extension (c ∷ d ∷ e ∷ s) = c == b'x' && d == b'-'
is_extension _ = false

-- `\w` at the head of the run of `[\w-]`
unfoldable pub is_plain_key : Text → Bool
is_plain_key [] = false
is_plain_key (c ∷ s) = is_word c

-- /^([ \t]*)(x-[\w-]+)(:.*)$/gm on the parts of a line
unfoldable pub mark_extension_parts : Text → Text × Text → Text
mark_extension_parts blank (key, rest) =
    if is_extension key && at_colon rest
    then blank ++ span (codes "#f59e0b") key ++ span (codes "#a78bfa") rest
    else blank ++ key ++ rest

unfoldable pub mark_extension : Text → Text
unfolding mark_extension_parts
mark_extension line =
    mark_extension_parts (span_while is_blank line).0
      (span_while is_key_unit (span_while is_blank line).1)

unfoldable pub mem_text : Text → List Text → Bool
mem_text k [] = false
mem_text k (j ∷ js) = equal j k || mem_text k js

abbrev pub known_keys : List Text
known_keys =
    codes "services"
    ∷ codes "image"
    ∷ codes "ports"
    ∷ codes "volumes"
    ∷ codes "environment"
    ∷ codes "depends_on"
    ∷ codes "deploy"
    ∷ codes "command"
    ∷ codes "user"
    ∷ []

unfoldable pub key_color : Text → Text
key_color key = if mem_text key known_keys then codes "#60a5fa" else codes "#34d399"

-- /^([ \t]*)(\w[\w-]*)(:.*)$/gm on the parts of a line
unfoldable pub mark_key_parts : Text → Text × Text → Text
mark_key_parts blank (key, rest) =
    if is_plain_key key && at_colon rest
    then blank ++ span (key_color key) key ++ span (codes "#e5e7eb") rest
    else blank ++ key ++ rest

unfoldable pub mark_key : Text → Text
unfolding mark_key_parts
mark_key line =
    mark_key_parts (span_while is_blank line).0
      (span_while is_key_unit (span_while is_blank line).1)

unfoldable pub highlight : Text → Text
highlight text =
    on_lines mark_key (on_lines mark_extension (on_lines mark_comment (escape_html text)))
