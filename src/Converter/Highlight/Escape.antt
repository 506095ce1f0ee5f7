-- ===== src/Converter/Highlight/Escape.antt =====
-- The five replacements of `highlightYaml` escape every unit once, and leave no unit of markup.
use p2ser.Base.{
  ℕ, ◌≡◌, ◌≢◌, refl, ap, ◌∙◌, sym, arith, [], ◌∷◌, ◌++◌, ◌==◌, if◌then◌else◌, All, All-append,
  append_assoc,
}
use mathlib.Core.Path.{ap₂}
use p2ser.Text.{Text, codes}
use p2ser.Converter.Highlight.{replace_unit, escape_html}

-- What stands for one unit.
unfoldable pub entity : ℕ → Text
entity c =
    if c == b'&'
    then codes "&amp;"
    else if c == b'<'
    then codes "&lt;"
    else if c == b'>'
    then codes "&gt;"
    else if c == b'"'
    then codes "&quot;"
    else if c == b'\''
    then codes "&#039;"
    else c ∷ []

unfoldable pub entities : Text → Text
entities [] = []
entities (c ∷ s) = entity c ++ entities s

replace_unit-append :
    (c : ℕ) (word s t : Text)
    → replace_unit c word (s ++ t) ≡ replace_unit c word s ++ replace_unit c word t
unfolding replace_unit
replace_unit-append c word [] t = refl
replace_unit-append c word (d ∷ s) t =
    ap (◌++◌ (if d == c then word else d ∷ [])) (replace_unit-append c word s t)
    ∙ sym (append_assoc (if d == c then word else d ∷ []) _ _)

-- one unit through the five replacements
escape_html_single : (c : ℕ) → escape_html (c ∷ []) ≡ entity c
unfolding escape_html replace_unit entity
escape_html_single c = ground arith

escape_html-append : (s t : Text) → escape_html (s ++ t) ≡ escape_html s ++ escape_html t
unfolding escape_html
escape_html-append s t = simp replace_unit-append

-- The five replacements in turn are one replacement of every unit by its entity.
pub escape_html-entities : (s : Text) → escape_html s ≡ entities s
unfolding entities
escape_html-entities [] = unfold escape_html replace_unit in refl
escape_html-entities (c ∷ s) =
    escape_html-append (c ∷ []) s ∙ ap₂ ◌++◌ (escape_html_single c) (escape_html-entities s)

-- No markup can begin or end here, nor an attribute.
abbrev pub IsPlain : ℕ → Type 0
IsPlain c = (c ≢ b'<') × (c ≢ b'>') × (c ≢ b'"') × (c ≢ b'\'')

entity-IsPlain : (c : ℕ) → All IsPlain (entity c)
unfolding entity
entity-IsPlain c = ground arith

entities-IsPlain : (s : Text) → All IsPlain (entities s)
unfolding entities
entities-IsPlain [] = tt
entities-IsPlain (c ∷ s) =
    All-append IsPlain (entity c) (entities s) (entity-IsPlain c) (entities-IsPlain s)

-- Escaped text holds neither `<` nor `>` nor a quote of either kind.
pub escape_html-IsPlain : (s : Text) → All IsPlain (escape_html s)
escape_html-IsPlain s = rw (escape_html-entities s) (entities-IsPlain s)
