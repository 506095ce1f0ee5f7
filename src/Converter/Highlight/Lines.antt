-- ===== src/Converter/Highlight/Lines.antt =====
-- The text behind the colors of `highlightYaml` is the escaped text.
use p2ser.Base.{
  ◌≡◌, ◌≢◌, ℕ, refl, sym, ap, ◌∙◌, arith, true, false, List, [], ◌∷◌, ◌++◌, All, All-mono,
  Bool-cases, inl, inr,
}
use p2ser.Text.{Text}
use p2ser.Converter.Highlight.{
  mark_comment, mark_extension, mark_key, is_terminator, lines_of, rest_lines, on_lines, highlight,
  escape_html,
}
use p2ser.Converter.Highlight.Escape.{IsPlain, escape_html-IsPlain}
use p2ser.Converter.Highlight.Markup.{
  strip_tags, next, Without, Without-strip_tags, strip_tags-IsClosed,
}
use p2ser.Converter.Highlight.Spans.{
  is_nested, IsWhole, Without-IsWhole, IsWhole-append, IsWhole-is_nested,
}
use p2ser.Converter.Highlight.Stripped.{
  IsLine, Marks, mark_comment-Marks, mark_extension-Marks, mark_key-Marks,
}

abbrev Ended : Type 0
Ended = ℕ × Text

abbrev same : Text → Text
same s = s

-- The unit ends a line, and the text behind it is a line with the property.
abbrev IsEnd : (Text → Type 0) → Ended → Type 0
IsEnd P (c, s) = (is_terminator c ≡ true) × IsLine s × P s

lines_of-join : (s : Text) → (lines_of s).0 ++ rest_lines same (lines_of s).1 ≡ s
unfolding lines_of rest_lines
lines_of-join [] = refl
lines_of-join (c ∷ s) = elim (Bool-cases (is_terminator c)) [
  | inl e ↦ rw e (ap (◌∷◌ c) (lines_of-join s))
  | inr e ↦ rw e (ap (◌∷◌ c) (lines_of-join s))
]

-- The lines of a text whose units have a property
lines_of-All :
    (Q : ℕ → Type 0) (s : Text)
    → All Q s
    → (IsLine (lines_of s).0 × All Q (lines_of s).0) × All (IsEnd (All Q)) (lines_of s).1
unfolding lines_of
lines_of-All Q [] h = ((tt, tt), tt)
lines_of-All Q (c ∷ s) (q, h) =
    let ((flat, first), others) = lines_of-All Q s h in
    elim (Bool-cases (is_terminator c)) [
      | inl e ↦ rw e ((tt, tt), ((e, flat, first), others))
      | inr e ↦ rw e (((e, flat), (q, first)), others)
    ]

abbrev mapped : (Text → Text) → List Ended → List Ended
mapped f [] = []
mapped f ((c, s) ∷ rest) = (c, f s) ∷ mapped f rest

rest_lines-mapped :
    (f g : Text → Text) (rest : List Ended)
    → rest_lines g (mapped f rest) ≡ rest_lines (λ s. g (f s)) rest
unfolding rest_lines
rest_lines-mapped f g [] = refl
rest_lines-mapped f g ((c, s) ∷ rest) = ap (λ t. c ∷ g (f s) ++ t) (rest_lines-mapped f g rest)

grown :
    (l tail : Text) (rest : List Ended)
    → lines_of tail ≡ ([], rest)
    → IsLine l
    → lines_of (l ++ tail) ≡ (l, rest)
unfolding lines_of
grown [] tail rest e h = e
grown (c ∷ l) tail rest e (n, h) = rw (grown l tail rest e h, n) refl

lines_of-rest_lines :
    (rest : List Ended)
    → All (IsEnd (λ s. Unit)) rest
    → lines_of (rest_lines same rest) ≡ ([], rest)
unfolding lines_of rest_lines
lines_of-rest_lines [] h = refl
lines_of-rest_lines ((c, s) ∷ rest) ((e, flat, _), h) =
    rw (grown s (rest_lines same rest) rest (lines_of-rest_lines rest h) flat, e) refl

mapped-All :
    (P : Text → Type 0) (f : Text → Text) (rest : List Ended)
    → ((s : Text) → P s → IsLine s → IsLine (f s))
    → All (IsEnd P) rest
    → All (IsEnd (λ s. Unit)) (mapped f rest)
mapped-All P f [] flat h = tt
mapped-All P f ((c, s) ∷ rest) flat ((e, l, p), h) =
    ((e, flat s p l, tt), mapped-All P f rest flat h)

-- One pass over the lines behind another is one pass.
on_lines-on_lines :
    (P : Text → Type 0) (f g : Text → Text) (s : Text)
    → ((t : Text) → P t → IsLine t → IsLine (f t))
    → P (lines_of s).0
    → IsLine (lines_of s).0
    → All (IsEnd P) (lines_of s).1
    → on_lines g (on_lines f s) ≡ on_lines (λ t. g (f t)) s
unfolding on_lines
on_lines-on_lines P f g s flat p l h =
    let shape : lines_of (f (lines_of s).0 ++ rest_lines f (lines_of s).1)
        ≡ (f (lines_of s).0, mapped f (lines_of s).1) =
      ap (λ t. lines_of (f (lines_of s).0 ++ t)) (sym (rest_lines-mapped f same (lines_of s).1))
      ∙ grown (f (lines_of s).0) (rest_lines same (mapped f (lines_of s).1))
          (mapped f (lines_of s).1)
          (lines_of-rest_lines (mapped f (lines_of s).1) (mapped-All P f (lines_of s).1 flat h))
          (flat (lines_of s).0 p l) in
    ap (λ (ls : Text × List Ended). g ls.0 ++ rest_lines g ls.1) shape
    ∙ ap (λ t. g (f (lines_of s).0) ++ t) (rest_lines-mapped f g (lines_of s).1)

-- What the passes do to a line
unfoldable marked : Text → Text
marked s = mark_key (mark_extension (mark_comment s))

Marks-Marks : (s t u : Text) → Marks s t → Marks t u → Marks s u
Marks-Marks s t u (_, e) (w, f) = (w, f ∙ e)

two-Marks : (s : Text) → Without b'<' s → IsLine s → Marks s (mark_extension (mark_comment s))
two-Marks s p l =
    let first = mark_comment-Marks s (Without-IsWhole s p) l in
    Marks-Marks s (mark_comment s) (mark_extension (mark_comment s)) first
      (mark_extension-Marks (mark_comment s) first.0.0 first.0.1)

marked-Marks : (s : Text) → Without b'<' s → IsLine s → Marks s (marked s)
unfolding marked
marked-Marks s p l =
    let first = two-Marks s p l in
    let t = mark_extension (mark_comment s) in
    Marks-Marks s t (mark_key t) first (mark_key-Marks t first.0.0 first.0.1)

strip_tags-cons : (c : ℕ) (s : Text) → c ≢ b'<' → strip_tags false (c ∷ s) ≡ c ∷ strip_tags false s
unfolding strip_tags next
strip_tags-cons c s n = ground (arith, n)

end_plain : (c : ℕ) → is_terminator c ≡ true → c ≢ b'<'
unfolding is_terminator
end_plain c h = ground (arith, h)

strip_line :
    (s t : Text)
    → Without b'<' s
    → IsLine s
    → strip_tags false (marked s ++ t) ≡ s ++ strip_tags false t
strip_line s t p l =
    let ((w, _), e) = marked-Marks s p l in
    strip_tags-IsClosed (marked s) t w.0
    ∙ ap (λ x. x ++ strip_tags false t) (e ∙ Without-strip_tags s p)

strip_lines :
    (rest : List Ended)
    → All (IsEnd (Without b'<')) rest
    → strip_tags false (rest_lines marked rest) ≡ rest_lines same rest
unfolding rest_lines
strip_lines [] h = unfold strip_tags in refl
strip_lines ((c, s) ∷ rest) ((e, l, p), h) =
    strip_tags-cons c (marked s ++ rest_lines marked rest) (end_plain c e)
    ∙ ap (◌∷◌ c) (strip_line s (rest_lines marked rest) p l ∙ ap (λ t. s ++ t) (strip_lines rest h))

highlight-marked : (text : Text) → highlight text ≡ on_lines marked (escape_html text)
unfolding highlight marked
highlight-marked text =
    let e = escape_html text in
    let plain = All-mono IsPlain (λ c. c ≢ b'<') e (λ c h. h.0) (escape_html-IsPlain text) in
    let ((flat, first), others) = lines_of-All (λ c. c ≢ b'<') e plain in
    ap (on_lines mark_key) (
      on_lines-on_lines (Without b'<') mark_comment mark_extension e
        (λ t p l. (mark_comment-Marks t (Without-IsWhole t p) l).0.1) first flat others)
    ∙ on_lines-on_lines (Without b'<') (λ t. mark_extension (mark_comment t)) mark_key e
        (λ t p l. (two-Marks t p l).0.1) first flat others

rest_lines-IsWhole :
    (rest : List Ended) → All (IsEnd (Without b'<')) rest → IsWhole (rest_lines marked rest)
unfolding rest_lines
rest_lines-IsWhole [] h = Without-IsWhole [] tt
rest_lines-IsWhole ((c, s) ∷ rest) ((e, l, p), h) =
    IsWhole-append (c ∷ []) (marked s ++ rest_lines marked rest)
      (Without-IsWhole (c ∷ []) (end_plain c e, tt))
      (IsWhole-append (marked s) (rest_lines marked rest) (marked-Marks s p l).0.0
        (rest_lines-IsWhole rest h))

-- Taking the tags away from what the highlighter makes of a text gives the escaped text back, and
-- the tags are spans: each of them opens one in a color of six digits or closes one that is open,
-- and in the end none is open.
pub strip_tags-highlight :
    (text : Text)
    → (strip_tags false (highlight text) ≡ escape_html text)
      × (is_nested 0 0 (highlight text) ≡ true)
unfolding on_lines
strip_tags-highlight text =
    let e = escape_html text in
    let plain = All-mono IsPlain (λ c. c ≢ b'<') e (λ c h. h.0) (escape_html-IsPlain text) in
    let ((flat, first), others) = lines_of-All (λ c. c ≢ b'<') e plain in
    (
      ap (strip_tags false) (highlight-marked text)
          ∙ strip_line (lines_of e).0 (rest_lines marked (lines_of e).1) first flat
          ∙ ap (λ t. (lines_of e).0 ++ t) (strip_lines (lines_of e).1 others)
          ∙ lines_of-join e,
      ap (is_nested 0 0) (highlight-marked text)
          ∙ IsWhole-is_nested (on_lines marked e) (
              IsWhole-append (marked (lines_of e).0) (rest_lines marked (lines_of e).1)
                (marked-Marks (lines_of e).0 first flat).0.0
                (rest_lines-IsWhole (lines_of e).1 others)),
    )
