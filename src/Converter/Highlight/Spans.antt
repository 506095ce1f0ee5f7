-- ===== src/Converter/Highlight/Spans.antt =====
-- The tags of a text of HTML are spans in a color, each of which is closed.
use p2ser.Base.{
  ◌≡◌, ◌≢◌, ℕ, zero, suc, refl, sym, ap, ◌∙◌, arith, Bool, true, false, ◌&&◌, ◌||◌, [], ◌∷◌, ◌++◌,
  ◌==◌, leb, if◌then◌else◌, Option, none, some, append_assoc, append-nil, Bool-cases, inl, inr,
}
use p2ser.Text.{Text, codes}
use p2ser.Converter.Highlight.{open_span, close_span, span}
use p2ser.Converter.Highlight.Markup.{
  in_tag, in_tag-append, IsClosed, Without, Without-IsClosed, IsClosed-append, span-IsClosed,
}

abbrev pub is_hex : ℕ → Bool
is_hex c = (leb b'0' c && leb c b'9') || (leb b'a' c && leb c b'f')

-- What is behind a word
abbrev pub behind_word : Text → Text → Option Text
behind_word [] s = some s
behind_word (c ∷ word) [] = none
behind_word (c ∷ word) (d ∷ s) = if d == c then behind_word word s else none

-- What is behind some hexadecimal digits
abbrev pub behind_hex : ℕ → Text → Option Text
behind_hex zero s = some s
behind_hex (suc n) [] = none
behind_hex (suc n) (c ∷ s) = if is_hex c then behind_hex n s else none

-- The text goes on behind `<` with a tag that opens a span in a color, or one that closes it.
abbrev pub is_open : Text → Bool
is_open s = elim (behind_word (codes "span style=\"color:#") s) [
  | none ↦ false
  | some t ↦ elim (behind_hex 6 t) [
    | none ↦ false
    | some u ↦ elim (behind_word (codes "\">") u) [ none ↦ false | some v ↦ true ]
  ]
]

abbrev pub is_close : Text → Bool
is_close s = elim (behind_word (codes "/span>") s) [ none ↦ false | some t ↦ true ]

-- A span is closed: there are six units behind `<`.
abbrev pub closed : ℕ → Option (ℕ × ℕ)
closed zero = none
closed (suc depth) = some (6, depth)

-- How many units to pass behind this one, and how many spans are open there; nothing, if there is a
-- tag that is neither.
abbrev pub at_unit : ℕ → ℕ → Text → Option (ℕ × ℕ)
at_unit depth c s =
    if c == b'<'
    then if is_open s then some (27, suc depth) else (if is_close s then closed depth else none)
    else some (0, depth)

-- Every tag opens a span in a color or closes one that is open, and none is open in the end.
unfoldable pub is_nested : ℕ → ℕ → Text → Bool
is_nested zero zero [] = true
is_nested zero (suc depth) [] = false
is_nested (suc pass) depth [] = false
is_nested (suc pass) depth (c ∷ s) = is_nested pass depth s
is_nested zero depth (c ∷ s) = elim (at_unit depth c s) [
  | none ↦ false
  | some (pass, now) ↦ is_nested pass now s
]

-- Nothing but plain units and spans that are all closed, whatever is before and behind
abbrev pub IsSpans : Text → Type 0
IsSpans s = (depth : ℕ) (t : Text) → is_nested 0 depth (s ++ t) ≡ is_nested 0 depth t

-- The tag opens a span.
abbrev pub IsOpening : Text → Type 0
IsOpening tag = (depth : ℕ) (t : Text) → is_nested 0 depth (tag ++ t) ≡ is_nested 0 (suc depth) t

abbrev pub IsWhole : Text → Type 0
IsWhole s = IsClosed s × IsSpans s

at_unit-plain : (depth c : ℕ) (s : Text) → c ≢ b'<' → at_unit depth c s ≡ some (0, depth)
at_unit-plain depth c s n = elim (Bool-cases (c == b'<')) [
  | inl e ↦ absurd (n (ground (arith, e)))
  | inr e ↦ rw e refl
]

is_nested-plain :
    (c : ℕ) (s : Text) (depth : ℕ) → c ≢ b'<' → is_nested 0 depth (c ∷ s) ≡ is_nested 0 depth s
unfolding is_nested
is_nested-plain c s depth n =
    ap (λ (o : Option (ℕ × ℕ)). elim o [ none ↦ false | some (pass, now) ↦ is_nested pass now s ])
      (at_unit-plain depth c s n)

pub Without-IsSpans : (s : Text) → Without b'<' s → IsSpans s
Without-IsSpans [] h depth t = refl
Without-IsSpans (c ∷ s) (n, h) depth t =
    is_nested-plain c (s ++ t) depth n ∙ Without-IsSpans s h depth t

pub Without-IsWhole : (s : Text) → Without b'<' s → IsWhole s
Without-IsWhole s h = (Without-IsClosed s h, Without-IsSpans s h)

pub IsSpans-append : (s t : Text) → IsSpans s → IsSpans t → IsSpans (s ++ t)
IsSpans-append s t h g depth u =
    ap (is_nested 0 depth) (append_assoc s t u) ∙ h depth (t ++ u) ∙ g depth u

pub IsWhole-append : (s t : Text) → IsWhole s → IsWhole t → IsWhole (s ++ t)
IsWhole-append s t (a, h) (b, g) = (IsClosed-append s t a b, IsSpans-append s t h g)

closing : (depth : ℕ) (t : Text) → is_nested 0 (suc depth) (close_span ++ t) ≡ is_nested 0 depth t
unfolding is_nested
closing depth t = refl

pub span-IsWhole :
    (color : Text)
    → Without b'>' color
    → IsOpening (open_span color)
    → (s : Text) → IsWhole s
    → IsWhole (span color s)
span-IsWhole color plain opening s (a, h) = (
  span-IsClosed color plain s a,
  λ depth t.
      ap (is_nested 0 depth) (
        append_assoc (open_span color ++ s) close_span t
        ∙ append_assoc (open_span color) s (close_span ++ t))
      ∙ opening depth (s ++ (close_span ++ t))
      ∙ h (suc depth) (close_span ++ t)
      ∙ closing depth t,
)

-- What is behind a whole text in a whole text
pub IsWhole-behind : (s t : Text) → IsWhole s → IsWhole (s ++ t) → IsWhole t
IsWhole-behind s t (a, h) (b, g) = (
  sym (ap (λ b. in_tag b t) a) ∙ sym (in_tag-append false s t) ∙ b,
  λ depth u. sym (h depth (t ++ u)) ∙ sym (ap (is_nested 0 depth) (append_assoc s t u)) ∙ g depth u,
)

pub IsWhole-is_nested : (s : Text) → IsWhole s → is_nested 0 0 s ≡ true
IsWhole-is_nested s (a, h) =
    ap (is_nested 0 0) (sym (append-nil s)) ∙ h 0 [] ∙ (unfold is_nested in refl)
