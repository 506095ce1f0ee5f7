-- ===== src/Converter/Highlight/Markup.antt =====
-- What is left of a text of HTML when its tags are taken away.
use p2ser.Base.{
  ◌≡◌, ◌≢◌, ℕ, refl, ap, ◌∙◌, arith, Bool, true, false, not, ◌||◌, [], ◌∷◌, ◌++◌, ◌==◌,
  if◌then◌else◌, All, append-nil, Bool-cases, inl, inr,
}
use p2ser.Text.{Text, codes}
use p2ser.Converter.Highlight.{open_span, close_span, span}

-- Whether a tag is open behind a unit.
unfoldable pub next : Bool → ℕ → Bool
next true c = not (c == b'>')
next false c = c == b'<'

unfoldable pub in_tag : Bool → Text → Bool
unfolding next
in_tag b [] = b
in_tag b (c ∷ s) = in_tag (next b c) s

-- The units outside of tags
unfoldable pub strip_tags : Bool → Text → Text
unfolding next
strip_tags b [] = []
strip_tags b (c ∷ s) =
    let rest = strip_tags (next b c) s in if b || c == b'<' then rest else c ∷ rest

pub in_tag-append : (b : Bool) (s t : Text) → in_tag b (s ++ t) ≡ in_tag (in_tag b s) t
unfolding in_tag
in_tag-append b [] t = refl
in_tag-append b (c ∷ s) t = in_tag-append (next b c) s t

pub strip_tags-append :
    (b : Bool) (s t : Text) → strip_tags b (s ++ t) ≡ strip_tags b s ++ strip_tags (in_tag b s) t
unfolding strip_tags in_tag
strip_tags-append b [] t = refl
strip_tags-append b (c ∷ s) t = elim (Bool-cases (b || c == b'<')) [
  | inl e ↦ rw e (strip_tags-append (next b c) s t)
  | inr e ↦ rw e (ap (◌∷◌ c) (strip_tags-append (next b c) s t))
]

-- A text whose tags all end
abbrev pub IsClosed : Text → Type 0
IsClosed s = in_tag false s ≡ false

abbrev pub Without : ℕ → Text → Type 0
Without d = All (λ c. c ≢ d)

pub Without-IsClosed : (s : Text) → Without b'<' s → IsClosed s
unfolding in_tag next
Without-IsClosed [] h = refl
Without-IsClosed (c ∷ s) (n, h) = ground (arith, n, Without-IsClosed s h)

pub Without-strip_tags : (s : Text) → Without b'<' s → strip_tags false s ≡ s
unfolding strip_tags next
Without-strip_tags [] h = refl
Without-strip_tags (c ∷ s) (n, h) = ground (arith, n, Without-strip_tags s h)

inside : (s : Text) → Without b'>' s → in_tag true s ≡ true
unfolding in_tag next
inside [] h = refl
inside (c ∷ s) (n, h) = ground (arith, n, inside s h)

inside_nothing : (s : Text) → Without b'>' s → strip_tags true s ≡ []
unfolding strip_tags next
inside_nothing [] h = refl
inside_nothing (c ∷ s) (n, h) = ground (arith, n, inside_nothing s h)

pub IsClosed-append : (s t : Text) → IsClosed s → IsClosed t → IsClosed (s ++ t)
IsClosed-append s t h g = in_tag-append false s t ∙ ap (λ b. in_tag b t) h ∙ g

pub strip_tags-IsClosed :
    (s t : Text) → IsClosed s → strip_tags false (s ++ t) ≡ strip_tags false s ++ strip_tags false t
strip_tags-IsClosed s t h =
    strip_tags-append false s t ∙ ap (λ b. strip_tags false s ++ strip_tags b t) h

abbrev before_color : Text
before_color = codes "<span style=\"color:"

tag_opened : in_tag false before_color ≡ true
unfolding in_tag next
tag_opened = refl

tag_closed : in_tag true (codes "\">") ≡ false
unfolding in_tag next
tag_closed = refl

opened_nothing : strip_tags false before_color ≡ []
unfolding strip_tags next
opened_nothing = refl

closed_nothing : strip_tags true (codes "\">") ≡ []
unfolding strip_tags next
closed_nothing = refl

close_span-IsClosed : IsClosed close_span
unfolding in_tag next
close_span-IsClosed = refl

close_nothing : strip_tags false close_span ≡ []
unfolding strip_tags next
close_nothing = refl

module _ (color : Text) (plain : Without b'>' color) where
  color_open : in_tag false (before_color ++ color) ≡ true
  color_open =
      in_tag-append false before_color color
      ∙ ap (λ b. in_tag b color) tag_opened
      ∙ inside color plain

  open_span-IsClosed : IsClosed (open_span color)
  open_span-IsClosed =
      in_tag-append false (before_color ++ color) (codes "\">")
      ∙ ap (λ b. in_tag b (codes "\">")) color_open
      ∙ tag_closed

  color_nothing : strip_tags false (before_color ++ color) ≡ []
  color_nothing =
      strip_tags-append false before_color color
      ∙ rw (opened_nothing, tag_opened) (inside_nothing color plain)

  open_nothing : strip_tags false (open_span color) ≡ []
  open_nothing =
      strip_tags-append false (before_color ++ color) (codes "\">")
      ∙ rw (color_nothing, color_open) closed_nothing

  pub span-IsClosed : (s : Text) → IsClosed s → IsClosed (span color s)
  span-IsClosed s h =
      IsClosed-append (open_span color ++ s) close_span
        (IsClosed-append (open_span color) s open_span-IsClosed h) close_span-IsClosed

  -- The tags around a text go.
  pub strip_tags-span :
      (s : Text) → IsClosed s → strip_tags false (span color s) ≡ strip_tags false s
  strip_tags-span s h =
      strip_tags-IsClosed (open_span color ++ s) close_span
        (IsClosed-append (open_span color) s open_span-IsClosed h)
      ∙ rw close_nothing (append-nil _)
      ∙ strip_tags-IsClosed (open_span color) s open_span-IsClosed
      ∙ rw open_nothing refl
