-- ===== src/Converter/Highlight/Stripped.antt =====
-- The highlighter adds tags only.
use p2ser.Base.{
  ◌≡◌, ◌≢◌, ℕ, refl, sym, ap, ◌∙◌, arith, Bool, true, false, ◌&&◌, [], ◌∷◌, ◌++◌, ◌==◌, All,
  All-append, append_assoc, Bool-cases, inl, inr,
}
use mathlib.Core.Path.{subst}
use p2ser.Text.{Text, codes, is_word}
use p2ser.Converter.Highlight.{
  open_span, span, mark_comment, is_blank, is_key_unit, span_while, at_colon, is_extension,
  is_plain_key, mark_extension_parts, mark_extension, key_color, known_keys, mem_text,
  mark_key_parts, mark_key, is_terminator,
}
use p2ser.Converter.Highlight.Markup.{strip_tags, Without, strip_tags-IsClosed, strip_tags-span}
use p2ser.Converter.Highlight.Spans.{
  is_nested, IsWhole, IsOpening, Without-IsWhole, IsWhole-append, span-IsWhole, IsWhole-behind,
}

-- No unit ends a line.
abbrev pub IsLine : Text → Type 0
IsLine = All (λ c. is_terminator c ≡ false)

-- The second text is the first with tags, on one line.
abbrev pub Marks : Text → Text → Type 0
Marks s t = (IsWhole t × IsLine t) × (strip_tags false t ≡ strip_tags false s)

abbrev IsColor : Text → Type 0
IsColor color = (Without b'>' color × IsLine color) × IsOpening (open_span color)

span-Marks : (color s : Text) → IsColor color → IsWhole s → IsLine s → Marks s (span color s)
unfolding is_terminator
span-Marks color s ((plain, flat), opening) h l = (
  (
    span-IsWhole color plain opening s h,
    All-append _ ((codes "<span style=\"color:" ++ color) ++ codes "\">" ++ s) (codes "</span>")
        (All-append _ ((codes "<span style=\"color:" ++ color) ++ codes "\">") s
          (All-append _ (codes "<span style=\"color:" ++ color) (codes "\">")
            (All-append _ (codes "<span style=\"color:") color (ground arith) flat) (ground arith))
          l)
        (ground arith),
  ),
  strip_tags-span color plain s h.0,
)

Marks-append : (s t s' t' : Text) → IsWhole s → Marks s t → Marks s' t' → Marks (s ++ s') (t ++ t')
Marks-append s t s' t' w ((a, l), e) ((b, m), f) = (
  (IsWhole-append t t' a b, All-append _ t t' l m),
  strip_tags-IsClosed t t' a.0 ∙ rw (e, f) (sym (strip_tags-IsClosed s s' w.0)),
)

Marks-unmarked : (s : Text) → IsWhole s → IsLine s → Marks s s
Marks-unmarked s w l = ((w, l), refl)

comment-IsColor : IsColor (codes "#6b7280")
unfolding is_terminator is_nested
comment-IsColor = (ground arith, λ depth t. refl)

pub mark_comment-Marks : (s : Text) → IsWhole s → IsLine s → Marks s (mark_comment s)
unfolding mark_comment
mark_comment-Marks [] w l = Marks-unmarked [] w l
mark_comment-Marks (c ∷ s) w l = elim (Bool-cases (c == b'#')) [
  | inl e ↦ rw e (span-Marks (codes "#6b7280") (c ∷ s) comment-IsColor w l)
  | inr e ↦ rw e (Marks-unmarked (c ∷ s) w l)
]

-- A line that begins with plain units, one part of which gets a color and what is behind another.
marked-Marks :
    (one two blank key rest : Text)
    → IsColor one
    → IsColor two
    → Without b'<' blank × IsLine blank
    → Without b'<' key × IsLine key
    → IsWhole rest
    → IsLine rest
    → Marks (blank ++ key ++ rest) (blank ++ span one key ++ span two rest)
marked-Marks one two blank key rest c1 c2 (pb, lb) (pk, lk) w l =
    let wb = Without-IsWhole blank pb in
    let wk = Without-IsWhole key pk in
    Marks-append (blank ++ key) (blank ++ span one key) rest (span two rest)
      (IsWhole-append blank key wb wk)
      (Marks-append blank blank key (span one key) wb (Marks-unmarked blank wb lb)
        (span-Marks one key c1 wk lk))
      (span-Marks two rest c2 w l)

span_while-append : (p : ℕ → Bool) (s : Text) → (span_while p s).0 ++ (span_while p s).1 ≡ s
unfolding span_while
span_while-append p [] = refl
span_while-append p (c ∷ s) = elim (Bool-cases (p c)) [
  | inl e ↦ rw e (ap (◌∷◌ c) (span_while-append p s))
  | inr e ↦ rw e refl
]

span_while-All :
    (p : ℕ → Bool) (P : ℕ → Type 0) (s : Text)
    → ((c : ℕ) → p c ≡ true → P c)
    → All P (span_while p s).0
unfolding span_while
span_while-All p P [] f = tt
span_while-All p P (c ∷ s) f = elim (Bool-cases (p c)) [
  | inl e ↦ rw e (f c e, span_while-All p P s f)
  | inr e ↦ rw e tt
]

All-front : (P : ℕ → Type 0) (s t : Text) → All P (s ++ t) → All P s × All P t
All-front P [] t h = (tt, h)
All-front P (c ∷ s) t (p, h) = let (a, b) = All-front P s t h in ((p, a), b)

blank_plain : (c : ℕ) → is_blank c ≡ true → (c ≢ b'<') × (is_terminator c ≡ false)
unfolding is_blank is_terminator
blank_plain c h = ground (arith, h)

key_plain : (c : ℕ) → is_key_unit c ≡ true → (c ≢ b'<') × (is_terminator c ≡ false)
unfolding is_key_unit is_word is_terminator
key_plain c h = ground (arith, h)

extension-IsColor : IsColor (codes "#f59e0b")
unfolding is_terminator is_nested
extension-IsColor = (ground arith, λ depth t. refl)

rest-IsColor : IsColor (codes "#a78bfa")
unfolding is_terminator is_nested
rest-IsColor = (ground arith, λ depth t. refl)

value-IsColor : IsColor (codes "#e5e7eb")
unfolding is_terminator is_nested
value-IsColor = (ground arith, λ depth t. refl)

known-IsColor : IsColor (codes "#60a5fa")
unfolding is_terminator is_nested
known-IsColor = (ground arith, λ depth t. refl)

other-IsColor : IsColor (codes "#34d399")
unfolding is_terminator is_nested
other-IsColor = (ground arith, λ depth t. refl)

key_color-IsColor : (k : Text) → IsColor (key_color k)
unfolding key_color
key_color-IsColor k = elim (Bool-cases (mem_text k known_keys)) [
  | inl e ↦ rw e known-IsColor
  | inr e ↦ rw e other-IsColor
]

-- The parts of a line
module _ (s : Text) (w : IsWhole s) (l : IsLine s) where
  abbrev blank : Text
  blank = (span_while is_blank s).0

  abbrev behind : Text
  behind = (span_while is_blank s).1

  abbrev key : Text
  key = (span_while is_key_unit behind).0

  abbrev rest : Text
  rest = (span_while is_key_unit behind).1

  parts-line : blank ++ key ++ rest ≡ s
  parts-line =
      append_assoc blank key rest
      ∙ ap (λ t. blank ++ t) (span_while-append is_key_unit behind)
      ∙ span_while-append is_blank s

  parts-IsWhole : IsWhole (blank ++ key ++ rest)
  parts-IsWhole = subst IsWhole (sym parts-line) w

  parts-IsLine : IsLine (blank ++ key) × IsLine rest
  parts-IsLine = All-front _ (blank ++ key) rest (subst IsLine (sym parts-line) l)

  blank-Without : Without b'<' blank
  blank-Without = span_while-All is_blank _ s (λ c h. (blank_plain c h).0)

  key-Without : Without b'<' key
  key-Without = span_while-All is_key_unit _ behind (λ c h. (key_plain c h).0)

  rest-IsWhole : IsWhole rest
  rest-IsWhole =
      IsWhole-behind (blank ++ key) rest
        (IsWhole-append blank key (Without-IsWhole blank blank-Without)
          (Without-IsWhole key key-Without))
        parts-IsWhole

  parts-Marks :
      (one two : Text)
      → IsColor one
      → IsColor two
      → Marks s (blank ++ span one key ++ span two rest)
  parts-Marks one two c1 c2 =
      let (front, back) = parts-IsLine in
      let (lb, lk) = All-front _ blank key front in
      subst (λ t. Marks t (blank ++ span one key ++ span two rest)) parts-line
        (marked-Marks one two blank key rest c1 c2 (blank-Without, lb) (key-Without, lk)
          rest-IsWhole back)

  unmarked-Marks : Marks s (blank ++ key ++ rest)
  unmarked-Marks = subst (Marks s) (sym parts-line) (Marks-unmarked s w l)

  pub mark_extension-Marks : Marks s (mark_extension s)
  unfolding mark_extension mark_extension_parts
  mark_extension-Marks = elim (Bool-cases (is_extension key && at_colon rest)) [
    | inl e ↦ rw e (parts-Marks (codes "#f59e0b") (codes "#a78bfa") extension-IsColor rest-IsColor)
    | inr e ↦ rw e unmarked-Marks
  ]

  pub mark_key-Marks : Marks s (mark_key s)
  unfolding mark_key mark_key_parts
  mark_key-Marks = elim (Bool-cases (is_plain_key key && at_colon rest)) [
    | inl e ↦
        rw e (parts-Marks (key_color key) (codes "#e5e7eb") (key_color-IsColor key) value-IsColor)
    | inr e ↦ rw e unmarked-Marks
  ]
