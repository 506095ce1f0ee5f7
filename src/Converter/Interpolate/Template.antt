-- ===== src/Converter/Interpolate/Template.antt =====
-- What `interpolate` does to a text that is written from references and literal units.
use p2ser.Base.{
  ℕ, ◌≡◌, ◌≢◌, ◌⊎◌, refl, ap, ◌∙◌, arith, List, [], ◌∷◌, ◌++◌, Option, some, none, All, true, false,
}
use p2ser.Dict.{Dict}
use p2ser.Text.Split.{Lacks, cut_at-append}
use p2ser.Text.{Text, is_word}
use p2ser.Converter.Interpolate.Fuel.{interpolate-cons, interpolate-match}
use p2ser.Converter.Interpolate.{
  is_name_start, span_word, take_name, after_name, reference, match_at, value_of, interpolate,
}

-- How a reference in braces names its default: not at all, by `-` or by `:-`.
pub data Fallback : Type 0 where
  absent : Fallback
  dash : Text → Fallback
  colon_dash : Text → Fallback

pub data Piece : Type 0 where
  literal : ℕ → Piece
  plain : Text → Piece
  braces : Text → Fallback → Piece

abbrev pub fallback_text : Fallback → Text
fallback_text absent = []
fallback_text (dash d) = d
fallback_text (colon_dash d) = d

abbrev pub print_fallback : Fallback → Text
print_fallback absent = []
print_fallback (dash d) = b'-' ∷ d
print_fallback (colon_dash d) = b':' ∷ b'-' ∷ d

-- Each piece stands in front of the text that follows it.
abbrev pub print_onto : Piece → Text → Text
print_onto (literal c) rest = c ∷ rest
print_onto (plain name) rest = b'$' ∷ (name ++ rest)
print_onto (braces name d) rest = b'$' ∷ b'{' ∷ (name ++ (print_fallback d ++ b'}' ∷ rest))

abbrev pub print : List Piece → Text
print [] = []
print (p ∷ ps) = print_onto p (print ps)

abbrev pub IsName : Text → Type 0
IsName [] = ⊥
IsName (c ∷ s) = (is_name_start c ≡ true) × All (λ d. is_word d ≡ true) s

-- The text ends or goes on with a unit that no name has.
abbrev pub EndsWord : Text → Type 0
EndsWord [] = Unit
EndsWord (c ∷ s) = is_word c ≡ false

-- A `$` on its own is a literal if what follows it is neither a brace nor the start of a name.
abbrev pub EndsDollar : Text → Type 0
EndsDollar [] = Unit
EndsDollar (c ∷ s) = (c ≢ b'{') × (is_name_start c ≡ false)

abbrev pub PieceFits : Piece → Text → Type 0
PieceFits (literal c) rest = (c ≢ b'$') ⊎ EndsDollar rest
PieceFits (plain name) rest = IsName name × EndsWord rest
PieceFits (braces name d) rest = IsName name × Lacks b'}' (fallback_text d)

abbrev pub Fits : List Piece → Type 0
Fits [] = Unit
Fits (p ∷ ps) = PieceFits p (print ps) × Fits ps

module _ (inherited : Text → Option Text) (env : Dict Text) where
  abbrev pub piece_meaning : Piece → Text
  piece_meaning (literal c) = c ∷ []
  piece_meaning (plain name) = value_of inherited env name []
  piece_meaning (braces name d) = value_of inherited env name (fallback_text d)

  abbrev pub meaning : List Piece → Text
  meaning [] = []
  meaning (p ∷ ps) = piece_meaning p ++ meaning ps

span_word-append :
    (w rest : Text)
    → All (λ d. is_word d ≡ true) w
    → EndsWord rest
    → span_word (w ++ rest) ≡ (w, rest)
unfolding span_word
span_word-append [] [] h k = refl
span_word-append [] (c ∷ rest) h k = ground arith
span_word-append (d ∷ w) rest h k = ground (arith, span_word-append w rest h.1 k)

take_name-append :
    (name rest : Text) → IsName name → EndsWord rest → take_name (name ++ rest) ≡ some (name, rest)
unfolding take_name
take_name-append [] rest h k = absurd h
take_name-append (c ∷ s) rest h k = ground (arith, span_word-append s rest h.1 k)

name_ends : (d : Fallback) (rest : Text) → EndsWord (print_fallback d ++ b'}' ∷ rest)
unfolding is_word
name_ends absent rest = refl
name_ends (dash d) rest = refl
name_ends (colon_dash d) rest = refl

after_name-print :
    (d : Fallback) (rest : Text)
    → Lacks b'}' (fallback_text d)
    → after_name (print_fallback d ++ b'}' ∷ rest) ≡ some (fallback_text d, rest)
unfolding after_name
after_name-print absent rest h = refl
after_name-print (dash d) rest h = cut_at-append b'}' d rest h
after_name-print (colon_dash d) rest h = cut_at-append b'}' d rest h

match_at_braces :
    (name : Text) (d : Fallback) (rest : Text)
    → IsName name
    → Lacks b'}' (fallback_text d)
    → match_at b'$' (b'{' ∷ (name ++ (print_fallback d ++ b'}' ∷ rest)))
      ≡ some (name, fallback_text d, rest)
unfolding match_at reference
match_at_braces name d rest h k = rw (
  take_name-append name (print_fallback d ++ b'}' ∷ rest) h (name_ends d rest),
  after_name-print d rest k,
)

match_at_plain :
    (name rest : Text)
    → IsName name
    → EndsWord rest
    → match_at b'$' (name ++ rest) ≡ some (name, [], rest)
unfolding match_at reference is_name_start
match_at_plain [] rest h k = absurd h
match_at_plain (c ∷ s) rest h k = ground (arith, take_name-append (c ∷ s) rest h k)

match_at_literal : (c : ℕ) (rest : Text) → (c ≢ b'$') ⊎ EndsDollar rest → match_at c rest ≡ none
unfolding match_at reference take_name
match_at_literal c [] h = ground arith
match_at_literal c (d ∷ rest) h = ground arith

module _ (inherited : Text → Option Text) (env : Dict Text) where
  -- A text written from pieces that fit is replaced piece by piece: literal units stay, each
  -- reference becomes its value, and what is put in is not read again.
  pub interpolate-print :
      (ps : List Piece) → Fits ps → interpolate inherited env (print ps) ≡ meaning inherited env ps
  interpolate-print [] h = unfold interpolate in refl
  interpolate-print (literal c ∷ ps) (fits, rest) =
      interpolate-cons inherited env c (print ps) (match_at_literal c (print ps) fits)
      ∙ ap (◌∷◌ c) (interpolate-print ps rest)
  interpolate-print (plain name ∷ ps) (fits, rest) =
      interpolate-match inherited env b'$' _ name [] (print ps)
        (match_at_plain name (print ps) fits.0 fits.1)
      ∙ ap (◌++◌ (value_of inherited env name [])) (interpolate-print ps rest)
  interpolate-print (braces name d ∷ ps) (fits, rest) =
      interpolate-match inherited env b'$' _ name (fallback_text d) (print ps)
        (match_at_braces name d (print ps) fits.0 fits.1)
      ∙ ap (◌++◌ (value_of inherited env name (fallback_text d))) (interpolate-print ps rest)
