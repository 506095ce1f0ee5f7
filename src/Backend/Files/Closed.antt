-- ===== src/Backend/Files/Closed.antt =====
-- Paths with a separator behind every part, in which the test of a prefix by bytes is a test of a
-- prefix by parts.
use p2ser.Base.{
  ℕ, ◌≡◌, refl, sym, ap, ◌∙◌, arith, true, false, List, [], ◌∷◌, ◌++◌, All, append_assoc, not_both,
}
use p2ser.Text.{Text, split, split_parts, join, includes}
use p2ser.Text.Split.{Lacks, split-append, split_parts-Lacks}
use p2ser.Backend.Store.Cursor.{has_prefix}
use p2ser.Backend.Files.{slash, up_to_slash}

abbrev pub closed : List Text → Text
closed [] = []
closed (p ∷ ps) = p ++ slash ∷ closed ps

pub join-closed : (p : Text) (ps : List Text) → join slash (p ∷ ps) ++ slash ∷ [] ≡ closed (p ∷ ps)
unfolding join
join-closed p [] = refl
join-closed p (q ∷ ps) =
    append_assoc p (slash ∷ join slash (q ∷ ps)) (slash ∷ [])
    ∙ ap (λ s. p ++ slash ∷ s) (join-closed q ps)

pub join-append : (ps : List Text) (l : Text) → join slash (ps ++ l ∷ []) ≡ closed ps ++ l
unfolding join
join-append [] l = refl
join-append (p ∷ []) l = sym (append_assoc p (slash ∷ []) l)
join-append (p ∷ q ∷ ps) l =
    ap (λ s. p ++ slash ∷ s) (join-append (q ∷ ps) l)
    ∙ sym (append_assoc p (slash ∷ closed (q ∷ ps)) l)

pub split-closed : (ps : List Text) → All (Lacks slash) ps → split slash (closed ps) ≡ ps ++ [] ∷ []
unfolding split_parts
split-closed [] h = refl
split-closed (p ∷ ps) (h, hs) =
    split-append slash p (closed ps)
    ∙ rw (split_parts-Lacks slash p h) (ap (◌∷◌ p) (split-closed ps hs))

-- A prefix that ends at a separator is one of the text up to its first separator.
pub cut_prefix :
    (c : ℕ) (p q a b : Text)
    → Lacks c p
    → Lacks c q
    → has_prefix (p ++ c ∷ a) (q ++ c ∷ b) ≡ true
    → (p ≡ q) × (has_prefix a b ≡ true)
unfolding has_prefix
cut_prefix c [] [] a b hp hq h = (refl, ground (arith, h))
cut_prefix c [] (d ∷ q) a b hp hq h = absurd (ground arith)
cut_prefix c (d ∷ p) [] a b hp hq h = absurd (ground arith)
cut_prefix c (d ∷ p) (e ∷ q) a b (_, hp) (_, hq) h =
    let (same, rest) = cut_prefix c p q a b hp hq (ground arith) in (ground arith, rest)

pub no_prefix : (p a : Text) → has_prefix (p ++ slash ∷ a) [] ≡ false
unfolding has_prefix
no_prefix [] a = refl
no_prefix (c ∷ p) a = refl

pub closed_prefix :
    (ps qs : List Text)
    → All (Lacks slash) ps
    → All (Lacks slash) qs
    → has_prefix (closed ps) (closed qs) ≡ true
    → (more : List Text) × (qs ≡ ps ++ more)
closed_prefix [] qs hp hq h = (qs, refl)
closed_prefix (p ∷ ps) [] hp hq h = absurd (not_both _ h (no_prefix p (closed ps)))
closed_prefix (p ∷ ps) (q ∷ qs) (lp, hp) (lq, hq) h =
    let (e, rest) = cut_prefix slash p q (closed ps) (closed qs) lp lq h in
    let (more, es) = closed_prefix ps qs hp hq rest in
    (more, ap (λ x. x ∷ qs) (sym e) ∙ ap (◌∷◌ p) es)

includes-append : (p rest : Text) → includes slash (p ++ slash ∷ rest) ≡ true
unfolding includes
includes-append [] rest = refl
includes-append (c ∷ p) rest = ground (arith, includes-append p rest)

includes-Lacks : (p : Text) → Lacks slash p → includes slash p ≡ false
unfolding includes
includes-Lacks [] h = refl
includes-Lacks (c ∷ p) (n, h) = ground (arith, includes-Lacks p h)

up_to_slash-append :
    (p rest : Text) → up_to_slash (p ++ slash ∷ rest) ≡ p ++ slash ∷ up_to_slash rest
unfolding up_to_slash
up_to_slash-append [] rest = refl
up_to_slash-append (c ∷ p) rest = ground (arith, includes-append p rest, up_to_slash-append p rest)

up_to_slash-Lacks : (p : Text) → Lacks slash p → up_to_slash p ≡ []
unfolding up_to_slash
up_to_slash-Lacks [] h = refl
up_to_slash-Lacks (c ∷ p) (n, h) = ground (arith, includes-Lacks p h)

-- The path up to the last separator is the path without its last part.
pub up_to_slash-closed :
    (ps : List Text) (l : Text) → Lacks slash l → up_to_slash (closed ps ++ l) ≡ closed ps
up_to_slash-closed [] l h = up_to_slash-Lacks l h
up_to_slash-closed (p ∷ ps) l h =
    ap up_to_slash (append_assoc p (slash ∷ closed ps) l)
    ∙ up_to_slash-append p (closed ps ++ l)
    ∙ ap (λ s. p ++ slash ∷ s) (up_to_slash-closed ps l h)
