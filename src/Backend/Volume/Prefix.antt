-- ===== src/Backend/Volume/Prefix.antt =====
-- A path as the prefix of the text of another: where the last name of the first only begins a name
-- of the second, that one lies beside it.
use p2ser.Base.{
  ◌≡◌, ℕ, refl, sym, ap, ◌∙◌, arith, true, false, not_both, ◌||◌, List, [], ◌∷◌, ◌++◌, All,
  append_assoc,
}
use mathlib.Core.Path.{subst}
use p2ser.Text.{Text, equal, truthy_text}
use p2ser.Text.Split.{Lacks}
use p2ser.Backend.Store.Cursor.{has_prefix}
use p2ser.Backend.Files.{slash}
use p2ser.Backend.Files.Closed.{closed, cut_prefix, no_prefix}

-- A prefix stays one where the text grows.
pub has_prefix_grown : (p s t : Text) → has_prefix p s ≡ true → has_prefix p (s ++ t) ≡ true
unfolding has_prefix
has_prefix_grown [] s t h = refl
has_prefix_grown (c ∷ p) [] t h = absurd (ground arith)
has_prefix_grown (c ∷ p) (d ∷ s) t h = ground (arith, h, has_prefix_grown p s t)

has_prefix-part :
    (l q r : Text)
    → Lacks slash l
    → has_prefix l (q ++ slash ∷ r) ≡ true
    → (v : Text) × (q ≡ l ++ v)
unfolding has_prefix
has_prefix-part [] q r lacks h = (q, refl)
has_prefix-part (c ∷ l) [] r (n, lacks) h = absurd (ground (arith, n, h))
has_prefix-part (c ∷ l) (d ∷ q) r (n, lacks) h =
    let (v, e) = has_prefix-part l q r lacks (ground (arith, h)) in (v, ground (arith, h, e))

no_part : (l : Text) → truthy_text l ≡ true → has_prefix l [] ≡ false
unfolding has_prefix
no_part [] h = absurd (ground (arith, h))
no_part (c ∷ l) h = refl

-- The names of the first path are names of the second, but for the last, which begins one.
pub closed-last :
    (ps : List Text) (l : Text) (qs : List Text)
    → All (Lacks slash) ps
    → Lacks slash l
    → truthy_text l ≡ true
    → All (Lacks slash) qs
    → has_prefix (closed ps ++ l) (closed qs) ≡ true
    → (v : Text) × (more : List Text) × (qs ≡ ps ++ (l ++ v) ∷ more)
closed-last [] l [] hp hl full hq h = absurd (not_both _ h (no_part l full))
closed-last [] l (q ∷ qs) hp hl full hq h =
    let (v, e) = has_prefix-part l q (closed qs) hl h in (v, qs, ap (λ x. x ∷ qs) e)
closed-last (p ∷ ps) l [] (lp, hp) hl full hq h = absurd (
    not_both _ (subst (λ x. has_prefix x [] ≡ true) (append_assoc p (slash ∷ closed ps) l) h)
      (no_prefix p (closed ps ++ l)))
closed-last (p ∷ ps) l (q ∷ qs) (lp, hp) hl full (lq, hq) h =
    let (same, rest) = cut_prefix slash p q (closed ps ++ l) (closed qs) lp lq (
      subst (λ x. has_prefix x (closed (q ∷ qs)) ≡ true) (append_assoc p (slash ∷ closed ps) l)
        h) in
    let (v, more, e) = closed-last ps l qs hp hl full hq rest in
    (v, more, ap (λ x. x ∷ qs) (sym same) ∙ ap (◌∷◌ p) e)

has_prefix-end : (c : ℕ) (a : Text) → has_prefix (a ++ c ∷ []) [] ≡ false
unfolding has_prefix
has_prefix-end c [] = refl
has_prefix-end c (x ∷ a) = refl

-- Where a path with a separator behind it begins another one with it, the two are the same, or the
-- other goes on behind the separator.
pub has_prefix-trailing :
    (c : ℕ) (a p : Text)
    → has_prefix (a ++ c ∷ []) (p ++ c ∷ []) ≡ (equal p a || has_prefix (a ++ c ∷ []) p)
unfolding has_prefix equal
has_prefix-trailing c [] [] = ground arith
has_prefix-trailing c [] (d ∷ p) = ground arith
has_prefix-trailing c (x ∷ a) [] = ground (arith, has_prefix-end c a)
has_prefix-trailing c (x ∷ a) (d ∷ p) = ground (arith, has_prefix-trailing c a p)
